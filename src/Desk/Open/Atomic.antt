-- ===== src/Desk/Open/Atomic.antt =====
-- What `open_exit` leaves behind, when it succeeds and when it fails.
use q_oracle.Base.{ℕ, ◌≡◌, refl, sym, ap, ◌∙◌, subst, arith}
use q_oracle.Base.Result.{Result, ok, err, panic}
use q_oracle.Desk.Errors.{ExitError}
use q_oracle.Desk.Ledger.{ReplayLedger, Undoes}
use q_oracle.Desk.Journal.{ExitJournal}
use q_oracle.Desk.Qtv.{Qtv, QtvCodec}
use q_oracle.Desk.Anchor.{QuantovaAnchor}
use q_oracle.Desk.BurnProof.{AuthenticatedBurn, ProofOfBurn, verify}
use q_oracle.Desk.State.{ExitDesk}
use q_oracle.Desk.Open.{open_exit, open_verified}
use q_oracle.Desk.Moves.{Refused}
use q_oracle.Desk.Moves.Sound.{IsSound}
use q_oracle.Desk.Moves.Opens.{OpenEnds, open_verified-OpenEnds}
use q_oracle.Desk.Steps.Recovered.{Idle-same, Silent-events}

module _ {Anchor L J : Type 0} ⦃ledger : ReplayLedger L⦄ ⦃journal : ExitJournal J⦄ where
  -- a desk that is as it was but for the journal's own state, whose events are the same
  abbrev pub Untouched : ExitDesk Anchor L J → ExitDesk Anchor L J → Type 0
  Untouched d t =
      (t ≡ record d { journal = t.journal }) × (journal.events t.journal ≡ journal.events d.journal)

  Refused-Untouched :
      {A : Type 0} (undoes : Undoes ledger) (d : ExitDesk Anchor L J)
      (r : Result ExitError A × ExitDesk Anchor L J)
      → Refused d r
      → Untouched d r.1
  Refused-Untouched undoes d r h = subst (Untouched d) (sym (ap (λ p. p.1) h.ends)) (
    ap (λ l. record d { consumed = l; journal = h.log }) (Idle-same undoes h.idle),
    Silent-events h.silent,
  )

  open_verified-err :
      (undoes : Undoes ledger) (burn : AuthenticatedBurn) (chain_id now : ℕ)
      (d : ExitDesk Anchor L J) (e : ExitError)
      → IsSound d
      → (open_verified chain_id burn now d).0 ≡ err e
      → Untouched d (open_verified chain_id burn now d).1
  open_verified-err undoes burn chain_id now d e sound failed =
      elim (open_verified-OpenEnds burn chain_id now d sound) [
        | OpenEnds.refused r ↦ Refused-Untouched undoes d _ r
        | OpenEnds.done _ _ _ _ _ _ r ↦ absurd (cc (sym (ap (λ p. p.0) r) ∙ failed))
      ]

-- An `open_exit` that fails changes nothing: on a sound desk whose ledger's `forget` undoes a record, the vaults, exits,
-- letters, used references and reserve are as before, and the journal has the same events, at whatever point the call failed.
pub open_exit_atomic :
    {H C I Commitment Beacon D E L J : Type 0} (qtv : Qtv H C I Commitment Beacon)
    (codec : QtvCodec D E) ⦃ledger : ReplayLedger L⦄ ⦃journal : ExitJournal J⦄
    (undoes : Undoes ledger) (proof : ProofOfBurn C I) (now : ℕ)
    (d : ExitDesk (QuantovaAnchor Commitment Beacon) L J) (e : ExitError)
    → IsSound d
    → (open_exit qtv codec proof now d).0 ≡ err e
    → Untouched d (open_exit qtv codec proof now d).1
unfolding open_exit
open_exit_atomic qtv codec undoes proof now d e sound failed =
    go (verify qtv codec d.anchor proof) refl
  where
    go :
        (m : Result ExitError AuthenticatedBurn)
        → verify qtv codec d.anchor proof ≡ m
        → Untouched d (open_exit qtv codec proof now d).1
    go (ok burn) v =
        let same : open_exit qtv codec proof now d ≡ open_verified d.anchor.chain_id burn now d =
          ground (arith, v) in
        subst (λ r. Untouched d r.1) (sym same)
          (open_verified-err undoes burn d.anchor.chain_id now d e sound
            (sym (ap (λ p. p.0) same) ∙ failed))
    go (err x) v = subst (Untouched d) (sym (ground (arith, v))) (refl, refl)
    go panic v = subst (Untouched d) (sym (ground (arith, v))) (refl, refl)
