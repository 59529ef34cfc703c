-- ===== src/Desk/Steps/Conserved.antt =====
-- No collateral appears or is lost.
use q_oracle.Base.{ℕ, ◌+◌, ◌≡◌, refl, ◌∙◌, true, some, List, arith}
use q_oracle.Desk.Vaults.{free_of, locked_of}
use q_oracle.Desk.Vaults.Funds.{Locked-funds, Released-funds, Seized-funds}
use q_oracle.Desk.Ledger.{ReplayLedger}
use q_oracle.Desk.Journal.{ExitJournal}
use q_oracle.Desk.Qtv.{Qtv, QtvCodec}
use q_oracle.Desk.Anchor.{QuantovaAnchor}
use q_oracle.Desk.Statement.{Exit, ExitState, settled, slashed, is_pending}
use q_oracle.Desk.State.{ExitDesk, get, set_at}
use q_oracle.Desk.Open.{opening}
use q_oracle.Desk.Sums.{sum_by, sum_by-append, sum_by-set_at, seized_share}
use q_oracle.Desk.Moves.{Move}
use q_oracle.Desk.Moves.Sound.{IsSound}
use q_oracle.Desk.Steps.{Op, run}
use q_oracle.Desk.Steps.Refines.{Moves, run-Moves}

-- the collateral that a vault brought: what is free, what is locked, and what was seized of it
unfoldable pub brought : {Anchor L J : Type 0} → ℕ → ExitDesk Anchor L J → ℕ
brought v d = free_of v d.vaults + locked_of v d.vaults + sum_by (seized_share v) d.exits

closed_seizures :
    (k id : ℕ) (e : Exit) (state : ExitState) (exits : List Exit)
    → get id exits ≡ some e
    → is_pending e ≡ true
    → sum_by (seized_share k) (set_at id (record e { state = state }) exits)
      ≡ sum_by (seized_share k) exits + seized_share k (record e { state = state })
unfolding is_pending
closed_seizures k id e state exits at was =
    ground (arith, sum_by-set_at (seized_share k) id e (record e { state = state }) exits at)

module _ {Anchor L J : Type 0} ⦃ledger : ReplayLedger L⦄ ⦃journal : ExitJournal J⦄ (k : ℕ) where
  Move-brought : {d t : ExitDesk Anchor L J} → Move d t → brought k t ≡ brought k d
  unfolding brought
  Move-brought (Move.stayed _ _) = refl
  Move-brought {d} (Move.opened burn chain_id required v now {s} checked lock noted appended) =
      ground (
        arith,
        Locked-funds v required d.vaults s lock k,
        sum_by-append (seized_share k) d.exits (opening burn v required now d),
      )
  Move-brought {d} (Move.paid id e payout {s} at was _ released _ _) = ground (
    arith,
    Released-funds e.vault_id e.locked d.vaults s released k,
    closed_seizures k id e settled d.exits at was,
  )
  Move-brought {d} (Move.seized id e now {s} at was _ taken _) = ground (
    arith,
    Seized-funds e.vault_id e.locked d.vaults s taken k,
    closed_seizures k id e slashed d.exits at was,
  )
  Move-brought (Move.lettered _ _ _) = refl
  Move-brought Move.taken = refl

  Moves-brought : {d t : ExitDesk Anchor L J} → Moves d t → brought k t ≡ brought k d
  Moves-brought Moves.still = refl
  Moves-brought (Moves.onward ms m) = Move-brought m ∙ Moves-brought ms

-- Collateral is conserved: after any calls on a sound desk, the free and the locked collateral of each vault and what
-- was seized of it add up to what they added up to before, and the locked part is exactly what its pending exits locked.
pub run-conserved :
    {H C I Commitment Beacon D E L J : Type 0} (qtv : Qtv H C I Commitment Beacon)
    (codec : QtvCodec D E) ⦃ledger : ReplayLedger L⦄ ⦃journal : ExitJournal J⦄ (ops : List (Op C I))
    (d : ExitDesk (QuantovaAnchor Commitment Beacon) L J) (v : ℕ)
    → IsSound d
    → (brought v (run qtv codec ops d) ≡ brought v d) × IsSound (run qtv codec ops d)
run-conserved qtv codec ops d v h =
    let (ms, sound) = run-Moves qtv codec ops d h in (Moves-brought v ms, sound)
