-- ===== src/Desk/Steps/Once.antt =====
-- A burn opens one exit, a payout settles one, and a closed exit stays as it is.
use q_oracle.Base.{
  ℕ, ◌+◌, ◌≤◌, ◌≡◌, ◌≢◌, refl, sym, ap, ◌∙◌, true, false, some, List, [], ◌∷◌, ◌++◌, inl, inr,
  arith,
}
use mathlib.Core.Option.{some-injective}
use q_oracle.Base.Tests.{◌==◌, if◌then◌else◌, Bool-cases, ==_iff}
use q_oracle.Base.Result.{ok}
use q_oracle.Desk.Ledger.{ReplayLedger}
use q_oracle.Desk.Journal.{ExitJournal}
use q_oracle.Desk.Qtv.{Qtv, QtvCodec}
use q_oracle.Desk.Anchor.{QuantovaAnchor}
use q_oracle.Desk.Statement.{Exit, settled, slashed, Release}
use q_oracle.Desk.Attestation.{PayoutWatcher, PayoutAttestation}
use q_oracle.Desk.State.{ExitDesk, get}
use q_oracle.Desk.Checks.{statement_of}
use q_oracle.Desk.Open.{opening}
use q_oracle.Desk.Sums.{sum_by, sum_by-append, sum_by-set_at}
use q_oracle.Desk.Settle.{settle}
use q_oracle.Desk.Moves.{Move, Idle, Noted}
use q_oracle.Desk.Moves.Sound.{IsSound, Move-IsSound}
use q_oracle.Desk.Moves.Ends.{SettleEnds, settle-SettleEnds, SettleEnds-Move}
use q_oracle.Desk.Steps.{Op, run}
use q_oracle.Desk.Steps.Refines.{Moves, run-Moves}

module _ {L : Type 0} ⦃ledger : ReplayLedger L⦄ where
  -- a used reference stays used
  Noted-grows :
      (r k : ℕ) {l m : L}
      → Noted r l m
      → ledger.is_released k l ≡ true
      → ledger.is_released k m ≡ true
  Noted-grows r k {l} n h =
      let ok_note = ap (λ p. p.0) n.passed in
      let after = ap (λ p. ledger.is_released k p.1) n.passed in
      ground (arith, ledger.note_ok r l k ok_note)

  Noted-used : (r : ℕ) {l m : L} → Noted r l m → ledger.is_released r m ≡ true
  Noted-used r {l} n =
      let ok_note = ap (λ p. p.0) n.passed in
      let after = ap (λ p. ledger.is_released r p.1) n.passed in
      ground (arith, ledger.note_ok r l r ok_note)

  Idle-grows :
      (k : ℕ) {l m : L} → Idle l m → ledger.is_released k l ≡ true → ledger.is_released k m ≡ true
  Idle-grows k Idle.same h = h
  Idle-grows k {l} (Idle.failed r bad) h = ledger.note_err r l k bad ∙ h
  Idle-grows k {l} (Idle.undone r m n) h = elim (Bool-cases (r == k)) [
    | inl e ↦ absurd (cc (sym n.fresh ∙ ap (λ i. ledger.is_released i l) ((==_iff r k).0 e) ∙ h))
    | inr other ↦ ledger.forget_other r k m other ∙ Noted-grows r k n h
  ]

-- an exit of the burn `r`
abbrev pub opened_by : ℕ → Exit → ℕ
opened_by r e = if e.statement.burn_ref == r then 1 else 0

module _ {Anchor L J : Type 0} ⦃ledger : ReplayLedger L⦄ ⦃journal : ExitJournal J⦄ where
  -- every burn opened one exit at most, and none as long as its reference is unused
  pub record IsSpent (d : ExitDesk Anchor L J) : Type 0 where
    pub once : (r : ℕ) → sum_by (opened_by r) d.exits ≤ 1
    pub none_yet :
        (r : ℕ) → ledger.is_released r d.consumed ≡ false → sum_by (opened_by r) d.exits ≡ 0

  Move-grows :
      {d t : ExitDesk Anchor L J} (k : ℕ)
      → Move d t
      → ledger.is_released k d.consumed ≡ true
      → ledger.is_released k t.consumed ≡ true
  Move-grows k (Move.stayed idle _) h = Idle-grows k idle h
  Move-grows k (Move.opened burn _ _ _ _ _ _ noted _) h = Noted-grows burn.burn_ref k noted h
  Move-grows k (Move.paid _ _ payout _ _ _ _ noted _) h = Noted-grows payout.foreign_ref k noted h
  Move-grows k (Move.seized _ _ _ _ _ _ _ _) h = h
  Move-grows k (Move.lettered _ _ _) h = h
  Move-grows k Move.taken h = h

  pub Moves-grows :
      {d t : ExitDesk Anchor L J} (k : ℕ)
      → Moves d t
      → ledger.is_released k d.consumed ≡ true
      → ledger.is_released k t.consumed ≡ true
  Moves-grows k Moves.still h = h
  Moves-grows k (Moves.onward ms m) h = Move-grows k m (Moves-grows k ms h)

  -- exits of the same burns, and no reference freed
  same_burns :
      {d t : ExitDesk Anchor L J}
      → ((r : ℕ) → sum_by (opened_by r) t.exits ≡ sum_by (opened_by r) d.exits)
      → ((k : ℕ) → ledger.is_released k d.consumed ≡ true → ledger.is_released k t.consumed ≡ true)
      → IsSpent d
      → IsSpent t
  same_burns {d} {t} same grows h = record {
    once = λ r. omega (arith, same r, h.once r);
    none_yet = λ r free.
        same r
        ∙ h.none_yet r (elim (Bool-cases (ledger.is_released r d.consumed)) [
          | inl used ↦ absurd (cc (sym free ∙ grows r used))
          | inr e ↦ e
        ]);
  }

  opened-IsSpent :
      (d t : ExitDesk Anchor L J) (e : Exit)
      → Noted e.statement.burn_ref d.consumed t.consumed
      → t.exits ≡ d.exits ++ e ∷ []
      → IsSpent d
      → IsSpent t
  opened-IsSpent d t e noted exits h = record {
    once = λ r. elim (Bool-cases (ref == r)) [
      | inl is ↦ omega (arith, more r, share_one r is, h.none_yet r (free r is))
      | inr other ↦ omega (arith, more r, share_zero r other, h.once r)
    ];
    none_yet = λ r unused. elim (Bool-cases (ref == r)) [
      | inl is ↦ absurd (
          cc (
            sym unused
            ∙ ap (λ i. ledger.is_released i t.consumed) (sym ((==_iff ref r).0 is))
            ∙ Noted-used ref noted))
      | inr other ↦ elim (Bool-cases (ledger.is_released r d.consumed)) [
        | inl used ↦ absurd (cc (sym unused ∙ Noted-grows ref r noted used))
        | inr yet ↦ omega (arith, more r, share_zero r other, h.none_yet r yet)
      ]
    ];
  }
    where
      ref : ℕ
      ref = e.statement.burn_ref

      more : (r : ℕ) → sum_by (opened_by r) t.exits ≡ sum_by (opened_by r) d.exits + opened_by r e
      more r = ap (sum_by (opened_by r)) exits ∙ sum_by-append (opened_by r) d.exits e

      free : (r : ℕ) → (ref == r) ≡ true → ledger.is_released r d.consumed ≡ false
      free r is =
          ap (λ i. ledger.is_released i d.consumed) (sym ((==_iff ref r).0 is)) ∙ noted.fresh

      share_one : (r : ℕ) → (ref == r) ≡ true → opened_by r e ≡ 1
      share_one r is = ground arith

      share_zero : (r : ℕ) → (ref == r) ≡ false → opened_by r e ≡ 0
      share_zero r other = ground arith

  Move-IsSpent :
      {d t : ExitDesk Anchor L J}
      → Move d t
      → ((k : ℕ) → ledger.is_released k d.consumed ≡ true → ledger.is_released k t.consumed ≡ true)
      → IsSpent d
      → IsSpent t
  unfolding statement_of
  Move-IsSpent (Move.stayed _ _) grows h = same_burns (λ _. refl) grows h
  Move-IsSpent {d} {t} (Move.opened burn chain_id required v now _ _ noted _) grows h =
      opened-IsSpent d t (opening burn v required now d) noted refl h
  Move-IsSpent {d} (Move.paid id e _ at _ _ _ _ _) grows h =
      same_burns
        (λ r.
          let s = sum_by-set_at (opened_by r) id e (record e { state = settled }) d.exits at in
          omega (arith, s))
        grows h
  Move-IsSpent {d} (Move.seized id e _ at _ _ _ _) grows h =
      same_burns
        (λ r.
          let s = sum_by-set_at (opened_by r) id e (record e { state = slashed }) d.exits at in
          omega (arith, s))
        grows h
  Move-IsSpent (Move.lettered _ _ _) grows h = same_burns (λ _. refl) grows h
  Move-IsSpent Move.taken grows h = same_burns (λ _. refl) grows h

  Moves-IsSpent : {d t : ExitDesk Anchor L J} → Moves d t → IsSpent d → IsSpent t
  Moves-IsSpent Moves.still h = h
  Moves-IsSpent (Moves.onward ms m) h = Move-IsSpent m (λ k. Move-grows k m) (Moves-IsSpent ms h)

  settle-paid :
      (id : ℕ) (w : PayoutWatcher) (d : ExitDesk Anchor L J) (e : Exit) (payout : PayoutAttestation)
      (out : Release)
      → IsSound d
      → get id d.exits ≡ some e
      → w.confirm e.statement ≡ some payout
      → (settle id w d).0 ≡ ok out
      → (ledger.is_released payout.foreign_ref d.consumed ≡ false)
        × (ledger.is_released payout.foreign_ref (settle id w d).1.consumed ≡ true)
  settle-paid id w d e payout out sound at confirmed done = elim (settle-SettleEnds id w d sound) [
    | SettleEnds.refused r ↦ absurd (cc (sym (ap (λ p. p.0) r.ends) ∙ done))
    | SettleEnds.done exit paid found _ accepted _ noted _ r ↦
        let same_exit : e ≡ exit = some-injective _ _ (sym at ∙ found) in
        let same : payout ≡ paid =
          some-injective _ _
            (sym confirmed ∙ ap (λ x. w.confirm x.statement) same_exit ∙ accepted.confirmed) in
        (
          ap (λ p. ledger.is_released p.foreign_ref d.consumed) same ∙ accepted.fresh,
          ap (λ p. ledger.is_released p.foreign_ref (settle id w d).1.consumed) same
              ∙ ap (λ p. ledger.is_released paid.foreign_ref p.1.consumed) r
              ∙ Noted-used paid.foreign_ref noted,
        )
  ]

module _ {H C I Commitment Beacon D E L J : Type 0} (qtv : Qtv H C I Commitment Beacon)
    (codec : QtvCodec D E) ⦃ledger : ReplayLedger L⦄ ⦃journal : ExitJournal J⦄ (ops : List (Op C I))
    (d : ExitDesk (QuantovaAnchor Commitment Beacon) L J) where
  -- A burn opens one exit at most. The desk is sound at the start, where every burn has opened one exit at most, and none
  -- as long as the ledger does not have its reference as used. Then both hold after any calls: every burn has opened one exit
  -- at most, and none as long as its reference is unused.
  pub run-IsSpent : IsSound d → IsSpent d → IsSpent (run qtv codec ops d)
  run-IsSpent sound h = Moves-IsSpent (run-Moves qtv codec ops d sound).0 h

-- A payout settles one exit: after an exit of a sound desk is settled by a payout and any further calls, no exit can be
-- settled by a payout with the same foreign reference.
pub run-payout_once :
    {H C I Commitment Beacon D E L J : Type 0} (qtv : Qtv H C I Commitment Beacon)
    (codec : QtvCodec D E) ⦃ledger : ReplayLedger L⦄ ⦃journal : ExitJournal J⦄
    (d : ExitDesk (QuantovaAnchor Commitment Beacon) L J) (id : ℕ) (w : PayoutWatcher) (e : Exit)
    (payout : PayoutAttestation) (out : Release) (ops : List (Op C I)) (again : ℕ)
    (other : PayoutWatcher) (f : Exit) (second : PayoutAttestation) (r : Release)
    → IsSound d
    → get id d.exits ≡ some e
    → w.confirm e.statement ≡ some payout
    → (settle id w d).0 ≡ ok out
    → get again (run qtv codec ops (settle id w d).1).exits ≡ some f
    → other.confirm f.statement ≡ some second
    → second.foreign_ref ≡ payout.foreign_ref
    → (settle again other (run qtv codec ops (settle id w d).1)).0 ≢ ok r
run-payout_once qtv codec ⦃ledger = ledger⦄ d id w e payout out ops again other f second r sound at
      confirmed done found attests same twice =
    let t = (settle id w d).1 in
    let t_sound = Move-IsSound (SettleEnds-Move (settle-SettleEnds id w d sound)) sound in
    let (moves, u_sound) = run-Moves qtv codec ops t t_sound in
    let used =
      Moves-grows payout.foreign_ref moves
        (settle-paid id w d e payout out sound at confirmed done).1 in
    let fresh =
      (settle-paid again other (run qtv codec ops t) f second r u_sound found attests twice).0 in
    cc (sym fresh ∙ ap (λ i. ledger.is_released i (run qtv codec ops t).consumed) same ∙ used)
