-- ===== src/Desk/Steps/Final.antt =====
-- The exits of a desk keep their terms, and a closed exit stays as it is.
use mathlib.Core.Option.{some-injective}
use q_oracle.Base.{ℕ, ◌≡◌, refl, sym, ap, ◌∙◌, true, false, some, List, inl, inr}
use q_oracle.Base.Tests.{◌==◌, Bool-cases, ==_iff}
use q_oracle.Desk.Ledger.{ReplayLedger}
use q_oracle.Desk.Journal.{ExitJournal}
use q_oracle.Desk.Qtv.{Qtv, QtvCodec}
use q_oracle.Desk.Anchor.{QuantovaAnchor}
use q_oracle.Desk.Statement.{Exit, ExitState, settled, slashed, is_pending}
use q_oracle.Desk.State.{ExitDesk, get, set_at}
use q_oracle.Desk.Sums.{get-append, get-set_at, get-set_at_other}
use q_oracle.Desk.Moves.{Move}
use q_oracle.Desk.Moves.Sound.{IsSound}
use q_oracle.Desk.Steps.{Op, run}
use q_oracle.Desk.Steps.Refines.{Moves, run-Moves}

-- the exit under an index later: only its state may differ, and only where it was pending
abbrev pub Later : ℕ → Exit → List Exit → Type 0
Later id e exits =
    (state : ExitState) × (get id exits ≡ some (record e { state = state }))
    × (is_pending e ≡ false → state ≡ e.state)

closed-Later :
    (id at : ℕ) (e f : Exit) (state : ExitState) (exits : List Exit)
    → get id exits ≡ some e
    → get at exits ≡ some f
    → is_pending f ≡ true
    → Later id e (set_at at (record f { state = state }) exits)
closed-Later id at e f state exits found there was = elim (Bool-cases (at == id)) [
  | inl is ↦
      let here : f ≡ e =
        some-injective _ _ (sym there ∙ ap (λ i. get i exits) ((==_iff at id).0 is) ∙ found) in
      (
        state,
        ap (λ i. get i (set_at at (record f { state = state }) exits)) (sym ((==_iff at id).0 is))
            ∙ get-set_at at f _ exits there
            ∙ ap {A = Exit} (λ x. some (record x { state = state })) here,
        λ closed. absurd (cc (sym was ∙ ap is_pending here ∙ closed)),
      )
  | inr other ↦ (e.state, get-set_at_other at id _ exits other ∙ found, λ _. refl)
]

module _ {Anchor L J : Type 0} ⦃ledger : ReplayLedger L⦄ ⦃journal : ExitJournal J⦄ (id : ℕ) where
  Move-Later :
      {d t : ExitDesk Anchor L J} (e : Exit)
      → Move d t
      → get id d.exits ≡ some e
      → Later id e t.exits
  Move-Later e (Move.stayed _ _) h = (e.state, h, λ _. refl)
  Move-Later {d} e (Move.opened _ _ _ _ _ _ _ _ _) h =
      (e.state, get-append id e _ d.exits h, λ _. refl)
  Move-Later {d} e (Move.paid i f _ at was _ _ _ _) h =
      closed-Later id i e f settled d.exits h at was
  Move-Later {d} e (Move.seized i f _ at was _ _ _) h =
      closed-Later id i e f slashed d.exits h at was
  Move-Later e (Move.lettered _ _ _) h = (e.state, h, λ _. refl)
  Move-Later e Move.taken h = (e.state, h, λ _. refl)

  Moves-Later :
      {d t : ExitDesk Anchor L J} (e : Exit)
      → Moves d t
      → get id d.exits ≡ some e
      → Later id e t.exits
  Moves-Later e Moves.still h = (e.state, h, λ _. refl)
  Moves-Later e (Moves.onward ms m) h =
      let (s, found, stays) = Moves-Later e ms h in
      let (s', found', stays') = Move-Later (record e { state = s }) m found in
      (
        s',
        found',
        λ closed.
            stays' (ap (λ x. is_pending (record e { state = x })) (stays closed) ∙ closed)
            ∙ stays closed,
      )

-- An exit is closed once and keeps its terms: after any calls on a sound desk, the exit under an id has the statement,
-- vault, locked collateral and times that it had, and if it was settled or slashed it still is.
pub run-closed_once :
    {H C I Commitment Beacon D E L J : Type 0} (qtv : Qtv H C I Commitment Beacon)
    (codec : QtvCodec D E) ⦃ledger : ReplayLedger L⦄ ⦃journal : ExitJournal J⦄ (ops : List (Op C I))
    (d : ExitDesk (QuantovaAnchor Commitment Beacon) L J) (id : ℕ) (e : Exit)
    → IsSound d
    → get id d.exits ≡ some e
    → Later id e (run qtv codec ops d).exits
run-closed_once qtv codec ops d id e sound found =
    Moves-Later id e (run-Moves qtv codec ops d sound).0 found
