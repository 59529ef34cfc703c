-- ===== src/Desk/Steps/Refines.antt =====
-- Every history of a sound desk is a sequence of moves.
use q_oracle.Base.{ℕ, ◌≡◌, refl, sym, ap, subst, Bool, true, false, List, [], ◌∷◌, arith}
use q_oracle.Base.Tests.{if◌then◌else◌}
use q_oracle.Base.Result.{Result, ok, err, panic}
use q_oracle.Desk.Errors.{ExitError}
use q_oracle.Desk.Ledger.{ReplayLedger}
use q_oracle.Desk.Journal.{ExitJournal}
use q_oracle.Desk.Qtv.{Qtv, QtvCodec}
use q_oracle.Desk.Anchor.{QuantovaAnchor}
use q_oracle.Desk.BurnProof.{AuthenticatedBurn, ProofOfBurn, verify}
use q_oracle.Desk.Statement.{Release}
use q_oracle.Desk.Attestation.{PayoutWatcher}
use q_oracle.Desk.Outbound.{ExitOutcome}
use q_oracle.Desk.State.{ExitDesk, take_seized_reserve}
use q_oracle.Desk.Open.{open_exit, dead_letter, letter_of}
use q_oracle.Desk.Settle.{settle, slash, close_overdue, try_watchers, proves_no_payout}
use q_oracle.Desk.Moves.{Move}
use q_oracle.Desk.Moves.Sound.{IsSound, Move-IsSound}
use q_oracle.Desk.Moves.Opens.{
  open_verified-OpenEnds, OpenEnds-Move, write_letter-LetterEnds, LetterEnds-Move,
}
use q_oracle.Desk.Moves.Closes.{PendingEnds, pending_exit-PendingEnds}
use q_oracle.Desk.Moves.Ends.{settle-SettleEnds, SettleEnds-Move}
use q_oracle.Desk.Moves.Slashes.{slash-SlashEnds, SlashEnds-Move}
use q_oracle.Desk.Steps.{
  Op, step, run, open_exit_op, dead_letter_op, settle_op, slash_op, close_overdue_op,
  take_seized_reserve_op,
}

module _ {Anchor L J : Type 0} ⦃ledger : ReplayLedger L⦄ ⦃journal : ExitJournal J⦄ where
  -- any number of moves
  pub data Moves (d : ExitDesk Anchor L J) : ExitDesk Anchor L J → Type 0 where
    still : Moves d d
    onward : {t u : ExitDesk Anchor L J} → Moves d t → Move t u → Moves d u

  abbrev pub one : {d t : ExitDesk Anchor L J} → Move d t → Moves d t
  one m = Moves.onward Moves.still m

  joined : {d t u : ExitDesk Anchor L J} → Moves d t → Moves t u → Moves d u
  joined front Moves.still = front
  joined front (Moves.onward back m) = Moves.onward (joined front back) m

  pub Moves-IsSound : {d t : ExitDesk Anchor L J} → Moves d t → IsSound d → IsSound t
  Moves-IsSound Moves.still h = h
  Moves-IsSound (Moves.onward ms m) h = Move-IsSound m (Moves-IsSound ms h)

  settle-Move :
      (id : ℕ) (w : PayoutWatcher) (d : ExitDesk Anchor L J) → IsSound d → Move d (settle id w d).1
  settle-Move id w d h = SettleEnds-Move (settle-SettleEnds id w d h)

  slash-Move : (id now : ℕ) (d : ExitDesk Anchor L J) → IsSound d → Move d (slash id now d).1
  slash-Move id now d h = SlashEnds-Move (slash-SlashEnds id now d h)

  -- the loop goes on after a refusal that proves no payout, and ends otherwise
  goes_on :
      {d t : ExitDesk Anchor L J} (b : Bool) (e : ExitError)
      (later : Result ExitError ExitOutcome × ExitDesk Anchor L J)
      → Moves d t
      → Moves t later.1
      → Moves d (if b then later else (err e, t)).1
  goes_on true e later front back = joined front back
  goes_on false e later front back = front

  answered :
      {d : ExitDesk Anchor L J} (first : Result ExitError Release × ExitDesk Anchor L J)
      (later : Result ExitError ExitOutcome × ExitDesk Anchor L J)
      → Moves d first.1
      → Moves first.1 later.1
      → Moves d
          (elim first.0 as (λ _. Result ExitError ExitOutcome × ExitDesk Anchor L J) [
            | ok _ ↦ (ok ExitOutcome.settle, first.1)
            | err e ↦ if proves_no_payout e then later else (err e, first.1)
            | panic ↦ (panic, first.1)
          ]).1
  answered (ok _, t) later front back = front
  answered (err e, t) later front back = goes_on (proves_no_payout e) e later front back
  answered (panic, t) later front back = front

  slash_then :
      (id now : ℕ) (d : ExitDesk Anchor L J) → (try_watchers id [] now d).1 ≡ (slash id now d).1
  unfolding try_watchers
  slash_then id now d = ground arith

  try_watchers-Moves :
      (id : ℕ) (ws : List PayoutWatcher) (now : ℕ) (d : ExitDesk Anchor L J)
      → IsSound d
      → Moves d (try_watchers id ws now d).1
  unfolding try_watchers
  try_watchers-Moves id [] now d h =
      subst (Moves d) (sym (slash_then id now d)) (one (slash-Move id now d h))
  try_watchers-Moves id (w ∷ ws) now d h =
      let first = settle-Move id w d h in
      answered (settle id w d) _ (one first)
        (try_watchers-Moves id ws now (settle id w d).1 (Move-IsSound first h))

  close_overdue-Moves :
      (id : ℕ) (ws : List PayoutWatcher) (now : ℕ) (d : ExitDesk Anchor L J)
      → IsSound d
      → Moves d (close_overdue id ws now d).1
  unfolding close_overdue
  close_overdue-Moves id ws now d h = elim (pending_exit-PendingEnds id d) [
    | PendingEnds.refused e r ↦
        subst (Moves d) (ground (arith, ap (λ p. p.0) r, ap (λ p. p.1) r)) Moves.still
    | PendingEnds.found exit at was r ↦
        subst (λ t. Moves d t) (ground (arith, ap (λ p. p.0) r, ap (λ p. p.1) r))
          (try_watchers-Moves id ws now d h)
  ]

module _ {H C I Commitment Beacon D E L J : Type 0} (qtv : Qtv H C I Commitment Beacon)
    (codec : QtvCodec D E) ⦃ledger : ReplayLedger L⦄ ⦃journal : ExitJournal J⦄ where
  pub open_exit-Moves :
      (proof : ProofOfBurn C I) (now : ℕ) (d : ExitDesk (QuantovaAnchor Commitment Beacon) L J)
      → IsSound d
      → Moves d (open_exit qtv codec proof now d).1
  unfolding open_exit
  open_exit-Moves proof now d h = go (verify qtv codec d.anchor proof) refl
    where
      go :
          (m : Result ExitError AuthenticatedBurn)
          → verify qtv codec d.anchor proof ≡ m
          → Moves d (open_exit qtv codec proof now d).1
      go (ok burn) e = subst (Moves d) (sym (ground (arith, e))) (
          one (
            OpenEnds-Move burn d.anchor.chain_id now d
              (open_verified-OpenEnds burn d.anchor.chain_id now d h)))
      go (err x) e = subst (Moves d) (sym (ground (arith, e))) Moves.still
      go panic e = subst (Moves d) (sym (ground (arith, e))) Moves.still

  step-Moves :
      (op : Op C I) (d : ExitDesk (QuantovaAnchor Commitment Beacon) L J)
      → IsSound d
      → Moves d (step qtv codec op d)
  unfolding step dead_letter take_seized_reserve
  step-Moves (open_exit_op proof now) d h = open_exit-Moves proof now d h
  step-Moves (dead_letter_op proof error now) d h =
      one (LetterEnds-Move _ d (write_letter-LetterEnds (letter_of qtv codec proof error now) d))
  step-Moves (settle_op id w) d h = one (settle-Move id w d h)
  step-Moves (slash_op id now) d h = one (slash-Move id now d h)
  step-Moves (close_overdue_op id ws now) d h = close_overdue-Moves id ws now d h
  step-Moves take_seized_reserve_op d h = one Move.taken

  -- The desk refines its state machine: after any calls on a sound desk, whatever their arguments and however the
  -- ledger and the journal fail, the state is reached by moves alone, each of which opens, pays or slashes one exit, keeps one
  -- dead letter, takes the reserve or changes none of these; and the desk is sound again.
  pub run-Moves :
      (ops : List (Op C I)) (d : ExitDesk (QuantovaAnchor Commitment Beacon) L J)
      → IsSound d
      → Moves d (run qtv codec ops d) × IsSound (run qtv codec ops d)
  unfolding run
  run-Moves [] d h = (Moves.still, h)
  run-Moves (op ∷ ops) d h =
      let first = step-Moves op d h in
      let later = run-Moves ops (step qtv codec op d) (Moves-IsSound first h) in
      (joined first later.0, later.1)
