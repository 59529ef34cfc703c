-- ===== src/Tests/Desk/Runs.antt =====
-- Runs of the exit desk.
use q_oracle.Base.{ℕ, ◌≡◌, ◌≢◌, refl, ap, subst, some, List, [], ◌∷◌, arith}
use q_oracle.Base.Result.{ok, err}
use q_oracle.Base.Map
use q_oracle.Codec.Bytes
use q_oracle.Desk.Errors.{ExitError}
use q_oracle.Desk.Vaults
use q_oracle.Desk.Ledger.Memory
use q_oracle.Desk.Ledger.Memory.{memory_ledger, memory_ledger-Undoes}
use q_oracle.Desk.Statement
use q_oracle.Desk.Statement.{Release, ExitState}
use q_oracle.Desk.Attestation
use q_oracle.Desk.Anchor
use q_oracle.Desk.BurnProof
use q_oracle.Desk.State
use q_oracle.Desk.State.{get}
use q_oracle.Desk.Checks
use q_oracle.Desk.Open
use q_oracle.Desk.Open.Atomic.{Untouched, open_exit_atomic}
use q_oracle.Desk.Settle
use q_oracle.Desk.Moves.Sound.{IsSound}
use q_oracle.Desk.Moves.Start.{fresh_desk-IsSound, register_vault-IsSound}
use q_oracle.Desk.Moves.Ends.{SettleEnds, settle-SettleEnds}
use q_oracle.Desk.Moves.Slashes.{SlashEnds, slash-SlashEnds}
use q_oracle.Desk.Steps
use q_oracle.Desk.Steps.{
  Op, run, open_exit_op, settle_op, slash_op, close_overdue_op, take_seized_reserve_op,
}
use q_oracle.Desk.Steps.Refines.{Moves, Moves-IsSound, open_exit-Moves, run-Moves}
use q_oracle.Desk.Steps.Conserved.{brought, run-conserved}
use q_oracle.Desk.Steps.Once.{IsSpent, run-IsSpent, run-payout_once}
use q_oracle.Desk.Steps.Final.{Later, run-closed_once}
use q_oracle.Tests.Desk.{
  toy_qtv, toy_codec, burn_proof, desk, full_desk, empty_desk, settings, anchor, busy, exit_in,
  paying, payout, short_journal,
}

-- The burn opens an exit, a journal that is full refuses it, and nothing opens it twice.
opened : Open.open_exit toy_qtv toy_codec burn_proof 1000 desk ≡ (ok 0, busy)
unfolding Open.open_exit Open.open_verified Open.write_opening Checks.check_burn Checks.statement_of
    Statement.serves Statement.validate Statement.required_collateral BurnProof.verify
    BurnProof.certified BurnProof.parse_burn_leaf BurnProof.parse_burn_fields BurnProof.array_of
    BurnProof.bound BurnProof.burn_ref_preimage BurnProof.skip_tx Anchor.binding
    Anchor.commitment_at Bytes.to_be_bytes Bytes.to_le_bytes Bytes.from_be_bytes Bytes.from_le_bytes
    Map.lookup Map.insert Map.remove Map.replace Map.contains_key Map.or_insert Vaults.lock_any
    Vaults.lock Vaults.release Vaults.choose Vaults.precedes Vaults.most_free Vaults.register
    Memory.is_released Memory.note Memory.forget State.register_vault
opened = refl

refused :
    Open.open_exit toy_qtv toy_codec burn_proof 1000 full_desk
    ≡ (err ExitError.persist_failed, full_desk)
unfolding Open.open_exit Open.open_verified Open.write_opening Checks.check_burn Checks.statement_of
    Statement.serves Statement.validate Statement.required_collateral BurnProof.verify
    BurnProof.certified BurnProof.parse_burn_leaf BurnProof.parse_burn_fields BurnProof.array_of
    BurnProof.bound BurnProof.burn_ref_preimage BurnProof.skip_tx Anchor.binding
    Anchor.commitment_at Bytes.to_be_bytes Bytes.to_le_bytes Bytes.from_be_bytes Bytes.from_le_bytes
    Map.lookup Map.insert Map.remove Map.replace Map.contains_key Map.or_insert Vaults.lock_any
    Vaults.lock Vaults.release Vaults.choose Vaults.precedes Vaults.most_free Vaults.register
    Memory.is_released Memory.note Memory.forget State.register_vault
refused = refl

replayed : (Open.open_exit toy_qtv toy_codec burn_proof 1000 busy).0 ≡ err ExitError.replayed_exit
unfolding Open.open_exit Open.open_verified Open.write_opening Checks.check_burn Checks.statement_of
    Statement.serves Statement.validate Statement.required_collateral BurnProof.verify
    BurnProof.certified BurnProof.parse_burn_leaf BurnProof.parse_burn_fields BurnProof.array_of
    BurnProof.bound BurnProof.burn_ref_preimage BurnProof.skip_tx Anchor.binding
    Anchor.commitment_at Bytes.to_be_bytes Bytes.to_le_bytes Bytes.from_be_bytes Bytes.from_le_bytes
    Map.lookup Map.insert Map.remove Map.replace Map.contains_key Map.or_insert Vaults.lock_any
    Vaults.lock Vaults.release Vaults.choose Vaults.precedes Vaults.most_free Vaults.register
    Memory.is_released Memory.note Memory.forget State.register_vault
replayed = refl

-- The payout settles it once.
settled : (Settle.settle 0 (paying 55) busy).0 ≡ ok (record { vault_id = 1; released = 1500 })
unfolding Steps.run Steps.step Settle.settle Settle.slash Settle.pending_exit Settle.attested
    Settle.write_settlement Settle.apply_slash Settle.close_overdue Settle.try_watchers
    Settle.proves_no_payout Attestation.validate Attestation.covers Statement.is_pending
    Statement.user_premium State.slash_opens_at State.take_seized_reserve Map.lookup Map.insert
    Map.replace Map.contains_key Vaults.release Vaults.seize Memory.is_released Memory.note
settled = refl

-- It is slashed after the grace period, not in it.
early : (Settle.slash 0 1110 busy).0 ≡ err (ExitError.window_open 1110 1110)
unfolding Steps.run Steps.step Settle.settle Settle.slash Settle.pending_exit Settle.attested
    Settle.write_settlement Settle.apply_slash Settle.close_overdue Settle.try_watchers
    Settle.proves_no_payout Attestation.validate Attestation.covers Statement.is_pending
    Statement.user_premium State.slash_opens_at State.take_seized_reserve Map.lookup Map.insert
    Map.replace Map.contains_key Vaults.release Vaults.seize Memory.is_released Memory.note
early = refl

slashed_late : (Settle.slash 0 1111 busy).1.seized_reserve ≡ 1500
unfolding Steps.run Steps.step Settle.settle Settle.slash Settle.pending_exit Settle.attested
    Settle.write_settlement Settle.apply_slash Settle.close_overdue Settle.try_watchers
    Settle.proves_no_payout Attestation.validate Attestation.covers Statement.is_pending
    Statement.user_premium State.slash_opens_at State.take_seized_reserve Map.lookup Map.insert
    Map.replace Map.contains_key Vaults.release Vaults.seize Memory.is_released Memory.note
slashed_late = refl

-- what the theorems ask of these desks
pub desk-IsSound : IsSound desk
unfolding Vaults.free_of Vaults.locked_of Map.lookup
desk-IsSound =
    register_vault-IsSound 1 5000 empty_desk (fresh_desk-IsSound settings anchor [] [])
      (omega arith)

full_desk-IsSound : IsSound full_desk
full_desk-IsSound = record {
  room = desk-IsSound.room;
  backed = desk-IsSound.backed;
  held = desk-IsSound.held;
}

busy-IsSound : IsSound busy
busy-IsSound = subst IsSound (ap (λ p. p.1) opened) (
    Moves-IsSound (open_exit-Moves toy_qtv toy_codec burn_proof 1000 desk desk-IsSound)
      desk-IsSound)

desk-IsSpent : IsSpent desk
unfolding State.register_vault
desk-IsSpent = record { once = λ r. omega arith; none_yet = λ r free. refl }

-- a payout, a late slash, a closing and a withdrawal of the reserve
abbrev pub calls : List (Op ℕ ℕ)
calls =
    settle_op 0 (paying 55)
    ∷ slash_op 0 2000
    ∷ close_overdue_op 0 (paying 56 ∷ []) 2000
    ∷ take_seized_reserve_op
    ∷ []

abbrev pub all_calls : List (Op ℕ ℕ)
all_calls = open_exit_op burn_proof 1000 ∷ open_exit_op burn_proof 1001 ∷ calls

run-Moves_example :
    Moves desk (run toy_qtv toy_codec all_calls desk)
    × IsSound (run toy_qtv toy_codec all_calls desk)
run-Moves_example = run-Moves toy_qtv toy_codec all_calls desk desk-IsSound

run-conserved_example :
    (brought 1 (run toy_qtv toy_codec all_calls desk) ≡ brought 1 desk)
    × IsSound (run toy_qtv toy_codec all_calls desk)
run-conserved_example = run-conserved toy_qtv toy_codec all_calls desk 1 desk-IsSound

run-IsSpent_example : IsSpent (run toy_qtv toy_codec all_calls desk)
run-IsSpent_example = run-IsSpent toy_qtv toy_codec all_calls desk desk-IsSound desk-IsSpent

paid_later :
    get 0 (run toy_qtv toy_codec calls (Settle.settle 0 (paying 55) busy).1).exits
    ≡ some (exit_in ExitState.settled)
unfolding Steps.run Steps.step Settle.settle Settle.slash Settle.pending_exit Settle.attested
    Settle.write_settlement Settle.apply_slash Settle.close_overdue Settle.try_watchers
    Settle.proves_no_payout Attestation.validate Attestation.covers Statement.is_pending
    Statement.user_premium State.slash_opens_at State.take_seized_reserve Map.lookup Map.insert
    Map.replace Map.contains_key Vaults.release Vaults.seize Memory.is_released Memory.note
paid_later = refl

run-payout_once_example :
    (Settle.settle 0
      (paying 55)
      (run toy_qtv toy_codec calls (Settle.settle 0 (paying 55) busy).1)).0
    ≢ ok (record { vault_id = 1; released = 1500 })
run-payout_once_example =
    run-payout_once toy_qtv toy_codec busy 0 (paying 55) (exit_in ExitState.pending) (payout 55)
      (record { vault_id = 1; released = 1500 }) calls 0 (paying 55) (exit_in ExitState.settled)
      (payout 55) (record { vault_id = 1; released = 1500 }) busy-IsSound refl refl settled
      paid_later refl refl

run-closed_once_example :
    Later 0 (exit_in ExitState.pending) (run toy_qtv toy_codec calls busy).exits
run-closed_once_example =
    run-closed_once toy_qtv toy_codec calls busy 0 (exit_in ExitState.pending) busy-IsSound refl

open_exit_atomic_example :
    Untouched full_desk (Open.open_exit toy_qtv toy_codec burn_proof 1000 full_desk).1
open_exit_atomic_example =
    open_exit_atomic toy_qtv toy_codec memory_ledger-Undoes burn_proof 1000 full_desk
      ExitError.persist_failed full_desk-IsSound (ap (λ p. p.0) refused)

settle-SettleEnds_example : SettleEnds 0 (paying 55) busy (Settle.settle 0 (paying 55) busy)
settle-SettleEnds_example = settle-SettleEnds 0 (paying 55) busy busy-IsSound

slash-SlashEnds_example : SlashEnds 0 1111 busy (Settle.slash 0 1111 busy)
slash-SlashEnds_example = slash-SlashEnds 0 1111 busy busy-IsSound
