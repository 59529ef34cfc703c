-- ===== src/Tests/Gateway.antt =====
-- The gateway's theorems at the concrete gateway.
use q_oracle.Base.{ℕ, ◌≡◌, ◌↔◌, refl, true, [], ◌∷◌, arith}
use q_oracle.Base.Result.{ok, err}
use q_oracle.Base.Map.{contains_key, insert, lookup, or_insert, remove}
use q_oracle.Codec.Bytes.{to_be_bytes, to_le_bytes}
use q_oracle.Codec.Errors.{tag}
use q_oracle.Codec.Writer
use q_oracle.Codec.Fact.{attest_context, attest_preimage, encode, is_zero, validate}
use q_oracle.Gateway.Errors.{GatewayError}
use q_oracle.Gateway.Operators
use q_oracle.Gateway.Operators.{
  consider, pubkey, register, scan, supermajority_floor, unregister, verified_quorum, verifies,
  verify_quorum, OperatorSet,
}
use q_oracle.Gateway.State
use q_oracle.Gateway.State.{Gateway, MintReceipt, ExitTicket}
use q_oracle.Gateway.Settings.{register_asset_cap, set_governance}
use q_oracle.Gateway.Corridor.{register_corridor}
use q_oracle.Gateway.Call.{touch_guard}
use q_oracle.Gateway.Reserve.Checks.{
  charge_asset_epoch, charge_asset_escrow, minted_of_asset, outstanding_of, pending_exit_of,
  pending_from, record_asset_epoch, reserve_is_fresh,
}
use q_oracle.Gateway.Corridor.Checks.{required}
use q_oracle.Gateway.Freeze.Checks.{freeze_horizon, mint_freeze_horizon}
use q_oracle.Gateway.Deposit.{process_deposit, write_mint}
use q_oracle.Gateway.Deposit.Checks.{
  attesters, check_cap, check_deposit, check_epoch, check_fact, check_open, precheck_deposit,
}
use q_oracle.Gateway.Deposit.Outcomes.{receipt}
use q_oracle.Gateway.Deposit.Admission.{IsAdmissible}
use q_oracle.Gateway.Deposit.Decides.{process_deposit-admits, process_deposit_atomic}
use q_oracle.Gateway.Deposit.Outcomes.{minted_by}
use q_oracle.Gateway.Steps.{Op, step, run}
use q_oracle.Gateway.Steps.Replay.{Accepted, run-replay}
use q_oracle.Gateway.Steps.Capped.{IsCapped, run-IsCapped}
use q_oracle.Gateway.Steps.Budget.{InBudget, run-InBudget}
use q_oracle.Tests.Fixtures.{ml, fact, env, gate, leaving}

-- the gateway after the deposit and three more calls
abbrev later : Gateway ℕ
later =
    run ml (Op.pause_all ∷ Op.unpause_all ∷ Op.cancel_exit 0 ∷ []) (process_deposit ml env gate).1

accepted : (process_deposit ml env gate).0 ≡ ok (receipt fact)
unfolding process_deposit check_deposit precheck_deposit check_open check_fact check_cap check_epoch
    attesters mint_freeze_horizon freeze_horizon required charge_asset_epoch charge_asset_escrow
    outstanding_of minted_of_asset pending_exit_of pending_from reserve_is_fresh is_zero validate
    verify_quorum verified_quorum scan consider verifies pubkey supermajority_floor contains_key
    insert lookup or_insert remove set_governance register_corridor register_asset_cap State.new
    Operators.new write_mint touch_guard record_asset_epoch attest_preimage attest_context encode
    Writer.new Writer.finish Writer.fixed Writer.fixed_id Writer.u8 Writer.u32 Writer.u64
    Writer.u128 to_le_bytes to_be_bytes tag
accepted = refl

-- accepted by a quorum, it is not accepted again by a proof
run-replay_example : ¬ Accepted ml (1, 77) later (Op.admit_trustless 5 77 1 1)
unfolding run step
run-replay_example =
    run-replay ml (1, 77) gate (Op.process_deposit env) (Op.admit_trustless 5 77 1 1)
      (Op.pause_all ∷ Op.unpause_all ∷ Op.cancel_exit 0 ∷ [])
      (Accepted.attested env (receipt fact) refl accepted)

process_deposit-admits_example :
    (process_deposit ml env gate ≡ (ok (receipt fact), minted_by fact gate))
    ↔ IsAdmissible ml env gate
process_deposit-admits_example = process_deposit-admits ml env gate

-- paused, the gateway refuses it
refused :
    (process_deposit ml env (record gate { global_pause = true })).0 ≡ err GatewayError.global_pause
unfolding process_deposit check_deposit precheck_deposit check_open
refused = refl

process_deposit_atomic_example :
    (process_deposit ml env (record gate { global_pause = true })).1
    ≡ record gate { global_pause = true }
process_deposit_atomic_example =
    process_deposit_atomic ml env (record gate { global_pause = true }) GatewayError.global_pause
      refused

pub leaving-IsCapped : IsCapped leaving
unfolding lookup set_governance register_corridor register_asset_cap State.new insert
leaving-IsCapped = record {
  sorted = (tt, tt);
  fresh = (omega arith, tt);
  bounded = λ a. ground arith;
  capped = λ a. ground arith;
}

run-IsCapped_example : IsCapped (run ml (Op.finalize_exit 0 ∷ Op.request_exit 5 20 4 ∷ []) leaving)
run-IsCapped_example =
    run-IsCapped ml (Op.finalize_exit 0 ∷ Op.request_exit 5 20 4 ∷ []) leaving leaving-IsCapped

gate-InBudget : InBudget gate
unfolding set_governance register_corridor register_asset_cap State.new
gate-InBudget = omega arith

run-InBudget_example : InBudget (run ml (Op.process_deposit env ∷ []) gate)
run-InBudget_example = run-InBudget ml (Op.process_deposit env ∷ []) gate gate-InBudget
