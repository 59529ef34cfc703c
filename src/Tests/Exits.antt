-- ===== src/Tests/Exits.antt =====
-- The theorems on exits at the concrete gateway.
use q_oracle.Base.{ℕ, ◌≡◌, ◌≢◌, refl, [], ◌∷◌, arith}
use q_oracle.Base.Result.{ok, err}
use q_oracle.Base.Map.{contains_key, insert, lookup, or_insert, remove, nat_key}
use q_oracle.Codec.Bytes.{to_be_bytes, to_le_bytes}
use q_oracle.Codec.Writer
use q_oracle.Gateway.Errors.{GatewayError}
use q_oracle.Gateway.Operators
use q_oracle.Gateway.Operators.{
  consider, pubkey, register, scan, supermajority_floor, unregister, verified_quorum, verifies,
  verify_quorum, OperatorSet, size,
}
use q_oracle.Gateway.State
use q_oracle.Gateway.State.{Gateway, MintReceipt, ExitTicket, CorridorConfig}
use q_oracle.Gateway.Settings.{register_asset_cap, set_governance}
use q_oracle.Gateway.Corridor.{register_corridor}
use q_oracle.Gateway.Call.{checked, touch_guard, log_admin}
use q_oracle.Gateway.Reserve.Checks.{minted_of_asset, quorum_met}
use q_oracle.Gateway.Freeze.Checks.{freeze_horizon, is_frozen}
use q_oracle.Gateway.Exits.{request_exit, finalize_exit, cancel_exit}
use q_oracle.Gateway.Exits.Outcomes.{
  Requested, Cancelled, ticket_for, minted, request_exit-Requested, cancel_exit-Cancelled,
}
use q_oracle.Gateway.Exits.Restore.{cancel_exit-request_exit}
use q_oracle.Gateway.Steps.{Op, run}
use q_oracle.Gateway.Steps.Spent.{run-paid_once}
use q_oracle.Tests.Fixtures.{ml, leaving, ticket}
use q_oracle.Tests.Gateway.{leaving-IsCapped}

finalized : (finalize_exit 0 leaving).0 ≡ ok ticket
unfolding finalize_exit freeze_horizon is_frozen verify_quorum verified_quorum scan consider
    verifies pubkey supermajority_floor contains_key insert lookup or_insert remove set_governance
    register_corridor register_asset_cap State.new Operators.new touch_guard log_admin Writer.new
    Writer.finish Writer.fixed Writer.fixed_id Writer.u8 Writer.u32 Writer.u64 Writer.u128
    to_le_bytes to_be_bytes checked quorum_met
finalized = refl

abbrev after : Gateway ℕ
after = run ml (Op.request_exit 5 20 4 ∷ Op.advance_epoch ∷ []) (finalize_exit 0 leaving).1

run-paid_once_example :
    ((again : ExitTicket) → (finalize_exit 0 after).0 ≢ ok again)
    × (cancel_exit 0 after ≡ (err (GatewayError.unknown_exit 0), after))
run-paid_once_example =
    run-paid_once ml 0 leaving ticket (Op.request_exit 5 20 4 ∷ Op.advance_epoch ∷ [])
      leaving-IsCapped finalized

request_exit-Requested_example : Requested 5 20 4 leaving (request_exit 5 20 4 leaving)
request_exit-Requested_example = request_exit-Requested 5 20 4 leaving

cancel_exit-Cancelled_example : Cancelled 0 leaving (cancel_exit 0 leaving)
cancel_exit-Cancelled_example = cancel_exit-Cancelled 0 leaving

requested : (request_exit 5 20 4 leaving).0 ≡ ok (ticket_for 5 20 4 leaving)
unfolding request_exit minted_of_asset verify_quorum verified_quorum scan consider verifies pubkey
    supermajority_floor contains_key insert lookup or_insert remove set_governance register_corridor
    register_asset_cap State.new Operators.new touch_guard log_admin Writer.new Writer.finish
    Writer.fixed Writer.fixed_id Writer.u8 Writer.u32 Writer.u64 Writer.u128 to_le_bytes to_be_bytes
    checked quorum_met
requested = refl

cancel_exit-request_exit_example :
    ((cancel_exit 1 (request_exit 5 20 4 leaving).1).0 ≡ ok (ticket_for 5 20 4 leaving))
    × ((b : ℕ) → minted b (cancel_exit 1 (request_exit 5 20 4 leaving).1).1 ≡ minted b leaving)
cancel_exit-request_exit_example =
    cancel_exit-request_exit 5 20 4 leaving (ticket_for 5 20 4 leaving) requested
      (unfold lookup in omega arith)
