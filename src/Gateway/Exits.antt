-- ===== src/Gateway/Exits.antt =====
-- Exits, crates/q-gateway/src/gateway.rs: units leave the minted supply when an exit is requested, and the
-- ticket stays pending until it is finalized or cancelled.
pub mod Supply
pub mod Outcomes
pub mod Restore
use q_oracle.Base.{ℕ, ◌+◌, ◌-◌, Bool, true, false, Option, none, some}
use q_oracle.Base.Tests.{ltb, leb, ◌==◌, if◌then◌else◌}
use q_oracle.Base.Lists.{length}
use q_oracle.Base.Words.{sat_add_u64, sat_add_u128, checked_add_u64}
use q_oracle.Base.Result.{Result, ok, err, fail_if, ok_or, or_panic}
use q_oracle.Base.Map.{lookup, insert, remove, nat_key}
use q_oracle.Codec.Errors.{zero_amount}
use q_oracle.Gateway.Errors.{GatewayError}
use q_oracle.Gateway.State.{Gateway, ExitTicket, max_pending_exits}
use q_oracle.Gateway.Call.{Call, pure, ask, gets, modify, ◌>>=◌, ◌>>◌, touch_guard}
use q_oracle.Gateway.Reserve.Checks.{minted_of_asset}
use q_oracle.Gateway.Freeze.Checks.{is_frozen}

module _ {K : Type 0} where
  -- The minted supply is written before the id counter's overflow check.
  unfoldable pub request_exit : ℕ → ℕ → ℕ → Call K ExitTicket
  unfolding touch_guard
  request_exit asset_id amount destination = do
    ask (λ _. fail_if (amount == 0) (GatewayError.invalid_fact zero_amount))
    pending ← gets (λ g. length g.pending_exits)
    ask λ _.
        fail_if (leb max_pending_exits pending)
          (GatewayError.exit_queue_full pending max_pending_exits)
    minted ← gets (minted_of_asset asset_id)
    ask (λ _. fail_if (ltb minted amount) (GatewayError.exit_exceeds_minted minted amount))
    modify λ g. record g { per_asset_minted = insert asset_id (minted - amount) g.per_asset_minted }
    exit_id ← gets (λ g. g.next_exit_id)
    next ← ask (λ _. or_panic (checked_add_u64 exit_id 1))
    unlock_height ← gets (λ g. sat_add_u64 g.current_height g.exit_delay)
    let ticket : ExitTicket = record {
      exit_id = exit_id;
      asset_id = asset_id;
      amount = amount;
      destination = destination;
      unlock_height = unlock_height;
    }
    modify λ g.
        touch_guard
          (record g { next_exit_id = next; pending_exits = insert exit_id ticket g.pending_exits })
    pure ticket

  unfoldable pub finalize_exit : ℕ → Call K ExitTicket
  unfolding touch_guard
  finalize_exit exit_id = do
    ask (λ g. fail_if g.global_pause GatewayError.global_pause)
    ask (λ g. fail_if (is_frozen g) (GatewayError.frozen g.frozen_until))
    ticket ← ask λ g. ok_or (lookup exit_id g.pending_exits) (GatewayError.unknown_exit exit_id)
    ask λ g.
        fail_if (ltb g.current_height ticket.unlock_height)
          (GatewayError.exit_not_ready g.current_height ticket.unlock_height)
    modify (λ g. touch_guard (record g { pending_exits = remove exit_id g.pending_exits }))
    pure ticket

  unfoldable pub cancel_exit : ℕ → Call K ExitTicket
  unfolding touch_guard
  cancel_exit exit_id = do
    ticket ← ask λ g. ok_or (lookup exit_id g.pending_exits) (GatewayError.unknown_exit exit_id)
    modify (λ g. record g { pending_exits = remove exit_id g.pending_exits })
    minted ← gets (minted_of_asset ticket.asset_id)
    modify λ g. touch_guard (record g {
      per_asset_minted =
          insert ticket.asset_id (sat_add_u128 minted ticket.amount) g.per_asset_minted;
    })
    pure ticket
