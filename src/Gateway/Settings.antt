-- ===== src/Gateway/Settings.antt =====
-- The setters and clocks of crates/q-gateway/src/gateway.rs: methods that cannot fail, but for the epoch
-- counter's overflow check.
use q_oracle.Base.{ℕ, min, max, true, false, some, []}
use q_oracle.Base.Tests.{ltb, if◌then◌else◌}
use q_oracle.Base.Words.{checked_add_u64}
use q_oracle.Base.Result.{or_panic}
use q_oracle.Base.Map.{insert, remove, add, nat_key}
use q_oracle.Gateway.Operators.{OperatorSet}
use q_oracle.Gateway.State.{Gateway, reserve_max_age}
use q_oracle.Gateway.Call.{Call, ask, modify, ◌>>=◌, touch_guard}

module _ {K : Type 0} where
  unfoldable pub settle_admin_records : ℕ → ℕ → Gateway K → Gateway K
  unfolding touch_guard
  settle_admin_records seq head g =
      touch_guard (record g { admin_records = []; audit_seq = seq; audit_head = head })

  unfoldable pub set_governance : OperatorSet K → Gateway K → Gateway K
  set_governance governance g = record g { governance = governance }

  unfoldable pub set_era : ℕ → Gateway K → Gateway K
  set_era era g = record g { era = era }

  unfoldable pub set_exit_delay : ℕ → Gateway K → Gateway K
  set_exit_delay exit_delay g = record g { exit_delay = exit_delay }

  unfoldable pub advance_to : ℕ → Gateway K → Gateway K
  advance_to height g =
      if ltb g.current_height height then record g { current_height = height } else g

  unfoldable pub register_asset_cap : ℕ → ℕ → Gateway K → Gateway K
  register_asset_cap asset_id cap g = record g {
    per_asset_cap = insert asset_id cap g.per_asset_cap;
  }

  unfoldable pub register_asset_epoch_cap : ℕ → ℕ → Gateway K → Gateway K
  register_asset_epoch_cap asset_id cap g = record g {
    per_asset_epoch_cap = insert asset_id cap g.per_asset_epoch_cap;
  }

  unfoldable pub set_escrow : ℕ → ℕ → Gateway K → Gateway K
  set_escrow asset_id escrowed g = record g { escrowed = insert asset_id escrowed g.escrowed }

  unfoldable pub require_reserve_reports : ℕ → Gateway K → Gateway K
  require_reserve_reports max_age g = record g {
    reserve_max_age = some (min (max max_age 1) reserve_max_age);
  }

  unfoldable pub pause_all : Gateway K → Gateway K
  unfolding touch_guard
  pause_all g = touch_guard (
      if g.global_pause
      then g
      else record g { global_paused_at = g.current_height; global_pause = true })

  unfoldable pub unpause_all : Gateway K → Gateway K
  unfolding touch_guard
  unpause_all g = touch_guard (record g { global_pause = false })

  unfoldable pub pause_source_direct : ℕ → Gateway K → Gateway K
  unfolding touch_guard
  pause_source_direct source_chain g =
      touch_guard (record g { paused_sources = add source_chain g.paused_sources })

  unfoldable pub unpause_source : ℕ → Gateway K → Gateway K
  unfolding touch_guard
  unpause_source source_chain g = touch_guard (record g {
    paused_sources = remove source_chain g.paused_sources;
    paused_since = remove source_chain g.paused_since;
  })

  unfoldable pub advance_epoch : Call K (Unit {0})
  unfolding touch_guard
  advance_epoch = do
    next ← ask (λ g. or_panic (checked_add_u64 g.current_epoch 1))
    modify λ g.
        touch_guard
          (record g { current_epoch = next; epoch_minted = 0; per_asset_epoch_minted = [] })

  unfoldable pub advance_epoch_to : ℕ → Gateway K → Gateway K
  unfolding touch_guard
  advance_epoch_to epoch g =
      if ltb g.current_epoch epoch
      then touch_guard
          (record g { current_epoch = epoch; epoch_minted = 0; per_asset_epoch_minted = [] })
      else g
