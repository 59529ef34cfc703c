-- ===== src/Gateway/Errors.antt =====
-- `GatewayError` of crates/q-gateway/src/errors.rs.
use q_oracle.Base.{ℕ}
use q_oracle.Base.Result.{Result, map_err}
use q_oracle.Codec.Errors.{CodecError}

pub data GatewayError : Type 0 where
  global_pause wrong_direction wrong_destination : GatewayError
  corridor_not_open corridor_inactive source_paused : ℕ → GatewayError
  insufficient_finality : (got need : ℕ) → GatewayError
  asset_not_registered : GatewayError
  asset_cap_exceeded epoch_cap_exceeded : (minted cap add : ℕ) → GatewayError
  replayed_reference : GatewayError
  unknown_operator bad_signature : ℕ → GatewayError
  below_threshold : (got need : ℕ) → GatewayError
  thin_quorum : (quorum size : ℕ) → GatewayError
  prove_nothing : GatewayError
  invalid_fact : CodecError → GatewayError
  unauthorized no_governance_set : GatewayError
  tier_downgrade : (from to : ℕ) → GatewayError
  frozen : (until : ℕ) → GatewayError
  watchdog_window_too_wide freeze_window_too_wide : (until max : ℕ) → GatewayError
  freeze_in_past : (until now : ℕ) → GatewayError
  not_frozen watchdog_without_clock : GatewayError
  watchdog_expired : (until now : ℕ) → GatewayError
  watchdog_cooldown : GatewayError
  not_paused : ℕ → GatewayError
  resume_out_of_window : (at now : ℕ) → GatewayError
  escrow_exceeded : (minted escrowed add : ℕ) → GatewayError
  stale_batch : (got expected : ℕ) → GatewayError
  exit_exceeds_minted : (minted amount : ℕ) → GatewayError
  exit_not_ready : (now unlock : ℕ) → GatewayError
  unknown_exit : ℕ → GatewayError
  message_expired : (now expiry : ℕ) → GatewayError
  stale_or_replayed_nonce : (got high_water : ℕ) → GatewayError
  exit_queue_full : (pending cap : ℕ) → GatewayError
  reserve_stale : ℕ → GatewayError
  reserve_reports_not_required : GatewayError
  reserve_report_out_of_window : (at now : ℕ) → GatewayError
  reserve_report_replayed : (at last : ℕ) → GatewayError
  not_globally_paused : GatewayError
  reserve_shortfall : ℕ → GatewayError

-- `From<CodecError>`
abbrev pub from_codec {ℓ} : {A : Type ℓ} → Result CodecError A → Result GatewayError A
from_codec = map_err GatewayError.invalid_fact
