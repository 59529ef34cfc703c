-- ===== src/Gateway/State.antt =====
-- The gateway's state, crates/q-gateway/src/gateway.rs. Heights, nonces and epochs are `u64`, amounts `u128`,
-- chain and operator ids `u32`; assets, references and destinations are byte arrays as big-endian numbers.
use q_oracle.Base.{ℕ, Bool, false, Option, none, List, []}
use q_oracle.Base.Map.{Map, Set}
use q_oracle.Base.Result.{Result, ◌>>=◌}
use q_oracle.Codec.Writer
use q_oracle.Airlock.Envelope.{SignerSig}
use q_oracle.Gateway.Errors.{GatewayError}
use q_oracle.Gateway.Operators
use q_oracle.Gateway.Operators.{OperatorSet}

abbrev pub resume_window : ℕ
resume_window = 600

abbrev pub resume_skew : ℕ
resume_skew = 16

abbrev pub reserve_max_age : ℕ
reserve_max_age = 18000

abbrev pub max_pending_exits : ℕ
max_pending_exits = 65536

abbrev pub base_tier : ℕ
base_tier = 1

abbrev pub watchdog_max_window : ℕ
watchdog_max_window = 7200

abbrev pub watchdog_cooldown : ℕ
watchdog_cooldown = 57600

abbrev pub emergency_freeze_max_window : ℕ
emergency_freeze_max_window = 3024000

pub record CorridorConfig : Type 0 where
  pub confirmation_depth : ℕ
  pub quorum : ℕ
  pub tier : ℕ
  pub active : Bool

pub record ExitTicket : Type 0 where
  pub exit_id : ℕ
  pub asset_id : ℕ
  pub amount : ℕ
  pub destination : ℕ
  pub unlock_height : ℕ

pub record MintReceipt : Type 0 where
  pub asset_id : ℕ
  pub recipient : ℕ
  pub amount : ℕ
  pub source_ref : ℕ
  pub source_chain : ℕ

pub record AdminRecord : Type 0 where
  pub domain : List ℕ
  pub message : List ℕ
  pub signatures : List SignerSig

unfoldable pub action : AdminRecord → Result GatewayError (List ℕ)
action r = do
  w ← Writer.bytes_u16 r.domain Writer.new
  w' ← Writer.bytes_u32 r.message w
  Result.ok (Writer.finish w')

pub record Gateway (K : Type 0) : Type 0 where
  pub chain_id : ℕ
  pub dest_chain_id : ℕ
  pub era : ℕ
  pub operators : OperatorSet K
  pub governance : OperatorSet K
  pub used_refs : Set (ℕ × ℕ)
  pub refs_any_chain : Set ℕ
  pub per_asset_minted : Map ℕ ℕ
  pub escrowed : Map ℕ ℕ
  pub per_asset_cap : Map ℕ ℕ
  pub per_asset_epoch_cap : Map ℕ ℕ
  pub per_asset_epoch_minted : Map ℕ ℕ
  pub epoch_cap : ℕ
  pub epoch_minted : ℕ
  pub current_epoch : ℕ
  pub corridors : Map ℕ CorridorConfig
  pub corridor_cursor : Map ℕ ℕ
  pub paused_sources : Set ℕ
  pub paused_since : Map ℕ ℕ
  pub resumed_at : Map ℕ ℕ
  pub watchdog_last : Map ℕ ℕ
  pub global_pause : Bool
  pub global_paused_at : ℕ
  pub global_resumed_at : ℕ
  pub current_height : ℕ
  pub frozen_until : ℕ
  pub lifted_freeze : ℕ
  pub deposit_frozen_until : ℕ
  pub exit_delay : ℕ
  pub next_exit_id : ℕ
  pub pending_exits : Map ℕ ExitTicket
  pub guard_revision : ℕ
  pub reserve_max_age : Option ℕ
  pub reserve_reported_at : Map ℕ ℕ
  pub audit_seq : ℕ
  pub audit_head : ℕ
  pub admin_records : List AdminRecord

unfoldable pub new : {K : Type 0} → ℕ → ℕ → OperatorSet K → ℕ → Gateway K
new chain_id dest_chain_id operators epoch_cap = record {
  chain_id = chain_id;
  dest_chain_id = dest_chain_id;
  era = 0;
  operators = operators;
  governance = Operators.new 0;
  used_refs = [];
  refs_any_chain = [];
  per_asset_minted = [];
  escrowed = [];
  per_asset_cap = [];
  per_asset_epoch_cap = [];
  per_asset_epoch_minted = [];
  epoch_cap = epoch_cap;
  epoch_minted = 0;
  current_epoch = 0;
  corridors = [];
  corridor_cursor = [];
  paused_sources = [];
  paused_since = [];
  resumed_at = [];
  watchdog_last = [];
  global_pause = false;
  global_paused_at = 0;
  global_resumed_at = 0;
  current_height = 0;
  frozen_until = 0;
  lifted_freeze = 0;
  deposit_frozen_until = 0;
  exit_delay = 0;
  next_exit_id = 0;
  pending_exits = [];
  guard_revision = 0;
  reserve_max_age = none;
  reserve_reported_at = [];
  audit_seq = 0;
  audit_head = 0;
  admin_records = [];
}
