-- ===== src/Gateway/Messages.antt =====
-- The signed messages and their domains, crates/q-gateway/src/gateway.rs. An era is a `[u8; 32]`.
use Prim.Native.String.{String}
use Prim.Native.Char.{code}
use q_oracle.Base.{ℕ, List, [], ◌∷◌}
use q_oracle.Codec.Writer
use q_oracle.Codec.Writer.{◌|>◌}

-- The bytes of an ASCII literal.
abbrev pub bytes : String → List ℕ
bytes String.[] = []
bytes (String.◌∷◌ letter rest) = code letter ∷ bytes rest

unfoldable pub reorg_domain : List ℕ
reorg_domain = bytes "QUANTOVA/Q-ORACLE/REORG/v1"

unfoldable pub resume_domain : List ℕ
resume_domain = bytes "QUANTOVA/Q-ORACLE/RESUME/v1"

unfoldable pub tier_domain : List ℕ
tier_domain = bytes "QUANTOVA/Q-ORACLE/TIER/v1"

unfoldable pub freeze_domain : List ℕ
freeze_domain = bytes "QUANTOVA/Q-ORACLE/FREEZE/v1"

unfoldable pub watchdog_domain : List ℕ
watchdog_domain = bytes "QUANTOVA/Q-ORACLE/WATCHDOG/v1"

unfoldable pub batch_domain : List ℕ
batch_domain = bytes "QUANTOVA/Q-ORACLE/BATCH/v1"

unfoldable pub reserve_domain : List ℕ
reserve_domain = bytes "QUANTOVA/Q-ORACLE/RESERVE/v1"

unfoldable pub unpause_domain : List ℕ
unpause_domain = bytes "QUANTOVA/Q-ORACLE/UNPAUSE/v1"

unfoldable pub lift_domain : List ℕ
lift_domain = bytes "QUANTOVA/Q-ORACLE/LIFT/v1"

unfoldable pub reorg_message : (source_chain fork_depth at_height dest_chain_id era : ℕ) → List ℕ
reorg_message source_chain fork_depth at_height dest_chain_id era = Writer.finish (
    Writer.new
    |> Writer.u32 source_chain
    |> Writer.u32 fork_depth
    |> Writer.u64 at_height
    |> Writer.u64 dest_chain_id
    |> Writer.fixed_id 32 era)

unfoldable pub resume_message : (source_chain at_height dest_chain_id era : ℕ) → List ℕ
resume_message source_chain at_height dest_chain_id era = Writer.finish (
    Writer.new
    |> Writer.u32 source_chain
    |> Writer.u64 at_height
    |> Writer.u64 dest_chain_id
    |> Writer.fixed_id 32 era)

unfoldable pub tier_message : (source_chain proposed dest_chain_id era : ℕ) → List ℕ
tier_message source_chain proposed dest_chain_id era = Writer.finish (
    Writer.new
    |> Writer.u32 source_chain
    |> Writer.u8 proposed
    |> Writer.u64 dest_chain_id
    |> Writer.fixed_id 32 era)

unfoldable pub reserve_message : (asset_id escrowed at_height dest_chain_id era : ℕ) → List ℕ
reserve_message asset_id escrowed at_height dest_chain_id era = Writer.finish (
    Writer.new
    |> Writer.fixed_id 16 asset_id
    |> Writer.u128 escrowed
    |> Writer.u64 at_height
    |> Writer.u64 dest_chain_id
    |> Writer.fixed_id 32 era)

unfoldable pub unpause_message : (at_height dest_chain_id era : ℕ) → List ℕ
unpause_message at_height dest_chain_id era =
    Writer.finish
      (Writer.new |> Writer.u64 at_height |> Writer.u64 dest_chain_id |> Writer.fixed_id 32 era)

unfoldable pub freeze_message_for_era : (until_height dest_chain_id era : ℕ) → List ℕ
freeze_message_for_era until_height dest_chain_id era =
    Writer.finish
      (Writer.new |> Writer.u64 until_height |> Writer.u64 dest_chain_id |> Writer.fixed_id 32 era)

unfoldable pub lift_message : (frozen_until dest_chain_id era : ℕ) → List ℕ
lift_message frozen_until dest_chain_id era =
    Writer.finish
      (Writer.new |> Writer.u64 frozen_until |> Writer.u64 dest_chain_id |> Writer.fixed_id 32 era)

unfoldable pub batch_message : (source_chain batch_index dest_chain_id era : ℕ) → List ℕ
batch_message source_chain batch_index dest_chain_id era = Writer.finish (
    Writer.new
    |> Writer.u32 source_chain
    |> Writer.u64 batch_index
    |> Writer.u64 dest_chain_id
    |> Writer.fixed_id 32 era)
