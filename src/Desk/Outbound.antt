-- ===== src/Desk/Outbound.antt =====
-- The exit decisions of crates/q-exits/src/outbound.rs, and their bytes.
pub mod Quorum
use q_oracle.Base.{ℕ, Bool, true, false, ◌&&◌, not, Option, none, some, List, [], ◌∷◌, ◌++◌}
use q_oracle.Base.Tests.{◌==◌, if◌then◌else◌}
use q_oracle.Base.Lists.{length}
use q_oracle.Codec.Bytes.{to_le_bytes, to_be_bytes}
use q_oracle.Desk.Statement.{ExitStatement}

-- b"QUANTOVA/Q-ORACLE/EXIT-ACK/v1"
abbrev pub exit_ack_domain : List ℕ
exit_ack_domain =
    b'Q' ∷ b'U' ∷ b'A' ∷ b'N' ∷ b'T' ∷ b'O' ∷ b'V' ∷ b'A' ∷ b'/' ∷ b'Q' ∷ b'-' ∷ b'O' ∷ b'R' ∷ b'A'
    ∷ b'C' ∷ b'L' ∷ b'E' ∷ b'/' ∷ b'E' ∷ b'X' ∷ b'I' ∷ b'T' ∷ b'-' ∷ b'A' ∷ b'C' ∷ b'K' ∷ b'/'
    ∷ b'v' ∷ b'1' ∷ []

unfoldable pub exit_ack_context : ℕ → List ℕ
exit_ack_context era = exit_ack_domain ++ to_be_bytes 32 era

abbrev pub exit_fact_version : ℕ
exit_fact_version = 1

abbrev pub exit_fact_encoded_len : ℕ
exit_fact_encoded_len = 138

abbrev pub artifact_exit_ack : ℕ
artifact_exit_ack = 3

abbrev pub envelope_version : ℕ
envelope_version = 1

pub data ExitOutcome : Type 0 where
  settle slash : ExitOutcome

unfoldable pub tag : ExitOutcome → ℕ
tag ExitOutcome.settle = 1
tag ExitOutcome.slash = 2

unfoldable pub from_tag : ℕ → Option ExitOutcome
from_tag t =
    if t == 1 then some ExitOutcome.settle else if t == 2 then some ExitOutcome.slash else none

pub record ExitDecision : Type 0 where
  pub version : ℕ
  pub corridor : ℕ
  pub dest_chain : ℕ
  pub asset_id : ℕ
  pub amount : ℕ
  pub holder : ℕ
  pub destination : ℕ
  pub burn_ref : ℕ
  pub outcome : ExitOutcome

-- `ExitDecision::settle` and `ExitDecision::slash`, which differ in the outcome
unfoldable pub decide : ExitOutcome → ExitStatement → ℕ → ExitDecision
decide outcome s dest_chain = record {
  version = exit_fact_version;
  corridor = s.corridor;
  dest_chain = dest_chain;
  asset_id = s.asset_id;
  amount = s.amount;
  holder = s.holder;
  destination = s.destination;
  burn_ref = s.burn_ref;
  outcome = outcome;
}

unfoldable pub encode : ExitDecision → List ℕ
encode d =
    to_le_bytes 1 d.version
    ++ (to_le_bytes 4 d.corridor
        ++ (to_le_bytes 4 d.dest_chain
            ++ (to_be_bytes 16 d.asset_id
                ++ (to_le_bytes 16 d.amount
                    ++ (to_be_bytes 32 d.holder
                        ++ (to_be_bytes 32 d.destination
                            ++ (to_be_bytes 32 d.burn_ref ++ to_le_bytes 1 (tag d.outcome))))))))

unfoldable pub ack_preimage : ℕ → ExitDecision → List ℕ
ack_preimage chain_id d = exit_ack_domain ++ (encode d ++ to_le_bytes 8 chain_id)

unfoldable pub well_formed : ExitDecision → Bool
well_formed d =
    d.version == exit_fact_version
    && not (d.corridor == 0)
    && not (d.dest_chain == 0)
    && not (d.amount == 0)
    && not (d.asset_id == 0)
    && not (d.holder == 0)
    && not (d.destination == 0)
    && not (d.burn_ref == 0)
