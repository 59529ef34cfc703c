-- ===== src/Desk/Qtv.antt =====
-- What crates/q-exits calls of the qtv crates, which are not part of the repository: blocks, certificates,
-- committees, hashing and their codec.
use q_oracle.Base.{ℕ, Bool, List, Option}

-- `qtv_attest::committee::MemberKey`, with the root of its one-time keys
pub record MemberKey : Type 0 where
  pub id : ℕ
  pub weight : ℕ
  pub stake : ℕ
  pub root_digest : ℕ
  pub root_slots : ℕ
  pub attest_pk : List ℕ

-- Blocks `Header` with proofs of inclusion, certificates, committee commitments and beacons.
pub record Qtv (Header Certificate Inclusion Commitment Beacon : Type 0) : Type 0 where
  pub header_from_bytes : List ℕ → Option Header
  pub hash : Header → ℕ
  pub height : Header → ℕ
  pub event_root : Header → ℕ
  pub verify_inclusion : ℕ → List ℕ → Inclusion → Bool
  pub block_val : Certificate → ℕ
  pub block_height : Certificate → ℕ
  pub envelope_height : Certificate → ℕ
  pub slot : Certificate → ℕ
  pub attesters : Certificate → List ℕ
  -- `verify_with_trusted_commitment(..).is_verified()`; the binding is a chain id and a genesis hash
  pub verified : ℕ × ℕ → Commitment → Beacon → ℕ → Certificate → Bool
  pub commitment_from : ℕ → List MemberKey → ℕ → Commitment
  pub commitment_slot : Commitment → ℕ
  pub beacon_from_seed : ℕ → Beacon
  pub finality_threshold : ℕ → ℕ
  pub public_key_bytes : ℕ
  pub sha3_256 : List ℕ → ℕ

-- `qtv_codec`: a decoder of a byte string, and an encoder.
pub record QtvCodec (Decoder Encoder : Type 0) : Type 0 where
  pub decoder : List ℕ → Decoder
  pub get_bytes : Decoder → Option (List ℕ × Decoder)
  pub get_u64 : Decoder → Option (ℕ × Decoder)
  pub get_u128 : Decoder → Option (ℕ × Decoder)
  pub remaining : Decoder → ℕ
  pub finish : Decoder → Bool
  pub encoder : Encoder
  pub put_bytes : List ℕ → Encoder → Encoder
  pub put_u64 : ℕ → Encoder → Encoder
  pub put_u128 : ℕ → Encoder → Encoder
  pub into_bytes : Encoder → List ℕ
