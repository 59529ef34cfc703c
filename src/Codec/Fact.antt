-- ===== src/Codec/Fact.antt =====
-- `BridgeFact` of crates/q-codec/src/lib.rs. `AssetId`, `SourceRef` and `Recipient` wrap byte arrays and
-- are kept as their big-endian numbers, so an array of zeros is 0.
pub mod RoundTrip
pub mod Canonical
pub mod Validate
use q_oracle.Base.{ℕ, Bool, true, false, ◌&&◌, ◌||◌, not, List, [], ◌∷◌, ◌++◌}
use q_oracle.Base.Tests.{◌==◌, if◌then◌else◌}
use q_oracle.Base.Result.{Result, ok, err}
use q_oracle.Base.Result
use q_oracle.Codec.Bytes.{to_be_bytes}
use q_oracle.Codec.Errors.{
  CodecError, Direction, deposit, exit_ack, tag, from_tag, bad_version, zero_amount, zero_asset,
  zero_recipient, zero_source_ref, zero_chain,
}
use q_oracle.Codec.Writer
use q_oracle.Codec.Writer.{◌|>◌}
use q_oracle.Codec.Reader
use q_oracle.Codec.Parser
use q_oracle.Codec.Parser.{◌>>=◌, ◌>>◌}

-- b"QUANTOVA/Q-ORACLE/ATTEST/v1"
abbrev pub attest_domain : List ℕ
attest_domain =
    b'Q' ∷ b'U' ∷ b'A' ∷ b'N' ∷ b'T' ∷ b'O' ∷ b'V' ∷ b'A' ∷ b'/' ∷ b'Q' ∷ b'-' ∷ b'O' ∷ b'R' ∷ b'A'
    ∷ b'C' ∷ b'L' ∷ b'E' ∷ b'/' ∷ b'A' ∷ b'T' ∷ b'T' ∷ b'E' ∷ b'S' ∷ b'T' ∷ b'/' ∷ b'v' ∷ b'1' ∷ []

-- The era is a `[u8; 32]`.
unfoldable pub attest_context : ℕ → List ℕ
attest_context era = attest_domain ++ to_be_bytes 32 era

abbrev pub fact_version : ℕ
fact_version = 1

abbrev pub fact_encoded_len : ℕ
fact_encoded_len = 138

pub record BridgeFact : Type 0 where
  pub version : ℕ
  pub source_chain : ℕ
  pub dest_chain : ℕ
  pub route_id : ℕ
  pub direction : Direction
  pub nonce : ℕ
  pub source_ref : ℕ
  pub asset_id : ℕ
  pub amount : ℕ
  pub recipient : ℕ
  pub finality_depth : ℕ
  pub observed_height : ℕ
  pub expiry_height : ℕ

unfoldable pub encode : BridgeFact → List ℕ
encode f = Writer.finish (
    Writer.new
    |> Writer.u8 f.version
    |> Writer.u32 f.source_chain
    |> Writer.u32 f.dest_chain
    |> Writer.u32 f.route_id
    |> Writer.u8 (tag f.direction)
    |> Writer.u64 f.nonce
    |> Writer.fixed_id 32 f.source_ref
    |> Writer.fixed_id 16 f.asset_id
    |> Writer.u128 f.amount
    |> Writer.fixed_id 32 f.recipient
    |> Writer.u32 f.finality_depth
    |> Writer.u64 f.observed_height
    |> Writer.u64 f.expiry_height)

unfoldable pub check_version : ℕ → Result CodecError (Unit {0})
check_version v = Result.fail_if (not (v == fact_version)) (bad_version v)

unfoldable pub parse_fact : Reader.Parser BridgeFact
parse_fact = do
  version ← Reader.u8
  Parser.lift (check_version version)
  source_chain ← Reader.u32
  dest_chain ← Reader.u32
  route_id ← Reader.u32
  direction_tag ← Reader.u8
  direction ← Parser.lift (from_tag direction_tag)
  nonce ← Reader.u64
  source_ref ← Reader.array32
  asset_id ← Reader.array16
  amount ← Reader.u128
  recipient ← Reader.array32
  finality_depth ← Reader.u32
  observed_height ← Reader.u64
  expiry_height ← Reader.u64
  Reader.finish
  Parser.pure (record {
    version = version;
    source_chain = source_chain;
    dest_chain = dest_chain;
    route_id = route_id;
    direction = direction;
    nonce = nonce;
    source_ref = source_ref;
    asset_id = asset_id;
    amount = amount;
    recipient = recipient;
    finality_depth = finality_depth;
    observed_height = observed_height;
    expiry_height = expiry_height;
  })

unfoldable pub decode : List ℕ → Result CodecError BridgeFact
decode = Parser.run parse_fact

abbrev is_deposit : Direction → Bool
is_deposit deposit = true
is_deposit exit_ack = false

unfoldable pub is_zero : BridgeFact → Bool
is_zero f =
    f.source_chain == 0
    && f.dest_chain == 0
    && f.route_id == 0
    && is_deposit f.direction
    && f.nonce == 0
    && f.source_ref == 0
    && f.asset_id == 0
    && f.amount == 0
    && f.recipient == 0
    && f.finality_depth == 0
    && f.observed_height == 0
    && f.expiry_height == 0

unfoldable pub attest_preimage : ℕ → BridgeFact → List ℕ
attest_preimage dest_chain_id f = Writer.finish (
    Writer.new |> Writer.fixed attest_domain |> Writer.fixed (encode f) |> Writer.u64 dest_chain_id)

unfoldable pub validate : BridgeFact → Result CodecError (Unit {0})
validate f =
    if not (f.version == fact_version)
    then err (bad_version f.version)
    else if f.source_chain == 0 || f.dest_chain == 0
    then err zero_chain
    else if f.amount == 0
    then err zero_amount
    else if f.asset_id == 0
    then err zero_asset
    else if f.recipient == 0
    then err zero_recipient
    else if f.source_ref == 0
    then err zero_source_ref
    else ok tt
