-- ===== src/Desk/Attestation/Bytes.antt =====
-- `encode`, `decode` and `digest` of `PayoutAttestation`, crates/q-exits/src/payout.rs.
use q_oracle.Base.{ℕ, List}
use q_oracle.Base.Result.{Result, map_err}
use q_oracle.Codec.Writer
use q_oracle.Codec.Writer.{◌|>◌}
use q_oracle.Codec.Reader
use q_oracle.Codec.Parser
use q_oracle.Codec.Parser.{◌>>=◌, ◌>>◌}
use q_oracle.Desk.Errors.{ExitError}
use q_oracle.Desk.Attestation.{PayoutAttestation, payout_domain}

unfoldable pub encode : PayoutAttestation → List ℕ
encode a = Writer.finish (
    Writer.new
    |> Writer.u8 a.version
    |> Writer.u32 a.corridor
    |> Writer.fixed_id 16 a.asset_id
    |> Writer.u128 a.amount
    |> Writer.fixed_id 32 a.beneficiary
    |> Writer.fixed_id 32 a.burn_ref
    |> Writer.fixed_id 32 a.foreign_ref
    |> Writer.u64 a.proof_height)

unfoldable pub parse : Reader.Parser PayoutAttestation
parse = do
  version ← Reader.u8
  corridor ← Reader.u32
  asset_id ← Reader.array16
  amount ← Reader.u128
  beneficiary ← Reader.array32
  burn_ref ← Reader.array32
  foreign_ref ← Reader.array32
  proof_height ← Reader.u64
  Reader.finish
  Parser.pure (record {
    version = version;
    corridor = corridor;
    asset_id = asset_id;
    amount = amount;
    beneficiary = beneficiary;
    burn_ref = burn_ref;
    foreign_ref = foreign_ref;
    proof_height = proof_height;
  })

unfoldable pub decode : List ℕ → Result ExitError PayoutAttestation
decode input = map_err ExitError.invalid_artifact (Parser.run parse input)

-- SHAKE256 with 32 bytes of output is a parameter.
unfoldable pub digest : (List ℕ → ℕ) → PayoutAttestation → ℕ
digest shake256_256 a =
    shake256_256
      (Writer.finish (Writer.new |> Writer.fixed payout_domain |> Writer.fixed (encode a)))
