-- ===== src/Desk/Attestation/RoundTrip.antt =====
-- Decoding what `encode` wrote gives the attestation back.
use q_oracle.Base.{ℕ, ◌^◌, ◌<◌, ◌≡◌, ap, List, [], ◌++◌, append_assoc, append-nil, arith}
use q_oracle.Base.Result.{ok, map_err}
use q_oracle.Base.Lists.{length, length-append}
use q_oracle.Codec.Bytes.{to_le_bytes, to_be_bytes, length-to_le_bytes, length-to_be_bytes}
use q_oracle.Codec.Writer
use q_oracle.Codec.Parser.{◌>>◌}
use q_oracle.Codec.Reader.Reads.{
  Consumes, bind-Consumes, finish-Consumes, run-Consumes, u8-Reads, u32-Reads, u64-Reads,
  u128-Reads, array16-Reads, array32-Reads,
}
use q_oracle.Desk.Errors.{ExitError}
use q_oracle.Desk.Attestation.{PayoutAttestation}
use q_oracle.Desk.Attestation.Bytes.{encode, decode, parse}

pub record InRange (a : PayoutAttestation) : Type 0 where
  pub version : a.version < 256
  pub corridor : a.corridor < 256 ^ 4
  pub asset_id : a.asset_id < 256 ^ 16
  pub amount : a.amount < 256 ^ 16
  pub beneficiary : a.beneficiary < 256 ^ 32
  pub burn_ref : a.burn_ref < 256 ^ 32
  pub foreign_ref : a.foreign_ref < 256 ^ 32
  pub proof_height : a.proof_height < 256 ^ 8

abbrev layout : PayoutAttestation → List ℕ
layout a =
    to_le_bytes 1 a.version
    ++ (to_le_bytes 4 a.corridor
        ++ (to_be_bytes 16 a.asset_id
            ++ (to_le_bytes 16 a.amount
                ++ (to_be_bytes 32 a.beneficiary
                    ++ (to_be_bytes 32 a.burn_ref
                        ++ (to_be_bytes 32 a.foreign_ref
                            ++ (to_le_bytes 8 a.proof_height ++ [])))))))

encode-layout : (a : PayoutAttestation) → encode a ≡ layout a
unfolding encode Writer.finish Writer.new Writer.u8 Writer.u32 Writer.u64 Writer.u128
    Writer.fixed_id Writer.fixed
encode-layout a = simp (append_assoc, append-nil)

length-encode : (a : PayoutAttestation) → length (encode a) ≡ 141
length-encode a =
    rw (encode-layout a) (simp (length-append, append-nil, length-to_le_bytes, length-to_be_bytes))

parse-Consumes : (a : PayoutAttestation) → InRange a → Consumes parse a (layout a)
unfolding parse ◌>>◌
parse-Consumes a h = bind-Consumes _ _ (u8-Reads a.version h.version) (
    bind-Consumes _ _ (u32-Reads a.corridor h.corridor) (
      bind-Consumes _ _ (array16-Reads a.asset_id h.asset_id) (
        bind-Consumes _ _ (u128-Reads a.amount h.amount) (
          bind-Consumes _ _ (array32-Reads a.beneficiary h.beneficiary) (
            bind-Consumes _ _ (array32-Reads a.burn_ref h.burn_ref) (
              bind-Consumes _ _ (array32-Reads a.foreign_ref h.foreign_ref) (
                bind-Consumes _ _ (u64-Reads a.proof_height h.proof_height)
                  (finish-Consumes a))))))))

-- A payout attestation whose fields fit their types is encoded in 141 bytes, and decoding these gives it back.
pub attestation_round_trip :
    (a : PayoutAttestation) → InRange a → (length (encode a) ≡ 141) × (decode (encode a) ≡ ok a)
unfolding decode
attestation_round_trip a h = (
  length-encode a,
  ap (map_err ExitError.invalid_artifact) (
      run-Consumes parse a (encode a) (omega (arith, length-encode a))
        (rw (encode-layout a) (parse-Consumes a h))),
)
