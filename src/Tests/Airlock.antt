-- ===== src/Tests/Airlock.antt =====
-- The airlock's theorem at an envelope with two signatures.
use q_oracle.Base.{ℕ, ◌≡◌, ◌≢◌, refl, none, List, [], ◌∷◌, ◌++◌}
use q_oracle.Base.Lists.{length}
use q_oracle.Base.Result.{ok}
use q_oracle.Codec.Bytes.{from_be_bytes, from_le_bytes, to_be_bytes, to_le_bytes}
use q_oracle.Codec.Errors.{tag, from_tag}
use q_oracle.Codec.Writer
use q_oracle.Codec.Reader
use q_oracle.Codec.Parser
use q_oracle.Codec.Parser.{◌>>=◌, ◌>>◌}
use q_oracle.Codec.Fact.{encode, decode, parse_fact, check_version}
use q_oracle.Airlock.Envelope.{AttestationEnvelope, Artifact}
use q_oracle.Airlock.Parse.{parse, parse_tagged, parse_attestation, parse_signatures}
use q_oracle.Airlock.Parse.Ascending.{IsAscending, parse-IsAscending}
use q_oracle.Tests.Fixtures.{fact}

abbrev signed : AttestationEnvelope
signed = record {
  fact = fact;
  signatures =
      record { operator_id = 1; signature = 9 ∷ [] }
      ∷ record { operator_id = 2; signature = 8 ∷ [] }
      ∷ [];
}

abbrev bytes : List ℕ
bytes =
    1
    ∷ 1
    ∷ (encode fact
        ++ (2 ∷ 0 ∷ 0 ∷ 0 ∷ [])
        ++ (1 ∷ 0 ∷ 0 ∷ 0 ∷ 1 ∷ 0 ∷ 9 ∷ [])
        ++ (2 ∷ 0 ∷ 0 ∷ 0 ∷ 1 ∷ 0 ∷ 8 ∷ []))

parsed : parse bytes ≡ ok (Artifact.attestation signed)
unfolding parse parse_tagged parse_attestation parse_signatures decode parse_fact check_version
    encode Reader.new Reader.advance Reader.slice Reader.u8 Reader.u32 Reader.u64 Reader.u128
    Reader.fixed Reader.array32 Reader.array16 Reader.bytes_u16 Reader.finish Parser.run Parser.pure
    Parser.lift ◌>>=◌ ◌>>◌ Writer.new Writer.finish Writer.fixed Writer.fixed_id Writer.u8
    Writer.u32 Writer.u64 Writer.u128 to_le_bytes to_be_bytes from_le_bytes from_be_bytes tag
    from_tag
parsed = refl

parse-IsAscending_example : IsAscending none signed.signatures × (length signed.signatures ≢ 0)
parse-IsAscending_example = parse-IsAscending bytes signed parsed
