-- ===== src/Tests/Codec.antt =====
-- The codec's theorems at a concrete fact.
use q_oracle.Base.{ℕ, ◌≡◌, ◌↔◌, refl, arith}
use q_oracle.Base.Lists.{All}
use q_oracle.Base.Result.{ok}
use q_oracle.Codec.Bytes.{IsByte, to_be_bytes, to_le_bytes}
use q_oracle.Codec.Errors.{tag}
use q_oracle.Codec.Writer
use q_oracle.Codec.Fact.{encode, decode, validate, fact_version}
use q_oracle.Codec.Fact.RoundTrip.{InRange, decode-encode, length-encode}
use q_oracle.Codec.Fact.Canonical.{encode-decode}
use q_oracle.Codec.Fact.Validate.{IsValid, validate-IsValid, attest_preimage-injective}
use q_oracle.Tests.Fixtures.{fact}

pub fact-InRange : InRange fact
fact-InRange = record {
  version = omega arith;
  source_chain = omega arith;
  dest_chain = omega arith;
  route_id = omega arith;
  nonce = omega arith;
  source_ref = omega arith;
  asset_id = omega arith;
  amount = omega arith;
  recipient = omega arith;
  finality_depth = omega arith;
  observed_height = omega arith;
  expiry_height = omega arith;
}

decode-encode_example : decode (encode fact) ≡ ok fact
decode-encode_example = decode-encode fact fact-InRange refl

encoded_bytes : All IsByte (encode fact)
unfolding encode Writer.new Writer.finish Writer.fixed Writer.fixed_id Writer.u8 Writer.u32
    Writer.u64 Writer.u128 to_le_bytes to_be_bytes tag
encoded_bytes = ground arith

encode-decode_example : (encode fact ≡ encode fact) × (fact.version ≡ fact_version)
encode-decode_example =
    encode-decode (encode fact) fact (omega (arith, length-encode fact)) encoded_bytes
      decode-encode_example

validate-IsValid_example : (validate fact ≡ ok tt) ↔ IsValid fact
validate-IsValid_example = validate-IsValid fact

attest_preimage-injective_example : (fact ≡ fact) × ◌≡◌ {A = ℕ} 9000 9000
attest_preimage-injective_example =
    attest_preimage-injective 9000 9000 fact fact (omega arith) (omega arith) fact-InRange
      fact-InRange refl refl refl
