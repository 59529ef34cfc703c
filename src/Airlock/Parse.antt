-- ===== src/Airlock/Parse.antt =====
-- `parse` of crates/q-airlock/src/lib.rs: the bytes of an attestation or of a proof, in canonical form.
pub mod Ascending
use q_oracle.Base.{
  ℕ, zero, suc, ◌+◌, ◌<◌, ◌≡◌, ◌≢◌, refl, Bool, true, false, not, Option, none, some, List, [], ◌∷◌,
  arith,
}
use q_oracle.Base.Tests.{◌==◌, leb, if◌then◌else◌}
use q_oracle.Base.Result.{Result, ok, err, panic, ◌>>=◌, ◌>>◌, fail_if, map_err}
use q_oracle.Codec.Reader
use q_oracle.Codec.Reader.{Reader}
use q_oracle.Codec.Fact.{BridgeFact, decode, fact_encoded_len, fact_version}
use q_oracle.Airlock.Envelope.{
  SignerSig, AttestationEnvelope, StarkEnvelope, Artifact, AirlockError, unparseable, bad_version,
  non_canonical, codec,
}

abbrev pub artifact_attestation : ℕ
artifact_attestation = 1

abbrev pub artifact_stark : ℕ
artifact_stark = 2

abbrev pub envelope_version : ℕ
envelope_version = 1

-- `if let Some(prev) = last_id { operator_id <= prev }`
abbrev pub out_of_order : ℕ → Option ℕ → Bool
out_of_order operator_id none = false
out_of_order operator_id (some prev) = leb operator_id prev

-- The loop `for _ in 0..count`.
unfoldable pub parse_signatures :
    ℕ → Option ℕ → Reader → Result AirlockError (List SignerSig × Reader)
parse_signatures zero last_id r = ok ([], r)
parse_signatures (suc count) last_id r = do
  (operator_id, r) ← map_err codec (Reader.u32 r)
  fail_if (out_of_order operator_id last_id) non_canonical
  (signature, r) ← map_err codec (Reader.bytes_u16 r)
  (rest, r) ← parse_signatures count (some operator_id) r
  ok (record { operator_id = operator_id; signature = signature } ∷ rest, r)

unfoldable pub parse_attestation : Reader → Result AirlockError AttestationEnvelope
parse_attestation r = do
  (version, r) ← map_err codec (Reader.u8 r)
  fail_if (not (version == envelope_version)) bad_version
  (fact_bytes, r) ← map_err codec (Reader.fixed fact_encoded_len r)
  fact ← map_err codec (decode fact_bytes)
  (count, r) ← map_err codec (Reader.u32 r)
  fail_if (count == 0) non_canonical
  (signatures, r) ← parse_signatures count none r
  (_, _) ← map_err codec (Reader.finish r)
  ok (record { fact = fact; signatures = signatures })

unfoldable pub parse_stark : Reader → Result AirlockError StarkEnvelope
parse_stark r = do
  (statement_digest, r) ← map_err codec (Reader.array32 r)
  (proof, r) ← map_err codec (Reader.bytes_u32 r)
  (_, _) ← map_err codec (Reader.finish r)
  ok (record { statement_digest = statement_digest; proof = proof })

-- The artifact that a tag announces.
unfoldable pub parse_tagged : ℕ → Reader → Result AirlockError Artifact
parse_tagged tag r =
    if tag == artifact_attestation
    then (parse_attestation r >>= λ env. ok (Artifact.attestation env))
    else if tag == artifact_stark
    then (parse_stark r >>= λ env. ok (Artifact.stark env))
    else err unparseable

unfoldable pub parse : List ℕ → Result AirlockError Artifact
parse input = do
  (tag, r) ← map_err (λ _. unparseable) (Reader.u8 (Reader.new input))
  parse_tagged tag r
