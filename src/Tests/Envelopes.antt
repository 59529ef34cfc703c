-- ===== src/Tests/Envelopes.antt =====
-- An attestation is encoded and parsed.
use q_oracle.Base.{◌≡◌, refl, [], ◌∷◌, arith}
use q_oracle.Base.Result.{ok, ◌>>=◌}
use q_oracle.Airlock.Envelope.{AttestationEnvelope, Artifact}
use q_oracle.Airlock.Parse.{parse}
use q_oracle.Airlock.Encode.{encode_attestation}
use q_oracle.Airlock.Encode.RoundTrip.{parse-encode_attestation}
use q_oracle.Tests.Fixtures.{fact}
use q_oracle.Tests.Codec.{fact-InRange}

abbrev signed : AttestationEnvelope
signed = record {
  fact = fact;
  signatures =
      record { operator_id = 1; signature = 9 ∷ [] }
      ∷ record { operator_id = 2; signature = 8 ∷ 7 ∷ [] }
      ∷ [];
}

parse-encode_attestation_example :
    (encode_attestation signed >>= parse) ≡ ok (Artifact.attestation signed)
parse-encode_attestation_example =
    parse-encode_attestation signed fact-InRange refl (tt, (omega arith, tt))
      ((omega arith, omega arith), ((omega arith, omega arith), tt)) (omega arith) (omega arith)
