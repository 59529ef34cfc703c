-- ===== src/Airlock/Envelope.antt =====
-- The types of crates/q-airlock/src/lib.rs.
use q_oracle.Base.{ℕ, List}
use q_oracle.Codec.Errors.{CodecError}
use q_oracle.Codec.Fact.{BridgeFact}

pub record SignerSig : Type 0 where
  pub operator_id : ℕ
  pub signature : List ℕ

pub record AttestationEnvelope : Type 0 where
  pub fact : BridgeFact
  pub signatures : List SignerSig

pub record StarkEnvelope : Type 0 where
  pub statement_digest : ℕ
  pub proof : List ℕ

pub data Artifact : Type 0 where
  attestation : AttestationEnvelope → Artifact
  stark : StarkEnvelope → Artifact

pub data AirlockError : Type 0 where
  unparseable bad_version non_canonical : AirlockError
  codec : CodecError → AirlockError
