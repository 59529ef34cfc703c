-- ===== src/Airlock/Encode.antt =====
-- The encoders of crates/q-airlock/src/lib.rs. A signature whose length does not fit its prefix aborts.
pub mod RoundTrip
use q_oracle.Base.{ℕ, List, [], ◌∷◌}
use q_oracle.Base.Tests.{leb, if◌then◌else◌}
use q_oracle.Base.Lists.{length}
use q_oracle.Base.Result.{Result, ok, ◌>>=◌}
use q_oracle.Codec.Writer
use q_oracle.Codec.Writer.{Writer, ◌|>◌}
use q_oracle.Codec.Fact.{encode}
use q_oracle.Airlock.Envelope.{SignerSig, AttestationEnvelope, StarkEnvelope, AirlockError}
use q_oracle.Airlock.Parse.{artifact_attestation, artifact_stark, envelope_version}

-- `sort_by_key`, which keeps the order of equal keys
unfoldable pub insert_by_id : SignerSig → List SignerSig → List SignerSig
insert_by_id s [] = s ∷ []
insert_by_id s (t ∷ sigs) =
    if leb s.operator_id t.operator_id then s ∷ t ∷ sigs else t ∷ insert_by_id s sigs

unfoldable pub sort_by_id : List SignerSig → List SignerSig
sort_by_id [] = []
sort_by_id (s ∷ sigs) = insert_by_id s (sort_by_id sigs)

-- The loop over the signatures.
unfoldable pub encode_signatures : List SignerSig → Writer → Result AirlockError Writer
encode_signatures [] w = ok w
encode_signatures (s ∷ sigs) w =
    Writer.bytes_u16 s.signature (w |> Writer.u32 s.operator_id) >>= λ w'. encode_signatures sigs w'

unfoldable pub encode_attestation : AttestationEnvelope → Result AirlockError (List ℕ)
encode_attestation env = do
  let sigs = sort_by_id env.signatures
  let head =
      Writer.new
      |> Writer.u8 artifact_attestation
      |> Writer.u8 envelope_version
      |> Writer.fixed (encode env.fact)
      |> Writer.u32 (length sigs)
  w ← encode_signatures sigs head
  ok (Writer.finish w)

unfoldable pub encode_stark : StarkEnvelope → Result AirlockError (List ℕ)
encode_stark env = do
  let head = Writer.new |> Writer.u8 artifact_stark |> Writer.fixed_id 32 env.statement_digest
  w ← Writer.bytes_u32 env.proof head
  ok (Writer.finish w)
