-- ===== src/Desk/Outbound/Quorum.antt =====
-- `ExitEnvelope` and `verify_ack_quorum` of crates/q-exits/src/outbound.rs. `SignerSig` has the fields of the
-- airlock's; the set of counted keys is a list without repetitions.
pub mod Sound
use q_oracle.Base.{
  ℕ, ◌+◌, ◌/◌, max, Bool, true, false, ◌&&◌, not, Option, none, some, List, [], ◌∷◌, ◌++◌,
}
use q_oracle.Base.Tests.{ltb, ◌==◌, if◌then◌else◌}
use q_oracle.Base.Lists.{length, any}
use q_oracle.Base.Words.{sat_mul_u64}
use q_oracle.Base.Result.{Result, ok, err, fail_if, ◌>>=◌, ◌>>◌}
use q_oracle.Base.Map.{Set, contains, add, nat_key}
use q_oracle.Codec.Bytes.{to_le_bytes}
use q_oracle.Airlock.Envelope.{SignerSig}
use q_oracle.Gateway.Operators.{MlDsa}
use q_oracle.Desk.Outbound.{
  ExitDecision, encode, ack_preimage, well_formed, exit_ack_context, artifact_exit_ack,
  envelope_version,
}

pub record ExitEnvelope : Type 0 where
  pub decision : ExitDecision
  pub signatures : List SignerSig

unfoldable pub encode_signers : List SignerSig → List ℕ
encode_signers [] = []
encode_signers (s ∷ signers) =
    to_le_bytes 4 s.operator_id
    ++ (to_le_bytes 2 (length s.signature) ++ (s.signature ++ encode_signers signers))

unfoldable pub encode_envelope : ExitEnvelope → List ℕ
encode_envelope e =
    artifact_exit_ack
    ∷ envelope_version
    ∷ (encode e.decision ++ (to_le_bytes 4 (length e.signatures) ++ encode_signers e.signatures))

abbrev pub exit_ack_quorum_min : ℕ
exit_ack_quorum_min = 2

pub record AckOperator (K : Type 0) : Type 0 where
  pub operator_id : ℕ
  pub public_key : K

pub data ExitAckError : Type 0 where
  thin_threshold : (threshold floor : ℕ) → ExitAckError
  malformed : ExitAckError
  below_threshold : (got need : ℕ) → ExitAckError

-- The loop's variables.
pub record Count (K : Type 0) : Type 0 where
  pub distinct : Set ℕ
  pub counted_keys : List K

unfoldable pub ack_floor : ℕ → ℕ
ack_floor operators = max exit_ack_quorum_min (sat_mul_u64 operators 2 / 3 + 1)

module _ {K : Type 0} where
  unfoldable pub find_operator : ℕ → List (AckOperator K) → Option (AckOperator K)
  find_operator id [] = none
  find_operator id (o ∷ operators) =
      if o.operator_id == id then some o else find_operator id operators

module _ {K : Type 0} (ml : MlDsa K) (operators : List (AckOperator K))
    (preimage context : List ℕ) where
  -- a signature that is looked at, of a known operator
  unfoldable pub count_key : Count K → SignerSig → K → Count K
  count_key c s key =
      if not (length s.signature == ml.signature_bytes)
      then c
      else if any (ml.key_eq key) c.counted_keys
      then c
      else if ml.verify key preimage s.signature context
      then record {
        distinct = add s.operator_id c.distinct;
        counted_keys = c.counted_keys ++ key ∷ [];
      }
      else c

  -- one round of the loop
  unfoldable pub count_signer : Count K → SignerSig → Count K
  count_signer c s =
      if contains s.operator_id c.distinct
      then c
      else elim (find_operator s.operator_id operators) [
        | none ↦ c
        | some operator ↦ count_key c s operator.public_key
      ]

  unfoldable pub count_signers : Count K → List SignerSig → Count K
  count_signers c [] = c
  count_signers c (s ∷ signers) = count_signers (count_signer c s) signers

module _ {K : Type 0} (ml : MlDsa K) where
  unfoldable pub verify_ack_quorum :
      ExitEnvelope → List (AckOperator K) → (chain_id era threshold : ℕ) → Result ExitAckError ℕ
  verify_ack_quorum envelope operators chain_id era threshold = do
    let floor = ack_floor (length operators)
    fail_if (ltb threshold floor) (thin_threshold threshold floor)
    fail_if (not (well_formed envelope.decision)) malformed
    fail_if (ltb (length operators) (length envelope.signatures)) malformed
    let count =
        count_signers ml operators (ack_preimage chain_id envelope.decision) (exit_ack_context era)
          (record { distinct = []; counted_keys = [] }) envelope.signatures
    fail_if (ltb (length count.counted_keys) threshold)
        (below_threshold (length count.counted_keys) threshold)
    ok (length count.distinct)
