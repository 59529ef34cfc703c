-- ===== src/Tests/Desk/Acks.antt =====
-- The acknowledgement of an exit by three operators.
use q_oracle.Base.{ℕ, ◌≤◌, ◌≡◌, refl, true, List, [], ◌∷◌}
use q_oracle.Base.Lists.{length, any, All}
use q_oracle.Base.Result.{ok}
use q_oracle.Base.Map
use q_oracle.Codec.Bytes
use q_oracle.Desk.Outbound
use q_oracle.Desk.Outbound.{ExitDecision, ExitOutcome, ack_preimage, exit_ack_context}
use q_oracle.Desk.Outbound.Quorum
use q_oracle.Desk.Outbound.Quorum.{ExitEnvelope, AckOperator, verify_ack_quorum}
use q_oracle.Desk.Outbound.Quorum.Sound.{IsDistinct, votes, verify_ack_quorum_sound}
use q_oracle.Tests.Fixtures.{ml, sign_all}

abbrev decision : ExitDecision
decision = record {
  version = 1;
  corridor = 7;
  dest_chain = 1;
  asset_id = 5;
  amount = 100;
  holder = 9;
  destination = 4;
  burn_ref = 77;
  outcome = ExitOutcome.settle;
}

abbrev envelope : ExitEnvelope
envelope = record {
  decision = decision;
  signatures = sign_all (ack_preimage 5 decision) (exit_ack_context 0);
}

abbrev operators : List (AckOperator ℕ)
operators =
    record { operator_id = 1; public_key = 11 }
    ∷ record { operator_id = 2; public_key = 12 }
    ∷ record { operator_id = 3; public_key = 13 }
    ∷ []

accepted : verify_ack_quorum ml envelope operators 5 0 3 ≡ ok 3
unfolding Quorum.verify_ack_quorum Quorum.ack_floor Quorum.count_signers Quorum.count_signer
    Quorum.count_key Quorum.find_operator Outbound.well_formed Outbound.ack_preimage Outbound.encode
    Outbound.tag Outbound.exit_ack_context Bytes.to_le_bytes Bytes.to_be_bytes Map.insert Map.lookup
    Map.contains_key
accepted = refl

verify_ack_quorum_sound_example :
    (Outbound.well_formed decision ≡ true)
    × (Quorum.ack_floor (length operators) ≤ 3)
    × ((keys : List ℕ) × IsDistinct ml keys
        × All
            (λ k.
              any
                (votes ml operators (ack_preimage 5 decision) (exit_ack_context 0) k)
                envelope.signatures
              ≡ true)
            keys
        × (3 ≤ length keys)
        × (3 ≡ length keys))
verify_ack_quorum_sound_example = verify_ack_quorum_sound ml envelope operators 5 0 3 3 accepted
