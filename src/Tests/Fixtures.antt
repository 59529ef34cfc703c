-- ===== src/Tests/Fixtures.antt =====
-- A gateway of three operators with one open corridor and one asset, and what its operators sign. The signature of
-- a message is one number, the sum of the key, the message and the context.
use q_oracle.Base.{ℕ, ◌+◌, Bool, true, false, some, List, [], ◌∷◌}
use q_oracle.Base.Tests.{◌==◌, ==_iff}
use q_oracle.Codec.Errors.{deposit}
use q_oracle.Codec.Fact.{BridgeFact, attest_preimage, attest_context}
use q_oracle.Airlock.Envelope.{SignerSig, AttestationEnvelope}
use q_oracle.Gateway.Operators.{MlDsa, OperatorSet}
use q_oracle.Gateway.State
use q_oracle.Gateway.State.{Gateway, ExitTicket}
use q_oracle.Gateway.Settings.{register_asset_cap, set_governance}
use q_oracle.Gateway.Corridor.{register_corridor}

abbrev sum : List ℕ → ℕ
sum [] = 0
sum (x ∷ xs) = x + sum xs

abbrev pub seal : ℕ → List ℕ → List ℕ → ℕ
seal key message context = key + (sum message + sum context)

abbrev pub is_seal : ℕ → List ℕ → List ℕ → List ℕ → Bool
is_seal key message [] context = false
is_seal key message (x ∷ xs) context = x == seal key message context

abbrev pub ml : MlDsa ℕ
ml = record { key_eq = λ a b. a == b; key_eq_iff = ==_iff; signature_bytes = 1; verify = is_seal }

abbrev pub sign : ℕ → List ℕ → List ℕ → SignerSig
sign id message context = record {
  operator_id = id;
  signature = seal (id + 10) message context ∷ [];
}

abbrev pub sign_all : List ℕ → List ℕ → List SignerSig
sign_all message context =
    sign 1 message context ∷ sign 2 message context ∷ sign 3 message context ∷ []

abbrev pub set : OperatorSet ℕ
set = record { pubkeys = (1, 11) ∷ (2, 12) ∷ (3, 13) ∷ []; threshold = 3 }

abbrev pub fact : BridgeFact
fact = record {
  version = 1;
  source_chain = 1;
  dest_chain = 7;
  route_id = 1;
  direction = deposit;
  nonce = 1;
  source_ref = 77;
  asset_id = 5;
  amount = 100;
  recipient = 9;
  finality_depth = 6;
  observed_height = 0;
  expiry_height = 50;
}

abbrev pub env : AttestationEnvelope
env = record { fact = fact; signatures = sign_all (attest_preimage 9000 fact) (attest_context 0) }

-- the same reference, for another amount
abbrev pub again : AttestationEnvelope
again = record {
  fact = record fact { amount = 1 };
  signatures = sign_all (attest_preimage 9000 (record fact { amount = 1 })) (attest_context 0);
}

abbrev pub gate : Gateway ℕ
gate =
    set_governance set
      (register_corridor 1 6 (register_asset_cap 5 1000 (State.new 7 9000 set 1000)))

-- at height 10, with some of the asset minted
abbrev pub running : Gateway ℕ
running = record gate {
  current_height = 10;
  per_asset_minted = (5, 100) ∷ [];
  escrowed = (5, 100) ∷ [];
  reserve_max_age = some 100;
}

-- paused since height 3
abbrev pub paused : Gateway ℕ
paused = record running { global_pause = true; global_paused_at = 3 }

-- with the source chain paused since height 3
abbrev pub reorged : Gateway ℕ
reorged = record running { paused_sources = (1, tt) ∷ []; paused_since = (1, 3) ∷ [] }

abbrev pub ticket : ExitTicket
ticket = record { exit_id = 0; asset_id = 5; amount = 30; destination = 4; unlock_height = 10 }

-- with one exit that is ready
abbrev pub leaving : Gateway ℕ
leaving = record running { next_exit_id = 1; pending_exits = (0, ticket) ∷ [] }
