-- ===== src/Gateway/Deposit/Checks.antt =====
-- What a deposit must pass, crates/q-gateway/src/gateway.rs.
use q_oracle.Base.{ℕ, Bool, true, false, not, ◌||◌, List, [], ◌∷◌}
use q_oracle.Base.Tests.{ltb, ◌==◌}
use q_oracle.Base.Lists.{length}
use q_oracle.Base.Words.{checked_add_u128}
use q_oracle.Base.Result.{Result, ok, ◌>>=◌, ◌>>◌, fail_if, ok_or}
use q_oracle.Base.Map.{lookup, contains, nat_key, pair_key}
use q_oracle.Codec.Errors.{Direction, deposit, exit_ack}
use q_oracle.Codec.Fact.{BridgeFact, is_zero, validate, attest_preimage, attest_context}
use q_oracle.Airlock.Envelope.{SignerSig, AttestationEnvelope}
use q_oracle.Gateway.Errors.{GatewayError, from_codec}
use q_oracle.Gateway.Operators.{MlDsa, size, verify_quorum}
use q_oracle.Gateway.State.{Gateway, CorridorConfig}
use q_oracle.Gateway.Reserve.Checks.{outstanding_of, charge_asset_epoch}
use q_oracle.Gateway.Corridor.Checks.{required}
use q_oracle.Gateway.Freeze.Checks.{mint_freeze_horizon}

abbrev pub is_exit : Direction → Bool
is_exit deposit = false
is_exit exit_ack = true

module _ {K : Type 0} where
  -- The supply cap and the epoch budget; the escrow and the asset's own epoch budget come after.
  unfoldable pub check_cap : ℕ → ℕ → Gateway K → Result GatewayError (Unit {0})
  check_cap asset_id amount g = do
    cap ← ok_or (lookup asset_id g.per_asset_cap) GatewayError.asset_not_registered
    let outstanding = outstanding_of asset_id g
    let e = GatewayError.asset_cap_exceeded outstanding cap amount
    after ← ok_or (checked_add_u128 outstanding amount) e
    fail_if (ltb cap after) e

  unfoldable pub check_epoch : ℕ → Gateway K → Result GatewayError (Unit {0})
  check_epoch amount g = do
    let e = GatewayError.epoch_cap_exceeded g.epoch_minted g.epoch_cap amount
    after ← ok_or (checked_add_u128 g.epoch_minted amount) e
    fail_if (ltb g.epoch_cap after) e

  unfoldable pub check_open : Gateway K → Result GatewayError (Unit {0})
  check_open g = do
    fail_if g.global_pause GatewayError.global_pause
    fail_if (ltb g.current_height (mint_freeze_horizon g))
        (GatewayError.frozen (mint_freeze_horizon g))

  unfoldable pub precheck_trustless : ℕ → ℕ → ℕ → ℕ → Gateway K → Result GatewayError (Unit {0})
  precheck_trustless asset_id source_ref amount source_chain g = do
    check_open g
    fail_if (contains source_chain g.paused_sources) (GatewayError.source_paused source_chain)
    corridor ← ok_or (lookup source_chain g.corridors) (GatewayError.corridor_not_open source_chain)
    fail_if (not corridor.active) (GatewayError.corridor_inactive source_chain)
    fail_if (contains (source_chain, source_ref) g.used_refs) GatewayError.replayed_reference
    check_cap asset_id amount g
    check_epoch amount g
    charge_asset_epoch asset_id amount g

  unfoldable pub check_fact : BridgeFact → Gateway K → Result GatewayError CorridorConfig
  check_fact fact g = do
    fail_if (g.dest_chain_id == 0) GatewayError.wrong_destination
    fail_if (is_zero fact) GatewayError.prove_nothing
    from_codec (validate fact)
    fail_if (is_exit fact.direction) GatewayError.wrong_direction
    fail_if (not (fact.dest_chain == g.chain_id)) GatewayError.wrong_destination
    fail_if (ltb fact.expiry_height g.current_height)
        (GatewayError.message_expired g.current_height fact.expiry_height)
    corridor ←
        ok_or (lookup fact.source_chain g.corridors)
          (GatewayError.corridor_not_open fact.source_chain)
    fail_if (not corridor.active) (GatewayError.corridor_inactive fact.source_chain)
    fail_if (contains fact.source_chain g.paused_sources)
        (GatewayError.source_paused fact.source_chain)
    fail_if (ltb fact.finality_depth corridor.confirmation_depth)
        (GatewayError.insufficient_finality fact.finality_depth corridor.confirmation_depth)
    ok corridor

  unfoldable pub attesters : MlDsa K → BridgeFact → List SignerSig → Gateway K → ℕ
  attesters ml fact sigs g = length (
      verify_quorum ml (attest_preimage g.dest_chain_id fact) (attest_context g.era) g.operators
        sigs)

  unfoldable pub attests : MlDsa K → BridgeFact → SignerSig → Gateway K → Bool
  attests ml fact sig g = ltb 0 (attesters ml fact (sig ∷ []) g)

  unfoldable pub precheck_deposit :
      MlDsa K → AttestationEnvelope → Gateway K → Result GatewayError (Unit {0})
  precheck_deposit ml env g = do
    check_open g
    corridor ← check_fact env.fact g
    let n = size g.operators
    let need = required corridor g.operators
    fail_if (need == 0 || ltb n need) (GatewayError.thin_quorum need n)
    let distinct = attesters ml env.fact env.signatures g
    fail_if (ltb distinct need) (GatewayError.below_threshold distinct need)

  -- The checks of `process_deposit`, in its order.
  unfoldable pub check_deposit :
      MlDsa K → AttestationEnvelope → Gateway K → Result GatewayError (Unit {0})
  check_deposit ml env g = do
    let fact = env.fact
    precheck_deposit ml env g
    check_cap fact.asset_id fact.amount g
    check_epoch fact.amount g
    fail_if (contains (fact.source_chain, fact.source_ref) g.used_refs)
        GatewayError.replayed_reference
    charge_asset_epoch fact.asset_id fact.amount g
