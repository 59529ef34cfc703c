-- ===== src/Gateway/Corridor/Checks.antt =====
-- What a corridor demands, and the check of a tier change (crates/q-gateway/src/gateway.rs).
use q_oracle.Base.{ℕ, max, not, Option, none, some, List}
use q_oracle.Base.Tests.{ltb, leb, ◌==◌, if◌then◌else◌, unwrap_or}
use q_oracle.Base.Lists.{length}
use q_oracle.Base.Words.{checked_add_u64}
use q_oracle.Base.Result.{Result, ok, ◌>>=◌, ◌>>◌, fail_if, ok_or, or_panic}
use q_oracle.Base.Map.{lookup, nat_key}
use q_oracle.Airlock.Envelope.{SignerSig}
use q_oracle.Gateway.Errors.{GatewayError}
use q_oracle.Gateway.Operators.{
  MlDsa, OperatorSet, size, supermajority_floor, verified_quorum, verify_quorum,
}
use q_oracle.Gateway.Messages.{tier_message, tier_domain, batch_message, batch_domain}
use q_oracle.Gateway.State.{Gateway, CorridorConfig}

module _ {K : Type 0} where
  -- the signatures that an operation over a corridor needs
  unfoldable pub required : CorridorConfig → OperatorSet K → ℕ
  required corridor set =
      if ltb 0 corridor.quorum
      then max corridor.quorum (supermajority_floor (size set))
      else max set.threshold (supermajority_floor (size set))

  unfoldable pub corridor_quorum : ℕ → Gateway K → Option ℕ
  corridor_quorum source_chain g = elim (lookup source_chain g.corridors) [
    | none ↦ none
    | some c ↦ some (required c g.operators)
  ]

  unfoldable pub corridor_cursor : ℕ → Gateway K → ℕ
  corridor_cursor source_chain g = unwrap_or 0 (lookup source_chain g.corridor_cursor)

  unfoldable pub check_tier :
      MlDsa K → ℕ → ℕ → List SignerSig → Gateway K → Result GatewayError (List ℕ × List SignerSig)
  check_tier ml source_chain proposed sigs g = do
    fail_if (size g.governance == 0) GatewayError.no_governance_set
    let message = tier_message source_chain proposed g.dest_chain_id g.era
    let accepted = verified_quorum ml message tier_domain g.governance sigs
    let need = max g.governance.threshold (supermajority_floor (size g.governance))
    fail_if (ltb (length accepted) need) (GatewayError.below_threshold (length accepted) need)
    corridor ← ok_or (lookup source_chain g.corridors) (GatewayError.corridor_not_open source_chain)
    fail_if (leb proposed corridor.tier) (GatewayError.tier_downgrade corridor.tier proposed)
    ok (message, accepted)

  unfoldable pub precheck_tier :
      MlDsa K → ℕ → ℕ → List SignerSig → Gateway K → Result GatewayError (Unit {0})
  precheck_tier ml source_chain proposed sigs g =
      check_tier ml source_chain proposed sigs g >>= λ _. ok tt

  -- The checks of `accept_batch`; it returns the next cursor.
  unfoldable pub check_batch : MlDsa K → ℕ → ℕ → List SignerSig → Gateway K → Result GatewayError ℕ
  check_batch ml source_chain batch_index sigs g = do
    corridor ← ok_or (lookup source_chain g.corridors) (GatewayError.corridor_not_open source_chain)
    fail_if (not corridor.active) (GatewayError.corridor_inactive source_chain)
    let message = batch_message source_chain batch_index g.dest_chain_id g.era
    let distinct = length (verify_quorum ml message batch_domain g.operators sigs)
    let need = required corridor g.operators
    fail_if (ltb distinct need) (GatewayError.below_threshold distinct need)
    let cursor = corridor_cursor source_chain g
    fail_if (not (batch_index == cursor)) (GatewayError.stale_batch batch_index cursor)
    or_panic (checked_add_u64 cursor 1)
