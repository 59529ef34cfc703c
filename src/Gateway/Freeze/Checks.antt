-- ===== src/Gateway/Freeze/Checks.antt =====
-- Freeze horizons and the checks of freezing, crates/q-gateway/src/gateway.rs.
use q_oracle.Base.{ℕ, max, Bool, false, not, ◌&&◌, ◌||◌, none, some, List, [], ◌∷◌}
use q_oracle.Base.Tests.{ltb, leb, ◌==◌, if◌then◌else◌}
use q_oracle.Base.Lists.{length}
use q_oracle.Base.Words.{sat_add_u64}
use q_oracle.Base.Result.{Result, ok, err, ◌>>=◌, ◌>>◌, fail_if}
use q_oracle.Base.Map.{lookup, nat_key}
use q_oracle.Airlock.Envelope.{SignerSig}
use q_oracle.Gateway.Errors.{GatewayError}
use q_oracle.Gateway.Operators.{MlDsa, verified_quorum, verify_quorum}
use q_oracle.Gateway.Messages.{
  freeze_message_for_era, freeze_domain, watchdog_domain, lift_message, lift_domain,
}
use q_oracle.Gateway.State.{
  Gateway, emergency_freeze_max_window, watchdog_max_window, watchdog_cooldown,
}
use q_oracle.Gateway.Reserve.Checks.{quorum_met}

-- the first of the accepted signatures, of which the watchdog gives one
unfoldable pub signer : List SignerSig → Result GatewayError ℕ
signer [] = err (GatewayError.below_threshold 0 1)
signer (s ∷ _) = ok s.operator_id

module _ {K : Type 0} where
  unfoldable pub freeze_horizon : Gateway K → ℕ
  freeze_horizon g = if g.lifted_freeze == g.frozen_until then 0 else g.frozen_until

  unfoldable pub is_frozen : Gateway K → Bool
  is_frozen g = ltb g.current_height (freeze_horizon g)

  unfoldable pub mint_freeze_horizon : Gateway K → ℕ
  mint_freeze_horizon g = max (freeze_horizon g) g.deposit_frozen_until

  unfoldable pub check_freeze :
      MlDsa K → ℕ → List SignerSig → Gateway K → Result GatewayError (List ℕ × List SignerSig)
  check_freeze ml until_height sigs g = do
    let ceiling = sat_add_u64 g.current_height emergency_freeze_max_window
    fail_if (ltb ceiling until_height) (GatewayError.freeze_window_too_wide until_height ceiling)
    fail_if (leb until_height g.current_height)
        (GatewayError.freeze_in_past until_height g.current_height)
    let message = freeze_message_for_era until_height g.dest_chain_id g.era
    accepted ← quorum_met ml message freeze_domain sigs g
    ok (message, accepted)

  unfoldable pub check_lift :
      MlDsa K → List SignerSig → Gateway K → Result GatewayError (List ℕ × List SignerSig)
  check_lift ml sigs g = do
    fail_if (not (is_frozen g)) GatewayError.not_frozen
    let message = lift_message g.frozen_until g.dest_chain_id g.era
    accepted ← quorum_met ml message lift_domain sigs g
    ok (message, accepted)

  unfoldable pub cooling : ℕ → Gateway K → Bool
  cooling operator g = elim (lookup operator g.watchdog_last) [
    | none ↦ false
    | some last ↦ ltb g.current_height (sat_add_u64 last watchdog_cooldown)
  ]

  unfoldable pub chained : Gateway K → Bool
  chained g =
      ltb 0 g.deposit_frozen_until
      && ltb g.current_height (sat_add_u64 g.deposit_frozen_until watchdog_max_window)

  -- It returns the operator beside the message and the signature.
  unfoldable pub check_watchdog :
      MlDsa K → ℕ → SignerSig → Gateway K → Result GatewayError (ℕ × List ℕ × List SignerSig)
  check_watchdog ml until_height sig g = do
    fail_if (g.current_height == 0) GatewayError.watchdog_without_clock
    fail_if (leb until_height g.current_height)
        (GatewayError.watchdog_expired until_height g.current_height)
    let ceiling = sat_add_u64 g.current_height watchdog_max_window
    fail_if (ltb ceiling until_height) (GatewayError.watchdog_window_too_wide until_height ceiling)
    let message = freeze_message_for_era until_height g.dest_chain_id g.era
    let accepted = verified_quorum ml message watchdog_domain g.operators (sig ∷ [])
    operator ← signer accepted
    fail_if (cooling operator g || chained g) GatewayError.watchdog_cooldown
    ok (operator, message, accepted)

  unfoldable pub precheck_freeze :
      MlDsa K → ℕ → List SignerSig → Gateway K → Result GatewayError (Unit {0})
  precheck_freeze ml until_height sigs g = do
    let message = freeze_message_for_era until_height g.dest_chain_id g.era
    quorum_met ml message freeze_domain sigs g >>= λ _. ok tt

  unfoldable pub precheck_watchdog :
      MlDsa K → ℕ → SignerSig → Gateway K → Result GatewayError (Unit {0})
  precheck_watchdog ml until_height sig g = do
    fail_if (leb until_height g.current_height)
        (GatewayError.watchdog_expired until_height g.current_height)
    let message = freeze_message_for_era until_height g.dest_chain_id g.era
    let accepted = verify_quorum ml message watchdog_domain g.operators (sig ∷ [])
    fail_if (length accepted == 0) (GatewayError.below_threshold 0 1)
