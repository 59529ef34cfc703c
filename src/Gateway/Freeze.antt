-- ===== src/Gateway/Freeze.antt =====
-- Emergency and watchdog freezes, crates/q-gateway/src/gateway.rs.
pub mod Checks
use q_oracle.Base.{ℕ, List}
use q_oracle.Base.Tests.{ltb, if◌then◌else◌}
use q_oracle.Base.Map.{insert, nat_key}
use q_oracle.Airlock.Envelope.{SignerSig}
use q_oracle.Gateway.Operators.{MlDsa}
use q_oracle.Gateway.Messages.{freeze_domain, watchdog_domain, lift_domain}
use q_oracle.Gateway.State.{Gateway}
use q_oracle.Gateway.Call.{Call, ask, modify, ◌>>=◌, ◌>>◌, checked, touch_guard, log_admin}
use Checks.{check_freeze, check_lift, check_watchdog}

module _ {K : Type 0} where
  -- A freeze only ever extends the one before it.
  unfoldable pub write_freeze : ℕ → List ℕ × List SignerSig → Gateway K → Gateway K
  unfolding touch_guard log_admin
  write_freeze until_height (message, accepted) g =
      if ltb g.frozen_until until_height
      then touch_guard (
          log_admin freeze_domain message accepted
            (record g { frozen_until = until_height; lifted_freeze = 0 }))
      else g

  unfoldable pub emergency_freeze : MlDsa K → ℕ → List SignerSig → Call K (Unit {0})
  emergency_freeze ml until_height sigs =
      checked (check_freeze ml until_height sigs) (write_freeze until_height)

  unfoldable pub write_lift : List ℕ × List SignerSig → Gateway K → Gateway K
  unfolding touch_guard log_admin
  write_lift (message, accepted) g =
      touch_guard
        (log_admin lift_domain message accepted (record g { lifted_freeze = g.frozen_until }))

  unfoldable pub lift_freeze : MlDsa K → List SignerSig → Call K (Unit {0})
  lift_freeze ml sigs = checked (check_lift ml sigs) (write_lift)

  unfoldable pub write_watchdog : ℕ → ℕ × List ℕ × List SignerSig → Gateway K → Gateway K
  unfolding touch_guard log_admin
  write_watchdog until_height (operator, message, accepted) g =
      let noted =
        log_admin watchdog_domain message accepted
          (record g { watchdog_last = insert operator g.current_height g.watchdog_last }) in
      if ltb g.deposit_frozen_until until_height
      then touch_guard (record noted { deposit_frozen_until = until_height })
      else noted

  unfoldable pub watchdog_freeze : MlDsa K → ℕ → SignerSig → Call K (Unit {0})
  watchdog_freeze ml until_height sig =
      checked (check_watchdog ml until_height sig) (write_watchdog until_height)
