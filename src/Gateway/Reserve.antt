-- ===== src/Gateway/Reserve.antt =====
-- Reserve reports, crates/q-gateway/src/gateway.rs.
pub mod Checks
use q_oracle.Base.{ℕ, Bool, true, false, not, List}
use q_oracle.Base.Tests.{ltb, if◌then◌else◌}
use q_oracle.Base.Map.{insert, nat_key}
use q_oracle.Airlock.Envelope.{SignerSig}
use q_oracle.Gateway.Operators.{MlDsa}
use q_oracle.Gateway.Messages.{reserve_domain}
use q_oracle.Gateway.State.{Gateway}
use q_oracle.Gateway.Call.{Call, pure, ask, gets, modify, ◌>>=◌, ◌>>◌, touch_guard, log_admin}
use q_oracle.Gateway.Settings.{pause_all}
use Checks.{check_reserve, outstanding_of}

module _ {K : Type 0} where
  unfoldable pub record_report : ℕ → ℕ → ℕ → List ℕ × List SignerSig → Gateway K → Gateway K
  unfolding log_admin
  record_report asset_id escrowed at_height (message, accepted) g =
      log_admin reserve_domain message accepted (record g {
        escrowed = insert asset_id escrowed g.escrowed;
        reserve_reported_at = insert asset_id at_height g.reserve_reported_at;
      })

  -- A report that shows less in escrow than the supply stops the gateway.
  unfoldable pub attest_reserve : MlDsa K → ℕ → ℕ → ℕ → List SignerSig → Call K Bool
  attest_reserve ml asset_id escrowed at_height sigs = do
    checked ← ask (check_reserve ml asset_id escrowed at_height sigs)
    modify (record_report asset_id escrowed at_height checked)
    supply ← gets (outstanding_of asset_id)
    modify (λ g. if ltb escrowed supply then pause_all g else g)
    pure (ltb escrowed supply)
