-- ===== src/Gateway/Pause.antt =====
-- Pausing and resuming one source or the whole gateway, crates/q-gateway/src/gateway.rs.
pub mod Checks
use q_oracle.Base.{ℕ, Bool, true, false, List}
use q_oracle.Base.Tests.{if◌then◌else◌}
use q_oracle.Base.Map.{insert, remove, or_insert, contains, add, nat_key}
use q_oracle.Airlock.Envelope.{SignerSig}
use q_oracle.Gateway.Operators.{MlDsa}
use q_oracle.Gateway.Messages.{unpause_domain, reorg_domain, resume_domain}
use q_oracle.Gateway.State.{Gateway}
use q_oracle.Gateway.Call.{Call, ask, modify, ◌>>=◌, ◌>>◌, checked, touch_guard, log_admin}
use Checks.{check_unpause, check_reorg, check_resume}

module _ {K : Type 0} where
  unfoldable pub write_unpause : ℕ → List ℕ × List SignerSig → Gateway K → Gateway K
  unfolding touch_guard log_admin
  write_unpause at_height (message, accepted) g = touch_guard (
      log_admin unpause_domain message accepted
        (record g { global_pause = false; global_resumed_at = at_height }))

  unfoldable pub resume_all : MlDsa K → ℕ → List SignerSig → Call K (Unit {0})
  resume_all ml at_height sigs = checked (check_unpause ml at_height sigs) (write_unpause at_height)

  -- Only the first report of a pause is logged.
  unfoldable pub write_reorg : ℕ → List ℕ × List SignerSig → Gateway K → Gateway K
  unfolding touch_guard log_admin
  write_reorg source_chain (message, accepted) g =
      let paused = record g {
        paused_sources = add source_chain g.paused_sources;
        paused_since = or_insert source_chain g.current_height g.paused_since;
      } in
      touch_guard (
        if contains source_chain g.paused_sources
        then paused
        else log_admin reorg_domain message accepted paused)

  unfoldable pub report_reorg : MlDsa K → ℕ → ℕ → ℕ → List SignerSig → Call K (Unit {0})
  report_reorg ml source_chain fork_depth at_height sigs =
      checked (check_reorg ml source_chain fork_depth at_height sigs) (write_reorg source_chain)

  unfoldable pub write_resume : ℕ → ℕ → List ℕ × List SignerSig → Gateway K → Gateway K
  unfolding touch_guard log_admin
  write_resume source_chain at_height (message, accepted) g = touch_guard (
      log_admin resume_domain message accepted (record g {
        paused_sources = remove source_chain g.paused_sources;
        paused_since = remove source_chain g.paused_since;
        resumed_at = insert source_chain at_height g.resumed_at;
      }))

  unfoldable pub resume_source : MlDsa K → ℕ → ℕ → List SignerSig → Call K (Unit {0})
  resume_source ml source_chain at_height sigs =
      checked (check_resume ml source_chain at_height sigs) (write_resume source_chain at_height)
