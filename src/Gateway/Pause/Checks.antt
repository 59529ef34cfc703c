-- ===== src/Gateway/Pause/Checks.antt =====
-- The checks of pausing and resuming, crates/q-gateway/src/gateway.rs.
use q_oracle.Base.{ℕ, Bool, false, not, ◌||◌, Option, none, some, List}
use q_oracle.Base.Tests.{ltb, leb, unwrap_or}
use q_oracle.Base.Words.{sat_add_u64}
use q_oracle.Base.Result.{Result, ok, err, ◌>>=◌, ◌>>◌, fail_if}
use q_oracle.Base.Map.{lookup, contains, nat_key}
use q_oracle.Airlock.Envelope.{SignerSig}
use q_oracle.Gateway.Errors.{GatewayError}
use q_oracle.Gateway.Operators.{MlDsa}
use q_oracle.Gateway.Messages.{
  unpause_message, unpause_domain, reorg_message, reorg_domain, resume_message, resume_domain,
}
use q_oracle.Gateway.State.{Gateway, resume_skew, resume_window}
use q_oracle.Gateway.Reserve.Checks.{quorum_met, short_reserve}

-- A report is at most `resume_skew` ahead of the gateway's height and `resume_window` behind it.
abbrev pub out_of_window : ℕ → ℕ → Bool
out_of_window at_height now =
    ltb (sat_add_u64 now resume_skew) at_height || ltb (sat_add_u64 at_height resume_window) now

-- `resumed.is_some_and(|resumed| at_height <= resumed)`
abbrev pub not_after : ℕ → Option ℕ → Bool
not_after at_height none = false
not_after at_height (some last) = leb at_height last

module _ {K : Type 0} where
  unfoldable pub check_unpause :
      MlDsa K → ℕ → List SignerSig → Gateway K → Result GatewayError (List ℕ × List SignerSig)
  check_unpause ml at_height sigs g = do
    fail_if (not g.global_pause) GatewayError.not_globally_paused
    fail_if
        (ltb at_height g.global_paused_at
          || leb at_height g.global_resumed_at
          || out_of_window at_height g.current_height)
        (GatewayError.resume_out_of_window at_height g.current_height)
    elim (short_reserve g) [
      | none ↦ ok tt
      | some asset_id ↦ err (GatewayError.reserve_shortfall asset_id)
    ]
    let message = unpause_message at_height g.dest_chain_id g.era
    accepted ← quorum_met ml message unpause_domain sigs g
    ok (message, accepted)

  unfoldable pub reorg_fresh : ℕ → ℕ → Gateway K → Result GatewayError (Unit {0})
  reorg_fresh source_chain at_height g =
      fail_if
        (out_of_window at_height g.current_height
          || not_after at_height (lookup source_chain g.resumed_at))
        (GatewayError.resume_out_of_window at_height g.current_height)

  unfoldable pub check_reorg :
      MlDsa K
      → ℕ
      → ℕ
      → ℕ
      → List SignerSig
      → Gateway K
      → Result GatewayError (List ℕ × List SignerSig)
  check_reorg ml source_chain fork_depth at_height sigs g = do
    reorg_fresh source_chain at_height g
    let message = reorg_message source_chain fork_depth at_height g.dest_chain_id g.era
    accepted ← quorum_met ml message reorg_domain sigs g
    ok (message, accepted)

  unfoldable pub check_resume :
      MlDsa K → ℕ → ℕ → List SignerSig → Gateway K → Result GatewayError (List ℕ × List SignerSig)
  check_resume ml source_chain at_height sigs g = do
    fail_if (not (contains source_chain g.paused_sources)) (GatewayError.not_paused source_chain)
    let since = unwrap_or g.current_height (lookup source_chain g.paused_since)
    fail_if
        (ltb at_height since
          || out_of_window at_height g.current_height
          || not_after at_height (lookup source_chain g.resumed_at))
        (GatewayError.resume_out_of_window at_height g.current_height)
    let message = resume_message source_chain at_height g.dest_chain_id g.era
    accepted ← quorum_met ml message resume_domain sigs g
    ok (message, accepted)

  unfoldable pub precheck_unpause :
      MlDsa K → ℕ → List SignerSig → Gateway K → Result GatewayError (Unit {0})
  precheck_unpause ml at_height sigs g = check_unpause ml at_height sigs g >>= λ _. ok tt

  unfoldable pub precheck_reorg :
      MlDsa K → ℕ → ℕ → ℕ → List SignerSig → Gateway K → Result GatewayError (Unit {0})
  precheck_reorg ml source_chain fork_depth at_height sigs g =
      check_reorg ml source_chain fork_depth at_height sigs g >>= λ _. ok tt

  unfoldable pub precheck_resume :
      MlDsa K → ℕ → ℕ → List SignerSig → Gateway K → Result GatewayError (Unit {0})
  precheck_resume ml source_chain at_height sigs g = do
    let message = resume_message source_chain at_height g.dest_chain_id g.era
    quorum_met ml message resume_domain sigs g >>= λ _. ok tt
