-- ===== src/Gateway/Steps/Routes.antt =====
-- What each call leaves alone of the corridors: their configuration, their cursors and the heights of their
-- last resumption.
pub mod Batches
pub mod Ratchet
pub mod Resumed
use q_oracle.Base.{
  ℕ, suc, ◌+◌, ◌≤◌, ◌<◌, max, ◌≡◌, ◌≢◌, refl, sym, ap, ◌∙◌, subst, ◌⊎◌, inl, inr, Bool, true, false,
  Option, none, some, List, [], ◌∷◌, arith,
}
use q_oracle.Base.Tests.{◌==◌, if◌then◌else◌, unwrap_or, ltb, leb, Option-cases}
use q_oracle.Base.Lists.{length}
use q_oracle.Base.Result.{Result, ok, err, panic}
use q_oracle.Base.Map.{
  Map, lookup, insert, remove, or_insert, lookup-insert, lookup-remove, nat_key,
}
use q_oracle.Airlock.Envelope.{AttestationEnvelope, SignerSig}
use q_oracle.Gateway.Errors.{GatewayError}
use q_oracle.Gateway.Operators.{MlDsa, verify_quorum}
use q_oracle.Gateway.State.{Gateway, CorridorConfig}
use q_oracle.Gateway.Call.{checked}
use q_oracle.Gateway.Settings
use q_oracle.Gateway.Reserve
use q_oracle.Gateway.Corridor
use q_oracle.Gateway.Pause
use q_oracle.Gateway.Freeze
use q_oracle.Gateway.Exits
use q_oracle.Gateway.Deposit
use q_oracle.Gateway.Corridor.Checks.{check_tier, check_batch, corridor_cursor, required}
use q_oracle.Gateway.Pause.Checks.{check_resume, reorg_fresh, check_reorg}
use q_oracle.Gateway.Steps.{Op, step, run}
use q_oracle.Gateway.Steps.Checked.{checked-cases, checked-ok}

pub record SameRoutes {K : Type 0} (g h : Gateway K) : Type 0 where
  pub corridors : h.corridors ≡ g.corridors
  pub cursors : h.corridor_cursor ≡ g.corridor_cursor
  pub resumed : h.resumed_at ≡ g.resumed_at

-- The operations on the corridors are the six others.
abbrev pub KeepsRoutes : Op → Type 0
KeepsRoutes (Op.register_corridor _ _) = ⊥
KeepsRoutes (Op.set_corridor_active _ _) = ⊥
KeepsRoutes (Op.set_corridor_quorum _ _) = ⊥
KeepsRoutes (Op.set_corridor_tier _ _ _) = ⊥
KeepsRoutes (Op.accept_batch _ _ _) = ⊥
KeepsRoutes (Op.resume_source _ _ _) = ⊥
KeepsRoutes _ = Unit

module _ {K : Type 0} (ml : MlDsa K) where
  writes :
      {A : Type 0} (q : Gateway K → Result GatewayError A) (write : A → Gateway K → Gateway K)
      (g : Gateway K)
      → ((a : A) → SameRoutes g (write a g))
      → SameRoutes g (checked q write g).1
  writes q write g keeps =
      checked-cases q write g (SameRoutes g)
        (record { corridors = refl; cursors = refl; resumed = refl }) (λ a _. keeps a)

  pub step-SameRoutes : (op : Op) (g : Gateway K) → KeepsRoutes op → SameRoutes g (step ml op g)
  unfolding step Settings.advance_to Settings.advance_epoch_to Settings.settle_admin_records
      Settings.pause_source_direct Settings.unpause_source Settings.set_escrow Settings.pause_all
      Settings.unpause_all Settings.advance_epoch Pause.resume_all Pause.write_unpause
      Pause.report_reorg Pause.write_reorg Freeze.emergency_freeze Freeze.lift_freeze
      Freeze.write_lift Freeze.watchdog_freeze Freeze.write_watchdog Freeze.write_freeze
      Deposit.admit_trustless Deposit.write_mint
  step-SameRoutes (Op.advance_to h) g k = ground arith
  step-SameRoutes (Op.advance_epoch_to e) g k = ground arith
  step-SameRoutes (Op.settle a b) g k = ground arith
  step-SameRoutes (Op.pause_source_direct c) g k = ground arith
  step-SameRoutes (Op.unpause_source c) g k = ground arith
  step-SameRoutes (Op.set_escrow a e) g k = ground arith
  step-SameRoutes Op.pause_all g k = ground arith
  step-SameRoutes Op.unpause_all g k = ground arith
  step-SameRoutes Op.advance_epoch g k = ground arith
  step-SameRoutes (Op.attest_reserve a e h sigs) g k =
      unfold Reserve.attest_reserve in unfold Reserve.record_report in ground arith
  step-SameRoutes (Op.resume_all h sigs) g k = writes _ _ g λ m. ground arith
  step-SameRoutes (Op.emergency_freeze u sigs) g k = writes _ _ g λ m. ground arith
  step-SameRoutes (Op.report_reorg c d h sigs) g k = writes _ _ g λ m. ground arith
  step-SameRoutes (Op.lift_freeze sigs) g k = writes _ _ g λ m. ground arith
  step-SameRoutes (Op.watchdog_freeze u sig) g k = writes _ _ g λ m. ground arith
  step-SameRoutes (Op.request_exit a n d) g k = unfold Exits.request_exit in ground arith
  step-SameRoutes (Op.finalize_exit id) g k = unfold Exits.finalize_exit in ground arith
  step-SameRoutes (Op.cancel_exit id) g k = unfold Exits.cancel_exit in ground arith
  step-SameRoutes (Op.admit_trustless a r n c) g k = writes _ _ g λ m. ground arith
  step-SameRoutes (Op.process_deposit env) g k = unfold Deposit.process_deposit in ground arith
  step-SameRoutes (Op.register_corridor _ _) g k = absurd k
  step-SameRoutes (Op.set_corridor_active _ _) g k = absurd k
  step-SameRoutes (Op.set_corridor_quorum _ _) g k = absurd k
  step-SameRoutes (Op.set_corridor_tier _ _ _) g k = absurd k
  step-SameRoutes (Op.accept_batch _ _ _) g k = absurd k
  step-SameRoutes (Op.resume_source _ _ _) g k = absurd k
