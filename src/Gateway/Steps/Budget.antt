-- ===== src/Gateway/Steps/Budget.antt =====
-- The mint budget of an epoch holds over every history.
use q_oracle.Base.{ℕ, ◌+◌, ◌≤◌, ◌≡◌, sym, ap, subst, List, [], ◌∷◌, arith}
use q_oracle.Base.Result.{Result, ok}
use q_oracle.Airlock.Envelope.{AttestationEnvelope}
use q_oracle.Gateway.Errors.{GatewayError}
use q_oracle.Gateway.Operators.{MlDsa}
use q_oracle.Gateway.State.{Gateway}
use q_oracle.Gateway.Call.{checked}
use q_oracle.Gateway.Settings
use q_oracle.Gateway.Reserve
use q_oracle.Gateway.Corridor
use q_oracle.Gateway.Pause
use q_oracle.Gateway.Freeze
use q_oracle.Gateway.Exits
use q_oracle.Gateway.Deposit
use q_oracle.Gateway.Deposit.Checks.{precheck_trustless, check_deposit, check_epoch}
use q_oracle.Gateway.Deposit.Outcomes.{Processed, process_deposit-Processed}
use q_oracle.Gateway.Steps.{Op, step, run}
use q_oracle.Gateway.Steps.Checked.{checked-cases}

-- What the epoch has minted is within its cap.
abbrev pub InBudget : {K : Type 0} → Gateway K → Type 0
InBudget g = g.epoch_minted ≤ g.epoch_cap

module _ {K : Type 0} where
  after :
      {A : Type 0} {h : Gateway K} {r : Result GatewayError A × Gateway K}
      {x : Result GatewayError A}
      → r ≡ (x, h)
      → InBudget h
      → InBudget r.1
  after e v = subst InBudget (sym (ap (λ p. p.1) e)) v

  check_epoch_inv :
      (n : ℕ) (g : Gateway K) {u : Unit {0}}
      → check_epoch n g ≡ ok u
      → g.epoch_minted + n ≤ g.epoch_cap
  unfolding check_epoch
  check_epoch_inv n g h = ground arith

  write_mint-InBudget :
      (a r n c : ℕ) (g : Gateway K)
      → g.epoch_minted + n ≤ g.epoch_cap
      → InBudget (Deposit.write_mint a r n c g)
  unfolding Deposit.write_mint
  write_mint-InBudget a r n c g h = ground arith

  precheck_trustless-budget :
      (a r n c : ℕ) (g : Gateway K) {u : Unit {0}}
      → precheck_trustless a r n c g ≡ ok u
      → g.epoch_minted + n ≤ g.epoch_cap
  unfolding precheck_trustless
  precheck_trustless-budget a r n c g h = ground (arith, check_epoch_inv n g {u = tt})

  check_deposit-budget :
      (ml : MlDsa K) (env : AttestationEnvelope) (g : Gateway K) {u : Unit {0}}
      → check_deposit ml env g ≡ ok u
      → g.epoch_minted + env.fact.amount ≤ g.epoch_cap
  unfolding check_deposit
  check_deposit-budget ml env g h = ground (arith, check_epoch_inv env.fact.amount g {u = tt})

  admit_trustless-InBudget :
      (a r n c : ℕ) (g : Gateway K) → InBudget g → InBudget (Deposit.admit_trustless a r n c g).1
  unfolding Deposit.admit_trustless
  admit_trustless-InBudget a r n c g v =
      checked-cases _ _ g InBudget v
        λ _ e. write_mint-InBudget a r n c g (precheck_trustless-budget a r n c g e)

  process_deposit-InBudget :
      (ml : MlDsa K) (env : AttestationEnvelope) (g : Gateway K)
      → InBudget g
      → InBudget (Deposit.process_deposit ml env g).1
  process_deposit-InBudget ml env g v = elim (process_deposit-Processed ml env g) [
    | Processed.refused _ _ r ↦ after r v
    | Processed.aborted _ r ↦ after r v
    | Processed.done c r ↦ after r (
        write_mint-InBudget env.fact.asset_id env.fact.source_ref env.fact.amount
          env.fact.source_chain g (check_deposit-budget ml env g c))
  ]

module _ {K : Type 0} (ml : MlDsa K) where
  writes :
      {A : Type 0} (q : Gateway K → Result GatewayError A) (write : A → Gateway K → Gateway K)
      (g : Gateway K)
      → InBudget g
      → ((a : A) → InBudget (write a g))
      → InBudget (checked q write g).1
  writes q write g v keeps = checked-cases q write g InBudget v (λ a _. keeps a)

  step-InBudget : (op : Op) (g : Gateway K) → InBudget g → InBudget (step ml op g)
  unfolding step Settings.advance_to Settings.advance_epoch_to Settings.settle_admin_records
      Settings.pause_source_direct Settings.unpause_source Settings.set_escrow Settings.pause_all
      Settings.unpause_all Settings.advance_epoch Corridor.register_corridor
      Corridor.set_corridor_active Corridor.set_corridor_tier Corridor.write_tier
      Corridor.accept_batch Corridor.write_batch Pause.resume_all Pause.write_unpause
      Pause.report_reorg Pause.resume_source Pause.write_resume Pause.write_reorg
      Freeze.emergency_freeze Freeze.lift_freeze Freeze.write_lift Freeze.watchdog_freeze
      Freeze.write_watchdog Freeze.write_freeze Corridor.set_corridor_quorum
  step-InBudget (Op.advance_to h) g v = ground arith
  step-InBudget (Op.advance_epoch_to e) g v = ground arith
  step-InBudget (Op.settle a b) g v = ground arith
  step-InBudget (Op.pause_source_direct c) g v = ground arith
  step-InBudget (Op.unpause_source c) g v = ground arith
  step-InBudget (Op.set_escrow a e) g v = ground arith
  step-InBudget (Op.register_corridor c d) g v = ground arith
  step-InBudget (Op.set_corridor_quorum c q) g v = ground arith
  step-InBudget (Op.set_corridor_active c b) g v = ground arith
  step-InBudget Op.pause_all g v = ground arith
  step-InBudget Op.unpause_all g v = ground arith
  step-InBudget Op.advance_epoch g v = ground arith
  step-InBudget (Op.attest_reserve a e h sigs) g v =
      unfold Reserve.attest_reserve in unfold Reserve.record_report in ground arith
  step-InBudget (Op.set_corridor_tier c t sigs) g v = writes _ _ g v λ m. ground arith
  step-InBudget (Op.accept_batch c i sigs) g v = writes _ _ g v λ m. ground arith
  step-InBudget (Op.resume_all h sigs) g v = writes _ _ g v λ m. ground arith
  step-InBudget (Op.emergency_freeze u sigs) g v = writes _ _ g v λ m. ground arith
  step-InBudget (Op.report_reorg c d h sigs) g v = writes _ _ g v λ m. ground arith
  step-InBudget (Op.resume_source c h sigs) g v = writes _ _ g v λ m. ground arith
  step-InBudget (Op.lift_freeze sigs) g v = writes _ _ g v λ m. ground arith
  step-InBudget (Op.watchdog_freeze u sig) g v = writes _ _ g v λ m. ground arith
  step-InBudget (Op.request_exit a n d) g v = unfold Exits.request_exit in ground arith
  step-InBudget (Op.finalize_exit id) g v = unfold Exits.finalize_exit in ground arith
  step-InBudget (Op.cancel_exit id) g v = unfold Exits.cancel_exit in ground arith
  step-InBudget (Op.admit_trustless a r n c) g v = admit_trustless-InBudget a r n c g v
  step-InBudget (Op.process_deposit env) g v = process_deposit-InBudget ml env g v

  -- From a state whose epoch has minted no more than the epoch cap, every history leads to such a state.
  pub run-InBudget : (ops : List Op) (g : Gateway K) → InBudget g → InBudget (run ml ops g)
  unfolding run
  run-InBudget [] g v = v
  run-InBudget (op ∷ ops) g v = run-InBudget ops (step ml op g) (step-InBudget op g v)
