-- ===== src/Gateway/Steps.antt =====
-- Histories of the gateway: any sequence of its calls after start-up, whatever their arguments. A call that
-- fails leaves what it had written before. The caps, the operator sets and the era are set at start-up.
pub mod Checked
pub mod Frame
pub mod Capped
pub mod Replay
pub mod Spent
pub mod Budget
pub mod Routes
use q_oracle.Base.{ℕ, Bool, List, [], ◌∷◌}
use q_oracle.Airlock.Envelope.{SignerSig, AttestationEnvelope}
use q_oracle.Gateway.Operators.{MlDsa}
use q_oracle.Gateway.State.{Gateway}
use q_oracle.Gateway.Settings
use q_oracle.Gateway.Reserve
use q_oracle.Gateway.Corridor
use q_oracle.Gateway.Pause
use q_oracle.Gateway.Freeze
use q_oracle.Gateway.Exits
use q_oracle.Gateway.Deposit

pub data Op : Type 0 where
  advance_to advance_epoch_to pause_source_direct unpause_source : ℕ → Op
  settle set_escrow register_corridor set_corridor_quorum : ℕ → ℕ → Op
  set_corridor_active : ℕ → Bool → Op
  pause_all unpause_all advance_epoch : Op
  attest_reserve : (asset_id escrowed at_height : ℕ) → List SignerSig → Op
  set_corridor_tier accept_batch : (source_chain value : ℕ) → List SignerSig → Op
  resume_all emergency_freeze : ℕ → List SignerSig → Op
  report_reorg : (source_chain fork_depth at_height : ℕ) → List SignerSig → Op
  resume_source : (source_chain at_height : ℕ) → List SignerSig → Op
  lift_freeze : List SignerSig → Op
  watchdog_freeze : ℕ → SignerSig → Op
  request_exit : (asset_id amount destination : ℕ) → Op
  finalize_exit cancel_exit : ℕ → Op
  admit_trustless : (asset_id source_ref amount source_chain : ℕ) → Op
  process_deposit : AttestationEnvelope → Op

module _ {K : Type 0} (ml : MlDsa K) where
  unfoldable pub step : Op → Gateway K → Gateway K
  step (Op.advance_to h) g = Settings.advance_to h g
  step (Op.settle seq head) g = Settings.settle_admin_records seq head g
  step (Op.advance_epoch_to e) g = Settings.advance_epoch_to e g
  step (Op.pause_source_direct c) g = Settings.pause_source_direct c g
  step (Op.unpause_source c) g = Settings.unpause_source c g
  step (Op.set_escrow a e) g = Settings.set_escrow a e g
  step (Op.register_corridor c d) g = Corridor.register_corridor c d g
  step (Op.set_corridor_quorum c q) g = (Corridor.set_corridor_quorum c q g).1
  step (Op.set_corridor_active c b) g = Corridor.set_corridor_active c b g
  step Op.pause_all g = Settings.pause_all g
  step Op.unpause_all g = Settings.unpause_all g
  step Op.advance_epoch g = (Settings.advance_epoch g).1
  step (Op.attest_reserve a e h sigs) g = (Reserve.attest_reserve ml a e h sigs g).1
  step (Op.set_corridor_tier c t sigs) g = (Corridor.set_corridor_tier ml c t sigs g).1
  step (Op.accept_batch c i sigs) g = (Corridor.accept_batch ml c i sigs g).1
  step (Op.resume_all h sigs) g = (Pause.resume_all ml h sigs g).1
  step (Op.emergency_freeze u sigs) g = (Freeze.emergency_freeze ml u sigs g).1
  step (Op.report_reorg c d h sigs) g = (Pause.report_reorg ml c d h sigs g).1
  step (Op.resume_source c h sigs) g = (Pause.resume_source ml c h sigs g).1
  step (Op.lift_freeze sigs) g = (Freeze.lift_freeze ml sigs g).1
  step (Op.watchdog_freeze u sig) g = (Freeze.watchdog_freeze ml u sig g).1
  step (Op.request_exit a n d) g = (Exits.request_exit a n d g).1
  step (Op.finalize_exit id) g = (Exits.finalize_exit id g).1
  step (Op.cancel_exit id) g = (Exits.cancel_exit id g).1
  step (Op.admit_trustless a r n c) g = (Deposit.admit_trustless a r n c g).1
  step (Op.process_deposit env) g = (Deposit.process_deposit ml env g).1

  unfoldable pub run : List Op → Gateway K → Gateway K
  run [] g = g
  run (op ∷ ops) g = run ops (step op g)
