-- ===== src/Gateway/Steps/Frame.antt =====
-- What each call leaves alone of the ledger: the supply, the exits, the caps and the used references.
use q_oracle.Base.{ℕ, ◌≡◌, refl, List, arith}
use q_oracle.Base.Result.{Result}
use q_oracle.Base.Map.{nat_key}
use q_oracle.Airlock.Envelope.{SignerSig}
use q_oracle.Gateway.Operators.{MlDsa}
use q_oracle.Gateway.State.{Gateway}
use q_oracle.Gateway.Errors.{GatewayError}
use q_oracle.Gateway.Call.{checked}
use q_oracle.Gateway.Settings
use q_oracle.Gateway.Reserve
use q_oracle.Gateway.Corridor
use q_oracle.Gateway.Pause
use q_oracle.Gateway.Freeze
use q_oracle.Gateway.Steps.{Op, step}
use q_oracle.Gateway.Steps.Checked.{checked-cases}

-- The fields that the supply of an asset and the replay check are read from.
pub record SameLedger {K : Type 0} (g h : Gateway K) : Type 0 where
  pub minted : h.per_asset_minted ≡ g.per_asset_minted
  pub exits : h.pending_exits ≡ g.pending_exits
  pub next : h.next_exit_id ≡ g.next_exit_id
  pub caps : h.per_asset_cap ≡ g.per_asset_cap
  pub refs : h.used_refs ≡ g.used_refs

module _ {K : Type 0} where
  SameLedger-refl : (g : Gateway K) → SameLedger g g
  SameLedger-refl g = record { minted = refl; exits = refl; next = refl; caps = refl; refs = refl }

  attest_reserve-SameLedger :
      (ml : MlDsa K) (a e h : ℕ) (sigs : List SignerSig) (g : Gateway K)
      → SameLedger g (Reserve.attest_reserve ml a e h sigs g).1
  unfolding Reserve.attest_reserve Reserve.record_report Settings.pause_all
  attest_reserve-SameLedger ml a e h sigs g = ground arith

  set_corridor_quorum-SameLedger :
      (c q : ℕ) (g : Gateway K) → SameLedger g (Corridor.set_corridor_quorum c q g).1
  unfolding Corridor.set_corridor_quorum
  set_corridor_quorum-SameLedger c q g = ground arith

  write_tier-SameLedger :
      (c t : ℕ) (m : List ℕ × List SignerSig) (g : Gateway K)
      → SameLedger g (Corridor.write_tier c t m g)
  unfolding Corridor.write_tier
  write_tier-SameLedger c t m g = ground arith

  write_freeze-SameLedger :
      (u : ℕ) (m : List ℕ × List SignerSig) (g : Gateway K)
      → SameLedger g (Freeze.write_freeze u m g)
  unfolding Freeze.write_freeze
  write_freeze-SameLedger u m g = ground arith

  write_watchdog-SameLedger :
      (u : ℕ) (m : ℕ × List ℕ × List SignerSig) (g : Gateway K)
      → SameLedger g (Freeze.write_watchdog u m g)
  unfolding Freeze.write_watchdog
  write_watchdog-SameLedger u m g = ground arith

  write_reorg-SameLedger :
      (c : ℕ) (m : List ℕ × List SignerSig) (g : Gateway K) → SameLedger g (Pause.write_reorg c m g)
  unfolding Pause.write_reorg
  write_reorg-SameLedger c m g = ground arith

-- The operations that mint, burn or release are the five others.
abbrev pub KeepsLedger : Op → Type 0
KeepsLedger (Op.request_exit _ _ _) = ⊥
KeepsLedger (Op.finalize_exit _) = ⊥
KeepsLedger (Op.cancel_exit _) = ⊥
KeepsLedger (Op.admit_trustless _ _ _ _) = ⊥
KeepsLedger (Op.process_deposit _) = ⊥
KeepsLedger _ = Unit

module _ {K : Type 0} (ml : MlDsa K) where
  -- the writes of a checked call keep the supply
  writes :
      {A : Type 0} (q : Gateway K → Result GatewayError A) (write : A → Gateway K → Gateway K)
      (g : Gateway K)
      → ((a : A) → SameLedger g (write a g))
      → SameLedger g (checked q write g).1
  writes q write g keeps =
      checked-cases q write g (SameLedger g) (SameLedger-refl g) (λ a _. keeps a)

  pub step-SameLedger : (op : Op) (g : Gateway K) → KeepsLedger op → SameLedger g (step ml op g)
  unfolding step Settings.advance_to Settings.advance_epoch_to Settings.settle_admin_records
      Settings.pause_source_direct Settings.unpause_source Settings.set_escrow Settings.pause_all
      Settings.unpause_all Settings.advance_epoch Corridor.register_corridor
      Corridor.set_corridor_active Corridor.set_corridor_tier Corridor.accept_batch
      Corridor.write_batch Pause.resume_all Pause.write_unpause Pause.report_reorg
      Pause.resume_source Pause.write_resume Freeze.emergency_freeze Freeze.lift_freeze
      Freeze.write_lift Freeze.watchdog_freeze
  step-SameLedger (Op.advance_to h) g k = ground arith
  step-SameLedger (Op.advance_epoch_to e) g k = ground arith
  step-SameLedger (Op.settle a b) g k = ground arith
  step-SameLedger (Op.pause_source_direct c) g k = ground arith
  step-SameLedger (Op.unpause_source c) g k = ground arith
  step-SameLedger (Op.set_escrow a e) g k = ground arith
  step-SameLedger (Op.register_corridor c d) g k = ground arith
  step-SameLedger (Op.set_corridor_quorum c q) g k = set_corridor_quorum-SameLedger c q g
  step-SameLedger (Op.set_corridor_active c b) g k = ground arith
  step-SameLedger Op.pause_all g k = ground arith
  step-SameLedger Op.unpause_all g k = ground arith
  step-SameLedger Op.advance_epoch g k = ground arith
  step-SameLedger (Op.attest_reserve a e h sigs) g k = attest_reserve-SameLedger ml a e h sigs g
  step-SameLedger (Op.set_corridor_tier c t sigs) g k =
      writes _ _ g λ m. write_tier-SameLedger c t m g
  step-SameLedger (Op.accept_batch c i sigs) g k = writes _ _ g λ m. ground arith
  step-SameLedger (Op.resume_all h sigs) g k = writes _ _ g λ m. ground arith
  step-SameLedger (Op.emergency_freeze u sigs) g k = writes _ _ g λ m. write_freeze-SameLedger u m g
  step-SameLedger (Op.report_reorg c d h sigs) g k = writes _ _ g λ m. write_reorg-SameLedger c m g
  step-SameLedger (Op.resume_source c h sigs) g k = writes _ _ g λ m. ground arith
  step-SameLedger (Op.lift_freeze sigs) g k = writes _ _ g λ m. ground arith
  step-SameLedger (Op.watchdog_freeze u sig) g k = writes _ _ g λ m. write_watchdog-SameLedger u m g
  step-SameLedger (Op.request_exit _ _ _) g k = absurd k
  step-SameLedger (Op.finalize_exit _) g k = absurd k
  step-SameLedger (Op.cancel_exit _) g k = absurd k
  step-SameLedger (Op.admit_trustless _ _ _ _) g k = absurd k
  step-SameLedger (Op.process_deposit _) g k = absurd k
