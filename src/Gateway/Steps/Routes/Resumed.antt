-- ===== src/Gateway/Steps/Routes/Resumed.antt =====
-- The height of a corridor's last resumption only rises, so its signatures cannot be used again.
use q_oracle.Base.{ℕ, ◌≤◌, ◌<◌, ◌≡◌, ◌≢◌, some, List, [], ◌∷◌, arith}
use q_oracle.Base.Result.{ok}
use q_oracle.Base.Map.{lookup, lookup-insert, nat_key}
use q_oracle.Airlock.Envelope.{SignerSig}
use q_oracle.Gateway.Operators.{MlDsa}
use q_oracle.Gateway.State.{Gateway}
use q_oracle.Gateway.Corridor
use q_oracle.Gateway.Pause
use q_oracle.Gateway.Pause.Checks.{check_resume, reorg_fresh, check_reorg}
use q_oracle.Gateway.Steps.{Op, step, run}
use q_oracle.Gateway.Steps.Checked.{checked-cases, checked-ok}
use q_oracle.Gateway.Steps.Routes.{step-SameRoutes}

-- the corridor was last resumed at the height or later
abbrev pub ResumedBy : {K : Type 0} → ℕ → ℕ → Gateway K → Type 0
ResumedBy c h g = (last : ℕ) × (lookup c g.resumed_at ≡ some last) × (h ≤ last)

module _ {K : Type 0} (ml : MlDsa K) (c h : ℕ) where
  check_resume-later :
      (d j : ℕ) (sigs : List SignerSig) (g : Gateway K) {m : List ℕ × List SignerSig} (last : ℕ)
      → check_resume ml d j sigs g ≡ ok m
      → lookup d g.resumed_at ≡ some last
      → last < j
  unfolding check_resume
  check_resume-later d j sigs g last e found = ground arith

  write_resume-ResumedBy :
      (d j : ℕ) (m : List ℕ × List SignerSig) (g : Gateway K)
      → ((last : ℕ) → lookup d g.resumed_at ≡ some last → last < j)
      → ResumedBy c h g
      → ResumedBy c h (Pause.write_resume d j m g)
  unfolding Pause.write_resume
  write_resume-ResumedBy d j m g later (last, found, above) =
      ground (arith, lookup-insert d c j g.resumed_at, later last)

  resume_source-ResumedBy :
      (d j : ℕ) (sigs : List SignerSig) (g : Gateway K)
      → ResumedBy c h g
      → ResumedBy c h (Pause.resume_source ml d j sigs g).1
  unfolding Pause.resume_source
  resume_source-ResumedBy d j sigs g u =
      checked-cases _ _ g (ResumedBy c h) u
        λ m e. write_resume-ResumedBy d j m g (λ last. check_resume-later d j sigs g last e) u

  step-ResumedBy : (op : Op) (g : Gateway K) → ResumedBy c h g → ResumedBy c h (step ml op g)
  step-ResumedBy (Op.resume_source d j sigs) g u =
      unfold step in resume_source-ResumedBy d j sigs g u
  step-ResumedBy (Op.register_corridor _ _) g u =
      unfold step in unfold Corridor.register_corridor in u
  step-ResumedBy (Op.set_corridor_active _ _) g (last, found, above) =
      (last, unfold step in unfold Corridor.set_corridor_active in ground arith, above)
  step-ResumedBy (Op.set_corridor_quorum _ _) g (last, found, above) =
      (last, unfold step in unfold Corridor.set_corridor_quorum in ground arith, above)
  step-ResumedBy (Op.set_corridor_tier d t sigs) g (last, found, above) =
      unfold step in
      unfold Corridor.set_corridor_tier in
      checked-cases _ _ g (ResumedBy c h) (last, found, above)
        λ m _. (last, unfold Corridor.write_tier in ground arith, above)
  step-ResumedBy (Op.accept_batch d j sigs) g u =
      unfold step in
      unfold Corridor.accept_batch in
      checked-cases _ _ g (ResumedBy c h) u (λ m _. unfold Corridor.write_batch in u)
  step-ResumedBy op g u = rw ((step-SameRoutes ml op g tt).resumed) u

  run-ResumedBy : (ops : List Op) (g : Gateway K) → ResumedBy c h g → ResumedBy c h (run ml ops g)
  unfolding run
  run-ResumedBy [] g u = u
  run-ResumedBy (op ∷ ops) g u = run-ResumedBy ops (step ml op g) (step-ResumedBy op g u)

  resume_source-records :
      (sigs : List SignerSig) (g : Gateway K)
      → (Pause.resume_source ml c h sigs g).0 ≡ ok tt
      → ResumedBy c h (Pause.resume_source ml c h sigs g).1
  unfolding Pause.resume_source
  resume_source-records sigs g e =
      let (m, _, written) = checked-ok _ _ g e in
      unfold Pause.write_resume in
      (h, ground (arith, lookup-insert c c h g.resumed_at), omega arith)

  ResumedBy-refused :
      (j : ℕ) (sigs : List SignerSig) (g : Gateway K)
      → j ≤ h
      → ResumedBy c h g
      → (Pause.resume_source ml c j sigs g).0 ≢ ok tt
  unfolding Pause.resume_source
  ResumedBy-refused j sigs g early (last, found, above) e =
      let (m, passed, _) = checked-ok _ _ g e in
      let later = check_resume-later c j sigs g last passed found in omega arith

  ResumedBy-reported :
      (j depth : ℕ) (sigs : List SignerSig) (g : Gateway K)
      → j ≤ h
      → ResumedBy c h g
      → (Pause.report_reorg ml c depth j sigs g).0 ≢ ok tt
  unfolding Pause.report_reorg
  ResumedBy-reported j depth sigs g early (last, found, above) e =
      let (m, passed, _) = checked-ok _ _ g e in
      unfold check_reorg in unfold reorg_fresh in ground arith

-- Signatures cannot resume or pause a corridor again: after `resume_source` succeeds at a height and any further
-- calls, both `resume_source` and `report_reorg` fail for that corridor at that height and at every lower one.
pub run-resume_once :
    {K : Type 0} (ml : MlDsa K) (c h : ℕ) (sigs : List SignerSig) (g : Gateway K) (ops : List Op)
    → (Pause.resume_source ml c h sigs g).0 ≡ ok tt
    → (j : ℕ) → j ≤ h
    → ((again : List SignerSig)
        → (Pause.resume_source ml c j again (run ml ops (Pause.resume_source ml c h sigs g).1)).0
          ≢ ok tt)
      × ((depth : ℕ) (again : List SignerSig)
          → (Pause.report_reorg ml c depth j again
              (run ml ops (Pause.resume_source ml c h sigs g).1)).0
            ≢ ok tt)
run-resume_once ml c h sigs g ops done j early =
    let by = run-ResumedBy ml c h ops _ (resume_source-records ml c h sigs g done) in
    (
      λ again. ResumedBy-refused ml c h j again _ early by,
      λ depth again. ResumedBy-reported ml c h j depth again _ early by,
    )
