-- ===== src/Gateway/Steps/Routes/Batches.antt =====
-- A batch of a corridor is accepted at most once in any history.
use q_oracle.Base.{ℕ, ◌+◌, ◌≤◌, ◌<◌, ◌≡◌, ◌≢◌, List, [], ◌∷◌, arith}
use q_oracle.Base.Tests.{unwrap_or}
use q_oracle.Base.Result.{ok}
use q_oracle.Base.Map.{lookup, lookup-insert, nat_key}
use q_oracle.Airlock.Envelope.{SignerSig}
use q_oracle.Gateway.Operators.{MlDsa}
use q_oracle.Gateway.State.{Gateway}
use q_oracle.Gateway.Corridor
use q_oracle.Gateway.Pause
use q_oracle.Gateway.Corridor.Checks.{check_batch, corridor_cursor}
use q_oracle.Gateway.Steps.{Op, step, run}
use q_oracle.Gateway.Steps.Checked.{checked-cases, checked-ok}
use q_oracle.Gateway.Steps.Routes.{step-SameRoutes}

-- the batch is behind the corridor's cursor
abbrev pub Passed : {K : Type 0} → ℕ → ℕ → Gateway K → Type 0
Passed c i g = i < unwrap_or 0 (lookup c g.corridor_cursor)

module _ {K : Type 0} (ml : MlDsa K) (c i : ℕ) where
  check_batch-cursor :
      (d j : ℕ) (sigs : List SignerSig) (g : Gateway K) (next : ℕ)
      → check_batch ml d j sigs g ≡ ok next
      → (unwrap_or 0 (lookup d g.corridor_cursor) ≡ j) × (next ≡ j + 1)
  unfolding check_batch corridor_cursor
  check_batch-cursor d j sigs g next h = ground arith

  write_batch-Passed :
      (d next : ℕ) (g : Gateway K)
      → unwrap_or 0 (lookup d g.corridor_cursor) ≤ next
      → Passed c i g
      → Passed c i (Corridor.write_batch d next g)
  unfolding Corridor.write_batch
  write_batch-Passed d next g h u = ground (arith, lookup-insert d c next g.corridor_cursor)

  accept_batch-Passed :
      (d j : ℕ) (sigs : List SignerSig) (g : Gateway K)
      → Passed c i g
      → Passed c i (Corridor.accept_batch ml d j sigs g).1
  unfolding Corridor.accept_batch
  accept_batch-Passed d j sigs g u = checked-cases _ _ g (Passed c i) u λ next e.
      let found = check_batch-cursor d j sigs g next e in
      write_batch-Passed d next g (omega arith) u

  step-Passed : (op : Op) (g : Gateway K) → Passed c i g → Passed c i (step ml op g)
  step-Passed (Op.accept_batch d j sigs) g u = unfold step in accept_batch-Passed d j sigs g u
  step-Passed (Op.register_corridor _ _) g u = unfold step in unfold Corridor.register_corridor in u
  step-Passed (Op.set_corridor_active _ _) g u =
      unfold step in unfold Corridor.set_corridor_active in ground arith
  step-Passed (Op.set_corridor_quorum _ _) g u =
      unfold step in unfold Corridor.set_corridor_quorum in ground arith
  step-Passed (Op.set_corridor_tier d t sigs) g u =
      unfold step in
      unfold Corridor.set_corridor_tier in
      checked-cases _ _ g (Passed c i) u (λ m _. unfold Corridor.write_tier in ground arith)
  step-Passed (Op.resume_source d h sigs) g u =
      unfold step in
      unfold Pause.resume_source in
      checked-cases _ _ g (Passed c i) u (λ m _. unfold Pause.write_resume in u)
  step-Passed op g u = rw ((step-SameRoutes ml op g tt).cursors) u

  run-Passed : (ops : List Op) (g : Gateway K) → Passed c i g → Passed c i (run ml ops g)
  unfolding run
  run-Passed [] g u = u
  run-Passed (op ∷ ops) g u = run-Passed ops (step ml op g) (step-Passed op g u)

  accept_batch-advances :
      (sigs : List SignerSig) (g : Gateway K)
      → (Corridor.accept_batch ml c i sigs g).0 ≡ ok tt
      → Passed c i (Corridor.accept_batch ml c i sigs g).1
  unfolding Corridor.accept_batch
  accept_batch-advances sigs g h =
      let (next, e, written) = checked-ok _ _ g h in
      let (_, more) = check_batch-cursor c i sigs g next e in
      unfold Corridor.write_batch in ground (arith, lookup-insert c c next g.corridor_cursor)

  Passed-refused :
      (sigs : List SignerSig) (g : Gateway K)
      → Passed c i g
      → (Corridor.accept_batch ml c i sigs g).0 ≢ ok tt
  unfolding Corridor.accept_batch
  Passed-refused sigs g u h =
      let (next, e, _) = checked-ok _ _ g h in
      let found = check_batch-cursor c i sigs g next e in omega arith

-- A batch is accepted at most once: after `accept_batch` succeeds for an index of a corridor and any further
-- calls, it fails for that index of that corridor, whatever the signatures.
pub run-batch_once :
    {K : Type 0} (ml : MlDsa K) (c i : ℕ) (sigs again : List SignerSig) (g : Gateway K)
    (ops : List Op)
    → (Corridor.accept_batch ml c i sigs g).0 ≡ ok tt
    → (Corridor.accept_batch ml c i again (run ml ops (Corridor.accept_batch ml c i sigs g).1)).0
      ≢ ok tt
run-batch_once ml c i sigs again g ops h =
    Passed-refused ml c i again _ (run-Passed ml c i ops _ (accept_batch-advances ml c i sigs g h))
