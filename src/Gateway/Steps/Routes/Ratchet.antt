-- ===== src/Gateway/Steps/Routes/Ratchet.antt =====
-- A corridor never disappears, its confirmation depth never changes and its tier never falls.
use q_oracle.Base.{
  ℕ, ◌≤◌, ◌<◌, ◌≡◌, refl, sym, subst, ◌⊎◌, inl, inr, Bool, true, some, List, [], ◌∷◌, arith,
}
use q_oracle.Base.Tests.{Option-cases}
use q_oracle.Base.Result.{ok}
use q_oracle.Base.Map.{Map, lookup, insert, or_insert, contains_key, lookup-insert, nat_key}
use native.Nat.{ℕᴺ_discrete}
use q_oracle.Airlock.Envelope.{SignerSig}
use q_oracle.Gateway.Operators.{MlDsa}
use q_oracle.Gateway.State.{Gateway, CorridorConfig, base_tier}
use q_oracle.Gateway.Corridor
use q_oracle.Gateway.Pause
use q_oracle.Gateway.Corridor.Checks.{check_tier}
use q_oracle.Gateway.Steps.{Op, step, run}
use q_oracle.Gateway.Steps.Checked.{checked-cases}
use q_oracle.Gateway.Steps.Routes.{step-SameRoutes}

module _ (c depth tier : ℕ) where
  -- the corridor is open at the depth, at the tier or above
  abbrev pub Raised : Map ℕ CorridorConfig → Type 0
  Raised m =
      (k : CorridorConfig) × (lookup c m ≡ some k)
      × (k.confirmation_depth ≡ depth)
      × (tier ≤ k.tier)

  -- writing a corridor that is as deep, and as high as the one it replaces
  insert-Raised :
      (d : ℕ) (was next : CorridorConfig) (m : Map ℕ CorridorConfig)
      → lookup d m ≡ some was
      → next.confirmation_depth ≡ was.confirmation_depth
      → was.tier ≤ next.tier
      → Raised m
      → Raised (insert d next m)
  insert-Raised d was next m found deep high (k, at, same, above) = elim (ℕᴺ_discrete d c) [
    | yes e ↦ (next, ground (arith, lookup-insert d c next m), ground arith, ground arith)
    | no e ↦ (k, ground (arith, lookup-insert d c next m), same, above)
  ]

module _ {K : Type 0} (ml : MlDsa K) (c depth tier : ℕ) where
  check_tier-higher :
      (d t : ℕ) (sigs : List SignerSig) (g : Gateway K) {m : List ℕ × List SignerSig}
      → check_tier ml d t sigs g ≡ ok m
      → (was : CorridorConfig) → lookup d g.corridors ≡ some was
      → was.tier < t
  unfolding check_tier
  check_tier-higher d t sigs g e was found = ground arith

  -- a corridor that an operation writes back
  configure :
      (d : ℕ) (was next : CorridorConfig) (m m' : Map ℕ CorridorConfig)
      → lookup d m ≡ some was
      → (next.confirmation_depth ≡ was.confirmation_depth) × (was.tier ≤ next.tier)
      → m' ≡ insert d next m
      → Raised c depth tier m
      → Raised c depth tier m'
  configure d was next m m' e (deep, high) written v =
      subst (Raised c depth tier) (sym written)
        (insert-Raised c depth tier d was next m e deep high v)

  unchanged :
      (m m' : Map ℕ CorridorConfig) → m' ≡ m → Raised c depth tier m → Raised c depth tier m'
  unchanged m m' e v = subst (Raised c depth tier) (sym e) v

  write_tier-Raised :
      (d t : ℕ) (m : List ℕ × List SignerSig) (g : Gateway K)
      → ((was : CorridorConfig) → lookup d g.corridors ≡ some was → was.tier < t)
      → Raised c depth tier g.corridors
      → Raised c depth tier (Corridor.write_tier d t m g).corridors
  unfolding Corridor.write_tier
  write_tier-Raised d t m g higher v = elim (Option-cases (lookup d g.corridors)) [
    | inl e ↦ unchanged g.corridors _ (ground arith) v
    | inr (was, e) ↦
        configure d was (record was { tier = t }) g.corridors _ e
          (refl, omega (arith, higher was e)) (ground arith) v
  ]

  set_corridor_active-Raised :
      (d : ℕ) (b : Bool) (g : Gateway K)
      → Raised c depth tier g.corridors
      → Raised c depth tier (Corridor.set_corridor_active d b g).corridors
  unfolding Corridor.set_corridor_active
  set_corridor_active-Raised d b g v = elim (Option-cases (lookup d g.corridors)) [
    | inl e ↦ unchanged g.corridors _ (ground arith) v
    | inr (was, e) ↦
        configure d was (record was { active = b }) g.corridors _ e (refl, omega arith)
          (ground arith) v
  ]

  -- what `set_corridor_quorum` does to the corridors
  set_corridor_quorum-corridors :
      (d q : ℕ) (g : Gateway K)
      → ((Corridor.set_corridor_quorum d q g).1.corridors ≡ g.corridors)
        ⊎ ((was : CorridorConfig) × (lookup d g.corridors ≡ some was)
            × ((Corridor.set_corridor_quorum d q g).1.corridors
                ≡ insert d (record was { quorum = q }) g.corridors))
  unfolding Corridor.set_corridor_quorum
  set_corridor_quorum-corridors d q g = ground arith

  set_corridor_quorum-Raised :
      (d q : ℕ) (g : Gateway K)
      → Raised c depth tier g.corridors
      → Raised c depth tier (Corridor.set_corridor_quorum d q g).1.corridors
  set_corridor_quorum-Raised d q g v = elim (set_corridor_quorum-corridors d q g) [
    | inl e ↦ unchanged g.corridors _ e v
    | inr (was, found, e) ↦
        configure d was (record was { quorum = q }) g.corridors _ found (refl, omega arith) e v
  ]

  register_corridor-Raised :
      (d n : ℕ) (g : Gateway K)
      → Raised c depth tier g.corridors
      → Raised c depth tier (Corridor.register_corridor d n g).corridors
  unfolding Corridor.register_corridor or_insert contains_key
  register_corridor-Raised d n g (k, at, same, above) =
      let fresh : CorridorConfig = record {
        confirmation_depth = n;
        quorum = 0;
        tier = base_tier;
        active = true;
      } in
      (k, ground (arith, lookup-insert d c fresh g.corridors), same, above)

  abbrev pub RaisedIn : Gateway K → Type 0
  RaisedIn g = Raised c depth tier g.corridors

  step-Raised : (op : Op) (g : Gateway K) → RaisedIn g → RaisedIn (step ml op g)
  step-Raised (Op.register_corridor d n) g u = unfold step in register_corridor-Raised d n g u
  step-Raised (Op.set_corridor_active d b) g u = unfold step in set_corridor_active-Raised d b g u
  step-Raised (Op.set_corridor_quorum d q) g u = unfold step in set_corridor_quorum-Raised d q g u
  step-Raised (Op.set_corridor_tier d t sigs) g u =
      unfold step in
      unfold Corridor.set_corridor_tier in
      checked-cases _ _ g RaisedIn u
        λ m e. write_tier-Raised d t m g (check_tier-higher d t sigs g e) u
  step-Raised (Op.accept_batch d j sigs) g u =
      unfold step in
      unfold Corridor.accept_batch in
      checked-cases _ _ g RaisedIn u (λ m _. unfold Corridor.write_batch in u)
  step-Raised (Op.resume_source d j sigs) g u =
      unfold step in
      unfold Pause.resume_source in
      checked-cases _ _ g RaisedIn u (λ m _. unfold Pause.write_resume in u)
  step-Raised op g u = rw ((step-SameRoutes ml op g tt).corridors) u

  -- In every history a corridor that is registered stays so at the same confirmation depth, and its tier
  -- never falls.
  pub run-Raised : (ops : List Op) (g : Gateway K) → RaisedIn g → RaisedIn (run ml ops g)
  unfolding run
  run-Raised [] g u = u
  run-Raised (op ∷ ops) g u = run-Raised ops (step ml op g) (step-Raised op g u)
