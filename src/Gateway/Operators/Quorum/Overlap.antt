-- ===== src/Gateway/Operators/Quorum/Overlap.antt =====
-- Two quorums of at least the supermajority floor share more than a third of the operators.
use q_oracle.Base.{ℕ, suc, ◌+◌, ◌*◌, ◌≤◌, ◌<◌, ◌≡◌, refl, true, false, List, [], ◌∷◌, ◌++◌, arith}
use q_oracle.Base.Tests.{if◌then◌else◌}
use q_oracle.Base.Lists.{length, length-append, All, All-append}
use q_oracle.Base.Words.{u64_max}
use q_oracle.Base.Map.{Map, contains_key, lookup, remove, lookup-remove, nat_key}
use q_oracle.Airlock.Envelope.{SignerSig}
use q_oracle.Gateway.Operators.{
  MlDsa, OperatorSet, size, verifies, verified_quorum, supermajority_floor, pubkey,
}
use q_oracle.Gateway.Operators.Quorum.{verified_quorum_sound}
use q_oracle.Gateway.Operators.Scan.{has, IsDistinct, IsDistinct-append}

-- every signer is a key of the map
abbrev pub Registered : {K : Type 0} → Map ℕ K → List SignerSig → Type 0
Registered m xs = All (λ s. contains_key s.operator_id m ≡ true) xs

module _ {K : Type 0} where
  length-remove-le : (k : ℕ) (m : Map ℕ K) → length (remove k m) ≤ length m
  unfolding remove
  length-remove-le k [] = omega arith
  length-remove-le k ((j, v) ∷ m) = ground (arith, length-remove-le k m)

  length-remove :
      (k : ℕ) (m : Map ℕ K) → contains_key k m ≡ true → suc (length (remove k m)) ≤ length m
  unfolding contains_key lookup remove
  length-remove k [] h = cc
  length-remove k ((j, v) ∷ m) h = ground (arith, length-remove k m, length-remove-le k m)

  remove-Registered :
      (k : ℕ) (m : Map ℕ K) (xs : List SignerSig)
      → has k xs ≡ false
      → Registered m xs
      → Registered (remove k m) xs
  unfolding contains_key
  remove-Registered k m [] new h = tt
  remove-Registered k m (x ∷ xs) new h = (
    ground (arith, lookup-remove k x.operator_id m, h.0),
    remove-Registered k m xs (ground arith) h.1,
  )

  -- Distinct registered signers are no more than the operators.
  pub length-le-size :
      (m : Map ℕ K) (xs : List SignerSig) → IsDistinct xs → Registered m xs → length xs ≤ length m
  length-le-size m [] d h = omega arith
  length-le-size m (x ∷ xs) d h = omega (
    arith,
    length-remove x.operator_id m h.0,
    length-le-size (remove x.operator_id m) xs d.1 (remove-Registered x.operator_id m xs d.0 h.1),
  )

-- How many of the first signers have signed the second list too, and those that have not.
abbrev pub common : List SignerSig → List SignerSig → ℕ
common [] ys = 0
common (x ∷ xs) ys = (if has x.operator_id ys then 1 else 0) + common xs ys

abbrev strangers : List SignerSig → List SignerSig → List SignerSig
strangers [] ys = []
strangers (x ∷ xs) ys = if has x.operator_id ys then strangers xs ys else x ∷ strangers xs ys

common-add-strangers :
    (xs ys : List SignerSig) → common xs ys + length (strangers xs ys) ≡ length xs
common-add-strangers [] ys = refl
common-add-strangers (x ∷ xs) ys = ground (arith, common-add-strangers xs ys)

has-strangers :
    (id : ℕ) (xs ys : List SignerSig) → has id xs ≡ false → has id (strangers xs ys) ≡ false
has-strangers id [] ys h = refl
has-strangers id (x ∷ xs) ys h = ground (arith, has-strangers id xs ys)

strangers-IsDistinct : (xs ys : List SignerSig) → IsDistinct xs → IsDistinct (strangers xs ys)
strangers-IsDistinct [] ys d = tt
strangers-IsDistinct (x ∷ xs) ys d =
    ground (arith, strangers-IsDistinct xs ys d.1, has-strangers x.operator_id xs ys d.0)

strangers_apart :
    (xs ys : List SignerSig) → All (λ x. has x.operator_id ys ≡ false) (strangers xs ys)
strangers_apart [] ys = tt
strangers_apart (x ∷ xs) ys = ground (arith, strangers_apart xs ys)

strangers-Registered :
    {K : Type 0} (m : Map ℕ K) (xs ys : List SignerSig)
    → Registered m xs
    → Registered m (strangers xs ys)
strangers-Registered m [] ys h = tt
strangers-Registered m (x ∷ xs) ys h = ground (arith, strangers-Registered m xs ys h.1)

pub length-add-le :
    {K : Type 0} (m : Map ℕ K) (xs ys : List SignerSig)
    → IsDistinct xs
    → IsDistinct ys
    → Registered m xs
    → Registered m ys
    → length xs + length ys ≤ common xs ys + length m
length-add-le m xs ys dx dy rx ry =
    let zs = strangers xs ys in
    omega (
      arith,
      common-add-strangers xs ys,
      length-append zs ys,
      length-le-size m (zs ++ ys)
          (IsDistinct-append zs ys (strangers-IsDistinct xs ys dx) dy (strangers_apart xs ys))
          (All-append (λ s. contains_key s.operator_id m ≡ true) zs ys
            (strangers-Registered m xs ys rx) ry),
    )

module _ {K : Type 0} (ml : MlDsa K) (message context : List ℕ) (set : OperatorSet K) where
  good-Registered :
      (xs : List SignerSig)
      → All (λ s. verifies ml message context set s ≡ true) xs
      → Registered set.pubkeys xs
  unfolding verifies pubkey contains_key
  good-Registered [] h = tt
  good-Registered (x ∷ xs) h = (ground (arith, h.0), good-Registered xs h.1)

-- Two quorums of one operator set, over whatever messages and in whatever domains, that each reach the
-- supermajority floor have more than a third of the operators in common. The set is small enough for twice its
-- size to be a `u64`.
pub quorums_overlap :
    {K : Type 0} (ml : MlDsa K) (message context message' context' : List ℕ) (set : OperatorSet K)
    (sigs sigs' : List SignerSig)
    → size set * 2 ≤ u64_max
    → supermajority_floor (size set) ≤ length (verified_quorum ml message context set sigs)
    → supermajority_floor (size set) ≤ length (verified_quorum ml message' context' set sigs')
    → size set
      < 3
        * common
            (verified_quorum ml message context set sigs)
            (verified_quorum ml message' context' set sigs')
unfolding supermajority_floor
quorums_overlap ml message context message' context' set sigs sigs' small enough enough' =
    let first = verified_quorum ml message context set sigs in
    let second = verified_quorum ml message' context' set sigs' in
    let (good, distinct) = verified_quorum_sound ml message context set sigs in
    let (good', distinct') = verified_quorum_sound ml message' context' set sigs' in
    omega (
      arith,
      length-add-le set.pubkeys first second distinct distinct'
          (good-Registered ml message context set first good)
          (good-Registered ml message' context' set second good'),
    )
