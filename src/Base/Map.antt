-- ===== src/Base/Map.antt =====
-- `BTreeMap` and `BTreeSet` as lists of entries in ascending order of the keys.
pub mod Sorted
use Prim.Native.Nat.{ℕ}
use mathlib.Core.Path.{◌≡◌, refl}
use mathlib.Core.Logic.{◌↔◌}
use mathlib.Core.Bool.{Bool, true, false, ◌&&◌, ◌||◌}
use mathlib.Core.Option.{Option, none, some}
use mathlib.Core.List.{List, [], ◌∷◌}
use native.Mathlib.Omega.{arith}
use q_oracle.Base.Tests.{ltb, ◌==◌ as nat_beq, ==_iff, if◌then◌else◌}

-- What the maps need of a key's `Ord`.
pub record Key {ℓ} (K : Type ℓ) : Type ℓ where
  pub beq : K → K → Bool
  pub blt : K → K → Bool
  pub beq_iff : (a b : K) → (beq a b ≡ true) ↔ (a ≡ b)

infix 50 ◌==◌
abbrev pub ◌==◌ {ℓ} : {K : Type ℓ} ⦃o : Key K⦄ → K → K → Bool
◌==◌ ⦃o⦄ = o.beq

-- An integer, and `[u8; N]` by its big-endian number: the order of the arrays is that of the numbers.
instance abbrev pub nat_key : Key ℕ
nat_key = record { beq = nat_beq; blt = ltb; beq_iff = ==_iff }

-- Pairs and sequences compare lexicographically.
module _ {A B : Type 0} ⦃a : Key A⦄ ⦃b : Key B⦄ where
  abbrev pub pair_beq : A × B → A × B → Bool
  pair_beq x y = a.beq x.0 y.0 && b.beq x.1 y.1

  abbrev pub pair_blt : A × B → A × B → Bool
  pair_blt x y = a.blt x.0 y.0 || (a.beq x.0 y.0 && b.blt x.1 y.1)

  pub pair_beq_iff : (x y : A × B) → (pair_beq x y ≡ true) ↔ (x ≡ y)
  pair_beq_iff x y = ground (arith, a.beq_iff x.0 y.0, b.beq_iff x.1 y.1)

  instance abbrev pub pair_key : Key (A × B)
  pair_key = record { beq = pair_beq; blt = pair_blt; beq_iff = pair_beq_iff }

module _ {A : Type 0} ⦃a : Key A⦄ where
  abbrev pub list_beq : List A → List A → Bool
  list_beq [] [] = true
  list_beq (x ∷ xs) (y ∷ ys) = a.beq x y && list_beq xs ys
  list_beq _ _ = false

  abbrev pub list_blt : List A → List A → Bool
  list_blt [] (y ∷ ys) = true
  list_blt (x ∷ xs) (y ∷ ys) = a.blt x y || (a.beq x y && list_blt xs ys)
  list_blt _ _ = false

  pub list_beq_iff : (xs ys : List A) → (list_beq xs ys ≡ true) ↔ (xs ≡ ys)
  list_beq_iff [] [] = ground arith
  list_beq_iff (x ∷ xs) (y ∷ ys) = ground (arith, a.beq_iff x y, list_beq_iff xs ys)
  list_beq_iff [] (y ∷ ys) = ground arith
  list_beq_iff (x ∷ xs) [] = ground arith

  instance abbrev pub list_key : Key (List A)
  list_key = record { beq = list_beq; blt = list_blt; beq_iff = list_beq_iff }

abbrev pub Map {ℓ κ} : Type ℓ → Type κ → Type (ℓ ⊔ κ)
Map K V = List (K × V)

module _ {ℓ κ} {K : Type ℓ} ⦃o : Key K⦄ {V : Type κ} where
  unfoldable pub lookup : K → Map K V → Option V
  lookup key [] = none
  lookup key ((at, value) ∷ rest) = if at == key then some value else lookup key rest

  unfoldable pub insert : K → V → Map K V → Map K V
  insert key value [] = (key, value) ∷ []
  insert key value ((at, old) ∷ rest) =
      if at == key
      then (key, value) ∷ rest
      else if o.blt key at
      then (key, value) ∷ (at, old) ∷ rest
      else (at, old) ∷ insert key value rest

  unfoldable pub remove : K → Map K V → Map K V
  remove key [] = []
  remove key ((at, old) ∷ rest) = if at == key then remove key rest else (at, old) ∷ remove key rest

  unfoldable pub contains_key : K → Map K V → Bool
  contains_key k m = elim (lookup k m) [ none ↦ false | some _ ↦ true ]

  -- `entry(k).or_insert(v)`
  unfoldable pub or_insert : K → V → Map K V → Map K V
  or_insert k v m = if contains_key k m then m else insert k v m

  -- an assignment through `get_mut(k)`: of a missing key there is none
  unfoldable pub replace : K → V → Map K V → Map K V
  replace key value [] = []
  replace key value ((at, old) ∷ rest) =
      if at == key then (at, value) ∷ rest else (at, old) ∷ replace key value rest

  pub lookup-replace :
      (k j : K) (v : V) (m : Map K V)
      → lookup j (replace k v m)
        ≡ (if k == j then (elim (lookup k m) [ none ↦ none | some _ ↦ some v ]) else lookup j m)
  unfolding lookup replace
  lookup-replace k j v [] = ground arith
  lookup-replace k j v ((i, w) ∷ m) =
      ground (arith, o.beq_iff i k, o.beq_iff i j, o.beq_iff k j, lookup-replace k j v m)

  pub lookup-replace_same :
      (k : K) (v w : V) (m : Map K V) → lookup k m ≡ some w → lookup k (replace k v m) ≡ some v
  lookup-replace_same k v w m h = ground (arith, lookup-replace k k v m, o.beq_iff k k)

  pub contains_key-replace :
      (k j : K) (v : V) (m : Map K V) → contains_key j (replace k v m) ≡ contains_key j m
  unfolding contains_key
  contains_key-replace k j v m = ground (arith, lookup-replace k j v m, o.beq_iff k j)

  -- the last of two assignments stays, and one of the value already there changes nothing
  pub replace-replace :
      (k : K) (v w : V) (m : Map K V) → replace k v (replace k w m) ≡ replace k v m
  unfolding replace
  replace-replace k v w [] = refl
  replace-replace k v w ((i, x) ∷ m) = ground (arith, replace-replace k v w m)

  pub replace_same : (k : K) (v : V) (m : Map K V) → lookup k m ≡ some v → replace k v m ≡ m
  unfolding replace lookup
  replace_same k v [] h = refl
  replace_same k v ((i, x) ∷ m) h = ground (arith, replace_same k v m)

  remove_absent : (k : K) (m : Map K V) → lookup k m ≡ none → remove k m ≡ m
  unfolding lookup remove
  remove_absent k [] h = refl
  remove_absent k ((i, w) ∷ m) h = ground (arith, remove_absent k m)

  -- an entry that comes and goes
  pub remove-insert :
      (k : K) (v : V) (m : Map K V) → lookup k m ≡ none → remove k (insert k v m) ≡ m
  unfolding lookup insert remove
  remove-insert k v [] h = ground (arith, o.beq_iff k k)
  remove-insert k v ((i, w) ∷ m) h =
      ground (arith, o.beq_iff k k, o.beq_iff i k, remove-insert k v m, remove_absent k m)

  pub lookup_head :
      (k j : K) (v : V) (m : Map K V)
      → lookup k ((j, v) ∷ m) ≡ (if j == k then some v else lookup k m)
  unfolding lookup
  lookup_head k j v m = refl

  pub lookup-insert :
      (key other : K) (value : V) (m : Map K V)
      → lookup other (insert key value m) ≡ (if key == other then some value else lookup other m)
  unfolding lookup insert
  lookup-insert key other value [] = refl
  lookup-insert key other value ((i, w) ∷ m) = ground (
    arith,
    o.beq_iff i key,
    o.beq_iff i other,
    o.beq_iff key other,
    lookup-insert key other value m,
  )

  pub lookup-remove :
      (k j : K) (m : Map K V) → lookup j (remove k m) ≡ (if k == j then none else lookup j m)
  unfolding lookup remove
  lookup-remove k j [] = ground arith
  lookup-remove k j ((i, w) ∷ m) =
      ground (arith, o.beq_iff i k, o.beq_iff i j, o.beq_iff k j, lookup-remove k j m)

-- `BTreeSet`
abbrev pub Set {ℓ} : Type ℓ → Type ℓ
Set K = List (K × Unit {0})

module _ {ℓ} {K : Type ℓ} ⦃o : Key K⦄ where
  abbrev pub contains : K → Set K → Bool
  contains = contains_key

  abbrev pub add : K → Set K → Set K
  add k = insert k tt

  pub contains-add : (k j : K) (s : Set K) → contains j (add k s) ≡ (k == j || contains j s)
  unfolding contains_key
  contains-add k j s = ground (arith, lookup-insert k j tt s)

  pub contains-remove :
      (k j : K) (s : Set K) → contains j (remove k s) ≡ (if k == j then false else contains j s)
  unfolding contains_key
  contains-remove k j s = ground (arith, lookup-remove k j s)
