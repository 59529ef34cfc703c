-- ===== src/Desk/Sums.antt =====
-- Sums over the exits of a desk, and what the writes at one index do to them.
use q_oracle.Base.{
  ℕ, zero, suc, ◌+◌, ◌≤◌, ◌<◌, ◌≡◌, refl, ap, subst, Bool, true, false, ◌&&◌, none, some, List, [],
  ◌∷◌, ◌++◌, arith,
}
use mathlib.Core.Option.{some-injective}
use q_oracle.Base.Tests.{◌==◌, if◌then◌else◌}
use q_oracle.Base.Lists.{length, All}
use q_oracle.Desk.Statement.{Exit, pending, settled, slashed, is_pending}
use q_oracle.Desk.State.{get, set_at}

module _ {ℓ} {A : Type ℓ} where
  abbrev pub sum_by : (A → ℕ) → List A → ℕ
  sum_by f [] = 0
  sum_by f (x ∷ xs) = f x + sum_by f xs

module _ {ℓ} {A : Type ℓ} where
  pub sum_by-append :
      (f : A → ℕ) (xs : List A) (y : A) → sum_by f (xs ++ y ∷ []) ≡ sum_by f xs + f y
  sum_by-append f [] y = omega arith
  sum_by-append f (x ∷ xs) y = omega (arith, sum_by-append f xs y)

  pub sum_by-set_at :
      (f : A → ℕ) (i : ℕ) (x y : A) (xs : List A)
      → get i xs ≡ some x
      → sum_by f (set_at i y xs) + f x ≡ sum_by f xs + f y
  sum_by-set_at f zero x y (z ∷ xs) h =
      let e : f z ≡ f x = ap (λ o. elim o [ none ↦ f z | some w ↦ f w ]) h in omega arith
  sum_by-set_at f (suc i) x y (z ∷ xs) h = omega (arith, sum_by-set_at f i x y xs h)
  sum_by-set_at f i x y [] h = cc

  pub sum_by-get : (f : A → ℕ) (i : ℕ) (x : A) (xs : List A) → get i xs ≡ some x → f x ≤ sum_by f xs
  sum_by-get f zero x (z ∷ xs) h =
      let e : f z ≡ f x = ap (λ o. elim o [ none ↦ f z | some w ↦ f w ]) h in omega arith
  sum_by-get f (suc i) x (z ∷ xs) h = omega (arith, sum_by-get f i x xs h)
  sum_by-get f i x [] h = cc

  pub length-set_at : (i : ℕ) (y : A) (xs : List A) → length (set_at i y xs) ≡ length xs
  length-set_at i y [] = refl
  length-set_at zero y (x ∷ xs) = refl
  length-set_at (suc i) y (x ∷ xs) = ap suc (length-set_at i y xs)

  pub get-lt : (i : ℕ) (x : A) (xs : List A) → get i xs ≡ some x → i < length xs
  get-lt i x [] h = cc
  get-lt zero x (z ∷ xs) h = omega arith
  get-lt (suc i) x (z ∷ xs) h = omega (arith, get-lt i x xs h)

  pub get-append :
      (i : ℕ) (x y : A) (xs : List A) → get i xs ≡ some x → get i (xs ++ y ∷ []) ≡ some x
  get-append i x y [] h = cc
  get-append zero x y (z ∷ xs) h = h
  get-append (suc i) x y (z ∷ xs) h = get-append i x y xs h

  pub get-set_at_other :
      (i j : ℕ) (y : A) (xs : List A) → (i == j) ≡ false → get j (set_at i y xs) ≡ get j xs
  get-set_at_other i j y [] h = refl
  get-set_at_other zero zero y (x ∷ xs) h = cc
  get-set_at_other zero (suc j) y (x ∷ xs) h = refl
  get-set_at_other (suc i) zero y (x ∷ xs) h = refl
  get-set_at_other (suc i) (suc j) y (x ∷ xs) h = get-set_at_other i j y xs (ground arith)

  pub get-set_at :
      (i : ℕ) (x y : A) (xs : List A) → get i xs ≡ some x → get i (set_at i y xs) ≡ some y
  get-set_at i x y [] h = cc
  get-set_at zero x y (z ∷ xs) h = refl
  get-set_at (suc i) x y (z ∷ xs) h = get-set_at i x y xs h

  pub All-set_at {κ} :
      (P : A → Type κ) (i : ℕ) (y : A) (xs : List A) → All P xs → P y → All P (set_at i y xs)
  All-set_at P i y [] h p = tt
  All-set_at P zero y (x ∷ xs) h p = (p, h.1)
  All-set_at P (suc i) y (x ∷ xs) h p = (h.0, All-set_at P i y xs h.1 p)

  pub All-get {κ} :
      (P : A → Type κ) (i : ℕ) (x : A) (xs : List A) → All P xs → get i xs ≡ some x → P x
  All-get P i x [] h e = cc
  All-get P zero x (z ∷ xs) h e = subst P (some-injective _ _ e) h.0
  All-get P (suc i) x (z ∷ xs) h e = All-get P i x xs h.1 e

abbrev pub is_slashed : Exit → Bool
is_slashed exit = elim exit.state [ pending ↦ false | settled ↦ false | slashed ↦ true ]

-- an exit's share in the locked collateral of a vault, in what was seized of it, and in all that was seized
abbrev pub locked_share : ℕ → Exit → ℕ
locked_share v e = if is_pending e && e.vault_id == v then e.locked else 0

abbrev pub seized_share : ℕ → Exit → ℕ
seized_share v e = if is_slashed e && e.vault_id == v then e.locked else 0

abbrev pub slashed_share : Exit → ℕ
slashed_share e = if is_slashed e then e.locked else 0
