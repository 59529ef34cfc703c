-- ===== src/Base/Map/Sorted.antt =====
-- Maps over integers keep their keys in strictly ascending order, so no key stands twice.
use Prim.Native.Nat.{ℕ, suc, ◌<◌, ◌≤◌}
use mathlib.Core.Path.{◌≡◌, refl}
use mathlib.Core.Option.{none, some}
use mathlib.Core.List.{[], ◌∷◌}
use native.Mathlib.Omega.{arith}
use q_oracle.Base.Tests.{if◌then◌else◌}
use q_oracle.Base.Lists.{length}
use q_oracle.Base.Map.{Map, lookup, insert, remove, contains_key, nat_key}

module _ {κ} {V : Type κ} where
  -- every key lies above `k`
  abbrev pub Above : ℕ → Map ℕ V → Type 0
  Above k [] = Unit
  Above k ((j, _) ∷ m) = (k < j) × Above k m

  abbrev pub IsSorted : Map ℕ V → Type 0
  IsSorted [] = Unit
  IsSorted ((k, _) ∷ m) = Above k m × IsSorted m

  -- every key lies below `k`
  abbrev pub Below : ℕ → Map ℕ V → Type 0
  Below k [] = Unit
  Below k ((j, _) ∷ m) = (j < k) × Below k m

module _ {κ} {V : Type κ} where
  pub Above-mono : (j k : ℕ) (m : Map ℕ V) → j ≤ k → Above k m → Above j m
  Above-mono j k [] h a = tt
  Above-mono j k ((i, v) ∷ m) h a = (omega arith, Above-mono j k m h a.1)

  pub lookup-Above : (j k : ℕ) (m : Map ℕ V) → j ≤ k → Above k m → lookup j m ≡ none
  unfolding lookup
  lookup-Above j k [] h a = refl
  lookup-Above j k ((i, v) ∷ m) h a = ground (arith, lookup-Above j k m h a.1)

  pub lookup-Below : (j k : ℕ) (m : Map ℕ V) → k ≤ j → Below k m → lookup j m ≡ none
  unfolding lookup
  lookup-Below j k [] h b = refl
  lookup-Below j k ((i, v) ∷ m) h b = ground (arith, lookup-Below j k m h b.1)

  pub Below-lookup : (j k : ℕ) (v : V) (m : Map ℕ V) → Below k m → lookup j m ≡ some v → j < k
  unfolding lookup
  Below-lookup j k v [] b h = cc
  Below-lookup j k v ((i, w) ∷ m) b h = ground (arith, Below-lookup j k v m b.1)

  insert-Above : (i k : ℕ) (v : V) (m : Map ℕ V) → i < k → Above i m → Above i (insert k v m)
  unfolding insert
  insert-Above i k v [] h a = (h, tt)
  insert-Above i k v ((j, w) ∷ m) h a = ground (arith, insert-Above i k v m h a.1)

  pub insert-IsSorted : (k : ℕ) (v : V) (m : Map ℕ V) → IsSorted m → IsSorted (insert k v m)
  unfolding insert
  insert-IsSorted k v [] s = (tt, tt)
  insert-IsSorted k v ((j, w) ∷ m) s =
      ground (arith, insert-IsSorted k v m s.1, insert-Above j k v m, Above-mono k j m)

  remove-Above : (i k : ℕ) (m : Map ℕ V) → Above i m → Above i (remove k m)
  unfolding remove
  remove-Above i k [] a = tt
  remove-Above i k ((j, w) ∷ m) a = ground (arith, remove-Above i k m a.1)

  pub remove-IsSorted : (k : ℕ) (m : Map ℕ V) → IsSorted m → IsSorted (remove k m)
  unfolding remove
  remove-IsSorted k [] s = tt
  remove-IsSorted k ((j, w) ∷ m) s = ground (arith, remove-IsSorted k m s.1, remove-Above j k m s.0)

  pub remove_absent : (k : ℕ) (m : Map ℕ V) → lookup k m ≡ none → remove k m ≡ m
  unfolding lookup remove
  remove_absent k [] h = refl
  remove_absent k ((j, w) ∷ m) h = ground (arith, remove_absent k m)

  pub insert-Below : (i k : ℕ) (v : V) (m : Map ℕ V) → k < i → Below i m → Below i (insert k v m)
  unfolding insert
  insert-Below i k v [] h b = (h, tt)
  insert-Below i k v ((j, w) ∷ m) h b = ground (arith, insert-Below i k v m h b.1)

  pub Below-mono : (j k : ℕ) (m : Map ℕ V) → j ≤ k → Below j m → Below k m
  Below-mono j k [] h b = tt
  Below-mono j k ((i, v) ∷ m) h b = (omega arith, Below-mono j k m h b.1)

  pub remove-Below : (i k : ℕ) (m : Map ℕ V) → Below i m → Below i (remove k m)
  unfolding remove
  remove-Below i k [] b = tt
  remove-Below i k ((j, w) ∷ m) b = ground (arith, remove-Below i k m b.1)

  -- A write of a new key adds one entry, of an old key none.
  pub length-insert :
      (k : ℕ) (v : V) (m : Map ℕ V)
      → IsSorted m
      → length (insert k v m) ≡ (if contains_key k m then length m else suc (length m))
  unfolding insert contains_key lookup
  length-insert k v [] s = refl
  length-insert k v ((j, w) ∷ m) s = ground (arith, length-insert k v m s.1, lookup-Above k j m)
