-- ===== src/Gateway/Operators/Keys.antt =====
-- No two operators of a set share a public key (crates/q-gateway/src/operators.rs).
use q_oracle.Base.{
  ℕ, ◌≡◌, sym, ◌∙◌, ◌⊎◌, inl, inr, Bool, true, false, ◌&&◌, not, some, [], ◌∷◌, arith,
}
use q_oracle.Base.Tests.{◌==◌, if◌then◌else◌, Bool-cases}
use q_oracle.Base.Lists.{any}
use q_oracle.Base.Map.{Map, lookup, insert, nat_key, lookup_head, lookup-insert, lookup-remove}
use native.Nat.{ℕᴺ_discrete}
use q_oracle.Gateway.Operators.{MlDsa, OperatorSet, register, unregister, pubkey}

module _ {K : Type 0} where
  -- a public key belongs to one operator
  abbrev pub HasDistinctKeys : OperatorSet K → Type 0
  HasDistinctKeys set = (i j : ℕ) (k : K) → pubkey i set ≡ some k → pubkey j set ≡ some k → i ≡ j

module _ {K : Type 0} (ml : MlDsa K) (id : ℕ) (pk : K) where
  -- the key of some other operator
  unfoldable taken : Map ℕ K → Bool
  taken m = any (λ e. not (e.0 == id) && ml.key_eq e.1 pk) m

  taken_inv :
      (i : ℕ) (k : K) (m : Map ℕ K)
      → taken ((i, k) ∷ m) ≡ false
      → (taken m ≡ false) × ((i ≡ id) ⊎ (ml.key_eq k pk ≡ false))
  unfolding taken
  taken_inv i k m h = ground arith

  -- a key that is not taken is the key of no other operator
  free-absent : (m : Map ℕ K) → taken m ≡ false → (j : ℕ) → lookup j m ≡ some pk → j ≡ id
  free-absent [] h j e = unfold lookup in ground arith
  free-absent ((i, k) ∷ m) h j e =
      let (others, head) = taken_inv i k m h in
      elim (ℕᴺ_discrete i j) [
        | yes same ↦ ground (arith, lookup_head j i k m, ml.key_eq_iff k pk)
        | no other ↦ free-absent m others j (ground (arith, lookup_head j i k m))
      ]

  inserted :
      (m : Map ℕ K)
      → taken m ≡ false
      → ((i j : ℕ) (k : K) → lookup i m ≡ some k → lookup j m ≡ some k → i ≡ j)
      → (i j : ℕ) (k : K) → lookup i (insert id pk m) ≡ some k
      → lookup j (insert id pk m) ≡ some k
      → i ≡ j
  inserted m h v i j k ei ej =
      let li : (if id == i then some pk else lookup i m) ≡ some k =
        sym (lookup-insert id i pk m) ∙ ei in
      let lj : (if id == j then some pk else lookup j m) ≡ some k =
        sym (lookup-insert id j pk m) ∙ ej in
      elim (ℕᴺ_discrete id i) [
        | yes same_i ↦ elim (ℕᴺ_discrete id j) [
          | yes same_j ↦ sym same_i ∙ same_j
          | no other_j ↦ absurd (other_j (sym (free-absent m h j (ground arith))))
        ]
        | no other_i ↦ elim (ℕᴺ_discrete id j) [
          | yes same_j ↦ absurd (other_i (sym (free-absent m h i (ground arith))))
          | no other_j ↦ v i j k (ground arith) (ground arith)
        ]
      ]

  -- Registering keeps the public keys of a set distinct, whether it accepts the key or refuses it as
  -- another operator's, and so does unregistering; a key that is accepted is its operator's.
  pub register-HasDistinctKeys :
      (set : OperatorSet K)
      → HasDistinctKeys set
      → HasDistinctKeys (register ml id pk set).1
        × HasDistinctKeys (unregister id set)
        × ((register ml id pk set).0 ≡ true → pubkey id (register ml id pk set).1 ≡ some pk)
  unfolding register unregister pubkey taken
  register-HasDistinctKeys set v = (
    elim (Bool-cases (taken set.pubkeys)) [
      | inl yes_taken ↦ λ i j k ei ej. v i j k (ground arith) (ground arith)
      | inr free ↦ λ i j k ei ej. inserted set.pubkeys free v i j k (ground arith) (ground arith)
    ],
    λ i j k ei ej.
        v i j k (ground (arith, lookup-remove id i set.pubkeys))
          (ground (arith, lookup-remove id j set.pubkeys)),
    λ h. ground (arith, lookup-insert id id pk set.pubkeys),
  )
