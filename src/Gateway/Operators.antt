-- ===== src/Gateway/Operators.antt =====
-- crates/q-gateway/src/operators.rs: the registered operators, and the count of the distinct ones whose
-- signatures verify. ML-DSA itself is a parameter.
pub mod Scan
pub mod Quorum
pub mod Keys
use q_oracle.Base.{
  ℕ, ◌+◌, ◌*◌, ◌/◌, max, ◌≡◌, ◌↔◌, Bool, true, false, ◌&&◌, ◌||◌, not, Option, none, some, List, [],
  ◌∷◌, ◌++◌, map,
}
use q_oracle.Base.Tests.{ltb, ◌==◌, if◌then◌else◌}
use q_oracle.Base.Lists.{length, any}
use q_oracle.Base.Words.{sat_mul_u64}
use q_oracle.Base.Map.{Map, Set, lookup, insert, remove, contains, add, nat_key, pair_key, list_key}
use q_oracle.Airlock.Envelope.{SignerSig}

-- `qtv_crypto::ml_dsa`: the equality of public keys, the length of a signature and its verification, by
-- key, message, signature and context.
pub record MlDsa (K : Type 0) : Type 0 where
  pub key_eq : K → K → Bool
  pub key_eq_iff : (a b : K) → (key_eq a b ≡ true) ↔ (a ≡ b)
  pub signature_bytes : ℕ
  pub verify : K → List ℕ → List ℕ → List ℕ → Bool

-- crates/q-gateway/src/gateway.rs
unfoldable pub supermajority_floor : ℕ → ℕ
supermajority_floor size = max (sat_mul_u64 size 2 / 3 + 1) 2

pub record OperatorSet (K : Type 0) : Type 0 where
  pub pubkeys : Map ℕ K
  pub threshold : ℕ

module _ {K : Type 0} where
  unfoldable pub new : ℕ → OperatorSet K
  new threshold = record { pubkeys = []; threshold = threshold }

  unfoldable pub register : MlDsa K → ℕ → K → OperatorSet K → Bool × OperatorSet K
  register ml operator_id pk set =
      if any (λ e. not (e.0 == operator_id) && ml.key_eq e.1 pk) set.pubkeys
      then (false, set)
      else (true, record set { pubkeys = insert operator_id pk set.pubkeys })

  unfoldable pub unregister : ℕ → OperatorSet K → OperatorSet K
  unregister operator_id set = record set { pubkeys = remove operator_id set.pubkeys }

  unfoldable pub pubkey : ℕ → OperatorSet K → Option K
  pubkey operator_id set = lookup operator_id set.pubkeys

  abbrev pub size : OperatorSet K → ℕ
  size set = length set.pubkeys

  unfoldable pub set_threshold : ℕ → OperatorSet K → OperatorSet K
  set_threshold threshold set = record set {
    threshold = max threshold (supermajority_floor (size set));
  }

-- the operators of a list of signatures
abbrev pub collect : List SignerSig → Set ℕ
collect [] = []
collect (s ∷ sigs) = add s.operator_id (collect sigs)

-- The loop's variables in `verified_quorum`.
pub record Tally : Type 0 where
  pub distinct : Set ℕ
  pub attempted : Set (ℕ × List ℕ)
  pub accepted : List SignerSig

module _ {K : Type 0} (ml : MlDsa K) (message context : List ℕ) (set : OperatorSet K) where
  -- The key is registered, the signature has the right length, and it verifies.
  unfoldable pub verifies : SignerSig → Bool
  verifies s = elim (pubkey s.operator_id set) [
    | none ↦ false
    | some pk ↦ length s.signature == ml.signature_bytes && ml.verify pk message s.signature context
  ]

  -- One round of the loop: `continue` is to return.
  unfoldable pub consider : Tally → SignerSig → Tally
  consider t s =
      if contains s.operator_id t.distinct
      then t
      else if contains (s.operator_id, s.signature) t.attempted
      then t
      else if verifies s
      then record {
        distinct = add s.operator_id t.distinct;
        attempted = add (s.operator_id, s.signature) t.attempted;
        accepted = t.accepted ++ s ∷ [];
      }
      else record t { attempted = add (s.operator_id, s.signature) t.attempted }

  unfoldable pub scan : Tally → List SignerSig → Tally
  scan t [] = t
  scan t (s ∷ sigs) = scan (consider t s) sigs

  unfoldable pub verified_quorum : List SignerSig → List SignerSig
  verified_quorum sigs =
      if ltb (size set) (length sigs)
      then []
      else (scan (record { distinct = []; attempted = []; accepted = [] }) sigs).accepted

  unfoldable pub verify_quorum : List SignerSig → Set ℕ
  verify_quorum sigs = collect (verified_quorum sigs)
