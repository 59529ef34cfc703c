-- ===== src/Gateway/Operators/Quorum.antt =====
-- What `verified_quorum` counts: distinct registered operators, each with a signature that verifies, and
-- all of them.
pub mod Overlap
use q_oracle.Base.{
  ℕ, suc, ◌+◌, ◌≤◌, ◌≡◌, refl, sym, ap, ◌∙◌, inl, inr, Bool, true, false, ◌||◌, Option, none, some,
  List, [], ◌∷◌, ◌++◌, arith,
}
use q_oracle.Base.Tests.{ltb, ◌==◌, Bool-cases}
use q_oracle.Base.Lists.{length, any, All}
use q_oracle.Base.Map.{
  contains, add, contains-add, contains_key, lookup, insert, nat_key, pair_key, list_key,
}
use q_oracle.Base.Map.Sorted.{IsSorted, insert-IsSorted, length-insert}
use q_oracle.Airlock.Envelope.{SignerSig}
use q_oracle.Gateway.Operators.{
  MlDsa, OperatorSet, Tally, size, verifies, consider, scan, verified_quorum, verify_quorum,
  collect, pubkey,
}
use q_oracle.Gateway.Operators.Scan.{has, IsDistinct, Tallied, scan-Tallied, consider-Tallied}

start : Tally
start = record { distinct = []; attempted = []; accepted = [] }

module _ {K : Type 0} (ml : MlDsa K) (message context : List ℕ) (set : OperatorSet K) where
  abbrev pub good : SignerSig → Bool
  good = verifies ml message context set

  start-Tallied : Tallied ml message context set start
  unfolding start contains_key lookup
  start-Tallied = record {
    listed = λ id. refl;
    distinct = tt;
    sound = tt;
    spent = λ s tried fine. cc;
  }

  -- Every signature that counts verifies under the key registered for its operator, and no operator counts twice.
  pub verified_quorum_sound :
      (sigs : List SignerSig)
      → let accepted = verified_quorum ml message context set sigs in
        All (λ s. good s ≡ true) accepted × IsDistinct accepted
  unfolding verified_quorum start
  verified_quorum_sound sigs = elim (Bool-cases (ltb (size set) (length sigs))) [
    | inl many ↦ rw many (tt, tt)
    | inr few ↦
        let v = scan-Tallied ml message context set start sigs start-Tallied in
        rw few (v.sound, v.distinct)
  ]

  consider-keeps :
      (t : Tally) (s : SignerSig) (id : ℕ)
      → contains id t.distinct ≡ true
      → contains id (consider ml message context set t s).distinct ≡ true
  unfolding consider
  consider-keeps t s id h = ground (arith, contains-add s.operator_id id t.distinct)

  consider-counts :
      (t : Tally) (s : SignerSig)
      → Tallied ml message context set t
      → good s ≡ true
      → contains s.operator_id (consider ml message context set t s).distinct ≡ true
  unfolding consider
  consider-counts t s v fine =
      ground (arith, v.spent s, contains-add s.operator_id s.operator_id t.distinct)

  scan-keeps :
      (t : Tally) (sigs : List SignerSig) (id : ℕ)
      → contains id t.distinct ≡ true
      → contains id (scan ml message context set t sigs).distinct ≡ true
  unfolding scan
  scan-keeps t [] id h = h
  scan-keeps t (s ∷ sigs) id h =
      scan-keeps (consider ml message context set t s) sigs id (consider-keeps t s id h)

  scan-counts :
      (t : Tally) (sigs : List SignerSig)
      → Tallied ml message context set t
      → All
          (λ s.
            good s ≡ true
            → contains s.operator_id (scan ml message context set t sigs).distinct ≡ true)
          sigs
  unfolding scan
  scan-counts t [] v = tt
  scan-counts t (s ∷ sigs) v =
      let t' = consider ml message context set t s in
      (
        λ fine. scan-keeps t' sigs s.operator_id (consider-counts t s v fine),
        scan-counts t' sigs (consider-Tallied ml message context set t s v),
      )

  -- every operator with a signature that verifies counts
  every_good :
      (sigs : List SignerSig)
      → length sigs ≤ size set
      → All
          (λ s.
            good s ≡ true → has s.operator_id (verified_quorum ml message context set sigs) ≡ true)
          sigs
  unfolding verified_quorum start
  every_good sigs fits =
      let v = scan-Tallied ml message context set start sigs start-Tallied in
      let few : ltb (size set) (length sigs) ≡ false = ground arith in
      rw few (convert sigs (scan-counts start sigs start-Tallied))
    where
      convert :
          (xs : List SignerSig)
          → All
              (λ s.
                good s ≡ true
                → contains s.operator_id (scan ml message context set start sigs).distinct ≡ true)
              xs
          → All
              (λ s.
                good s ≡ true
                → has s.operator_id (scan ml message context set start sigs).accepted ≡ true)
              xs
      convert [] h = tt
      convert (x ∷ xs) h =
          let v = scan-Tallied ml message context set start sigs start-Tallied in
          (λ fine. sym (v.listed x.operator_id) ∙ h.0 fine, convert xs h.1)

  pick :
      (P : SignerSig → Type 0) (xs : List SignerSig) (s : SignerSig) (ys : List SignerSig)
      → All P (xs ++ s ∷ ys)
      → P s
  pick P [] s ys h = h.0
  pick P (x ∷ xs) s ys h = pick P xs s ys h.1

  -- Where there are no more signatures than operators, a signature that verifies makes its operator count,
  -- whatever unknown, repeated or broken signatures stand before and after it.
  pub verified_quorum_complete :
      (before after : List SignerSig) (s : SignerSig)
      → length (before ++ s ∷ after) ≤ size set
      → verifies ml message context set s ≡ true
      → has s.operator_id (verified_quorum ml message context set (before ++ s ∷ after)) ≡ true
  verified_quorum_complete before after s fits fine =
      pick
        (λ x.
          good x ≡ true
          → has x.operator_id (verified_quorum ml message context set (before ++ s ∷ after)) ≡ true)
        before s after (every_good (before ++ s ∷ after) fits) fine

-- The set of ids of distinct signatures is as large as their list.
contains-collect : (id : ℕ) (xs : List SignerSig) → contains id (collect xs) ≡ has id xs
unfolding contains_key lookup
contains-collect id [] = refl
contains-collect id (x ∷ xs) =
    contains-add x.operator_id id (collect xs) ∙ ground (arith, contains-collect id xs)

collect-IsSorted : (xs : List SignerSig) → IsSorted (collect xs)
collect-IsSorted [] = tt
collect-IsSorted (x ∷ xs) = insert-IsSorted x.operator_id tt (collect xs) (collect-IsSorted xs)

pub length-collect : (xs : List SignerSig) → IsDistinct xs → length (collect xs) ≡ length xs
length-collect [] h = refl
length-collect (x ∷ xs) h =
    length-insert x.operator_id tt (collect xs) (collect-IsSorted xs)
    ∙ ground (arith, contains-collect x.operator_id xs, length-collect xs h.1)

pub length-verify_quorum :
    {K : Type 0} (ml : MlDsa K) (message context : List ℕ) (set : OperatorSet K)
    (sigs : List SignerSig)
    → length (verify_quorum ml message context set sigs)
      ≡ length (verified_quorum ml message context set sigs)
unfolding verify_quorum
length-verify_quorum ml message context set sigs =
    length-collect _ (verified_quorum_sound ml message context set sigs).1
