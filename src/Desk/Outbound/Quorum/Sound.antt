-- ===== src/Desk/Outbound/Quorum/Sound.antt =====
-- What an acknowledged exit decision has behind it.
use q_oracle.Base.{
  ℕ, ◌≤◌, ◌≡◌, refl, sym, ap, ◌∙◌, Bool, true, false, ◌&&◌, not, none, some, List, [], ◌∷◌, ◌++◌,
  inl, inr, arith,
}
use q_oracle.Base.Tests.{ltb, ◌==◌, Bool-cases, Option-cases}
use q_oracle.Base.Lists.{length, length-append, any, any-append, All, All-append}
use q_oracle.Base.Result.{ok, fail_if, peel, ok-injective}
use q_oracle.Base.Map.{contains, nat_key}
use q_oracle.Base.Map.Sorted.{IsSorted, insert-IsSorted, length-insert}
use q_oracle.Airlock.Envelope.{SignerSig}
use q_oracle.Gateway.Operators.{MlDsa}
use q_oracle.Desk.Outbound.{ack_preimage, well_formed, exit_ack_context}
use q_oracle.Desk.Outbound.Quorum.{
  ExitEnvelope, AckOperator, Count, ack_floor, find_operator, count_key, count_signer,
  count_signers, verify_ack_quorum, thin_threshold, malformed, below_threshold,
}

module _ {K : Type 0} (ml : MlDsa K) where
  -- no key stands twice
  abbrev pub IsDistinct : List K → Type 0
  IsDistinct [] = Unit
  IsDistinct (k ∷ keys) = (any (ml.key_eq k) keys ≡ false) × IsDistinct keys

  module _ (operators : List (AckOperator K)) (preimage context : List ℕ) where
    -- a signature is by an operator with the key `k`, and verifies under it
    unfoldable pub votes : K → SignerSig → Bool
    votes k s = elim (find_operator s.operator_id operators) [
      | none ↦ false
      | some o ↦
          ml.key_eq o.public_key k
          && length s.signature == ml.signature_bytes
          && ml.verify o.public_key preimage s.signature context
    ]

    pub record Counted (sigs : List SignerSig) (c : Count K) : Type 0 where
      pub distinct : IsDistinct c.counted_keys
      pub signed : All (λ k. any (votes k) sigs ≡ true) c.counted_keys
      pub same_count : length c.distinct ≡ length c.counted_keys
      pub sorted : IsSorted c.distinct

    key_eq_refl : (k : K) → ml.key_eq k k ≡ true
    key_eq_refl k = (ml.key_eq_iff k k).1 refl

    key_eq_sym : (a b : K) → ml.key_eq a b ≡ true → ml.key_eq b a ≡ true
    key_eq_sym a b h = ap (ml.key_eq b) ((ml.key_eq_iff a b).0 h) ∙ key_eq_refl b

    IsDistinct-snoc :
        (keys : List K) (k : K)
        → IsDistinct keys
        → any (ml.key_eq k) keys ≡ false
        → IsDistinct (keys ++ k ∷ [])
    IsDistinct-snoc [] k h new = (refl, tt)
    IsDistinct-snoc (j ∷ keys) k h new = (
      any-append (ml.key_eq j) keys (k ∷ []) ∙ ground (arith, h.0, key_eq_sym j k),
      IsDistinct-snoc keys k h.1 (ground arith),
    )

    counted :
        (all : List SignerSig) (c : Count K) (s : SignerSig)
        → Counted all c
        → ((k : K) → votes k s ≡ true → any (votes k) all ≡ true)
        → Counted all (count_signer ml operators preimage context c s)
    unfolding count_signer count_key
    counted all c s h inside = elim (Bool-cases (contains s.operator_id c.distinct)) [
      | inl old ↦ rw old h
      | inr new ↦ elim (Option-cases (find_operator s.operator_id operators)) [
        | inl e ↦ rw (new, e) h
        | inr (o, e) ↦ elim (Bool-cases (length s.signature == ml.signature_bytes)) [
          | inr odd ↦ rw (new, e, odd) h
          | inl size ↦ elim (Bool-cases (any (ml.key_eq o.public_key) c.counted_keys)) [
            | inl seen ↦ rw (new, e, size, seen) h
            | inr fresh ↦ elim (Bool-cases (ml.verify o.public_key preimage s.signature context)) [
              | inr bad ↦ rw (new, e, size, fresh, bad) h
              | inl fine ↦
                  rw (new, e, size, fresh, fine)
                    (record {
                      distinct = IsDistinct-snoc c.counted_keys o.public_key h.distinct fresh;
                      signed = All-append _ c.counted_keys (o.public_key ∷ []) h.signed (
                        inside o.public_key
                            (unfold votes in ground (arith, key_eq_refl o.public_key)),
                        tt,
                      );
                      same_count =
                          length-insert s.operator_id tt c.distinct h.sorted
                          ∙ ground (
                            arith,
                            h.same_count,
                            length-append c.counted_keys (o.public_key ∷ []),
                          );
                      sorted = insert-IsSorted s.operator_id tt c.distinct h.sorted;
                    })
            ]
          ]
        ]
      ]
    ]

    -- the signatures that are still to come are among all of them
    abbrev Inside : List SignerSig → List SignerSig → Type 0
    Inside all sigs = All (λ s. (k : K) → votes k s ≡ true → any (votes k) all ≡ true) sigs

    Inside-more :
        (x : SignerSig) (all sigs : List SignerSig) → Inside all sigs → Inside (x ∷ all) sigs
    Inside-more x all [] h = tt
    Inside-more x all (s ∷ sigs) h = (λ k v. ground (arith, h.0 k v), Inside-more x all sigs h.1)

    Inside-refl : (all : List SignerSig) → Inside all all
    Inside-refl [] = tt
    Inside-refl (s ∷ all) = (λ k v. ground (arith, v), Inside-more s all all (Inside-refl all))

    all-Counted :
        (all : List SignerSig) (c : Count K) (sigs : List SignerSig)
        → Counted all c
        → Inside all sigs
        → Counted all (count_signers ml operators preimage context c sigs)
    unfolding count_signers
    all-Counted all c [] h i = h
    all-Counted all c (s ∷ sigs) h i =
        all-Counted all (count_signer ml operators preimage context c s) sigs
          (counted all c s h i.0) i.1

    pub Counted-all :
        (all : List SignerSig)
        → Counted all (
            count_signers ml operators preimage context
              (record { distinct = []; counted_keys = [] })
              all)
    Counted-all all =
        all-Counted all _ all
          (record { distinct = tt; signed = tt; same_count = refl; sorted = tt }) (Inside-refl all)

-- A decision that `verify_ack_quorum` accepts is well formed and has a quorum: the threshold is above two thirds of the
-- operators and at least two, and at least that many distinct keys, as many as the result says, each have a signature in the
-- envelope, by an operator with that key, that verifies for the decision, the chain and the era.
pub verify_ack_quorum_sound :
    {K : Type 0} (ml : MlDsa K) (envelope : ExitEnvelope) (operators : List (AckOperator K))
    (chain_id era threshold n : ℕ)
    → verify_ack_quorum ml envelope operators chain_id era threshold ≡ ok n
    → (well_formed envelope.decision ≡ true)
      × (ack_floor (length operators) ≤ threshold)
      × ((keys : List K) × IsDistinct ml keys
          × All
              (λ k.
                any
                  (votes ml operators
                    (ack_preimage chain_id envelope.decision)
                    (exit_ack_context era)
                    k)
                  envelope.signatures
                ≡ true)
              keys
          × (threshold ≤ length keys)
          × (n ≡ length keys))
unfolding verify_ack_quorum
verify_ack_quorum_sound ml envelope operators chain_id era threshold n h =
    let preimage = ack_preimage chain_id envelope.decision in
    let count =
      count_signers ml operators preimage (exit_ack_context era)
        (record { distinct = []; counted_keys = [] }) envelope.signatures in
    let all = Counted-all ml operators preimage (exit_ack_context era) envelope.signatures in
    peel
      (fail_if (ltb threshold (ack_floor (length operators)))
        (thin_threshold threshold (ack_floor (length operators))))
      _ h
      λ _ thick k1.
        peel (fail_if (not (well_formed envelope.decision)) malformed) _ k1 λ _ formed k2.
          peel (fail_if (ltb (length operators) (length envelope.signatures)) malformed) _ k2
            λ _ _ k3.
              peel
                (fail_if (ltb (length count.counted_keys) threshold)
                  (below_threshold (length count.counted_keys) threshold))
                _ k3
                λ _ enough k4. (
                  ground arith,
                  ground arith,
                  (
                    count.counted_keys,
                    all.distinct,
                    all.signed,
                    ground arith,
                    sym (ok-injective k4) ∙ all.same_count,
                  ),
                )
