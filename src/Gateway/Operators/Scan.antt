-- ===== src/Gateway/Operators/Scan.antt =====
-- The loop of `verified_quorum`: what it has accepted so far, and what it has passed over.
use q_oracle.Base.{
  ℕ, ◌≡◌, refl, sym, ap, ◌∙◌, ◌⊎◌, inl, inr, Bool, true, false, ◌||◌, List, [], ◌∷◌, ◌++◌, arith,
}
use q_oracle.Base.Tests.{◌==◌, Bool-cases}
use q_oracle.Base.Lists.{any, any-append, All, All-append}
use q_oracle.Base.Map.{
  contains, add, contains-add, nat_key, pair_key, list_key, pair_beq, pair_beq_iff, Set,
}
use q_oracle.Airlock.Envelope.{SignerSig}
use q_oracle.Gateway.Operators.{MlDsa, OperatorSet, Tally, verifies, consider, scan}

-- an operator has a signature in the list
abbrev pub has : ℕ → List SignerSig → Bool
has id sigs = any (λ s. s.operator_id == id) sigs

-- no operator has two
abbrev pub IsDistinct : List SignerSig → Type 0
IsDistinct [] = Unit
IsDistinct (s ∷ sigs) = (has s.operator_id sigs ≡ false) × IsDistinct sigs

pub IsDistinct-append :
    (xs ys : List SignerSig)
    → IsDistinct xs
    → IsDistinct ys
    → All (λ x. has x.operator_id ys ≡ false) xs
    → IsDistinct (xs ++ ys)
IsDistinct-append [] ys hx hy apart = hy
IsDistinct-append (x ∷ xs) ys hx hy apart = (
  any-append (λ s. s.operator_id == x.operator_id) xs ys ∙ ground arith,
  IsDistinct-append xs ys hx.1 hy apart.1,
)

apart :
    (s : SignerSig) (xs : List SignerSig)
    → has s.operator_id xs ≡ false
    → All (λ x. has x.operator_id (s ∷ []) ≡ false) xs
apart s [] h = tt
apart s (x ∷ xs) h = (ground arith, apart s xs (ground arith))

tried_again :
    (s s' : SignerSig) (tried : Set (ℕ × List ℕ))
    → contains (s'.operator_id, s'.signature) (add (s.operator_id, s.signature) tried) ≡ true
    → (s ≡ s') ⊎ (contains (s'.operator_id, s'.signature) tried ≡ true)
tried_again s s' tried h =
    elim (Bool-cases (pair_beq (s.operator_id, s.signature) (s'.operator_id, s'.signature))) [
      | inl same ↦ inl (
          ap (λ (p : ℕ × List ℕ). record { operator_id = p.0; signature = p.1 })
            ((pair_beq_iff (s.operator_id, s.signature) (s'.operator_id, s'.signature)).0 same))
      | inr other ↦ inr (
          rw (← ap (λ b. b || contains (s'.operator_id, s'.signature) tried) other) (
            sym (contains-add (s.operator_id, s.signature) (s'.operator_id, s'.signature) tried)
            ∙ h))
    ]

module _ {K : Type 0} (ml : MlDsa K) (message context : List ℕ) (set : OperatorSet K) where
  abbrev pub good : SignerSig → Bool
  good = verifies ml message context set

  pub record Tallied (t : Tally) : Type 0 where
    pub listed : (id : ℕ) → contains id t.distinct ≡ has id t.accepted
    pub distinct : IsDistinct t.accepted
    pub sound : All (λ s. good s ≡ true) t.accepted
    pub spent :
        (s : SignerSig)
        → contains (s.operator_id, s.signature) t.attempted ≡ true
        → good s ≡ true
        → contains s.operator_id t.distinct ≡ true

  -- a signature that is passed over is only noted as tried
  noted-Tallied :
      (t : Tally) (s : SignerSig)
      → Tallied t
      → good s ≡ false
      → Tallied (record t { attempted = add (s.operator_id, s.signature) t.attempted })
  noted-Tallied t s v bad = record {
    listed = v.listed;
    distinct = v.distinct;
    sound = v.sound;
    spent = λ s' tried ok_s. elim (tried_again s s' t.attempted tried) [
      | inl same ↦ cc (ap good same)
      | inr before ↦ v.spent s' before ok_s
    ];
  }

  accepted-Tallied :
      (t : Tally) (s : SignerSig)
      → Tallied t
      → contains s.operator_id t.distinct ≡ false
      → good s ≡ true
      → Tallied (record {
        distinct = add s.operator_id t.distinct;
        attempted = add (s.operator_id, s.signature) t.attempted;
        accepted = t.accepted ++ s ∷ [];
      })
  accepted-Tallied t s v new fine = record {
    listed = λ id.
        contains-add s.operator_id id t.distinct
        ∙ ground (arith, v.listed id, any-append (λ x. x.operator_id == id) t.accepted (s ∷ []));
    distinct =
        IsDistinct-append t.accepted (s ∷ []) v.distinct (refl, tt)
          (apart s t.accepted (sym (v.listed s.operator_id) ∙ new));
    sound = All-append (λ x. good x ≡ true) t.accepted (s ∷ []) v.sound (fine, tt);
    spent = λ s' tried ok_s.
        contains-add s.operator_id s'.operator_id t.distinct
        ∙ elim (tried_again s s' t.attempted tried) [
          | inl same ↦ ground (arith, ap (λ x. x.operator_id) same)
          | inr before ↦ ground (arith, v.spent s' before ok_s)
        ];
  }

  pub consider-Tallied :
      (t : Tally) (s : SignerSig) → Tallied t → Tallied (consider ml message context set t s)
  unfolding consider
  consider-Tallied t s v = elim (Bool-cases (contains s.operator_id t.distinct)) [
    | inl old ↦ rw old v
    | inr new ↦ elim (Bool-cases (contains (s.operator_id, s.signature) t.attempted)) [
      | inl tried ↦ rw (new, tried) v
      | inr fresh ↦ elim (Bool-cases (good s)) [
        | inl fine ↦ rw (new, fresh, fine) (accepted-Tallied t s v new fine)
        | inr bad ↦ rw (new, fresh, bad) (noted-Tallied t s v bad)
      ]
    ]
  ]

  pub scan-Tallied :
      (t : Tally) (sigs : List SignerSig) → Tallied t → Tallied (scan ml message context set t sigs)
  unfolding scan
  scan-Tallied t [] v = v
  scan-Tallied t (s ∷ sigs) v =
      scan-Tallied (consider ml message context set t s) sigs (consider-Tallied t s v)
