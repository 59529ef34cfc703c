-- ===== src/Base/Action.antt =====
-- A fallible method on a mutable state `S`: the state comes back beside the error too, since what was
-- written before an early return stays written.
use mathlib.Core.Path.{◌≡◌, refl, sym, ap, ◌∙◌}
use mathlib.Core.Bool.{Bool}
use q_oracle.Base.Result.{Result, ok, err, panic, fail_if}

abbrev pub Action : Type 0 → Type 0 → Type 0 → Type 0
Action S E A = S → Result E A × S

module _ {S E : Type 0} {A : Type 0} where
  abbrev pub pure : A → Action S E A
  pure a s = (ok a, s)

  abbrev pub fail : E → Action S E A
  fail e s = (err e, s)

  -- a call that reads the state
  abbrev pub ask : (S → Result E A) → Action S E A
  ask q s = (q s, s)

  abbrev pub gets : (S → A) → Action S E A
  gets f s = (ok (f s), s)

module _ {S E : Type 0} where
  abbrev pub modify : (S → S) → Action S E (Unit {0})
  modify f s = (ok tt, f s)

  abbrev pub require : Bool → E → Action S E (Unit {0})
  require refused e s = (fail_if refused e, s)

  infixl 5 ◌>>=◌ ◌>>◌
  abbrev pub ◌>>=◌ : {A B : Type 0} → Action S E A → (A → Action S E B) → Action S E B
  ◌>>=◌ m f s =
      let (r, t) = m s in elim r [ ok a ↦ f a t | err e ↦ (err e, t) | panic ↦ (panic, t) ]

  abbrev pub ◌>>◌ : {A B : Type 0} → Action S E A → Action S E B → Action S E B
  first >> second = first >>= λ _. second

  -- `if let Err(e) = call { cleanup; return Err(e); }`
  abbrev pub rescue : {A : Type 0} → Action S E A → Action S E (Unit {0}) → Action S E A
  rescue call cleanup s =
      let (r, t) = call s in
      elim r [ ok a ↦ (ok a, t) | err e ↦ (cleanup >> fail e) t | panic ↦ (panic, t) ]

-- a call on a field of the state
abbrev pub within : {S T E A : Type 0} → (S → T) → (T → S → S) → Action T E A → Action S E A
within view put call s = let (r, t) = call (view s) in (r, put t s)

-- a chain after its first step
abbrev pub after : {S E A B : Type 0} → (A → Action S E B) → Result E A × S → Result E B × S
after f r = elim r.0 [ ok a ↦ f a r.1 | err e ↦ (err e, r.1) | panic ↦ (panic, r.1) ]

module _ {S E : Type 0} {A B : Type 0} (m : Action S E A) (f : A → Action S E B) {s : S} where
  pub >>=-ok : {a : A} {t : S} → m s ≡ (ok a, t) → (m >>= f) s ≡ f a t
  >>=-ok h = ap (after f) h

  pub >>=-err : {e : E} {t : S} → m s ≡ (err e, t) → (m >>= f) s ≡ (err e, t)
  >>=-err h = ap (after f) h

  pub >>=-panic : {t : S} → m s ≡ (panic, t) → (m >>= f) s ≡ (panic, t)
  >>=-panic h = ap (after f) h

  -- a chain that succeeds, taken apart
  pub >>=-eq-ok :
      {b : B} {u : S}
      → (m >>= f) s ≡ (ok b, u)
      → (a : A) × (r : S) × (m s ≡ (ok a, r)) × (f a r ≡ (ok b, u))
  >>=-eq-ok {b} {u} h = go (m s) refl
    where
      go :
          (r : Result E A × S)
          → m s ≡ r
          → (a : A) × (r : S) × (m s ≡ (ok a, r)) × (f a r ≡ (ok b, u))
      go (ok a, r) e = (a, r, e, sym (ap (after f) e) ∙ h)
      go (err x, r) e = cc (ap (λ p. p.0) (sym (ap (after f) e) ∙ h))
      go (panic, r) e = cc (ap (λ p. p.0) (sym (ap (after f) e) ∙ h))
