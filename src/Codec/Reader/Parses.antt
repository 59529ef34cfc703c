-- ===== src/Codec/Reader/Parses.antt =====
-- What a parser accepts: the backward half of the round trips.
use q_oracle.Base.{ℕ, ◌+◌, ◌-◌, ◌≤◌, ◌≡◌, refl, sym, ap, ◌∷◌, ◌∙◌, subst, List, [], ◌++◌, arith}
use q_oracle.Base.Words.{u64_max}
use q_oracle.Base.Lists.{
  length, take, drop, length-take, length-drop, drop-drop, take-append-drop, All,
}
use q_oracle.Base.Result.{Result, ok, err, panic, >>=-eq-ok, ok-injective, ◌>>=◌}
use q_oracle.Codec.Bytes.{
  IsByte, IsByte-append, to_le_bytes, to_be_bytes, from_le_bytes, from_be_bytes,
  to_le_bytes-from_le_bytes, to_be_bytes-from_be_bytes,
}
use q_oracle.Codec.Errors.{CodecError}
use q_oracle.Codec.Reader
use q_oracle.Codec.Reader.{Reader, Parser}
use q_oracle.Codec.Reader.Reads.{At}
use q_oracle.Codec.Parser

-- Where `p` accepts, it has read a prefix `xs` of the input that stands to its value as `Q` says.
abbrev pub Parses {ℓ} : {A : Type ℓ} → Parser A → (A → List ℕ → Type 0) → Type ℓ
Parses {A} p Q =
    (r r' : Reader) (a : A) (bs : List ℕ)
    → At r bs
    → All IsByte bs
    → p r ≡ ok (a, r')
    → (xs : List ℕ) × (ys : List ℕ) × (bs ≡ xs ++ ys) × At r' ys × Q a xs

-- One read of `n` bytes.
record Cut (n : ℕ) (r : Reader) (e : ℕ) (s bs : List ℕ) : Type 0 where
  taken : s ≡ take n bs
  enough : n ≤ length bs
  left : At (record r { pos = e }) (drop n bs)

advance_inv :
    (n e : ℕ) (r : Reader) → Reader.advance n r ≡ ok e → (e ≡ r.pos + n) × (e ≤ length r.buf)
unfolding Reader.advance
advance_inv n e r h = ground arith

slice_inv :
    (e : ℕ) (r : Reader) (s : List ℕ)
    → Reader.slice e r ≡ ok s
    → s ≡ take (e - r.pos) (drop r.pos r.buf)
unfolding Reader.slice
slice_inv e r s h = ground arith

cut :
    (n e : ℕ) (r : Reader) (s bs : List ℕ)
    → At r bs
    → Reader.advance n r ≡ ok e
    → Reader.slice e r ≡ ok s
    → Cut n r e s bs
cut n e r s bs at ha hs =
    let (eq, le) = advance_inv n e r ha in
    let width : e - r.pos ≡ n = omega arith in
    record {
      taken = slice_inv e r s hs ∙ rw (width, at.rest);
      enough = omega (arith, at.within);
      left = record {
        rest = rw (eq, ← drop-drop r.pos n r.buf, at.rest);
        within = omega (arith, at.within, length-drop n bs);
        fits = at.fits;
      };
    }

module _ {ℓ} {A : Type ℓ} (n : ℕ) (conv : List ℕ → A) (enc : A → List ℕ)
    (back : (xs : List ℕ) → length xs ≡ n → All IsByte xs → enc (conv xs) ≡ xs) where
  cut-Parses :
      (r r' : Reader) (a : A) (bs : List ℕ)
      → At r bs
      → All IsByte bs
      → (e : ℕ) (s : List ℕ) → Reader.advance n r ≡ ok e
      → Reader.slice e r ≡ ok s
      → ◌≡◌ {A = Result CodecError (A × Reader)} (ok (conv s, record r { pos = e })) (ok (a, r'))
      → (xs : List ℕ) × (ys : List ℕ) × (bs ≡ xs ++ ys) × At r' ys × (enc a ≡ xs)
  cut-Parses r r' a bs at bytes e s ha hs h =
      let c = cut n e r s bs at ha hs in
      let q = ok-injective h in
      let whole = take-append-drop n bs in
      let front = IsByte-append (take n bs) (drop n bs) (rw whole bytes) in
      (
        take n bs,
        drop n bs,
        sym whole,
        subst (λ t. At t (drop n bs)) (ap (λ t. t.1) q) c.left,
        ap enc (sym (ap (λ t. t.0) q) ∙ ap conv c.taken)
            ∙ back (take n bs) (length-take n bs c.enough) front.0,
      )

  -- A parser that advances by `n`, takes the slice and converts it.
  pub read-Parses :
      (p : Parser A)
      → ((r : Reader)
          → p r ≡ (
              Reader.advance n r >>= λ e.
              Reader.slice e r >>= λ s. ok (conv s, record r { pos = e })))
      → Parses p (λ a xs. enc a ≡ xs)
  read-Parses p shape r r' a bs at bytes h =
      let (e, ha, h1) = >>=-eq-ok (Reader.advance n r) _ (sym (shape r) ∙ h) in
      let (s, hs, h2) = >>=-eq-ok (Reader.slice e r) _ h1 in
      cut-Parses r r' a bs at bytes e s ha hs h2

le_back :
    (n : ℕ) (xs : List ℕ) → length xs ≡ n → All IsByte xs → to_le_bytes n (from_le_bytes xs) ≡ xs
le_back n xs e bytes = rw (← e) (to_le_bytes-from_le_bytes xs bytes)

be_back :
    (n : ℕ) (xs : List ℕ) → length xs ≡ n → All IsByte xs → to_be_bytes n (from_be_bytes xs) ≡ xs
be_back n xs e bytes = rw (← e) (to_be_bytes-from_be_bytes xs bytes)

pub u8-Parses : Parses Reader.u8 (λ v xs. to_le_bytes 1 v ≡ xs)
unfolding Reader.u8
u8-Parses = read-Parses 1 from_le_bytes (to_le_bytes 1) (le_back 1) Reader.u8 (λ r. refl)

pub u32-Parses : Parses Reader.u32 (λ v xs. to_le_bytes 4 v ≡ xs)
unfolding Reader.u32
u32-Parses = read-Parses 4 from_le_bytes (to_le_bytes 4) (le_back 4) Reader.u32 (λ r. refl)

pub u64-Parses : Parses Reader.u64 (λ v xs. to_le_bytes 8 v ≡ xs)
unfolding Reader.u64
u64-Parses = read-Parses 8 from_le_bytes (to_le_bytes 8) (le_back 8) Reader.u64 (λ r. refl)

pub u128-Parses : Parses Reader.u128 (λ v xs. to_le_bytes 16 v ≡ xs)
unfolding Reader.u128
u128-Parses = read-Parses 16 from_le_bytes (to_le_bytes 16) (le_back 16) Reader.u128 (λ r. refl)

pub fixed-Parses : (n : ℕ) → Parses (Reader.fixed n) (λ s xs. s ≡ xs)
unfolding Reader.fixed
fixed-Parses n = read-Parses n (λ s. s) (λ s. s) (λ xs e b. refl) (Reader.fixed n) (λ r. refl)

pub array32-Parses : Parses Reader.array32 (λ v xs. to_be_bytes 32 v ≡ xs)
unfolding Reader.array32 Reader.fixed
array32-Parses =
    read-Parses 32 from_be_bytes (to_be_bytes 32) (be_back 32) Reader.array32 (λ r. ground arith)

pub array16-Parses : Parses Reader.array16 (λ v xs. to_be_bytes 16 v ≡ xs)
unfolding Reader.array16 Reader.fixed
array16-Parses =
    read-Parses 16 from_be_bytes (to_be_bytes 16) (be_back 16) Reader.array16 (λ r. ground arith)

pub lift-Parses :
    {A : Type 0} (m : Result CodecError A) → Parses (Parser.lift m) (λ a xs. (m ≡ ok a) × (xs ≡ []))
unfolding Parser.lift
lift-Parses (ok v) r r' a bs at bytes h =
    let q = ok-injective h in
    ([], bs, refl, subst (λ t. At t bs) (ap (λ t. t.1) q) at, (ap ok (ap (λ t. t.0) q), refl))
lift-Parses (err e) r r' a bs at bytes h = cc
lift-Parses panic r r' a bs at bytes h = cc

-- Where `p` accepts, it has read the whole input.
abbrev pub Accepts {ℓ} : {A : Type ℓ} → Parser A → (A → List ℕ → Type 0) → Type ℓ
Accepts {A} p Q =
    (r r' : Reader) (a : A) (bs : List ℕ) → At r bs → All IsByte bs → p r ≡ ok (a, r') → Q a bs

module _ {ℓ κ} {A : Type ℓ} {B : Type κ} where
  pub bind_inv :
      (p : Parser A) (f : A → Parser B) (r : Reader) (w : B × Reader)
      → Parser.◌>>=◌ p f r ≡ ok w
      → (v : A) × (s : Reader) × (p r ≡ ok (v, s)) × (f v s ≡ ok w)
  unfolding Parser.◌>>=◌
  bind_inv p f r w h = go (p r) refl h
    where
      go :
          (m : Result CodecError (A × Reader))
          → p r ≡ m
          → elim m [ ok (a, s) ↦ f a s | err e ↦ err e | panic ↦ panic ] ≡ ok w
          → (v : A) × (s : Reader) × (p r ≡ ok (v, s)) × (f v s ≡ ok w)
      go (ok (a, s)) e h' = (a, s, e, h')
      go (err x) e h' = cc
      go panic e h' = cc

  pub bind-Accepts :
      {p : Parser A} (f : A → Parser B) {Q : A → List ℕ → Type 0} (R : B → List ℕ → Type 0)
      → Parses p Q
      → ((v : A) (xs : List ℕ) → Q v xs → Accepts (f v) (λ w ys. R w (xs ++ ys)))
      → Accepts (Parser.◌>>=◌ p f) R
  bind-Accepts {p} f {Q} R hp hf r r' w bs at bytes h =
      let (v, s, h1, h2) = bind_inv p f r (w, r') h in
      let (xs, ys, e, at', q) = hp r s v bs at bytes h1 in
      let parts = IsByte-append xs ys (rw (← e) bytes) in rw e (hf v xs q s r' w ys at' parts.1 h2)

finish_inv : (r s : Reader) → Reader.finish r ≡ ok (tt, s) → r.pos ≡ length r.buf
unfolding Reader.finish
finish_inv r s h = ground arith

empty_of_length : (bs : List ℕ) → length bs ≡ 0 → bs ≡ []
empty_of_length [] h = refl
empty_of_length (b ∷ bs) h = absurd (omega arith)

pub finish-Accepts :
    {A : Type 0} (v : A)
    → Accepts (Parser.◌>>◌ Reader.finish (Parser.pure v)) (λ a xs. (a ≡ v) × (xs ≡ []))
unfolding Parser.◌>>◌ Parser.pure
finish-Accepts v r r' a bs at bytes h =
    let (_, s, h1, h2) = bind_inv Reader.finish (λ _. Parser.pure v) r (a, r') h in
    let stop = finish_inv r s h1 in
    (sym (ap (λ t. t.0) (ok-injective h2)), empty_of_length bs (omega (arith, at.within)))

run_inv {ℓ} :
    {A : Type ℓ} (m : Result CodecError (A × Reader)) (v : A)
    → ◌≡◌ {A = Result CodecError A}
        (elim m [ ok (a, s) ↦ ok a | err e ↦ err e | panic ↦ panic ])
        (ok v)
    → (s : Reader) × (m ≡ ok (v, s))
run_inv (ok (a, s)) v h = (s, ap (λ x. ok (x, s)) (ok-injective h))
run_inv (err e) v h = cc
run_inv panic v h = cc

pub run-Accepts {ℓ} :
    {A : Type ℓ} (p : Parser A) (Q : A → List ℕ → Type 0) (v : A) (bs : List ℕ)
    → Accepts p Q
    → length bs ≤ u64_max
    → All IsByte bs
    → Parser.run p bs ≡ ok v
    → Q v bs
unfolding Parser.run Reader.new
run-Accepts p Q v bs acc fits bytes h =
    let (s, e) = run_inv (p (Reader.new bs)) v h in
    acc (Reader.new bs) s v bs (record { rest = refl; within = omega arith; fits = fits }) bytes e
