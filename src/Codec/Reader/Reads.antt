-- ===== src/Codec/Reader/Reads.antt =====
-- A parser reads a value off its encoding: the forward half of the round trips.
use q_oracle.Base.{
  ℕ, ◌+◌, ◌^◌, ◌≤◌, ◌<◌, ◌≡◌, refl, sym, ap, subst, ◌∙◌, List, [], ◌++◌, append_assoc, arith,
}
use native.Mathlib.Nat.{add-sub_cancel_left, add-zero, add_assoc}
use q_oracle.Base.Words.{u64_max}
use q_oracle.Base.Lists.{length, take, drop, length-append, take-append, drop-append, drop-drop}
use q_oracle.Base.Result.{Result, ok}
use q_oracle.Codec.Bytes.{
  to_le_bytes, to_be_bytes, from_le_bytes, from_be_bytes, length-to_le_bytes, length-to_be_bytes,
  from_le_bytes-to_le_bytes, from_be_bytes-to_be_bytes,
}
use q_oracle.Codec.Errors.{CodecError}
use q_oracle.Codec.Reader
use q_oracle.Codec.Reader.{Reader, Parser}
use q_oracle.Codec.Parser
use q_oracle.Codec.Parser.{◌>>=◌, ◌>>◌}

-- What is still to be read of a buffer whose length is a `usize`.
pub record At (r : Reader) (bs : List ℕ) : Type 0 where
  pub rest : drop r.pos r.buf ≡ bs
  pub within : r.pos + length bs ≡ length r.buf
  pub fits : length r.buf ≤ u64_max

abbrev pub skip : ℕ → Reader → Reader
skip n r = record r { pos = r.pos + n }

pub At-skip : (r : Reader) (xs ys : List ℕ) → At r (xs ++ ys) → At (skip (length xs) r) ys
At-skip r xs ys h = record {
  rest = sym (drop-drop r.pos (length xs) r.buf) ∙ ap (drop (length xs)) h.rest ∙ drop-append xs ys;
  within = omega (arith, h.within, length-append xs ys);
  fits = h.fits;
}

pub advance_lem :
    (r : Reader) (xs ys : List ℕ)
    → At r (xs ++ ys)
    → Reader.advance (length xs) r ≡ ok (r.pos + length xs)
unfolding Reader.advance
advance_lem r xs ys h = ground (arith, length-append xs ys)

pub slice_lem :
    (r : Reader) (xs ys : List ℕ) → At r (xs ++ ys) → Reader.slice (r.pos + length xs) r ≡ ok xs
unfolding Reader.slice
slice_lem r xs ys h = ground (
  arith,
  length-append xs ys,
  ap (take (length xs)) h.rest ∙ take-append xs ys,
  add-sub_cancel_left r.pos (length xs),
)

-- `p` reads `v` off the bytes `bs`, whatever follows them.
abbrev pub Reads {ℓ} : {A : Type ℓ} → Parser A → A → List ℕ → Type ℓ
Reads p v bs = (r : Reader) (ys : List ℕ) → At r (bs ++ ys) → p r ≡ ok (v, skip (length bs) r)

pub fixed-Reads : (bs : List ℕ) → Reads (Reader.fixed (length bs)) bs bs
unfolding Reader.fixed
fixed-Reads bs r ys h = rw (advance_lem r bs ys h, slice_lem r bs ys h)

-- A word, or an identifier, is read by a parser that decodes exactly its bytes.
module _ (p : Parser ℕ) (n v : ℕ) (small : v < 256 ^ n) where
  word-Reads :
      ((bs : List ℕ) → length bs ≡ n → Reads p (from_le_bytes bs) bs) → Reads p v (to_le_bytes n v)
  word-Reads shape =
      subst (λ w. Reads p w (to_le_bytes n v)) (from_le_bytes-to_le_bytes n v small)
        (shape (to_le_bytes n v) (length-to_le_bytes n v))

  id-Reads :
      ((bs : List ℕ) → length bs ≡ n → Reads p (from_be_bytes bs) bs) → Reads p v (to_be_bytes n v)
  id-Reads shape =
      subst (λ w. Reads p w (to_be_bytes n v)) (from_be_bytes-to_be_bytes n v small)
        (shape (to_be_bytes n v) (length-to_be_bytes n v))

pub u8-Reads : (v : ℕ) → v < 256 → Reads Reader.u8 v (to_le_bytes 1 v)
unfolding Reader.u8
u8-Reads v h =
    word-Reads _ 1 v h λ bs e r ys at. rw (← e, advance_lem r bs ys at, slice_lem r bs ys at)

pub u32-Reads : (v : ℕ) → v < 256 ^ 4 → Reads Reader.u32 v (to_le_bytes 4 v)
unfolding Reader.u32
u32-Reads v h =
    word-Reads _ 4 v h λ bs e r ys at. rw (← e, advance_lem r bs ys at, slice_lem r bs ys at)

pub u64-Reads : (v : ℕ) → v < 256 ^ 8 → Reads Reader.u64 v (to_le_bytes 8 v)
unfolding Reader.u64
u64-Reads v h =
    word-Reads _ 8 v h λ bs e r ys at. rw (← e, advance_lem r bs ys at, slice_lem r bs ys at)

pub u128-Reads : (v : ℕ) → v < 256 ^ 16 → Reads Reader.u128 v (to_le_bytes 16 v)
unfolding Reader.u128
u128-Reads v h =
    word-Reads _ 16 v h λ bs e r ys at. rw (← e, advance_lem r bs ys at, slice_lem r bs ys at)

pub array32-Reads : (v : ℕ) → v < 256 ^ 32 → Reads Reader.array32 v (to_be_bytes 32 v)
unfolding Reader.array32
array32-Reads v h = id-Reads _ 32 v h λ bs e r ys at. rw (← e, fixed-Reads bs r ys at)

pub array16-Reads : (v : ℕ) → v < 256 ^ 16 → Reads Reader.array16 v (to_be_bytes 16 v)
unfolding Reader.array16
array16-Reads v h = id-Reads _ 16 v h λ bs e r ys at. rw (← e, fixed-Reads bs r ys at)

pub finish_lem : (r : Reader) → At r [] → Reader.finish r ≡ ok (tt, r)
unfolding Reader.finish
finish_lem r h = ground arith

-- Chains of reads.
pub skip-zero : (r : Reader) → skip 0 r ≡ r
skip-zero r = ap (λ n. record r { pos = n }) (add-zero r.pos)

pub skip-skip : (m n : ℕ) (r : Reader) → skip n (skip m r) ≡ skip (m + n) r
skip-skip m n r = ap (λ k. record r { pos = k }) (add_assoc r.pos m n)

pub pure-Reads {ℓ} : {A : Type ℓ} (v : A) → Reads (Parser.pure v) v []
unfolding Parser.pure
pure-Reads v r ys h = rw (skip-zero r)

pub lift-Reads {ℓ} :
    {A : Type ℓ} (m : Result CodecError A) (v : A) → m ≡ ok v → Reads (Parser.lift m) v []
unfolding Parser.lift
lift-Reads m v e r ys h = rw (e, skip-zero r)

module _ {ℓ κ} {A : Type ℓ} {B : Type κ} where
  pub bind-Reads :
      (p : Parser A) (f : A → Parser B) {v : A} {w : B} (xs ys : List ℕ)
      → Reads p v xs
      → Reads (f v) w ys
      → Reads (p >>= f) w (xs ++ ys)
  unfolding ◌>>=◌
  bind-Reads p f {v} {w} xs ys hp hf r zs h =
      let at : At r (xs ++ (ys ++ zs)) = rw (← append_assoc xs ys zs) h in
      let rest = hf (skip (length xs) r) zs (At-skip r xs (ys ++ zs) at) in
      rw (hp r (ys ++ zs) at, ◌>>=◌, length-append xs ys)
        (rest ∙ ap (λ s. ok (w, s)) (skip-skip (length xs) (length ys) r))

-- `p` reads `v` off the last bytes of the input, `bs`.
abbrev pub Consumes {ℓ} : {A : Type ℓ} → Parser A → A → List ℕ → Type ℓ
Consumes p v bs = (r : Reader) → At r bs → p r ≡ ok (v, skip (length bs) r)

module _ {ℓ κ} {A : Type ℓ} {B : Type κ} where
  pub bind-Consumes :
      {p : Parser A} (f : A → Parser B) {v : A} {w : B} (xs : List ℕ) {ys : List ℕ}
      → Reads p v xs
      → Consumes (f v) w ys
      → Consumes (p >>= f) w (xs ++ ys)
  unfolding ◌>>=◌
  bind-Consumes {p} f {v} {w} xs {ys} hp hf r at =
      let rest = hf (skip (length xs) r) (At-skip r xs ys at) in
      rw (hp r ys at, ◌>>=◌, length-append xs ys)
        (rest ∙ ap (λ s. ok (w, s)) (skip-skip (length xs) (length ys) r))

pub finish-Consumes {ℓ} : {A : Type ℓ} (v : A) → Consumes (Reader.finish >> Parser.pure v) v []
unfolding ◌>>◌ Parser.pure
finish-Consumes v r at = rw (finish_lem r at, ◌>>=◌, skip-zero r)

pub run-Consumes {ℓ} :
    {A : Type ℓ} (p : Parser A) (v : A) (bs : List ℕ)
    → length bs ≤ u64_max
    → Consumes p v bs
    → Parser.run p bs ≡ ok v
unfolding Parser.run Reader.new
run-Consumes p v bs fits h =
    rw (h (Reader.new bs) (record { rest = refl; within = omega arith; fits = fits }), Parser.run)
