-- ===== src/Desk/Journal/Frames/Parts.antt =====
-- A part of a buffer is read back from where it begins.
use mathlib.Core.Option.{some-injective}
use q_oracle.Base.{
  ℕ, suc, zero, ◌+◌, ◌^◌, ◌<◌, ◌≡◌, sym, ap, ◌∙◌, some, List, [], ◌∷◌, ◌++◌, append_assoc,
}
use q_oracle.Base.Lists.{length, take, drop, take-append, drop-append, drop-drop, All}
use q_oracle.Codec.Bytes.{
  to_le_bytes, to_be_bytes, from_le_bytes, from_be_bytes, from_le_bytes-to_le_bytes,
  from_be_bytes-to_be_bytes,
}
use q_oracle.Desk.State.{get}
use q_oracle.Desk.Journal.Frames.{Parts, joined, slice, word, array}

-- every part is as wide as it says
abbrev pub Sized : Parts → Type 0
Sized = All (λ p. length p.1 ≡ p.0)

-- where a part begins
abbrev offset : ℕ → Parts → ℕ
offset i [] = 0
offset zero (p ∷ parts) = 0
offset (suc i) (p ∷ parts) = p.0 + offset i parts

slice-joined :
    (i n : ℕ) (bytes rest : List ℕ) (parts : Parts)
    → Sized parts
    → get i parts ≡ some (n, bytes)
    → slice (offset i parts) n (joined parts ++ rest) ≡ bytes
unfolding slice joined
slice-joined i n bytes rest [] sized at = cc
slice-joined zero n bytes rest ((m, bs) ∷ parts) sized at =
    let same = some-injective _ _ at in
    let wide : n ≡ length bs = sym (ap (λ p. p.0) same) ∙ sym sized.0 in
    ap (take n) (append_assoc bs (joined parts) rest)
    ∙ ap (λ k. take k (bs ++ (joined parts ++ rest))) wide
    ∙ take-append bs (joined parts ++ rest)
    ∙ ap (λ p. p.1) same
slice-joined (suc i) n bytes rest ((m, bs) ∷ parts) sized at =
    let o = offset i parts in
    let xs = joined parts ++ rest in
    ap (λ x. take n (drop (m + o) x)) (append_assoc bs (joined parts) rest)
    ∙ ap (take n) (sym (drop-drop m o (bs ++ xs)))
    ∙ ap (λ k. take n (drop o (drop k (bs ++ xs)))) (sym sized.0)
    ∙ ap (λ x. take n (drop o x)) (drop-append bs xs)
    ∙ slice-joined i n bytes rest parts sized.1 at

-- the words and the arrays that stand at a part
module _ (parts : Parts) (sized : Sized parts) (rest : List ℕ) (i v : ℕ) where
  pub word_at :
      (n : ℕ)
      → get i parts ≡ some (word n v)
      → v < 256 ^ n
      → from_le_bytes (slice (offset i parts) n (joined parts ++ rest)) ≡ v
  word_at n at small =
      ap from_le_bytes (slice-joined i n (to_le_bytes n v) rest parts sized at)
      ∙ from_le_bytes-to_le_bytes n v small

  pub array_at :
      (n : ℕ)
      → get i parts ≡ some (array n v)
      → v < 256 ^ n
      → from_be_bytes (slice (offset i parts) n (joined parts ++ rest)) ≡ v
  array_at n at small =
      ap from_be_bytes (slice-joined i n (to_be_bytes n v) rest parts sized at)
      ∙ from_be_bytes-to_be_bytes n v small
