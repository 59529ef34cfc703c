-- ===== src/Desk/Journal/Frames/Saved.antt =====
-- What is saved is a header with frames behind it.
use q_oracle.Base.{
  ℕ, ◌+◌, ◌*◌, ◌/◌, ◌%◌, ◌^◌, ◌≤◌, ◌<◌, ◌≡◌, refl, sym, ap, ◌∙◌, false, ◌||◌, not, List, ◌++◌,
  append_assoc, arith,
}
use q_oracle.Base.Tests.{ltb, ◌==◌}
use q_oracle.Base.Lists.{length, take, drop, length-append, take-append, drop-append}
use q_oracle.Base.Map.{nat_key}
use q_oracle.Codec.Bytes.{to_le_bytes, from_le_bytes, length-to_le_bytes, from_le_bytes-to_le_bytes}
use q_oracle.Desk.Journal.Frames.{
  slice, header, max_journal_entries, byte_at, u64_at, magic, journal_version,
}

-- cuts at a known length
module _ (n : ℕ) (xs ys : List ℕ) (wide : length xs ≡ n) where
  pub take_front : take n (xs ++ ys) ≡ xs
  take_front = ap (λ k. take k (xs ++ ys)) (sym wide) ∙ take-append xs ys

  pub drop_front : drop n (xs ++ ys) ≡ ys
  drop_front = ap (λ k. drop k (xs ++ ys)) (sym wide) ∙ drop-append xs ys

-- the parts of what is saved
module _ (n : ℕ) (head frames : List ℕ) (wide : length head ≡ 32) where
  pub saved_length : length (header n head ++ frames) ≡ 45 + length frames
  unfolding header
  saved_length = omega (
    arith,
    length-append (to_le_bytes 8 n ++ head) frames,
    length-append (to_le_bytes 8 n) head,
    length-to_le_bytes 8 n,
    wide,
  )

  pub saved_magic : take 4 (header n head ++ frames) ≡ magic
  unfolding header
  saved_magic = refl

  pub saved_version : byte_at 4 (header n head ++ frames) ≡ journal_version
  unfolding header byte_at slice from_le_bytes
  saved_version = refl

  pub saved_count : n < 256 ^ 8 → u64_at 5 (header n head ++ frames) ≡ n
  unfolding header u64_at slice
  saved_count small =
      ap (λ x. from_le_bytes (take 8 x)) (append_assoc (to_le_bytes 8 n) head frames)
      ∙ ap from_le_bytes (take_front 8 (to_le_bytes 8 n) (head ++ frames) (length-to_le_bytes 8 n))
      ∙ from_le_bytes-to_le_bytes 8 n small

  pub saved_head : slice 13 32 (header n head ++ frames) ≡ head
  unfolding header slice
  saved_head =
      ap (λ x. take 32 (drop 8 x)) (append_assoc (to_le_bytes 8 n) head frames)
      ∙ ap (take 32) (drop_front 8 (to_le_bytes 8 n) (head ++ frames) (length-to_le_bytes 8 n))
      ∙ take_front 32 head frames wide

  pub saved_frames : drop 45 (header n head ++ frames) ≡ frames
  unfolding header
  saved_frames =
      drop_front 40 (to_le_bytes 8 n ++ head) frames
        (omega (arith, length-append (to_le_bytes 8 n) head, length-to_le_bytes 8 n, wide))

-- `n` frames and `j` bytes behind them
module _ (n j : ℕ) (few : n * 214 + j ≤ max_journal_entries * 214) where
  pub whole_few : ltb max_journal_entries ((n * 214 + j) / 214) ≡ false
  whole_few = ground arith

  pub whole_enough : ltb ((n * 214 + j) / 214) n ≡ false
  whole_enough = ground arith

  pub whole_long : ltb (45 + (n * 214 + j)) 45 ≡ false
  whole_long = ground arith

  pub whole_torn : (not ((n * 214 + j) % 214 == 0) || ltb n ((n * 214 + j) / 214)) ≡ not (j == 0)
  whole_torn = ground arith
