-- ===== src/Codec/Reader.antt =====
-- `Reader` of crates/q-codec/src/lib.rs: a cursor in a byte slice. A slice out of bounds aborts. The
-- methods on `&mut self` return the reader after the call; nobody reads on after an error.
pub mod Reads
pub mod Parses
use q_oracle.Base.{ℕ, ◌+◌, ◌-◌, ◌&&◌, List}
use q_oracle.Base.Tests.{ltb, leb, ◌==◌, if◌then◌else◌}
use q_oracle.Base.Words.{checked_add_u64}
use q_oracle.Base.Lists.{length, take, drop}
use q_oracle.Base.Result.{Result, ok, err, panic, ◌>>=◌, ◌>>◌, fail_if, ok_or}
use q_oracle.Codec.Bytes.{from_le_bytes, from_be_bytes}
use q_oracle.Codec.Errors.{CodecError, short_input, trailing_bytes}

pub record Reader : Type 0 where
  pub buf : List ℕ
  pub pos : ℕ

abbrev pub Parser {ℓ} : Type ℓ → Type ℓ
Parser A = Reader → Result CodecError (A × Reader)

unfoldable pub new : List ℕ → Reader
new bs = record { buf = bs; pos = 0 }

unfoldable pub advance : ℕ → Reader → Result CodecError ℕ
advance n r = do
  end ← ok_or (checked_add_u64 r.pos n) short_input
  fail_if (ltb (length r.buf) end) short_input
  ok end

-- `self.buf[self.pos..end]`
unfoldable pub slice : ℕ → Reader → Result CodecError (List ℕ)
slice end r =
    if leb r.pos end && leb end (length r.buf)
    then ok (take (end - r.pos) (drop r.pos r.buf))
    else panic

unfoldable pub u8 : Parser ℕ
u8 r = do end ← advance 1 r; v ← slice end r; ok (from_le_bytes v, record r { pos = end })

unfoldable pub u32 : Parser ℕ
u32 r = do end ← advance 4 r; a ← slice end r; ok (from_le_bytes a, record r { pos = end })

unfoldable pub u64 : Parser ℕ
u64 r = do end ← advance 8 r; a ← slice end r; ok (from_le_bytes a, record r { pos = end })

unfoldable pub u128 : Parser ℕ
u128 r = do end ← advance 16 r; a ← slice end r; ok (from_le_bytes a, record r { pos = end })

unfoldable pub fixed : ℕ → Parser (List ℕ)
fixed n r = do end ← advance n r; s ← slice end r; ok (s, record r { pos = end })

unfoldable pub array32 : Parser ℕ
array32 r = do (s, r') ← fixed 32 r; ok (from_be_bytes s, r')

unfoldable pub array16 : Parser ℕ
array16 r = do (s, r') ← fixed 16 r; ok (from_be_bytes s, r')

unfoldable pub bytes_u16 : Parser (List ℕ)
bytes_u16 r = do
  end ← advance 2 r
  a ← slice end r
  fixed (from_le_bytes a) (record r { pos = end })

unfoldable pub bytes_u32 : Parser (List ℕ)
bytes_u32 r = do
  end ← advance 4 r
  a ← slice end r
  fixed (from_le_bytes a) (record r { pos = end })

-- `finish` and `finish_ref`
unfoldable pub finish : Parser (Unit {0})
finish r = if r.pos == length r.buf then ok (tt, r) else err trailing_bytes

unfoldable pub remaining : Reader → ℕ
remaining r = length r.buf - r.pos
