-- ===== src/Codec/Writer.antt =====
-- `Writer` of crates/q-codec/src/lib.rs: a byte buffer that is only appended to.
use q_oracle.Base.{ℕ, List, [], ◌++◌}
use q_oracle.Base.Tests.{leb, if◌then◌else◌}
use q_oracle.Base.Lists.{length}
use q_oracle.Base.Result.{Result, ok, panic}
use q_oracle.Codec.Bytes.{to_le_bytes, to_be_bytes}

pub record Writer : Type 0 where
  pub buf : List ℕ

-- Statements on a `&mut Writer`, one after the other.
infixl 5 ◌|>◌
abbrev pub ◌|>◌ {ℓ} : {A : Type ℓ} → Writer → (Writer → A) → A
w |> f = f w

unfoldable pub new : Writer
new = record { buf = [] }

abbrev pub extend_from_slice : List ℕ → Writer → Writer
extend_from_slice bs w = record w { buf = w.buf ++ bs }

unfoldable pub u8 : ℕ → Writer → Writer
u8 v = extend_from_slice (to_le_bytes 1 v)

unfoldable pub u32 : ℕ → Writer → Writer
u32 v = extend_from_slice (to_le_bytes 4 v)

unfoldable pub u64 : ℕ → Writer → Writer
u64 v = extend_from_slice (to_le_bytes 8 v)

unfoldable pub u128 : ℕ → Writer → Writer
u128 v = extend_from_slice (to_le_bytes 16 v)

-- `fixed` on the bytes of a constant, and on an identifier of `n` bytes.
unfoldable pub fixed : List ℕ → Writer → Writer
fixed bs = extend_from_slice bs

unfoldable pub fixed_id : ℕ → ℕ → Writer → Writer
unfolding fixed
fixed_id n v = fixed (to_be_bytes n v)

-- The length must fit its prefix: `expect` aborts otherwise.
unfoldable pub bytes_u16 : {E : Type 0} → List ℕ → Writer → Result E Writer
bytes_u16 bs w =
    if leb (length bs) 65535
    then ok (w |> extend_from_slice (to_le_bytes 2 (length bs)) |> extend_from_slice bs)
    else panic

unfoldable pub bytes_u32 : {E : Type 0} → List ℕ → Writer → Result E Writer
bytes_u32 bs w =
    if leb (length bs) 4294967295
    then ok (w |> extend_from_slice (to_le_bytes 4 (length bs)) |> extend_from_slice bs)
    else panic

unfoldable pub finish : Writer → List ℕ
finish w = w.buf
