-- ===== src/Base/Words.antt =====
-- Rust's machine integers: values are native numbers below their width's modulus, and the saturating,
-- checked and wrapping operations are written out.
use Prim.Native.Nat.{ℕ, ◌+◌, ◌-◌, ◌*◌, ◌%◌, min}
use mathlib.Core.Option.{Option, none, some}
use q_oracle.Base.Tests.{ltb, if◌then◌else◌}

abbrev pub u64_max : ℕ
u64_max = 18446744073709551615

abbrev pub u128_max : ℕ
u128_max = 340282366920938463463374607431768211455

-- `u64::saturating_add`, `u128::saturating_add`; `usize` is 64 bits wide
abbrev pub sat_add_u64 : ℕ → ℕ → ℕ
sat_add_u64 a b = min (a + b) u64_max

abbrev pub sat_add_u128 : ℕ → ℕ → ℕ
sat_add_u128 a b = min (a + b) u128_max

abbrev pub sat_mul_u64 : ℕ → ℕ → ℕ
sat_mul_u64 a b = min (a * b) u64_max

abbrev pub checked_add_u64 : ℕ → ℕ → Option ℕ
checked_add_u64 a b = if ltb u64_max (a + b) then none else some (a + b)

abbrev pub checked_add_u128 : ℕ → ℕ → Option ℕ
checked_add_u128 a b = if ltb u128_max (a + b) then none else some (a + b)

abbrev pub checked_mul_u128 : ℕ → ℕ → Option ℕ
checked_mul_u128 a b = if ltb u128_max (a * b) then none else some (a * b)

-- `checked_sub`, of any width
abbrev pub checked_sub : ℕ → ℕ → Option ℕ
checked_sub a b = if ltb a b then none else some (a - b)

-- `u64::wrapping_add`
abbrev pub wrapping_add_u64 : ℕ → ℕ → ℕ
wrapping_add_u64 a b = (a + b) % (u64_max + 1)
