-- ===== src/Desk/Statement/Bounds.antt =====
-- The collateral of an exit against its amount.
use native.Mathlib.Nat.{mul-le-mul_left}
use q_oracle.Base.{ℕ, ◌*◌, ◌/◌, ◌≤◌, ◌<◌, ◌≡◌, false, arith}
use q_oracle.Base.Words.{u128_max}
use q_oracle.Base.Result.{ok, err}
use q_oracle.Desk.Errors.{ExitError}
use q_oracle.Desk.Statement.{DeskConfig, is_unsafe, required_collateral, user_premium}

-- The collateral that an exit locks covers the exit: under settings that a desk accepts, it is at least the user's premium,
-- which is at least the amount, and at most the amount times the ratio; both are computed as long as the amount
-- times the ratio is a `u128`, and otherwise the collateral fails with `overflow`.
pub required_collateral-covers :
    (cfg : DeskConfig) (amount : ℕ)
    → is_unsafe cfg ≡ false
    → (u128_max < amount * cfg.secure_bps → required_collateral amount cfg ≡ err ExitError.overflow)
      × (amount * cfg.secure_bps ≤ u128_max
          → (locked : ℕ) × (premium : ℕ) × (required_collateral amount cfg ≡ ok locked)
            × (user_premium amount cfg ≡ ok premium)
            × (amount ≤ premium)
            × (premium ≤ locked)
            × (locked * 10000 ≤ amount * cfg.secure_bps))
unfolding is_unsafe required_collateral user_premium
required_collateral-covers cfg amount safe =
    let covered : 10000 ≤ cfg.premium_bps = ground arith in
    let within : cfg.premium_bps ≤ cfg.secure_bps = ground arith in
    let low : amount * 10000 ≤ amount * cfg.premium_bps = mul-le-mul_left amount covered in
    let high : amount * cfg.premium_bps ≤ amount * cfg.secure_bps = mul-le-mul_left amount within in
    (
      λ big. ground arith,
      λ small. (
        amount * cfg.secure_bps / 10000,
        amount * cfg.premium_bps / 10000,
        ground arith,
        ground arith,
        omega arith,
        omega arith,
        omega arith,
      ),
    )
