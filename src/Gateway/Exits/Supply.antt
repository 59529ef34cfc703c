-- ===== src/Gateway/Exits/Supply.antt =====
-- The supply of an asset: what is minted and what is pending in exits. The saturating sum of the source is
-- the exact one, capped at `u128::MAX`.
use q_oracle.Base.{ℕ, ◌+◌, ◌≤◌, min, ◌≡◌, refl, none, some, [], ◌∷◌, arith}
use q_oracle.Base.Tests.{◌==◌, if◌then◌else◌, unwrap_or}
use q_oracle.Base.Words.{u128_max}
use q_oracle.Base.Map.{Map, lookup, insert, remove, nat_key}
use q_oracle.Base.Map.Sorted.{IsSorted, lookup-Above, remove_absent}
use q_oracle.Gateway.State.{Gateway, ExitTicket}
use q_oracle.Gateway.Reserve.Checks.{pending_from, pending_exit_of, minted_of_asset, outstanding_of}

-- what one ticket adds to the pending amount of an asset
abbrev pub share : ℕ → ExitTicket → ℕ
share asset_id t = if t.asset_id == asset_id then t.amount else 0

-- the exact sum of the pending amounts
abbrev pub pending_sum : ℕ → Map ℕ ExitTicket → ℕ
pending_sum asset_id [] = 0
pending_sum asset_id ((_, t) ∷ m) = share asset_id t + pending_sum asset_id m

pub pending_from-eq-min :
    (a acc : ℕ) (m : Map ℕ ExitTicket)
    → acc ≤ u128_max
    → pending_from a acc m ≡ min (acc + pending_sum a m) u128_max
unfolding pending_from
pending_from-eq-min a acc [] h = omega arith
pending_from-eq-min a acc ((_, t) ∷ m) h =
    ground (
      arith,
      pending_from-eq-min a acc m h,
      pending_from-eq-min a (min (acc + t.amount) u128_max) m,
    )

pub pending_sum-insert :
    (a k : ℕ) (t : ExitTicket) (m : Map ℕ ExitTicket)
    → lookup k m ≡ none
    → pending_sum a (insert k t m) ≡ share a t + pending_sum a m
unfolding lookup insert
pending_sum-insert a k t [] h = refl
pending_sum-insert a k t ((j, w) ∷ m) h = ground (arith, pending_sum-insert a k t m)

pub pending_sum-remove :
    (a k : ℕ) (t : ExitTicket) (m : Map ℕ ExitTicket)
    → IsSorted m
    → lookup k m ≡ some t
    → pending_sum a m ≡ share a t + pending_sum a (remove k m)
unfolding lookup remove
pending_sum-remove a k t [] s h = cc
pending_sum-remove a k t ((j, w) ∷ m) s h =
    ground (arith, pending_sum-remove a k t m s.1, lookup-Above k j m, remove_absent k m)

module _ {K : Type 0} where
  -- the exact supply of an asset
  abbrev pub supply : ℕ → Gateway K → ℕ
  supply a g = unwrap_or 0 (lookup a g.per_asset_minted) + pending_sum a g.pending_exits

  pub outstanding_of-eq-min :
      (a : ℕ) (g : Gateway K) → outstanding_of a g ≡ min (supply a g) u128_max
  unfolding outstanding_of minted_of_asset pending_exit_of
  outstanding_of-eq-min a g = omega (arith, pending_from-eq-min a 0 g.pending_exits (omega arith))
