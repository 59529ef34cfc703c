-- ===== src/Gateway/Steps/Capped/Writes.antt =====
-- The supply invariant, and that each set of writes keeps it.
use q_oracle.Base.{ℕ, ◌+◌, ◌-◌, ◌≤◌, min, ◌≡◌, some, arith}
use q_oracle.Base.Tests.{unwrap_or}
use q_oracle.Base.Words.{u128_max}
use q_oracle.Base.Result.{ok}
use q_oracle.Base.Map.{lookup, nat_key, lookup-insert}
use q_oracle.Base.Map.Sorted.{
  IsSorted, Below, insert-IsSorted, remove-IsSorted, insert-Below, remove-Below, Below-mono,
  lookup-Below,
}
use q_oracle.Gateway.State.{Gateway, ExitTicket}
use q_oracle.Gateway.Reserve.Checks.{minted_of_asset, outstanding_of}
use q_oracle.Gateway.Call.{touch_guard}
use q_oracle.Gateway.Exits.Outcomes.{minted, burned, opened, released, restored}
use q_oracle.Gateway.Deposit.{write_mint}
use q_oracle.Gateway.Deposit.Checks.{check_cap}
use q_oracle.Gateway.Exits.Supply.{
  supply, pending_sum-insert, pending_sum-remove, outstanding_of-eq-min,
}
use q_oracle.Gateway.Steps.Frame.{SameLedger}

abbrev pub cap_of : {K : Type 0} → ℕ → Gateway K → ℕ
cap_of a g = unwrap_or 0 (lookup a g.per_asset_cap)

-- Exit tickets have distinct ids below the next one, and of no asset is more minted or pending than its
-- cap allows, a `u128`; an asset without a cap has no supply.
pub record IsCapped {K : Type 0} (g : Gateway K) : Type 0 where
  pub sorted : IsSorted g.pending_exits
  pub fresh : Below g.next_exit_id g.pending_exits
  pub bounded : (a : ℕ) → cap_of a g ≤ u128_max
  pub capped : (a : ℕ) → supply a g ≤ cap_of a g

module _ {K : Type 0} where
  pub SameLedger-IsCapped : {g h : Gateway K} → SameLedger g h → IsCapped g → IsCapped h
  SameLedger-IsCapped same v = record {
    sorted = rw same.exits v.sorted;
    fresh = rw (same.exits, same.next) v.fresh;
    bounded = λ a. rw same.caps (v.bounded a);
    capped = λ a. rw (same.minted, same.exits, same.caps) (v.capped a);
  }

  pub check_cap_inv :
      (a n : ℕ) (g : Gateway K) {u : Unit {0}}
      → check_cap a n g ≡ ok u
      → outstanding_of a g + n ≤ cap_of a g
  unfolding check_cap
  check_cap_inv a n g h = ground arith

  pub write_mint-IsCapped :
      (a r n c : ℕ) (g : Gateway K)
      → IsCapped g
      → outstanding_of a g + n ≤ cap_of a g
      → IsCapped (write_mint a r n c g)
  unfolding write_mint minted_of_asset
  write_mint-IsCapped a r n c g v room = record {
    sorted = v.sorted;
    fresh = v.fresh;
    bounded = v.bounded;
    capped = λ b. ground (
      arith,
      lookup-insert a b (min (unwrap_or 0 (lookup a g.per_asset_minted) + n) u128_max)
          g.per_asset_minted,
      outstanding_of-eq-min a g,
      v.capped a,
      v.capped b,
      v.bounded a,
    );
  }

  pub burned-IsCapped : (a n : ℕ) (g : Gateway K) → IsCapped g → IsCapped (burned a n g)
  burned-IsCapped a n g v = record {
    sorted = v.sorted;
    fresh = v.fresh;
    bounded = v.bounded;
    capped = λ b. ground (arith, lookup-insert a b (minted a g - n) g.per_asset_minted, v.capped b);
  }

  pub opened-IsCapped :
      (t : ExitTicket) (g : Gateway K)
      → IsCapped g
      → t.amount ≤ minted t.asset_id g
      → IsCapped (opened t g)
  unfolding touch_guard
  opened-IsCapped t g v enough =
      let id = g.next_exit_id in
      record {
        sorted = insert-IsSorted id t g.pending_exits v.sorted;
        fresh =
            insert-Below (id + 1) id t g.pending_exits (omega arith)
              (Below-mono id (id + 1) g.pending_exits (omega arith) v.fresh);
        bounded = v.bounded;
        capped = λ b. ground (
          arith,
          lookup-insert t.asset_id b (minted t.asset_id g - t.amount) g.per_asset_minted,
          pending_sum-insert b id t g.pending_exits
              (lookup-Below id id g.pending_exits (omega arith) v.fresh),
          v.capped b,
        );
      }

  pub released-IsCapped :
      (id : ℕ) (t : ExitTicket) (g : Gateway K)
      → IsCapped g
      → lookup id g.pending_exits ≡ some t
      → IsCapped (released id g)
  unfolding touch_guard
  released-IsCapped id t g v found = record {
    sorted = remove-IsSorted id g.pending_exits v.sorted;
    fresh = remove-Below g.next_exit_id id g.pending_exits v.fresh;
    bounded = v.bounded;
    capped =
        λ b. ground (arith, pending_sum-remove b id t g.pending_exits v.sorted found, v.capped b);
  }

  pub restored-IsCapped :
      (id : ℕ) (t : ExitTicket) (g : Gateway K)
      → IsCapped g
      → lookup id g.pending_exits ≡ some t
      → IsCapped (restored id t g)
  unfolding touch_guard
  restored-IsCapped id t g v found = record {
    sorted = remove-IsSorted id g.pending_exits v.sorted;
    fresh = remove-Below g.next_exit_id id g.pending_exits v.fresh;
    bounded = v.bounded;
    capped = λ b. ground (
      arith,
      lookup-insert t.asset_id b (min (minted t.asset_id g + t.amount) u128_max) g.per_asset_minted,
      pending_sum-remove b id t g.pending_exits v.sorted found,
      v.capped b,
    );
  }
