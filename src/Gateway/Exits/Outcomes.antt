-- ===== src/Gateway/Exits/Outcomes.antt =====
-- How the calls on exits end: refused, with the state as it was, or done, with exactly these writes.
use q_oracle.Base.{
  ℕ, ◌+◌, ◌-◌, ◌≤◌, ◌<◌, ◌≡◌, ◌≢◌, refl, inl, inr, Bool, true, false, Option, none, some, arith,
}
use native.Mathlib.Decide.{dec_lt}
use q_oracle.Base.Tests.{unwrap_or, Option-cases}
use q_oracle.Base.Lists.{length}
use q_oracle.Base.Words.{u64_max, sat_add_u64, sat_add_u128}
use q_oracle.Base.Result.{Result, ok, err, panic}
use q_oracle.Base.Map.{lookup, insert, remove, nat_key}
use q_oracle.Codec.Errors.{zero_amount}
use q_oracle.Gateway.Errors.{GatewayError}
use q_oracle.Gateway.State.{Gateway, ExitTicket, max_pending_exits}
use q_oracle.Gateway.Call.{touch_guard}
use q_oracle.Gateway.Reserve.Checks.{minted_of_asset}
use q_oracle.Gateway.Freeze.Checks.{is_frozen}
use q_oracle.Gateway.Exits.{request_exit, finalize_exit, cancel_exit}

module _ {K : Type 0} where
  abbrev pub minted : ℕ → Gateway K → ℕ
  minted a g = unwrap_or 0 (lookup a g.per_asset_minted)

  -- The states after the writes.
  abbrev pub burned : ℕ → ℕ → Gateway K → Gateway K
  burned a n g = record g { per_asset_minted = insert a (minted a g - n) g.per_asset_minted }

  abbrev pub opened : ExitTicket → Gateway K → Gateway K
  opened t g = touch_guard (record (burned t.asset_id t.amount g) {
    next_exit_id = g.next_exit_id + 1;
    pending_exits = insert g.next_exit_id t g.pending_exits;
  })

  abbrev pub released : ℕ → Gateway K → Gateway K
  released id g = touch_guard (record g { pending_exits = remove id g.pending_exits })

  abbrev pub restored : ℕ → ExitTicket → Gateway K → Gateway K
  restored id t g = touch_guard (record g {
    pending_exits = remove id g.pending_exits;
    per_asset_minted =
        insert t.asset_id (sat_add_u128 (minted t.asset_id g) t.amount) g.per_asset_minted;
  })

  abbrev pub ticket_for : ℕ → ℕ → ℕ → Gateway K → ExitTicket
  ticket_for a n d g = record {
    exit_id = g.next_exit_id;
    asset_id = a;
    amount = n;
    destination = d;
    unlock_height = sat_add_u64 g.current_height g.exit_delay;
  }

  -- Why `request_exit` is refused, with the checks before that passed.
  pub data Refusal (a n : ℕ) (g : Gateway K) (e : GatewayError) : Type 0 where
    nothing : n ≡ 0 → e ≡ GatewayError.invalid_fact zero_amount → Refusal a n g e
    full :
        n ≢ 0
        → max_pending_exits ≤ length g.pending_exits
        → e ≡ GatewayError.exit_queue_full (length g.pending_exits) max_pending_exits
        → Refusal a n g e
    short :
        n ≢ 0
        → length g.pending_exits < max_pending_exits
        → minted a g < n
        → e ≡ GatewayError.exit_exceeds_minted (minted a g) n
        → Refusal a n g e

  -- The exit is for some units, which are covered, and the queue has room.
  pub record IsOpenable (a n : ℕ) (g : Gateway K) : Type 0 where
    pub some_units : n ≢ 0
    pub room : length g.pending_exits < max_pending_exits
    pub covered : n ≤ minted a g

  -- The call of `request_exit` is refused, aborts at the last id, or opens a ticket.
  pub data Requested (a n d : ℕ) (g : Gateway K) (r : Result GatewayError ExitTicket × Gateway K)
      : Type 0 where
    refused : (e : GatewayError) → Refusal a n g e → r ≡ (err e, g) → Requested a n d g r
    aborted :
        IsOpenable a n g
        → u64_max ≤ g.next_exit_id
        → r ≡ (panic, burned a n g)
        → Requested a n d g r
    done :
        IsOpenable a n g
        → g.next_exit_id < u64_max
        → r ≡ (ok (ticket_for a n d g), opened (ticket_for a n d g) g)
        → Requested a n d g r

  -- `request_exit` ends in one of three ways. It fails and leaves the state as it was: with `invalid_fact` where the
  -- amount is zero, else with `exit_queue_full` where the queue has no room, else with `exit_exceeds_minted` where less
  -- than the amount is minted. Else the amount is not zero and within what is minted, and the queue has room. Then it
  -- aborts where the next ticket id is the largest `u64` or above, with the amount already burned; and where the next id is
  -- below, it opens a ticket that unlocks after the exit delay, and the state is the old one with the amount burned, the
  -- ticket queued and the next id counted up.
  pub request_exit-Requested :
      (a n d : ℕ) (g : Gateway K) → Requested a n d g (request_exit a n d g)
  unfolding request_exit minted_of_asset
  request_exit-Requested a n d g = elim (dec_lt 0 n) [
    | no none_left ↦
        refused (GatewayError.invalid_fact zero_amount) (nothing (omega arith) refl) (ground arith)
    | yes some_units ↦ elim (dec_lt (length g.pending_exits) max_pending_exits) [
      | no no_room ↦
          refused (GatewayError.exit_queue_full (length g.pending_exits) max_pending_exits)
            (full (omega arith) (omega arith) refl) (ground arith)
      | yes room ↦ elim (dec_lt (minted a g) n) [
        | yes less ↦
            refused (GatewayError.exit_exceeds_minted (minted a g) n)
              (short (omega arith) room less refl) (ground arith)
        | no enough ↦
            let openable : IsOpenable a n g = record {
              some_units = omega arith;
              room = room;
              covered = omega arith;
            } in
            elim (dec_lt g.next_exit_id u64_max) [
              | no last ↦ aborted openable (omega arith) (ground arith)
              | yes next ↦ done openable next (ground arith)
            ]
      ]
    ]
  ]

  pub data Finalized (id : ℕ) (g : Gateway K) (r : Result GatewayError ExitTicket × Gateway K)
      : Type 0 where
    refused : (e : GatewayError) → r ≡ (err e, g) → Finalized id g r
    done :
        (t : ExitTicket)
        → lookup id g.pending_exits ≡ some t
        → t.unlock_height ≤ g.current_height
        → g.global_pause ≡ false
        → is_frozen g ≡ false
        → r ≡ (ok t, released id g)
        → Finalized id g r

  exit_cases :
      (id : ℕ) (g : Gateway K) (p f : Bool) (o : Option ExitTicket)
      → g.global_pause ≡ p
      → is_frozen g ≡ f
      → lookup id g.pending_exits ≡ o
      → Finalized id g (finalize_exit id g)
  unfolding finalize_exit
  exit_cases id g true f o ep ef eo = refused GatewayError.global_pause (ground arith)
  exit_cases id g false true o ep ef eo =
      refused (GatewayError.frozen g.frozen_until) (ground arith)
  exit_cases id g false false none ep ef eo = refused (GatewayError.unknown_exit id) (ground arith)
  exit_cases id g false false (some t) ep ef eo = elim (dec_lt g.current_height t.unlock_height) [
    | yes early ↦
        refused (GatewayError.exit_not_ready g.current_height t.unlock_height) (ground arith)
    | no ready ↦ done t eo (omega arith) ep ef (ground arith)
  ]

  -- `finalize_exit` fails and leaves the state as it was, or it returns the ticket that is queued under the id:
  -- the ticket is unlocked, the gateway is neither paused nor frozen, and the state is the old one
  -- without the ticket.
  pub finalize_exit-Finalized : (id : ℕ) (g : Gateway K) → Finalized id g (finalize_exit id g)
  finalize_exit-Finalized id g = exit_cases id g _ _ _ refl refl refl

  pub data Cancelled (id : ℕ) (g : Gateway K) (r : Result GatewayError ExitTicket × Gateway K)
      : Type 0 where
    refused :
        lookup id g.pending_exits ≡ none
        → r ≡ (err (GatewayError.unknown_exit id), g)
        → Cancelled id g r
    done :
        (t : ExitTicket)
        → lookup id g.pending_exits ≡ some t
        → r ≡ (ok t, restored id t g)
        → Cancelled id g r

  -- `cancel_exit` fails with `unknown_exit` and leaves the state as it was, where no ticket is queued under the id,
  -- or it returns the ticket that is, and the state is the old one without the ticket and with its
  -- amount minted again, saturating.
  pub cancel_exit-Cancelled : (id : ℕ) (g : Gateway K) → Cancelled id g (cancel_exit id g)
  unfolding cancel_exit minted_of_asset
  cancel_exit-Cancelled id g = elim (Option-cases (lookup id g.pending_exits)) [
    | inl e ↦ refused e (ground arith)
    | inr (t, e) ↦ done t e (ground arith)
  ]
