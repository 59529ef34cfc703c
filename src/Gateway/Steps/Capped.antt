-- ===== src/Gateway/Steps/Capped.antt =====
-- The supply of every asset stays within its cap, over every history.
pub mod Writes
pub use Writes.{IsCapped, cap_of}
use Writes.{
  SameLedger-IsCapped, write_mint-IsCapped, burned-IsCapped, opened-IsCapped, released-IsCapped,
  restored-IsCapped, check_cap_inv,
}
use q_oracle.Base.{
  ℕ, suc, ◌+◌, ◌-◌, ◌≤◌, ◌<◌, min, ◌≡◌, refl, sym, ap, subst, ◌∙◌, Option, none, some, List, [],
  ◌∷◌, arith,
}
use q_oracle.Base.Tests.{◌==◌, if◌then◌else◌, unwrap_or, ltb}
use q_oracle.Base.Words.{u128_max}
use q_oracle.Base.Result.{Result, ok, err, panic}
use q_oracle.Base.Map.{Map, lookup, insert, remove, nat_key, lookup-insert, lookup-remove}
use q_oracle.Base.Map.Sorted.{
  IsSorted, Below, insert-IsSorted, remove-IsSorted, insert-Below, remove-Below, Below-mono,
  lookup-Below,
}
use q_oracle.Airlock.Envelope.{AttestationEnvelope}
use q_oracle.Gateway.Operators.{MlDsa}
use q_oracle.Gateway.State.{Gateway, ExitTicket}
use q_oracle.Gateway.Reserve.Checks.{minted_of_asset, outstanding_of, record_asset_epoch}
use q_oracle.Gateway.Errors.{GatewayError}
use q_oracle.Gateway.Call.{touch_guard}
use q_oracle.Gateway.Exits.{request_exit, finalize_exit, cancel_exit}
use q_oracle.Gateway.Exits.Outcomes.{
  minted, burned, opened, released, restored, ticket_for, Requested, Finalized, Cancelled,
  request_exit-Requested, finalize_exit-Finalized, cancel_exit-Cancelled,
}
use q_oracle.Gateway.Deposit.{write_mint, admit_trustless, process_deposit}
use q_oracle.Gateway.Deposit.Outcomes.{Processed, process_deposit-Processed}
use q_oracle.Gateway.Deposit.Checks.{check_cap, precheck_trustless, check_deposit}
use q_oracle.Gateway.Exits.Supply.{
  supply, pending_sum, share, pending_sum-insert, pending_sum-remove, outstanding_of-eq-min,
}
use q_oracle.Gateway.Steps.{Op, step, run}
use q_oracle.Gateway.Steps.Checked.{checked-cases}
use q_oracle.Gateway.Steps.Frame.{SameLedger, step-SameLedger}

module _ {K : Type 0} {A : Type 0} where
  after :
      {h : Gateway K} {r : Result GatewayError A × Gateway K} {x : Result GatewayError A}
      → r ≡ (x, h)
      → IsCapped h
      → IsCapped r.1
  after {h = h} e v = subst IsCapped (sym (ap (λ p. p.1) e)) v

module _ {K : Type 0} where
  request_exit-IsCapped :
      (a n d : ℕ) (g : Gateway K) → IsCapped g → IsCapped (request_exit a n d g).1
  request_exit-IsCapped a n d g v = elim (request_exit-Requested a n d g) [
    | Requested.refused e _ r ↦ after r v
    | Requested.aborted _ _ r ↦ after r (burned-IsCapped a n g v)
    | Requested.done openable _ r ↦
        after r (opened-IsCapped (ticket_for a n d g) g v openable.covered)
  ]

  finalize_exit-IsCapped : (id : ℕ) (g : Gateway K) → IsCapped g → IsCapped (finalize_exit id g).1
  finalize_exit-IsCapped id g v = elim (finalize_exit-Finalized id g) [
    | Finalized.refused e r ↦ after r v
    | Finalized.done t found _ _ _ r ↦ after r (released-IsCapped id t g v found)
  ]

  cancel_exit-IsCapped : (id : ℕ) (g : Gateway K) → IsCapped g → IsCapped (cancel_exit id g).1
  cancel_exit-IsCapped id g v = elim (cancel_exit-Cancelled id g) [
    | Cancelled.refused _ r ↦ after r v
    | Cancelled.done t found r ↦ after r (restored-IsCapped id t g v found)
  ]

  precheck_trustless-room :
      (a r n c : ℕ) (g : Gateway K) {u : Unit {0}}
      → precheck_trustless a r n c g ≡ ok u
      → outstanding_of a g + n ≤ cap_of a g
  unfolding precheck_trustless
  precheck_trustless-room a r n c g h = ground (arith, check_cap_inv a n g {u = tt})

  check_deposit-room :
      (ml : MlDsa K) (env : AttestationEnvelope) (g : Gateway K) {u : Unit {0}}
      → check_deposit ml env g ≡ ok u
      → outstanding_of env.fact.asset_id g + env.fact.amount ≤ cap_of env.fact.asset_id g
  unfolding check_deposit
  check_deposit-room ml env g h =
      ground (arith, check_cap_inv env.fact.asset_id env.fact.amount g {u = tt})

  admit_trustless-IsCapped :
      (a r n c : ℕ) (g : Gateway K) → IsCapped g → IsCapped (admit_trustless a r n c g).1
  unfolding admit_trustless
  admit_trustless-IsCapped a r n c g v =
      checked-cases _ _ g IsCapped v
        λ _ e. write_mint-IsCapped a r n c g v (precheck_trustless-room a r n c g e)

  process_deposit-IsCapped :
      (ml : MlDsa K) (env : AttestationEnvelope) (g : Gateway K)
      → IsCapped g
      → IsCapped (process_deposit ml env g).1
  process_deposit-IsCapped ml env g v = elim (process_deposit-Processed ml env g) [
    | Processed.refused _ _ r ↦ after r v
    | Processed.aborted _ r ↦ after r v
    | Processed.done c r ↦ after r (
        write_mint-IsCapped env.fact.asset_id env.fact.source_ref env.fact.amount
          env.fact.source_chain g v (check_deposit-room ml env g c))
  ]

  -- Every call keeps the invariant, whether it succeeds, fails or aborts.
  pub step-IsCapped :
      (ml : MlDsa K) (op : Op) (g : Gateway K) → IsCapped g → IsCapped (step ml op g)
  step-IsCapped ml (Op.request_exit a n d) g v = unfold step in request_exit-IsCapped a n d g v
  step-IsCapped ml (Op.finalize_exit id) g v = unfold step in finalize_exit-IsCapped id g v
  step-IsCapped ml (Op.cancel_exit id) g v = unfold step in cancel_exit-IsCapped id g v
  step-IsCapped ml (Op.admit_trustless a r n c) g v =
      unfold step in admit_trustless-IsCapped a r n c g v
  step-IsCapped ml (Op.process_deposit env) g v = unfold step in process_deposit-IsCapped ml env g v
  step-IsCapped ml op g v = SameLedger-IsCapped (step-SameLedger ml op g tt) v

-- The supply invariant holds after every history from a state where it holds: the ids of the queued tickets are
-- distinct and below the next id, every cap is a `u128`, and of no asset is more minted and pending in exits
-- together than its cap allows.
pub run-IsCapped :
    {K : Type 0} (ml : MlDsa K) (ops : List Op) (g : Gateway K)
    → IsCapped g
    → IsCapped (run ml ops g)
unfolding run
run-IsCapped ml [] g v = v
run-IsCapped ml (op ∷ ops) g v = run-IsCapped ml ops (step ml op g) (step-IsCapped ml op g v)
