-- ===== src/Gateway/Steps/Spent.antt =====
-- A ticket leaves the queue once: it is paid or cancelled, and never comes back.
use q_oracle.Base.{ℕ, ◌<◌, ◌≡◌, ◌≢◌, sym, ap, ◌∙◌, subst, none, List, [], ◌∷◌, arith}
use q_oracle.Base.Result.{Result, ok, err}
use q_oracle.Base.Map.{lookup, remove, lookup-insert, lookup-remove, nat_key}
use q_oracle.Base.Map.Sorted.{Below-lookup}
use q_oracle.Airlock.Envelope.{AttestationEnvelope}
use q_oracle.Gateway.Errors.{GatewayError}
use q_oracle.Gateway.Operators.{MlDsa}
use q_oracle.Gateway.State.{Gateway, ExitTicket}
use q_oracle.Gateway.Call.{touch_guard}
use q_oracle.Gateway.Exits.{request_exit, finalize_exit, cancel_exit}
use q_oracle.Gateway.Exits.Outcomes.{
  Requested, Finalized, Cancelled, ticket_for, request_exit-Requested, finalize_exit-Finalized,
  cancel_exit-Cancelled,
}
use q_oracle.Gateway.Deposit.{write_mint, admit_trustless, process_deposit}
use q_oracle.Gateway.Deposit.Outcomes.{Processed, process_deposit-Processed}
use q_oracle.Gateway.Steps.{Op, step, run}
use q_oracle.Gateway.Steps.Checked.{checked-cases}
use q_oracle.Gateway.Steps.Frame.{step-SameLedger}
use q_oracle.Gateway.Steps.Capped.{IsCapped}

module _ {K : Type 0} where
  -- the id was given out and its ticket is no longer in the queue
  abbrev pub Gone : ℕ → Gateway K → Type 0
  Gone id g = (id < g.next_exit_id) × (lookup id g.pending_exits ≡ none)

  write_mint-Gone : (id a r n c : ℕ) (g : Gateway K) → Gone id g → Gone id (write_mint a r n c g)
  unfolding write_mint
  write_mint-Gone id a r n c g u = ground arith

module _ {K : Type 0} {A : Type 0} (id : ℕ) where
  after :
      {h : Gateway K} {r : Result GatewayError A × Gateway K} {x : Result GatewayError A}
      → r ≡ (x, h)
      → Gone id h
      → Gone id r.1
  after e v = subst (Gone id) (sym (ap (λ p. p.1) e)) v

module _ {K : Type 0} (ml : MlDsa K) (id : ℕ) where
  request_exit-Gone : (a n d : ℕ) (g : Gateway K) → Gone id g → Gone id (request_exit a n d g).1
  request_exit-Gone a n d g u = elim (request_exit-Requested a n d g) [
    | Requested.refused e _ r ↦ after id r u
    | Requested.aborted _ _ r ↦ after id r u
    | Requested.done _ _ r ↦ after id r (
        unfold touch_guard in
        (
          ground arith,
          ground (arith, lookup-insert g.next_exit_id id (ticket_for a n d g) g.pending_exits),
        ))
  ]

  removed :
      (other : ℕ) (g : Gateway K) → Gone id g → lookup id (remove other g.pending_exits) ≡ none
  removed other g u = ground (arith, lookup-remove other id g.pending_exits)

  finalize_exit-Gone : (other : ℕ) (g : Gateway K) → Gone id g → Gone id (finalize_exit other g).1
  finalize_exit-Gone other g u = elim (finalize_exit-Finalized other g) [
    | Finalized.refused e r ↦ after id r u
    | Finalized.done _ _ _ _ _ r ↦ after id r (unfold touch_guard in (u.0, removed other g u))
  ]

  cancel_exit-Gone : (other : ℕ) (g : Gateway K) → Gone id g → Gone id (cancel_exit other g).1
  cancel_exit-Gone other g u = elim (cancel_exit-Cancelled other g) [
    | Cancelled.refused _ r ↦ after id r u
    | Cancelled.done _ _ r ↦ after id r (unfold touch_guard in (u.0, removed other g u))
  ]

  admit_trustless-Gone :
      (a r n c : ℕ) (g : Gateway K) → Gone id g → Gone id (admit_trustless a r n c g).1
  unfolding admit_trustless
  admit_trustless-Gone a r n c g u =
      checked-cases _ _ g (Gone id) u (λ _ _. write_mint-Gone id a r n c g u)

  process_deposit-Gone :
      (env : AttestationEnvelope) (g : Gateway K) → Gone id g → Gone id (process_deposit ml env g).1
  process_deposit-Gone env g u = elim (process_deposit-Processed ml env g) [
    | Processed.refused _ _ r ↦ after id r u
    | Processed.aborted _ r ↦ after id r u
    | Processed.done c r ↦ after id r (
        write_mint-Gone id env.fact.asset_id env.fact.source_ref env.fact.amount
          env.fact.source_chain g u)
  ]

  step-Gone : (op : Op) (g : Gateway K) → Gone id g → Gone id (step ml op g)
  step-Gone (Op.request_exit a n d) g u = unfold step in request_exit-Gone a n d g u
  step-Gone (Op.finalize_exit i) g u = unfold step in finalize_exit-Gone i g u
  step-Gone (Op.cancel_exit i) g u = unfold step in cancel_exit-Gone i g u
  step-Gone (Op.admit_trustless a r n c) g u = unfold step in admit_trustless-Gone a r n c g u
  step-Gone (Op.process_deposit env) g u = unfold step in process_deposit-Gone env g u
  step-Gone op g u = let same = step-SameLedger ml op g tt in rw (same.exits, same.next) u

  run-Gone : (ops : List Op) (g : Gateway K) → Gone id g → Gone id (run ml ops g)
  unfolding run
  run-Gone [] g u = u
  run-Gone (op ∷ ops) g u = run-Gone ops (step ml op g) (step-Gone op g u)

  finalize_exit-paid :
      (g : Gateway K) (t : ExitTicket)
      → IsCapped g
      → (finalize_exit id g).0 ≡ ok t
      → Gone id (finalize_exit id g).1
  finalize_exit-paid g t v h = elim (finalize_exit-Finalized id g) [
    | Finalized.refused e r ↦ cc (sym (ap (λ p. p.0) r) ∙ h)
    | Finalized.done s found _ _ _ r ↦ after id r (
        unfold touch_guard in
        (
          Below-lookup id g.next_exit_id s g.pending_exits v.fresh found,
          ground (arith, lookup-remove id id g.pending_exits),
        ))
  ]

  Gone-refused :
      (g : Gateway K)
      → Gone id g
      → ((t : ExitTicket) → (finalize_exit id g).0 ≢ ok t)
        × (cancel_exit id g ≡ (err (GatewayError.unknown_exit id), g))
  Gone-refused g u = (
    λ t h. elim (finalize_exit-Finalized id g) [
      | Finalized.refused e r ↦ cc (sym (ap (λ p. p.0) r) ∙ h)
      | Finalized.done s found _ _ _ r ↦ cc (sym found ∙ u.1)
    ],
    elim (cancel_exit-Cancelled id g) [
      | Cancelled.refused _ r ↦ r
      | Cancelled.done s found r ↦ cc (sym found ∙ u.1)
    ],
  )

-- An exit is paid at most once: from a state that meets the supply invariant, after a ticket is finalized and any
-- further calls, finalizing the same ticket id fails and cancelling it fails with `unknown_exit`.
pub run-paid_once :
    {K : Type 0} (ml : MlDsa K) (id : ℕ) (g : Gateway K) (t : ExitTicket) (ops : List Op)
    → IsCapped g
    → (finalize_exit id g).0 ≡ ok t
    → ((again : ExitTicket) → (finalize_exit id (run ml ops (finalize_exit id g).1)).0 ≢ ok again)
      × (cancel_exit id (run ml ops (finalize_exit id g).1)
          ≡ (err (GatewayError.unknown_exit id), run ml ops (finalize_exit id g).1))
run-paid_once ml id g t ops v h =
    Gone-refused ml id _ (run-Gone ml id ops _ (finalize_exit-paid ml id g t v h))
