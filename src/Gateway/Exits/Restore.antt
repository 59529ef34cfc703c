-- ===== src/Gateway/Exits/Restore.antt =====
-- A cancelled exit gives back what its request burned.
use q_oracle.Base.{ℕ, ◌-◌, ◌≤◌, ◌≡◌, sym, ap, ◌∙◌, subst, some, arith}
use mathlib.Core.Option.{some-injective}
use q_oracle.Base.Words.{u128_max, sat_add_u128}
use q_oracle.Base.Result.{ok, ok-injective}
use q_oracle.Base.Map.{lookup, insert, nat_key, lookup-insert}
use q_oracle.Gateway.State.{Gateway, ExitTicket}
use q_oracle.Gateway.Call.{touch_guard}
use q_oracle.Gateway.Exits.{request_exit, cancel_exit}
use q_oracle.Gateway.Exits.Outcomes.{
  minted, opened, restored, ticket_for, Requested, Cancelled, request_exit-Requested,
  cancel_exit-Cancelled,
}

module _ {K : Type 0} where
  opened-found :
      (t : ExitTicket) (g : Gateway K) → lookup g.next_exit_id (opened t g).pending_exits ≡ some t
  unfolding touch_guard
  opened-found t g = ground (arith, lookup-insert g.next_exit_id g.next_exit_id t g.pending_exits)

  restored-minted :
      (a n d : ℕ) (g : Gateway K)
      → n ≤ minted a g
      → minted a g ≤ u128_max
      → let t = ticket_for a n d g in
        (b : ℕ) → minted b (restored g.next_exit_id t (opened t g)) ≡ minted b g
  unfolding touch_guard
  restored-minted a n d g enough small b =
      let left = minted a g - n in
      let now = sat_add_u128 left n in
      ground (
        arith,
        lookup-insert a a left g.per_asset_minted,
        lookup-insert a b left g.per_asset_minted,
        lookup-insert a b now (insert a left g.per_asset_minted),
        lookup-insert a b (minted a g) (insert a left g.per_asset_minted),
      )

  -- cancelling the ticket gives it back, and each asset is minted as it was in an earlier state
  abbrev Restores : Gateway K → ExitTicket → Gateway K → Type 0
  Restores s t g =
      ((cancel_exit t.exit_id s).0 ≡ ok t)
      × ((b : ℕ) → minted b (cancel_exit t.exit_id s).1 ≡ minted b g)

  opened-Restores :
      (a n d : ℕ) (g : Gateway K)
      → n ≤ minted a g
      → minted a g ≤ u128_max
      → Restores (opened (ticket_for a n d g) g) (ticket_for a n d g) g
  opened-Restores a n d g enough small =
      let t = ticket_for a n d g in
      let found = opened-found t g in
      elim (cancel_exit-Cancelled g.next_exit_id (opened t g)) [
        | Cancelled.refused absent _ ↦ cc (sym found ∙ absent)
        | Cancelled.done s found_s r ↦
            let same : t ≡ s = some-injective _ _ (sym found ∙ found_s) in
            (
              ap (λ p. p.0) r ∙ ap ok (sym same),
              λ b.
                  ap (λ p. minted b p.1) r
                  ∙ ap (λ s. minted b (restored g.next_exit_id s (opened t g))) (sym same)
                  ∙ restored-minted a n d g enough small b,
            )
      ]

  -- Cancelling a ticket right after its request succeeds: it returns the ticket that was opened, and the amount
  -- minted of every asset is again what it was, where that of the exit's asset was a `u128`.
  pub cancel_exit-request_exit :
      (a n d : ℕ) (g : Gateway K) (t : ExitTicket)
      → (request_exit a n d g).0 ≡ ok t
      → minted a g ≤ u128_max
      → ((cancel_exit t.exit_id (request_exit a n d g).1).0 ≡ ok t)
        × ((b : ℕ) → minted b (cancel_exit t.exit_id (request_exit a n d g).1).1 ≡ minted b g)
  cancel_exit-request_exit a n d g t h small = elim (request_exit-Requested a n d g) [
    | Requested.refused e _ r ↦ cc (sym (ap (λ p. p.0) r) ∙ h)
    | Requested.aborted _ _ r ↦ cc (sym (ap (λ p. p.0) r) ∙ h)
    | Requested.done openable _ r ↦
        let same : ticket_for a n d g ≡ t = ok-injective (sym (ap (λ p. p.0) r) ∙ h) in
        subst (λ s. Restores s t g) (sym (ap (λ p. p.1) r))
          (subst (λ t. Restores (opened (ticket_for a n d g) g) t g) same
            (opened-Restores a n d g openable.covered small))
  ]
