-- ===== src/Gateway/Deposit/Decides.antt =====
-- `process_deposit` decides the conditions of `Admission`.
use q_oracle.Base.{◌≡◌, ◌↔◌, sym, ap, ◌∙◌}
use q_oracle.Base.Result.{ok, err}
use q_oracle.Base.Map.{pair_key, nat_key}
use q_oracle.Airlock.Envelope.{AttestationEnvelope}
use q_oracle.Gateway.Errors.{GatewayError}
use q_oracle.Gateway.Operators.{MlDsa}
use q_oracle.Gateway.State.{Gateway}
use q_oracle.Gateway.Deposit.{process_deposit}
use q_oracle.Gateway.Deposit.Outcomes.{receipt, minted_by, Processed, process_deposit-Processed}
use q_oracle.Gateway.Deposit.Admission.{IsAdmissible, check_deposit_sound, check_deposit_complete}

module _ {K : Type 0} (ml : MlDsa K) (env : AttestationEnvelope) (g : Gateway K) where
  -- A deposit is minted exactly when it is admissible: the gateway is neither paused nor frozen, the fact is
  -- valid, inbound, for this chain and not expired, its corridor is open, active, not paused and deep enough,
  -- the required signers are reachable and reached, the caps, the escrow and the epoch budgets have room, the
  -- reserve report is fresh, and the reference is new. The receipt is then that of the fact, and
  -- the state has its mint written.
  pub process_deposit-admits :
      (process_deposit ml env g ≡ (ok (receipt env.fact), minted_by env.fact g))
      ↔ IsAdmissible ml env g
  process_deposit-admits = (forth, back)
    where
      forth :
          process_deposit ml env g ≡ (ok (receipt env.fact), minted_by env.fact g)
          → IsAdmissible ml env g
      forth h = elim (process_deposit-Processed ml env g) [
        | Processed.refused e _ r ↦ cc (ap (λ p. p.0) (sym r ∙ h))
        | Processed.aborted _ r ↦ cc (ap (λ p. p.0) (sym r ∙ h))
        | Processed.done c r ↦ check_deposit_sound ml env g c
      ]

      back :
          IsAdmissible ml env g
          → process_deposit ml env g ≡ (ok (receipt env.fact), minted_by env.fact g)
      back v =
          let c = check_deposit_complete ml env g v in
          elim (process_deposit-Processed ml env g) [
            | Processed.refused e x r ↦ cc (sym c ∙ x)
            | Processed.aborted x r ↦ cc (sym c ∙ x)
            | Processed.done _ r ↦ r
          ]

  -- A deposit that fails with an error leaves the gateway as it was.
  pub process_deposit_atomic :
      (e : GatewayError) → (process_deposit ml env g).0 ≡ err e → (process_deposit ml env g).1 ≡ g
  process_deposit_atomic e h = elim (process_deposit-Processed ml env g) [
    | Processed.refused _ _ r ↦ ap (λ p. p.1) r
    | Processed.aborted _ r ↦ ap (λ p. p.1) r
    | Processed.done _ r ↦ cc (sym (ap (λ p. p.0) r) ∙ h)
  ]
