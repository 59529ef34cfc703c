-- ===== src/Gateway/Deposit/Outcomes.antt =====
-- How `process_deposit` ends: refused by a check, with the state as it was, or minted.
use q_oracle.Base.{◌≡◌, refl, arith}
use q_oracle.Base.Result.{Result, ok, err, panic}
use q_oracle.Codec.Fact.{BridgeFact}
use q_oracle.Airlock.Envelope.{AttestationEnvelope}
use q_oracle.Gateway.Errors.{GatewayError}
use q_oracle.Gateway.Operators.{MlDsa}
use q_oracle.Gateway.State.{Gateway, MintReceipt}
use q_oracle.Gateway.Deposit.Checks.{check_deposit}
use q_oracle.Gateway.Deposit.{process_deposit, write_mint}

abbrev pub receipt : BridgeFact → MintReceipt
receipt fact = record {
  asset_id = fact.asset_id;
  recipient = fact.recipient;
  amount = fact.amount;
  source_ref = fact.source_ref;
  source_chain = fact.source_chain;
}

module _ {K : Type 0} where
  abbrev pub minted_by : BridgeFact → Gateway K → Gateway K
  minted_by fact = write_mint fact.asset_id fact.source_ref fact.amount fact.source_chain

  pub data Processed (ml : MlDsa K) (env : AttestationEnvelope) (g : Gateway K)
      (r : Result GatewayError MintReceipt × Gateway K) : Type 0 where
    refused :
        (e : GatewayError) → check_deposit ml env g ≡ err e → r ≡ (err e, g) → Processed ml env g r
    aborted : check_deposit ml env g ≡ panic → r ≡ (panic, g) → Processed ml env g r
    done :
        check_deposit ml env g ≡ ok tt
        → r ≡ (ok (receipt env.fact), minted_by env.fact g)
        → Processed ml env g r

  pub process_deposit-Processed :
      (ml : MlDsa K) (env : AttestationEnvelope) (g : Gateway K)
      → Processed ml env g (process_deposit ml env g)
  process_deposit-Processed ml env g = go (check_deposit ml env g) refl
    where
      go :
          (m : Result GatewayError (Unit {0}))
          → check_deposit ml env g ≡ m
          → Processed ml env g (process_deposit ml env g)
      go (ok _) e = done e (unfold process_deposit in ground arith)
      go (err x) e = refused x e (unfold process_deposit in ground arith)
      go panic e = aborted e (unfold process_deposit in ground arith)
