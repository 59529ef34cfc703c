-- ===== src/Gateway/Deposit.antt =====
-- Admission of deposits, crates/q-gateway/src/gateway.rs: by an operator quorum or by a proof.
pub mod Checks
pub mod Outcomes
pub mod Admission
pub mod Decides
use q_oracle.Base.{ℕ, Bool}
use q_oracle.Base.Words.{sat_add_u128}
use q_oracle.Base.Result.{Result, ok, err, fail_if}
use q_oracle.Base.Map.{insert, add, contains, nat_key, pair_key}
use q_oracle.Airlock.Envelope.{AttestationEnvelope}
use q_oracle.Gateway.Errors.{GatewayError}
use q_oracle.Gateway.Operators.{MlDsa}
use q_oracle.Gateway.State.{Gateway, MintReceipt}
use q_oracle.Gateway.Call.{Call, pure, ask, modify, ◌>>=◌, ◌>>◌, checked, touch_guard}
use q_oracle.Gateway.Reserve.Checks.{minted_of_asset, charge_asset_epoch, record_asset_epoch}
use Checks.{precheck_trustless, check_deposit}

module _ {K : Type 0} where
  -- The writes of an admitted deposit.
  unfoldable pub write_mint : ℕ → ℕ → ℕ → ℕ → Gateway K → Gateway K
  unfolding touch_guard record_asset_epoch
  write_mint asset_id source_ref amount source_chain g = touch_guard (
      record_asset_epoch asset_id amount (record g {
        used_refs = add (source_chain, source_ref) g.used_refs;
        refs_any_chain = add source_ref g.refs_any_chain;
        per_asset_minted =
            insert asset_id (sat_add_u128 (minted_of_asset asset_id g) amount) g.per_asset_minted;
        epoch_minted = sat_add_u128 g.epoch_minted amount;
      }))

  unfoldable pub admit_trustless : ℕ → ℕ → ℕ → ℕ → Call K (Unit {0})
  admit_trustless asset_id source_ref amount source_chain =
      checked (precheck_trustless asset_id source_ref amount source_chain)
        (λ _. write_mint asset_id source_ref amount source_chain)

  -- `epoch_minted` is written as the checked sum, which is the saturating one where it exists.
  unfoldable pub process_deposit : MlDsa K → AttestationEnvelope → Call K MintReceipt
  process_deposit ml env = do
    let fact = env.fact
    ask (check_deposit ml env)
    modify (write_mint fact.asset_id fact.source_ref fact.amount fact.source_chain)
    pure (record {
      asset_id = fact.asset_id;
      recipient = fact.recipient;
      amount = fact.amount;
      source_ref = fact.source_ref;
      source_chain = fact.source_chain;
    })
