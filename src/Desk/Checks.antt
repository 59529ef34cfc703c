-- ===== src/Desk/Checks.antt =====
-- What `ExitDesk::open_exit` of crates/q-exits/src/exits.rs checks before it writes, and what it writes.
use q_oracle.Base.{ℕ, ◌&&◌, not}
use q_oracle.Base.Tests.{ltb, ◌==◌}
use q_oracle.Base.Result.{Result, fail_if, ◌>>◌}
use q_oracle.Desk.Errors.{ExitError}
use q_oracle.Desk.Ledger.{ReplayLedger}
use q_oracle.Desk.Journal.{JournaledExit}
use q_oracle.Desk.Statement.{
  DeskConfig, ExitStatement, Exit, pending, validate, serves, required_collateral,
  exit_statement_version,
}
use q_oracle.Desk.BurnProof.{AuthenticatedBurn}

unfoldable pub statement_of : ℕ → AuthenticatedBurn → ExitStatement
statement_of corridor burn = record {
  version = exit_statement_version;
  corridor = corridor;
  asset_id = burn.asset_id;
  amount = burn.amount;
  holder = burn.holder;
  destination = burn.destination;
  burn_ref = burn.burn_ref;
  finalized_height = burn.finalized_height;
}

abbrev pub exit_of : ExitStatement → (vault_id locked issued_at deadline : ℕ) → Exit
exit_of s vault_id locked issued_at deadline = record {
  statement = s;
  vault_id = vault_id;
  locked = locked;
  issued_at = issued_at;
  deadline = deadline;
  state = pending;
}

abbrev pub journaled : Exit → JournaledExit
journaled exit = record {
  version = exit.statement.version;
  corridor = exit.statement.corridor;
  asset_id = exit.statement.asset_id;
  amount = exit.statement.amount;
  holder = exit.statement.holder;
  destination = exit.statement.destination;
  burn_ref = exit.statement.burn_ref;
  finalized_height = exit.statement.finalized_height;
  vault_id = exit.vault_id;
  locked = exit.locked;
  issued_at = exit.issued_at;
  deadline = exit.deadline;
}

-- the checks on a verified burn, which give the collateral that the exit needs
unfoldable pub check_burn :
    {L : Type 0} ⦃ledger : ReplayLedger L⦄
    → DeskConfig
    → L
    → (chain_id : ℕ) → AuthenticatedBurn
    → Result ExitError ℕ
check_burn ⦃ledger⦄ cfg consumed chain_id burn = do
  fail_if (not (burn.dest_chain == chain_id)) (ExitError.wrong_destination burn.dest_chain chain_id)
  fail_if (not (serves burn.asset_id cfg)) (ExitError.unserved_asset burn.asset_id)
  fail_if (ltb 0 cfg.max_amount && ltb cfg.max_amount burn.amount)
      (ExitError.amount_above_ceiling burn.amount cfg.max_amount)
  validate (statement_of cfg.corridor burn)
  fail_if (ledger.is_released burn.burn_ref consumed) ExitError.replayed_exit
  required_collateral burn.amount cfg
