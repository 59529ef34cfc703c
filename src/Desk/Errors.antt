-- ===== src/Desk/Errors.antt =====
-- crates/q-exits/src/errors.rs
use q_oracle.Base.{ℕ}
use q_oracle.Codec.Errors.{CodecError}

pub data ExitError : Type 0 where
  unsafe_params : ExitError
  bad_version : ℕ → ExitError
  zero_amount zero_asset zero_beneficiary zero_burn_ref zero_corridor replayed_exit : ExitError
  unknown_vault : ℕ → ExitError
  thin_vault : (have need : ℕ) → ExitError
  unknown_exit not_pending : ExitError
  window_expired window_open : (now deadline : ℕ) → ExitError
  payout_mismatch payout_unproven replayed_payout : ExitError
  wrong_destination : (got expected : ℕ) → ExitError
  unserved_asset : (got : ℕ) → ExitError
  amount_above_ceiling : (got ceiling : ℕ) → ExitError
  overflow : ExitError
  invalid_artifact : CodecError → ExitError
  unset_anchor bad_public_key_len : ExitError
  degenerate_key : ℕ → ExitError
  tau_above_committee : ExitError
  duplicate_member : ℕ → ExitError
  tau_below_quorum : (tau need : ℕ) → ExitError
  header_decode header_mismatch height_mismatch not_finalized bad_inclusion : ExitError
  not_a_burn_leaf leaf_decode burn_ref_unbound persist_failed ledger_full exits_disabled : ExitError
