-- ===== src/Desk/Ledger.antt =====
-- crates/q-exits/src/ledger.rs: the references that are used up, those of burns and those of payouts.
pub mod Memory
use q_oracle.Base.{ℕ, ◌≡◌, ◌≢◌, Bool, true, false, ◌||◌}
use q_oracle.Base.Result.{Result, ok, err, panic}
use q_oracle.Base.Action.{Action}
use q_oracle.Base.Tests.{◌==◌}
use q_oracle.Desk.Errors.{ExitError}

-- The trait, and what its users rely on: a reference that is recorded stays, a failure records nothing, and
-- `forget` takes at most its own reference away. `note` is the trait's `record`.
pub record ReplayLedger (L : Type 0) : Type 0 where
  pub is_released : ℕ → L → Bool
  pub note : ℕ → Action L ExitError (Unit {0})
  pub forget : ℕ → L → L
  pub note_ok :
      (r : ℕ) (l : L) (k : ℕ)
      → (note r l).0 ≡ ok tt
      → is_released k (note r l).1 ≡ (r == k || is_released k l)
  pub note_err :
      (r : ℕ) (l : L) (k : ℕ) → (note r l).0 ≢ ok tt → is_released k (note r l).1 ≡ is_released k l
  pub note_total : (r : ℕ) (l : L) → (note r l).0 ≢ panic
  pub forget_other :
      (r k : ℕ) (l : L) → (r == k) ≡ false → is_released k (forget r l) ≡ is_released k l

-- A ledger where a `note` that fails writes nothing, and `forget` undoes one that was new, as in the one in memory.
pub record Undoes {L : Type 0} (ledger : ReplayLedger L) : Type 0 where
  pub note_fails : (r : ℕ) (l : L) → (ledger.note r l).0 ≢ ok tt → (ledger.note r l).1 ≡ l
  pub forget_note :
      (r : ℕ) (l : L)
      → ledger.is_released r l ≡ false
      → (ledger.note r l).0 ≡ ok tt
      → ledger.forget r (ledger.note r l).1 ≡ l
