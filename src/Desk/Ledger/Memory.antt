-- ===== src/Desk/Ledger/Memory.antt =====
-- `MemoryLedger` of crates/q-exits/src/ledger.rs.
use q_oracle.Base.{ℕ, ◌≡◌, ◌≢◌, refl, Bool, false, ◌||◌, none, [], arith}
use q_oracle.Base.Tests.{leb, ◌==◌, if◌then◌else◌}
use q_oracle.Base.Lists.{length}
use q_oracle.Base.Result.{ok, err, panic}
use q_oracle.Base.Action.{Action}
use q_oracle.Base.Map.{
  Set, contains, contains_key, add, remove, lookup, nat_key, contains-add, contains-remove,
  remove-insert,
}
use q_oracle.Desk.Errors.{ExitError}
use q_oracle.Desk.Ledger.{ReplayLedger, Undoes}

abbrev pub max_ledger_entries : ℕ
max_ledger_entries = 4000000

abbrev pub MemoryLedger : Type 0
MemoryLedger = Set ℕ

abbrev pub new : MemoryLedger
new = []

unfoldable pub is_released : ℕ → MemoryLedger → Bool
is_released burn_ref released = contains burn_ref released

-- the method `record`
unfoldable pub note : ℕ → Action MemoryLedger ExitError (Unit {0})
note burn_ref released =
    if contains burn_ref released
    then (ok tt, released)
    else if leb max_ledger_entries (length released)
    then (err ExitError.ledger_full, released)
    else (ok tt, add burn_ref released)

unfoldable pub forget : ℕ → MemoryLedger → MemoryLedger
forget burn_ref released = remove burn_ref released

pub note_ok_lem :
    (r : ℕ) (l : MemoryLedger) (k : ℕ)
    → (note r l).0 ≡ ok tt
    → is_released k (note r l).1 ≡ (r == k || is_released k l)
unfolding note is_released
note_ok_lem r l k h = ground (arith, contains-add r k l)

pub note_err_lem :
    (r : ℕ) (l : MemoryLedger) (k : ℕ)
    → (note r l).0 ≢ ok tt
    → is_released k (note r l).1 ≡ is_released k l
unfolding note is_released
note_err_lem r l k h = ground arith

pub note_total_lem : (r : ℕ) (l : MemoryLedger) → (note r l).0 ≢ panic
unfolding note
note_total_lem r l h = ground arith

note_fails_lem : (r : ℕ) (l : MemoryLedger) → (note r l).0 ≢ ok tt → (note r l).1 ≡ l
unfolding note
note_fails_lem r l h = ground arith

pub forget_other_lem :
    (r k : ℕ) (l : MemoryLedger) → (r == k) ≡ false → is_released k (forget r l) ≡ is_released k l
unfolding is_released forget
forget_other_lem r k l h = rw (contains-remove r k l, h) refl

instance abbrev pub memory_ledger : ReplayLedger MemoryLedger
memory_ledger = record {
  is_released = is_released;
  note = note;
  forget = forget;
  note_ok = note_ok_lem;
  note_err = note_err_lem;
  note_total = note_total_lem;
  forget_other = forget_other_lem;
}

lookup_of_contains : (r : ℕ) (l : MemoryLedger) → contains r l ≡ false → lookup r l ≡ none
unfolding contains_key
lookup_of_contains r l h = ground arith

forget_note_lem :
    (r : ℕ) (l : MemoryLedger)
    → is_released r l ≡ false
    → (note r l).0 ≡ ok tt
    → forget r (note r l).1 ≡ l
unfolding note is_released forget
forget_note_lem r l fresh h = ground (arith, remove-insert r tt l, lookup_of_contains r l)

pub memory_ledger-Undoes : Undoes memory_ledger
memory_ledger-Undoes = record { note_fails = note_fails_lem; forget_note = forget_note_lem }
