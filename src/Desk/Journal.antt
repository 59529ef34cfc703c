-- ===== src/Desk/Journal.antt =====
-- crates/q-exits/src/journal.rs: the events of the desk, and the journal that keeps them.
pub mod Frames
use q_oracle.Base.{ℕ, ◌≡◌, ◌≢◌, refl, Option, none, some, List, [], ◌∷◌, ◌++◌}
use q_oracle.Base.Tests.{◌==◌, if◌then◌else◌}
use q_oracle.Base.Result.{Result, ok, panic}
use q_oracle.Base.Action.{Action}
use q_oracle.Desk.Errors.{ExitError}

pub record JournaledExit : Type 0 where
  pub version : ℕ
  pub corridor : ℕ
  pub asset_id : ℕ
  pub amount : ℕ
  pub holder : ℕ
  pub destination : ℕ
  pub burn_ref : ℕ
  pub finalized_height : ℕ
  pub vault_id : ℕ
  pub locked : ℕ
  pub issued_at : ℕ
  pub deadline : ℕ

pub data DeadReason : Type 0 where
  unproven malformed wrong_destination unserved_asset above_ceiling unknown_vault refused :
      DeadReason

unfoldable pub of : ExitError → DeadReason
of ExitError.header_decode = unproven
of ExitError.header_mismatch = unproven
of ExitError.height_mismatch = unproven
of ExitError.not_finalized = unproven
of ExitError.bad_inclusion = unproven
of ExitError.leaf_decode = malformed
of ExitError.not_a_burn_leaf = malformed
of (ExitError.bad_version _) = malformed
of ExitError.zero_amount = malformed
of ExitError.zero_asset = malformed
of ExitError.zero_beneficiary = malformed
of ExitError.zero_burn_ref = malformed
of ExitError.zero_corridor = malformed
of (ExitError.invalid_artifact _) = malformed
of (ExitError.wrong_destination _ _) = wrong_destination
of (ExitError.unserved_asset _) = unserved_asset
of (ExitError.amount_above_ceiling _ _) = above_ceiling
of (ExitError.unknown_vault _) = unknown_vault
of _ = refused

unfoldable pub tag : DeadReason → ℕ
tag unproven = 1
tag malformed = 2
tag wrong_destination = 3
tag unserved_asset = 4
tag above_ceiling = 5
tag unknown_vault = 6
tag refused = 7

unfoldable pub from_tag : ℕ → Option DeadReason
from_tag t =
    if t == 1
    then some unproven
    else if t == 2
    then some malformed
    else if t == 3
    then some wrong_destination
    else if t == 4
    then some unserved_asset
    else if t == 5
    then some above_ceiling
    else if t == 6
    then some unknown_vault
    else if t == 7
    then some refused
    else none

pub record DeadLetter : Type 0 where
  pub height : ℕ
  pub leaf_digest : ℕ
  pub burn_ref : ℕ
  pub reason : DeadReason
  pub recorded_at : ℕ

pub data ExitEvent : Type 0 where
  open_event : (index : ℕ) → JournaledExit → ExitEvent
  settle_event : (index foreign_ref : ℕ) → ExitEvent
  slash_event : (index : ℕ) → ExitEvent
  dead_letter_event : (index : ℕ) → DeadLetter → ExitEvent

-- The trait `ExitJournal`: what an append that fails leaves.
pub record ExitJournal (J : Type 0) : Type 0 where
  pub append : ExitEvent → Action J ExitError (Unit {0})
  pub events : J → List ExitEvent
  pub append_total : (e : ExitEvent) (j : J) → (append e j).0 ≢ panic
  pub append_err :
      (e : ExitEvent) (j : J) → (append e j).0 ≢ ok tt → events (append e j).1 ≡ events j

-- A journal that keeps what is appended; the null journal is none.
pub record Keeps {J : Type 0} (journal : ExitJournal J) : Type 0 where
  pub append_ok :
      (e : ExitEvent) (j : J)
      → (journal.append e j).0 ≡ ok tt
      → journal.events (journal.append e j).1 ≡ journal.events j ++ e ∷ []

-- `NullJournal`
pub data NullJournal : Type 0 where
  null : NullJournal

pub null_total : ◌≢◌ {A = Result ExitError (Unit {0})} (ok tt) panic
null_total h = cc h

instance abbrev pub null_journal : ExitJournal NullJournal
null_journal = record {
  append = λ _ j. (ok tt, j);
  events = λ _. [];
  append_total = λ _ _. null_total;
  append_err = λ _ _ _. refl;
}
