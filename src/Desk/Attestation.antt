-- ===== src/Desk/Attestation.antt =====
-- `PayoutAttestation` and `PayoutWatcher` of crates/q-exits/src/payout.rs; the bytes are in the child module.
pub mod Bytes
pub mod RoundTrip
use q_oracle.Base.{ℕ, Bool, true, false, ◌&&◌, not, List, [], ◌∷◌, Option}
use q_oracle.Base.Tests.{◌==◌}
use q_oracle.Base.Result.{Result, ok, err, fail_if, ◌>>=◌, ◌>>◌}
use q_oracle.Desk.Errors.{ExitError}
use q_oracle.Desk.Statement.{ExitStatement}

-- b"QUANTOVA/Q-ORACLE/EXIT-PAYOUT/v1"
abbrev pub payout_domain : List ℕ
payout_domain =
    b'Q' ∷ b'U' ∷ b'A' ∷ b'N' ∷ b'T' ∷ b'O' ∷ b'V' ∷ b'A' ∷ b'/' ∷ b'Q' ∷ b'-' ∷ b'O' ∷ b'R' ∷ b'A'
    ∷ b'C' ∷ b'L' ∷ b'E' ∷ b'/' ∷ b'E' ∷ b'X' ∷ b'I' ∷ b'T' ∷ b'-' ∷ b'P' ∷ b'A' ∷ b'Y' ∷ b'O'
    ∷ b'U' ∷ b'T' ∷ b'/' ∷ b'v' ∷ b'1' ∷ []

abbrev pub payout_version : ℕ
payout_version = 1

abbrev pub payout_encoded_len : ℕ
payout_encoded_len = 141

pub record PayoutAttestation : Type 0 where
  pub version : ℕ
  pub corridor : ℕ
  pub asset_id : ℕ
  pub amount : ℕ
  pub beneficiary : ℕ
  pub burn_ref : ℕ
  pub foreign_ref : ℕ
  pub proof_height : ℕ

unfoldable pub validate : PayoutAttestation → Result ExitError (Unit {0})
validate a = do
  fail_if (not (a.version == payout_version)) (ExitError.bad_version a.version)
  fail_if (a.corridor == 0) ExitError.zero_corridor
  fail_if (a.amount == 0) ExitError.zero_amount
  fail_if (a.asset_id == 0) ExitError.zero_asset
  fail_if (a.beneficiary == 0) ExitError.zero_beneficiary
  fail_if (a.burn_ref == 0) ExitError.zero_burn_ref
  ok tt

unfoldable pub covers : ExitStatement → PayoutAttestation → Bool
covers s a =
    a.corridor == s.corridor
    && a.asset_id == s.asset_id
    && a.amount == s.amount
    && a.beneficiary == s.destination
    && a.burn_ref == s.burn_ref

-- the trait: what a watcher answers
pub record PayoutWatcher : Type 0 where
  pub corridor : ℕ
  pub confirm : ExitStatement → Option PayoutAttestation
