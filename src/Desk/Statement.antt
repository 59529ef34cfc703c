-- ===== src/Desk/Statement.antt =====
-- The statement, the settings and the exits of crates/q-exits/src/exits.rs.
pub mod Bounds
use q_oracle.Base.{ℕ, ◌*◌, ◌/◌, Bool, true, false, ◌||◌, not, List, []}
use q_oracle.Base.Tests.{ltb, leb, ◌==◌}
use q_oracle.Base.Lists.{any}
use q_oracle.Base.Words.{checked_mul_u128}
use q_oracle.Base.Result.{Result, ok, err, fail_if, ok_or, ◌>>=◌, ◌>>◌}
use q_oracle.Desk.Errors.{ExitError}

abbrev pub bps_den : ℕ
bps_den = 10000

abbrev pub exit_statement_version : ℕ
exit_statement_version = 1

abbrev pub secure_ratio_bps : ℕ
secure_ratio_bps = 15000

abbrev pub slash_premium_bps : ℕ
slash_premium_bps = 10000

abbrev pub redeem_window_ms : ℕ
redeem_window_ms = 86400000

abbrev pub slash_grace_ms : ℕ
slash_grace_ms = 21600000

abbrev pub max_dead_letters : ℕ
max_dead_letters = 65536

pub record ExitStatement : Type 0 where
  pub version : ℕ
  pub corridor : ℕ
  pub asset_id : ℕ
  pub amount : ℕ
  pub holder : ℕ
  pub destination : ℕ
  pub burn_ref : ℕ
  pub finalized_height : ℕ

unfoldable pub validate : ExitStatement → Result ExitError (Unit {0})
validate s = do
  fail_if (not (s.version == exit_statement_version)) (ExitError.bad_version s.version)
  fail_if (s.corridor == 0) ExitError.zero_corridor
  fail_if (s.amount == 0) ExitError.zero_amount
  fail_if (s.asset_id == 0) ExitError.zero_asset
  fail_if (s.holder == 0) ExitError.zero_beneficiary
  fail_if (s.destination == 0) ExitError.zero_beneficiary
  fail_if (s.burn_ref == 0) ExitError.zero_burn_ref
  ok tt

pub record DeskConfig : Type 0 where
  pub corridor : ℕ
  pub bridge_dest_chain : ℕ
  pub secure_bps : ℕ
  pub premium_bps : ℕ
  pub window : ℕ
  pub grace : ℕ
  pub assets : List ℕ
  pub max_amount : ℕ

unfoldable pub aligned : ℕ → ℕ → DeskConfig
aligned corridor bridge_dest_chain = record {
  corridor = corridor;
  bridge_dest_chain = bridge_dest_chain;
  secure_bps = secure_ratio_bps;
  premium_bps = slash_premium_bps;
  window = redeem_window_ms;
  grace = slash_grace_ms;
  assets = [];
  max_amount = 0;
}

unfoldable pub serving : List ℕ → ℕ → DeskConfig → DeskConfig
serving assets max_amount cfg = record cfg { assets = assets; max_amount = max_amount }

unfoldable pub serves : ℕ → DeskConfig → Bool
serves asset cfg = any (λ served. served == asset) cfg.assets

-- the guard of `assemble`
unfoldable pub is_unsafe : DeskConfig → Bool
is_unsafe cfg =
    cfg.corridor == 0
    || cfg.bridge_dest_chain == 0
    || leb cfg.secure_bps bps_den
    || ltb cfg.premium_bps bps_den
    || ltb cfg.secure_bps cfg.premium_bps

unfoldable pub required_collateral : ℕ → DeskConfig → Result ExitError ℕ
required_collateral amount cfg = do
  scaled ← ok_or (checked_mul_u128 amount cfg.secure_bps) ExitError.overflow
  ok (scaled / bps_den)

unfoldable pub user_premium : ℕ → DeskConfig → Result ExitError ℕ
user_premium amount cfg = do
  scaled ← ok_or (checked_mul_u128 amount cfg.premium_bps) ExitError.overflow
  ok (scaled / bps_den)

pub data ExitState : Type 0 where
  pending settled slashed : ExitState

pub record Exit : Type 0 where
  pub statement : ExitStatement
  pub vault_id : ℕ
  pub locked : ℕ
  pub issued_at : ℕ
  pub deadline : ℕ
  pub state : ExitState

pub record Release : Type 0 where
  pub vault_id : ℕ
  pub released : ℕ

pub record SlashOutcome : Type 0 where
  pub vault_id : ℕ
  pub holder : ℕ
  pub user_payout : ℕ
  pub remainder : ℕ

-- `exit.state == ExitState::Pending`
unfoldable pub is_pending : Exit → Bool
is_pending exit = elim exit.state [ pending ↦ true | settled ↦ false | slashed ↦ false ]
