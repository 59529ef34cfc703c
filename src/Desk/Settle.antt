-- ===== src/Desk/Settle.antt =====
-- `ExitDesk::settle`, `close_overdue` and `slash` of crates/q-exits/src/exits.rs.
use q_oracle.Base.{ℕ, Bool, true, false, not, List, [], ◌∷◌}
use q_oracle.Base.Tests.{leb, ◌==◌, if◌then◌else◌}
use q_oracle.Base.Words.{checked_add_u128}
use q_oracle.Base.Result.{ok, err, panic, ok_or}
use q_oracle.Base.Action.{pure, ask, gets, modify, require, rescue, ◌>>=◌, ◌>>◌}
use q_oracle.Desk.Errors.{ExitError}
use q_oracle.Desk.Vaults.{release, seize}
use q_oracle.Desk.Ledger.{ReplayLedger}
use q_oracle.Desk.Journal.{ExitJournal, settle_event, slash_event}
use q_oracle.Desk.Statement.{
  Exit, ExitState, settled, slashed, Release, SlashOutcome, is_pending, user_premium,
}
use q_oracle.Desk.Attestation.{PayoutAttestation, PayoutWatcher, validate, covers}
use q_oracle.Desk.Outbound.{ExitOutcome}
use q_oracle.Desk.State.{
  ExitDesk, Call, on_vaults, on_consumed, on_journal, as_u32, get, set_at, slash_opens_at,
}

unfoldable pub proves_no_payout : ExitError → Bool
proves_no_payout ExitError.payout_unproven = true
proves_no_payout ExitError.payout_mismatch = true
proves_no_payout ExitError.replayed_payout = true
proves_no_payout (ExitError.bad_version _) = true
proves_no_payout ExitError.zero_corridor = true
proves_no_payout ExitError.zero_amount = true
proves_no_payout ExitError.zero_asset = true
proves_no_payout ExitError.zero_beneficiary = true
proves_no_payout ExitError.zero_burn_ref = true
proves_no_payout _ = false

module _ {Anchor L J : Type 0} ⦃ledger : ReplayLedger L⦄ ⦃journal : ExitJournal J⦄ where
  -- `exits[id].state = state`, of the exit that stands there
  abbrev pub close : ℕ → Exit → ExitState → ExitDesk Anchor L J → ExitDesk Anchor L J
  close id exit state d = record d { exits = set_at id (record exit { state = state }) d.exits }

  -- the exit under an id, as long as it is pending
  unfoldable pub pending_exit : ℕ → Call (ExitDesk Anchor L J) Exit
  pending_exit id = do
    exit ← ask λ d. ok_or (get id d.exits) ExitError.unknown_exit
    require (not (is_pending exit)) ExitError.not_pending
    pure exit

  -- the payout that a watcher attests for an exit
  unfoldable pub attested : PayoutWatcher → Exit → Call (ExitDesk Anchor L J) PayoutAttestation
  attested watcher exit = do
    cfg ← gets (λ d. d.cfg)
    require (not (watcher.corridor == cfg.corridor)) ExitError.payout_mismatch
    attestation ← ask λ _. ok_or (watcher.confirm exit.statement) ExitError.payout_unproven
    ask (λ _. validate attestation)
    require (not (covers exit.statement attestation)) ExitError.payout_mismatch
    used ← gets (λ d. ledger.is_released attestation.foreign_ref d.consumed)
    require used ExitError.replayed_payout
    pure attestation

  unfoldable pub write_settlement : ℕ → Exit → ℕ → Call (ExitDesk Anchor L J) Release
  write_settlement id exit foreign_ref = do
    on_consumed (ledger.note foreign_ref)
    rescue (on_journal (journal.append (settle_event (as_u32 id) foreign_ref)))
        (modify (λ d. record d { consumed = ledger.forget foreign_ref d.consumed }))
    modify (close id exit settled)
    on_vaults (release exit.vault_id exit.locked)
    pure (record { vault_id = exit.vault_id; released = exit.locked })

  unfoldable pub settle : ℕ → PayoutWatcher → Call (ExitDesk Anchor L J) Release
  settle id watcher = do
    exit ← pending_exit id
    attestation ← attested watcher exit
    write_settlement id exit attestation.foreign_ref

  unfoldable pub apply_slash : Exit → Call (ExitDesk Anchor L J) SlashOutcome
  apply_slash exit = do
    on_vaults (seize exit.vault_id exit.locked)
    reserve ← gets (λ d. d.seized_reserve)
    total ← ask λ _. ok_or (checked_add_u128 reserve exit.locked) ExitError.overflow
    modify (λ d. record d { seized_reserve = total })
    pure (record {
      vault_id = exit.vault_id;
      holder = exit.statement.holder;
      user_payout = 0;
      remainder = exit.locked;
    })

  unfoldable pub slash : ℕ → (now : ℕ) → Call (ExitDesk Anchor L J) SlashOutcome
  slash id now = do
    exit ← pending_exit id
    cfg ← gets (λ d. d.cfg)
    require (leb now (slash_opens_at cfg exit))
        (ExitError.window_open now (slash_opens_at cfg exit))
    ask (λ _. user_premium exit.statement.amount cfg)
    on_journal (journal.append (slash_event (as_u32 id)))
    modify (close id exit slashed)
    apply_slash exit

  -- the loop over the watchers, with the slash after it
  unfoldable pub try_watchers :
      ℕ → List PayoutWatcher → (now : ℕ) → Call (ExitDesk Anchor L J) ExitOutcome
  try_watchers id [] now d = (slash id now >> pure ExitOutcome.slash) d
  try_watchers id (watcher ∷ watchers) now d =
      let (answer, t) = settle id watcher d in
      let later = try_watchers id watchers now t in
      elim answer [
        | ok _ ↦ (ok ExitOutcome.settle, t)
        | err e ↦ if proves_no_payout e then later else (err e, t)
        | panic ↦ (panic, t)
      ]

  unfoldable pub close_overdue :
      ℕ → List PayoutWatcher → (now : ℕ) → Call (ExitDesk Anchor L J) ExitOutcome
  close_overdue id watchers now = pending_exit id >> try_watchers id watchers now
