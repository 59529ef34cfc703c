-- ===== src/Desk/Moves/Slashes.antt =====
-- How `slash` ends on a sound desk.
use q_oracle.Base.{ℕ, ◌+◌, ◌<◌, ◌≡◌, ◌≢◌, refl, sym, ap, subst, true, false, some, inl, inr, arith}
use q_oracle.Base.Tests.{Bool-cases, leb, ltb, if◌then◌else◌, unwrap_or}
use q_oracle.Base.Words.{u128_max, checked_add_u128}
use q_oracle.Base.Result.{Result, ok, err, panic}
use q_oracle.Base.Map.{nat_key}
use q_oracle.Desk.Errors.{ExitError}
use q_oracle.Desk.Vaults.{VaultBook}
use q_oracle.Desk.Vaults.Effects.{Seized, Seized-seize}
use q_oracle.Desk.Ledger.{ReplayLedger}
use q_oracle.Desk.Journal.{ExitEvent, ExitJournal, slash_event}
use q_oracle.Desk.Statement.{DeskConfig, Exit, slashed, is_pending, SlashOutcome, user_premium}
use q_oracle.Desk.State.{ExitDesk, as_u32, get, slash_opens_at}
use q_oracle.Desk.Settle.{close, slash, pending_exit, apply_slash}
use q_oracle.Desk.Moves.{Move, Idle, Appended, Refused, err_unchanged, Refused-Move, failed_append}
use q_oracle.Desk.Moves.Sound.{IsSound}
use q_oracle.Desk.Moves.Backing.{can_seize}
use q_oracle.Desk.Moves.Closes.{PendingEnds, pending_exit-PendingEnds}

user_premium-total : (amount : ℕ) (cfg : DeskConfig) → user_premium amount cfg ≢ panic
unfolding user_premium
user_premium-total amount cfg h = ground arith

module _ {Anchor L J : Type 0} ⦃ledger : ReplayLedger L⦄ ⦃journal : ExitJournal J⦄ where
  -- The reserve counts what is seized, unless the sum leaves a `u128`: then the exit is slashed and the call fails.
  pub data SlashEnds (id now : ℕ) (d : ExitDesk Anchor L J)
      (r : Result ExitError SlashOutcome × ExitDesk Anchor L J) : Type 0 where
    refused : Refused d r → SlashEnds id now d r
    done :
        (exit : Exit) {s : VaultBook} {j : J}
        → get id d.exits ≡ some exit
        → is_pending exit ≡ true
        → slash_opens_at d.cfg exit < now
        → Seized exit.vault_id exit.locked d.vaults s
        → Appended (slash_event (as_u32 id)) d.journal j
        → r.0 ≡ (
            if ltb u128_max (d.seized_reserve + exit.locked)
            then err ExitError.overflow
            else ok (record {
              vault_id = exit.vault_id;
              holder = exit.statement.holder;
              user_payout = 0;
              remainder = exit.locked;
            }))
        → r.1 ≡ record (close id exit slashed d) {
          vaults = s;
          journal = j;
          seized_reserve =
              unwrap_or d.seized_reserve (checked_add_u128 d.seized_reserve exit.locked);
        }
        → SlashEnds id now d r

  -- On a sound desk `slash` ends in one of two ways. It is refused with an error, and no exit, vault, letter or reserve is
  -- changed; or the exit was pending, its deadline and the grace period have passed, and then the exit is slashed, its
  -- collateral leaves its vault, the event is in the journal and the reserve grows by the collateral, unless the sum leaves a
  -- `u128`: then the call fails with `overflow` after the other writes.
  pub slash-SlashEnds :
      (id now : ℕ) (d : ExitDesk Anchor L J) → IsSound d → SlashEnds id now d (slash id now d)
  slash-SlashEnds id now d sound = elim (pending_exit-PendingEnds id d) [
    | PendingEnds.refused e r ↦
        SlashEnds.refused
          (err_unchanged e (unfold slash in ground (arith, ap (λ p. p.0) r, ap (λ p. p.1) r)))
    | PendingEnds.found exit at was r ↦ elim (Bool-cases (leb now (slash_opens_at d.cfg exit))) [
      | inl early ↦ SlashEnds.refused (
          err_unchanged (ExitError.window_open now (slash_opens_at d.cfg exit))
            (unfold slash in ground (arith, ap (λ p. p.0) r, ap (λ p. p.1) r)))
      | inr late ↦ premium exit at was r late (user_premium exit.statement.amount d.cfg) refl
    ]
  ]
    where
      event : ExitEvent
      event = slash_event (as_u32 id)

      appended :
          (exit : Exit)
          → get id d.exits ≡ some exit
          → is_pending exit ≡ true
          → pending_exit id d ≡ (ok exit, d)
          → leb now (slash_opens_at d.cfg exit) ≡ false
          → (n : ℕ) → user_premium exit.statement.amount d.cfg ≡ ok n
          → (y : Result ExitError (Unit {0})) (j : J) → journal.append event d.journal ≡ (y, j)
          → SlashEnds id now d (slash id now d)
      appended exit at was r late n u (ok _) j e =
          let (s, seized) = can_seize d sound id exit at was in
          let taken = Seized-seize exit.vault_id exit.locked d.vaults s seized in
          SlashEnds.done exit at was (ground arith) seized (record { passed = e })
            (unfold slash apply_slash in
              ground (
                arith,
                ap (λ p. p.0) r,
                ap (λ p. p.1) r,
                ap (λ p. p.0) e,
                ap (λ p. p.1) e,
                ap (λ p. p.0) taken,
                ap (λ p. p.1) taken,
              ))
            (unfold slash apply_slash in
              ground (
                arith,
                ap (λ p. p.0) r,
                ap (λ p. p.1) r,
                ap (λ p. p.0) e,
                ap (λ p. p.1) e,
                ap (λ p. p.0) taken,
                ap (λ p. p.1) taken,
              ))
      appended exit at was r late n u (err x) j e = SlashEnds.refused (record {
        error = x;
        used = d.consumed;
        log = j;
        idle = Idle.same;
        silent = failed_append event e;
        ends =
            unfold slash in
            ground (arith, ap (λ p. p.0) r, ap (λ p. p.1) r, ap (λ p. p.0) e, ap (λ p. p.1) e);
      })
      appended exit at was r late n u panic j e =
          absurd (journal.append_total event d.journal (ap (λ p. p.0) e))

      premium :
          (exit : Exit)
          → get id d.exits ≡ some exit
          → is_pending exit ≡ true
          → pending_exit id d ≡ (ok exit, d)
          → leb now (slash_opens_at d.cfg exit) ≡ false
          → (m : Result ExitError ℕ) → user_premium exit.statement.amount d.cfg ≡ m
          → SlashEnds id now d (slash id now d)
      premium exit at was r late (ok n) u =
          appended exit at was r late n u (journal.append event d.journal).0
            (journal.append event d.journal).1 refl
      premium exit at was r late (err x) u =
          SlashEnds.refused
            (err_unchanged x (unfold slash in ground (arith, ap (λ p. p.0) r, ap (λ p. p.1) r)))
      premium exit at was r late panic u = absurd (user_premium-total exit.statement.amount d.cfg u)

  pub SlashEnds-Move :
      {id now : ℕ} {d : ExitDesk Anchor L J}
      {r : Result ExitError SlashOutcome × ExitDesk Anchor L J}
      → SlashEnds id now d r
      → Move d r.1
  SlashEnds-Move (SlashEnds.refused h) = Refused-Move h
  SlashEnds-Move {id} {now} {d} (SlashEnds.done exit at was late seized appended _ e) =
      subst (Move d) (sym e) (Move.seized id exit now at was late seized appended)
