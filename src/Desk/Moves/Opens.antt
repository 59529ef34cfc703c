-- ===== src/Desk/Moves/Opens.antt =====
-- How `open_exit` and `dead_letter` end.
use q_oracle.Base.{
  ℕ, ◌≤◌, ◌<◌, ◌≡◌, ◌≢◌, refl, sym, ap, subst, true, false, [], ◌∷◌, ◌++◌, inl, inr, arith,
}
use q_oracle.Base.Tests.{Bool-cases, leb}
use q_oracle.Base.Words.{u128_max}
use q_oracle.Base.Lists.{length}
use q_oracle.Base.Result.{Result, ok, err, panic}
use q_oracle.Base.Map.{nat_key}
use q_oracle.Desk.Errors.{ExitError}
use q_oracle.Desk.Vaults.{VaultBook, release}
use q_oracle.Desk.Vaults.Effects.{Locked, LockAnyEnds, lock_any-LockAnyEnds, release-Locked}
use q_oracle.Desk.Ledger.{ReplayLedger}
use q_oracle.Desk.Journal.{ExitEvent, ExitJournal, DeadLetter, open_event, dead_letter_event}
use q_oracle.Desk.Vaults.Funds.{free_of_found}
use q_oracle.Desk.Statement.{validate, required_collateral}
use q_oracle.Desk.BurnProof.{AuthenticatedBurn}
use q_oracle.Desk.State.{ExitDesk, as_u32}
use q_oracle.Desk.Checks.{check_burn, journaled}
use q_oracle.Desk.Open.{opening, write_opening, open_verified, write_letter, is_held}
use q_oracle.Desk.Moves.{
  Move, Idle, Silent, Noted, Appended, Refused, err_unchanged, Refused-Move, failed_note,
  failed_append,
}
use q_oracle.Desk.Moves.Sound.{IsSound}

module _ {Anchor L J : Type 0} ⦃ledger : ReplayLedger L⦄ ⦃journal : ExitJournal J⦄ where
  module _ (burn : AuthenticatedBurn) (chain_id now : ℕ) (d : ExitDesk Anchor L J) where
    pub data OpenEnds (r : Result ExitError ℕ × ExitDesk Anchor L J) : Type 0 where
      refused : Refused d r → OpenEnds r
      done :
          (required v : ℕ) {s : VaultBook} {l : L} {j : J}
          → check_burn d.cfg d.consumed chain_id burn ≡ ok required
          → Locked v required d.vaults s
          → Noted burn.burn_ref d.consumed l
          → Appended
              (open_event (as_u32 (length d.exits)) (journaled (opening burn v required now d)))
              d.journal
              j
          → r ≡ (
            ok (length d.exits),
            record d {
              vaults = s;
              exits = d.exits ++ opening burn v required now d ∷ [];
              consumed = l;
              journal = j;
            },
          )
          → OpenEnds r

    module _ (required v : ℕ) (s : VaultBook) (lock : Locked v required d.vaults s)
        (fresh : ledger.is_released burn.burn_ref d.consumed ≡ false)
        (checked : check_burn d.cfg d.consumed chain_id burn ≡ ok required)
        (small : lock.vault.free ≤ u128_max) where
      write_opening-OpenEnds :
          OpenEnds (write_opening burn v required now (record d { vaults = s }))
      write_opening-OpenEnds =
          noted (ledger.note burn.burn_ref d.consumed).0 (ledger.note burn.burn_ref d.consumed).1
            refl
        where
          event : ExitEvent
          event = open_event (as_u32 (length d.exits)) (journaled (opening burn v required now d))

          back : release v required s ≡ (ok tt, d.vaults)
          back = release-Locked v required d.vaults s lock small

          appended :
              (l : L)
              → Noted burn.burn_ref d.consumed l
              → (y : Result ExitError (Unit {0})) (j : J) → journal.append event d.journal ≡ (y, j)
              → OpenEnds (write_opening burn v required now (record d { vaults = s }))
          appended l n (ok _) j e =
              OpenEnds.done required v checked lock n (record { passed = e })
                (unfold write_opening in
                  ground (
                    arith,
                    ap (λ p. p.0) n.passed,
                    ap (λ p. p.1) n.passed,
                    ap (λ p. p.0) e,
                    ap (λ p. p.1) e,
                  ))
          appended l n (err x) j e = OpenEnds.refused (record {
            error = x;
            used = ledger.forget burn.burn_ref l;
            log = j;
            idle = Idle.undone burn.burn_ref l n;
            silent = failed_append event e;
            ends =
                unfold write_opening in
                ground (
                  arith,
                  ap (λ p. p.0) n.passed,
                  ap (λ p. p.1) n.passed,
                  ap (λ p. p.0) e,
                  ap (λ p. p.1) e,
                  ap (λ p. p.0) back,
                  ap (λ p. p.1) back,
                );
          })
          appended l n panic j e = absurd (journal.append_total event d.journal (ap (λ p. p.0) e))

          noted :
              (x : Result ExitError (Unit {0})) (l : L)
              → ledger.note burn.burn_ref d.consumed ≡ (x, l)
              → OpenEnds (write_opening burn v required now (record d { vaults = s }))
          noted (ok _) l e =
              appended l (record { fresh = fresh; passed = e }) (journal.append event d.journal).0
                (journal.append event d.journal).1 refl
          noted (err x) l e = OpenEnds.refused (record {
            error = x;
            used = l;
            log = d.journal;
            idle = failed_note burn.burn_ref e;
            silent = Silent.same;
            ends =
                unfold write_opening in
                ground
                  (arith, ap (λ p. p.0) e, ap (λ p. p.1) e, ap (λ p. p.0) back, ap (λ p. p.1) back);
          })
          noted panic l e = absurd (ledger.note_total burn.burn_ref d.consumed (ap (λ p. p.0) e))

    check_burn-fresh :
        (required : ℕ)
        → check_burn d.cfg d.consumed chain_id burn ≡ ok required
        → ledger.is_released burn.burn_ref d.consumed ≡ false
    unfolding check_burn
    check_burn-fresh required h = ground arith

    check_burn-total : check_burn d.cfg d.consumed chain_id burn ≢ panic
    unfolding check_burn validate required_collateral
    check_burn-total h = ground arith

    pub open_verified-OpenEnds : IsSound d → OpenEnds (open_verified chain_id burn now d)
    open_verified-OpenEnds sound = go (check_burn d.cfg d.consumed chain_id burn) refl
      where
        go :
            (m : Result ExitError ℕ)
            → check_burn d.cfg d.consumed chain_id burn ≡ m
            → OpenEnds (open_verified chain_id burn now d)
        go (err x) e = OpenEnds.refused (err_unchanged x (unfold open_verified in ground arith))
        go panic e = absurd (check_burn-total e)
        go (ok required) e = elim (lock_any-LockAnyEnds required d.vaults) [
          | LockAnyEnds.refused x r ↦ OpenEnds.refused (
              err_unchanged x
                (unfold open_verified in ground (arith, ap (λ p. p.0) r, ap (λ p. p.1) r)))
          | LockAnyEnds.done v s lock r ↦
              let written : open_verified chain_id burn now d
                  ≡ write_opening burn v required now (record d { vaults = s }) =
                unfold open_verified in ground (arith, e, ap (λ p. p.0) r, ap (λ p. p.1) r) in
              let small : lock.vault.free ≤ u128_max =
                omega (arith, free_of_found v lock.vault d.vaults lock.found, sound.room v) in
              subst OpenEnds (sym written)
                (write_opening-OpenEnds required v s lock (check_burn-fresh required e) e small)
        ]

    pub OpenEnds-Move : {r : Result ExitError ℕ × ExitDesk Anchor L J} → OpenEnds r → Move d r.1
    OpenEnds-Move (OpenEnds.refused h) = Refused-Move h
    OpenEnds-Move (OpenEnds.done required v checked lock noted appended e) =
        subst (Move d) (sym (ap (λ p. p.1) e))
          (Move.opened burn chain_id required v now checked lock noted appended)

  module _ (letter : DeadLetter) (d : ExitDesk Anchor L J) where
    pub data LetterEnds (r : Result ExitError (Unit {0}) × ExitDesk Anchor L J) : Type 0 where
      refused : Refused d r → LetterEnds r
      held : is_held letter d.dead ≡ true → r ≡ (ok tt, d) → LetterEnds r
      kept :
          {j : J}
          → is_held letter d.dead ≡ false
          → length d.dead < 65536
          → Appended (dead_letter_event (as_u32 (length d.dead)) letter) d.journal j
          → r ≡ (ok tt, record d { dead = d.dead ++ letter ∷ []; journal = j })
          → LetterEnds r

    pub write_letter-LetterEnds : LetterEnds (write_letter letter d)
    write_letter-LetterEnds = elim (Bool-cases (is_held letter d.dead)) [
      | inl old ↦ LetterEnds.held old (unfold write_letter in ground arith)
      | inr new ↦ elim (Bool-cases (leb 65536 (length d.dead))) [
        | inl full ↦
            LetterEnds.refused
              (err_unchanged ExitError.ledger_full (unfold write_letter in ground arith))
        | inr room ↦
            appended new room (journal.append event d.journal).0 (journal.append event d.journal).1
              refl
      ]
    ]
      where
        event : ExitEvent
        event = dead_letter_event (as_u32 (length d.dead)) letter

        appended :
            is_held letter d.dead ≡ false
            → leb 65536 (length d.dead) ≡ false
            → (y : Result ExitError (Unit {0})) (j : J) → journal.append event d.journal ≡ (y, j)
            → LetterEnds (write_letter letter d)
        appended new room (ok _) j e =
            LetterEnds.kept new (ground arith) (record { passed = e })
              (unfold write_letter in ground (arith, ap (λ p. p.0) e, ap (λ p. p.1) e))
        appended new room (err x) j e = LetterEnds.refused (record {
          error = x;
          used = d.consumed;
          log = j;
          idle = Idle.same;
          silent = failed_append event e;
          ends = unfold write_letter in ground (arith, ap (λ p. p.0) e, ap (λ p. p.1) e);
        })
        appended new room panic j e =
            absurd (journal.append_total event d.journal (ap (λ p. p.0) e))

    pub LetterEnds-Move :
        {r : Result ExitError (Unit {0}) × ExitDesk Anchor L J} → LetterEnds r → Move d r.1
    LetterEnds-Move (LetterEnds.refused h) = Refused-Move h
    LetterEnds-Move (LetterEnds.held _ e) =
        subst (Move d) (sym (ap (λ p. p.1) e)) (Move.stayed Idle.same Silent.same)
    LetterEnds-Move (LetterEnds.kept new room appended e) =
        subst (Move d) (sym (ap (λ p. p.1) e)) (Move.lettered letter room appended)
