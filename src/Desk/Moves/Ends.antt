-- ===== src/Desk/Moves/Ends.antt =====
-- How `settle` and `slash` end on a sound desk.
use q_oracle.Base.{ℕ, ◌≡◌, refl, sym, ap, subst, true, some, arith}
use q_oracle.Base.Result.{Result, ok, err, panic}
use q_oracle.Base.Map.{nat_key}
use q_oracle.Desk.Errors.{ExitError}
use q_oracle.Desk.Vaults.{VaultBook}
use q_oracle.Desk.Vaults.Effects.{Released, Released-release}
use q_oracle.Desk.Ledger.{ReplayLedger}
use q_oracle.Desk.Journal.{ExitEvent, ExitJournal, settle_event}
use q_oracle.Desk.Statement.{Exit, settled, is_pending, Release}
use q_oracle.Desk.Attestation.{PayoutAttestation, PayoutWatcher}
use q_oracle.Desk.State.{ExitDesk, as_u32, get}
use q_oracle.Desk.Settle.{close, settle, write_settlement}
use q_oracle.Desk.Moves.{
  Move, Idle, Silent, Noted, Appended, Refused, err_unchanged, Refused-Move, failed_note,
  failed_append,
}
use q_oracle.Desk.Moves.Sound.{IsSound}
use q_oracle.Desk.Moves.Backing.{can_release}
use q_oracle.Desk.Moves.Closes.{
  PendingEnds, pending_exit-PendingEnds, Accepted, AttestedEnds, attested-AttestedEnds,
}

module _ {Anchor L J : Type 0} ⦃ledger : ReplayLedger L⦄ ⦃journal : ExitJournal J⦄ where
  pub data SettleEnds (id : ℕ) (watcher : PayoutWatcher) (d : ExitDesk Anchor L J)
      (r : Result ExitError Release × ExitDesk Anchor L J) : Type 0 where
    refused : Refused d r → SettleEnds id watcher d r
    done :
        (exit : Exit) (payout : PayoutAttestation) {s : VaultBook} {l : L} {j : J}
        → get id d.exits ≡ some exit
        → is_pending exit ≡ true
        → Accepted watcher exit d payout
        → Released exit.vault_id exit.locked d.vaults s
        → Noted payout.foreign_ref d.consumed l
        → Appended (settle_event (as_u32 id) payout.foreign_ref) d.journal j
        → r ≡ (
          ok (record { vault_id = exit.vault_id; released = exit.locked }),
          record (close id exit settled d) { vaults = s; consumed = l; journal = j },
        )
        → SettleEnds id watcher d r

  module _ (id : ℕ) (watcher : PayoutWatcher) (d : ExitDesk Anchor L J) (sound : IsSound d)
      (exit : Exit) (at : get id d.exits ≡ some exit) (was : is_pending exit ≡ true)
      (payout : PayoutAttestation) (accepted : Accepted watcher exit d payout) where
    write_settlement-SettleEnds :
        SettleEnds id watcher d (write_settlement id exit payout.foreign_ref d)
    write_settlement-SettleEnds =
        noted (ledger.note payout.foreign_ref d.consumed).0
          (ledger.note payout.foreign_ref d.consumed).1 refl
      where
        event : ExitEvent
        event = settle_event (as_u32 id) payout.foreign_ref

        appended :
            (l : L)
            → Noted payout.foreign_ref d.consumed l
            → (y : Result ExitError (Unit {0})) (j : J) → journal.append event d.journal ≡ (y, j)
            → SettleEnds id watcher d (write_settlement id exit payout.foreign_ref d)
        appended l n (ok _) j e =
            let (s, released) = can_release d sound id exit at was in
            let back = Released-release exit.vault_id exit.locked d.vaults s released in
            SettleEnds.done exit payout at was accepted released n (record { passed = e })
              (unfold write_settlement in
                ground (
                  arith,
                  ap (λ p. p.0) n.passed,
                  ap (λ p. p.1) n.passed,
                  ap (λ p. p.0) e,
                  ap (λ p. p.1) e,
                  ap (λ p. p.0) back,
                  ap (λ p. p.1) back,
                ))
        appended l n (err x) j e = SettleEnds.refused (record {
          error = x;
          used = ledger.forget payout.foreign_ref l;
          log = j;
          idle = Idle.undone payout.foreign_ref l n;
          silent = failed_append event e;
          ends =
              unfold write_settlement in
              ground (
                arith,
                ap (λ p. p.0) n.passed,
                ap (λ p. p.1) n.passed,
                ap (λ p. p.0) e,
                ap (λ p. p.1) e,
              );
        })
        appended l n panic j e = absurd (journal.append_total event d.journal (ap (λ p. p.0) e))

        noted :
            (x : Result ExitError (Unit {0})) (l : L)
            → ledger.note payout.foreign_ref d.consumed ≡ (x, l)
            → SettleEnds id watcher d (write_settlement id exit payout.foreign_ref d)
        noted (ok _) l e =
            appended l (record { fresh = accepted.fresh; passed = e })
              (journal.append event d.journal).0 (journal.append event d.journal).1 refl
        noted (err x) l e = SettleEnds.refused (record {
          error = x;
          used = l;
          log = d.journal;
          idle = failed_note payout.foreign_ref e;
          silent = Silent.same;
          ends = unfold write_settlement in ground (arith, ap (λ p. p.0) e, ap (λ p. p.1) e);
        })
        noted panic l e = absurd (ledger.note_total payout.foreign_ref d.consumed (ap (λ p. p.0) e))

  -- On a sound desk `settle` ends in one of two ways. It is refused with an error, and no exit, vault, letter or reserve is
  -- changed; or the exit was pending, the watcher of its corridor confirmed a valid payout that covers it under an unused
  -- reference, and then the exit is settled, its collateral is free again and the reference is used: the release of
  -- the collateral does not fail.
  pub settle-SettleEnds :
      (id : ℕ) (watcher : PayoutWatcher) (d : ExitDesk Anchor L J)
      → IsSound d
      → SettleEnds id watcher d (settle id watcher d)
  settle-SettleEnds id watcher d sound = elim (pending_exit-PendingEnds id d) [
    | PendingEnds.refused e r ↦
        SettleEnds.refused
          (err_unchanged e (unfold settle in ground (arith, ap (λ p. p.0) r, ap (λ p. p.1) r)))
    | PendingEnds.found exit at was r ↦ elim (attested-AttestedEnds watcher exit d) [
      | AttestedEnds.refused e a ↦ SettleEnds.refused (
          err_unchanged e (
            unfold settle in
            ground (arith, ap (λ p. p.0) r, ap (λ p. p.1) r, ap (λ p. p.0) a, ap (λ p. p.1) a)))
      | AttestedEnds.accepted payout accepted a ↦
          let written : settle id watcher d ≡ write_settlement id exit payout.foreign_ref d =
            unfold settle in
            ground (arith, ap (λ p. p.0) r, ap (λ p. p.1) r, ap (λ p. p.0) a, ap (λ p. p.1) a) in
          subst (SettleEnds id watcher d) (sym written)
            (write_settlement-SettleEnds id watcher d sound exit at was payout accepted)
    ]
  ]

  pub SettleEnds-Move :
      {id : ℕ} {watcher : PayoutWatcher} {d : ExitDesk Anchor L J}
      {r : Result ExitError Release × ExitDesk Anchor L J}
      → SettleEnds id watcher d r
      → Move d r.1
  SettleEnds-Move (SettleEnds.refused h) = Refused-Move h
  SettleEnds-Move {id} {d = d}
        (SettleEnds.done exit payout at was accepted released noted appended e) =
      subst (Move d) (sym (ap (λ p. p.1) e))
        (Move.paid id exit payout at was accepted.covered released noted appended)
