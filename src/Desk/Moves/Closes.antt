-- ===== src/Desk/Moves/Closes.antt =====
-- The checks of `settle` and `slash`: a pending exit, and a payout that covers it.
use q_oracle.Base.{ℕ, ◌≡◌, ◌≢◌, refl, true, false, some, inl, inr, arith}
use q_oracle.Base.Tests.{Bool-cases, Option-cases, ◌==◌}
use q_oracle.Base.Result.{Result, ok, err, panic}
use q_oracle.Base.Map.{nat_key}
use q_oracle.Desk.Errors.{ExitError}
use q_oracle.Desk.Ledger.{ReplayLedger}
use q_oracle.Desk.Journal.{ExitJournal}
use q_oracle.Desk.Statement.{Exit, is_pending}
use q_oracle.Desk.Attestation.{PayoutAttestation, PayoutWatcher, validate, covers}
use q_oracle.Desk.State.{ExitDesk, get}
use q_oracle.Desk.Settle.{pending_exit, attested}

validate-total : (a : PayoutAttestation) → validate a ≢ panic
unfolding validate
validate-total a h = ground arith

module _ {Anchor L J : Type 0} ⦃ledger : ReplayLedger L⦄ ⦃journal : ExitJournal J⦄ where
  -- the exit under an id is pending, or the call is refused
  pub data PendingEnds (id : ℕ) (d : ExitDesk Anchor L J)
      (r : Result ExitError Exit × ExitDesk Anchor L J) : Type 0 where
    refused : (e : ExitError) → r ≡ (err e, d) → PendingEnds id d r
    found :
        (exit : Exit)
        → get id d.exits ≡ some exit
        → is_pending exit ≡ true
        → r ≡ (ok exit, d)
        → PendingEnds id d r

  pub pending_exit-PendingEnds :
      (id : ℕ) (d : ExitDesk Anchor L J) → PendingEnds id d (pending_exit id d)
  pending_exit-PendingEnds id d = elim (Option-cases (get id d.exits)) [
    | inl e ↦ PendingEnds.refused ExitError.unknown_exit (unfold pending_exit in ground arith)
    | inr (exit, e) ↦ elim (Bool-cases (is_pending exit)) [
      | inl was ↦ PendingEnds.found exit e was (unfold pending_exit in ground arith)
      | inr was ↦ PendingEnds.refused ExitError.not_pending (unfold pending_exit in ground arith)
    ]
  ]

  -- what the payout that `settle` accepts has passed
  pub record Accepted (watcher : PayoutWatcher) (exit : Exit) (d : ExitDesk Anchor L J)
      (payout : PayoutAttestation) : Type 0 where
    pub corridor : watcher.corridor ≡ d.cfg.corridor
    pub confirmed : watcher.confirm exit.statement ≡ some payout
    pub valid : validate payout ≡ ok tt
    pub covered : covers exit.statement payout ≡ true
    pub fresh : ledger.is_released payout.foreign_ref d.consumed ≡ false

  pub data AttestedEnds (watcher : PayoutWatcher) (exit : Exit) (d : ExitDesk Anchor L J)
      (r : Result ExitError PayoutAttestation × ExitDesk Anchor L J) : Type 0 where
    refused : (e : ExitError) → r ≡ (err e, d) → AttestedEnds watcher exit d r
    accepted :
        (payout : PayoutAttestation)
        → Accepted watcher exit d payout
        → r ≡ (ok payout, d)
        → AttestedEnds watcher exit d r

  module _ (watcher : PayoutWatcher) (exit : Exit) (d : ExitDesk Anchor L J) where
    pub attested-AttestedEnds : AttestedEnds watcher exit d (attested watcher exit d)
    unfolding attested
    attested-AttestedEnds = elim (Bool-cases (watcher.corridor == d.cfg.corridor)) [
      | inr other ↦ AttestedEnds.refused ExitError.payout_mismatch (ground arith)
      | inl corridor ↦ elim (Option-cases (watcher.confirm exit.statement)) [
        | inl e ↦ AttestedEnds.refused ExitError.payout_unproven (ground arith)
        | inr (payout, e) ↦ checked corridor payout e (validate payout) refl
      ]
    ]
      where
        checked :
            (watcher.corridor == d.cfg.corridor) ≡ true
            → (payout : PayoutAttestation) → watcher.confirm exit.statement ≡ some payout
            → (m : Result ExitError (Unit {0})) → validate payout ≡ m
            → AttestedEnds watcher exit d (attested watcher exit d)
        checked corridor payout e (err x) v = AttestedEnds.refused x (ground arith)
        checked corridor payout e panic v = absurd (validate-total payout v)
        checked corridor payout e (ok _) v = elim (Bool-cases (covers exit.statement payout)) [
          | inr short ↦ AttestedEnds.refused ExitError.payout_mismatch (ground arith)
          | inl covered ↦ elim (Bool-cases (ledger.is_released payout.foreign_ref d.consumed)) [
            | inl used ↦ AttestedEnds.refused ExitError.replayed_payout (ground arith)
            | inr fresh ↦
                AttestedEnds.accepted payout
                  (record {
                    corridor = ground arith;
                    confirmed = e;
                    valid = v;
                    covered = covered;
                    fresh = fresh;
                  })
                  (ground arith)
          ]
        ]
