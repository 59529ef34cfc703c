-- ===== src/Desk/Reconstruct.antt =====
-- `ExitDesk::reconstruct` of crates/q-exits/src/exits.rs: the desk rebuilt from its journal at start-up.
use q_oracle.Base.{ℕ, not, List, [], ◌∷◌, ◌++◌}
use q_oracle.Base.Tests.{◌==◌}
use q_oracle.Base.Lists.{length}
use q_oracle.Base.Result.{ok_or}
use q_oracle.Base.Action.{pure, ask, gets, modify, require, ◌>>=◌, ◌>>◌}
use q_oracle.Desk.Errors.{ExitError}
use q_oracle.Desk.Vaults.{lock, release}
use q_oracle.Desk.Ledger.{ReplayLedger}
use q_oracle.Desk.Journal.{
  JournaledExit, ExitEvent, ExitJournal, open_event, settle_event, slash_event, dead_letter_event,
}
use q_oracle.Desk.Statement.{Exit, pending, settled, slashed, is_pending}
use q_oracle.Desk.State.{ExitDesk, Call, on_vaults, on_consumed, get}
use q_oracle.Desk.Settle.{close, apply_slash}

-- the exit of a journaled one, pending again
abbrev pub reopened : JournaledExit → Exit
reopened e = record {
  statement = record {
    version = e.version;
    corridor = e.corridor;
    asset_id = e.asset_id;
    amount = e.amount;
    holder = e.holder;
    destination = e.destination;
    burn_ref = e.burn_ref;
    finalized_height = e.finalized_height;
  };
  vault_id = e.vault_id;
  locked = e.locked;
  issued_at = e.issued_at;
  deadline = e.deadline;
  state = pending;
}

module _ {Anchor L J : Type 0} ⦃ledger : ReplayLedger L⦄ ⦃journal : ExitJournal J⦄ where
  -- the exit that an event closes
  unfoldable pub open_at : ℕ → Call (ExitDesk Anchor L J) Exit
  open_at index = do
    exit ← ask λ d. ok_or (get index d.exits) ExitError.persist_failed
    require (not (is_pending exit)) ExitError.persist_failed
    pure exit

  -- one round of the loop over the events
  unfoldable pub replay : ExitEvent → Call (ExitDesk Anchor L J) (Unit {0})
  replay (open_event index exit) = do
    count ← gets (λ d. length d.exits)
    require (not (index == count)) ExitError.persist_failed
    used ← gets (λ d. ledger.is_released exit.burn_ref d.consumed)
    require used ExitError.persist_failed
    on_vaults (lock exit.vault_id exit.locked)
    on_consumed (ledger.note exit.burn_ref)
    modify (λ d. record d { exits = d.exits ++ reopened exit ∷ [] })
  replay (settle_event index foreign_ref) = do
    used ← gets (λ d. ledger.is_released foreign_ref d.consumed)
    require used ExitError.persist_failed
    exit ← open_at index
    modify (close index exit settled)
    on_consumed (ledger.note foreign_ref)
    on_vaults (release exit.vault_id exit.locked)
  replay (slash_event index) = do
    exit ← open_at index
    modify (close index exit slashed)
    apply_slash exit
    pure tt
  replay (dead_letter_event index letter) = do
    count ← gets (λ d. length d.dead)
    require (not (index == count)) ExitError.persist_failed
    modify (λ d. record d { dead = d.dead ++ letter ∷ [] })

  unfoldable pub replay_all : List ExitEvent → Call (ExitDesk Anchor L J) (Unit {0})
  replay_all [] = pure tt
  replay_all (event ∷ events) = replay event >> replay_all events

  unfoldable pub reconstruct : Call (ExitDesk Anchor L J) (Unit {0})
  reconstruct = do events ← gets (λ d. journal.events d.journal); replay_all events
