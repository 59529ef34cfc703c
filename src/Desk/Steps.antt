-- ===== src/Desk/Steps.antt =====
-- Histories of the desk: any sequence of its calls, with any proofs, watchers and times. The vaults are
-- registered before, at start-up.
pub mod Refines
pub mod Conserved
pub mod Once
pub mod Final
pub mod Recovered
use q_oracle.Base.{ℕ, List, [], ◌∷◌}
use q_oracle.Desk.Errors.{ExitError}
use q_oracle.Desk.Ledger.{ReplayLedger}
use q_oracle.Desk.Journal.{ExitJournal}
use q_oracle.Desk.Qtv.{Qtv, QtvCodec}
use q_oracle.Desk.Anchor.{QuantovaAnchor}
use q_oracle.Desk.BurnProof.{ProofOfBurn}
use q_oracle.Desk.Attestation.{PayoutWatcher}
use q_oracle.Desk.State.{ExitDesk, take_seized_reserve}
use q_oracle.Desk.Open.{open_exit, dead_letter}
use q_oracle.Desk.Settle.{settle, slash, close_overdue}

pub data Op (C I : Type 0) : Type 0 where
  open_exit_op : ProofOfBurn C I → (now : ℕ) → Op C I
  dead_letter_op : ProofOfBurn C I → ExitError → (now : ℕ) → Op C I
  settle_op : (id : ℕ) → PayoutWatcher → Op C I
  slash_op : (id now : ℕ) → Op C I
  close_overdue_op : (id : ℕ) → List PayoutWatcher → (now : ℕ) → Op C I
  take_seized_reserve_op : Op C I

module _ {H C I Commitment Beacon D E L J : Type 0} (qtv : Qtv H C I Commitment Beacon)
    (codec : QtvCodec D E) ⦃ledger : ReplayLedger L⦄ ⦃journal : ExitJournal J⦄ where
  unfoldable pub step :
      Op C I
      → ExitDesk (QuantovaAnchor Commitment Beacon) L J
      → ExitDesk (QuantovaAnchor Commitment Beacon) L J
  step (open_exit_op proof now) d = (open_exit qtv codec proof now d).1
  step (dead_letter_op proof error now) d = (dead_letter qtv codec proof error now d).1
  step (settle_op id watcher) d = (settle id watcher d).1
  step (slash_op id now) d = (slash id now d).1
  step (close_overdue_op id watchers now) d = (close_overdue id watchers now d).1
  step take_seized_reserve_op d = (take_seized_reserve d).1

  unfoldable pub run :
      List (Op C I)
      → ExitDesk (QuantovaAnchor Commitment Beacon) L J
      → ExitDesk (QuantovaAnchor Commitment Beacon) L J
  run [] d = d
  run (op ∷ ops) d = run ops (step op d)
