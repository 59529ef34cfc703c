-- ===== src/Desk/Open.antt =====
-- `ExitDesk::open_exit` and `dead_letter` of crates/q-exits/src/exits.rs.
pub mod Atomic
use q_oracle.Base.{ℕ, Bool, ◌&&◌, List, [], ◌∷◌, ◌++◌}
use q_oracle.Base.Tests.{leb, ◌==◌, unwrap_or, if◌then◌else◌}
use q_oracle.Base.Lists.{length, any}
use q_oracle.Base.Words.{sat_add_u64}
use q_oracle.Base.Result.{Result, ok, err, panic}
use q_oracle.Base.Action.{Action, pure, fail, ask, gets, modify, rescue, ◌>>=◌, ◌>>◌}
use q_oracle.Desk.Errors.{ExitError}
use q_oracle.Desk.Vaults.{lock_any, release}
use q_oracle.Desk.Ledger.{ReplayLedger}
use q_oracle.Desk.Journal.{DeadLetter, ExitEvent, ExitJournal, open_event, dead_letter_event, of}
use q_oracle.Desk.Statement.{Exit, max_dead_letters}
use q_oracle.Desk.Qtv.{Qtv, QtvCodec}
use q_oracle.Desk.Anchor.{QuantovaAnchor}
use q_oracle.Desk.BurnProof.{
  AuthenticatedBurn, ProofOfBurn, verify, claimed_height, claimed_burn_ref, leaf_digest,
}
use q_oracle.Desk.State.{ExitDesk, Call, on_vaults, on_consumed, on_journal, as_u32}
use q_oracle.Desk.Checks.{statement_of, exit_of, journaled, check_burn}

-- a letter is held already, by height and leaf
unfoldable pub is_held : DeadLetter → List DeadLetter → Bool
is_held letter dead =
    any (λ held. held.height == letter.height && held.leaf_digest == letter.leaf_digest) dead

module _ {Anchor L J : Type 0} ⦃ledger : ReplayLedger L⦄ ⦃journal : ExitJournal J⦄ where
  -- the exit that a burn opens
  abbrev pub opening : AuthenticatedBurn → (vault_id required now : ℕ) → ExitDesk Anchor L J → Exit
  opening burn vault_id required now d =
      exit_of (statement_of d.cfg.corridor burn) vault_id required now
        (sat_add_u64 now d.cfg.window)

  -- from the lock on, with the collateral locked
  unfoldable pub write_opening :
      AuthenticatedBurn → (vault_id required now : ℕ) → Call (ExitDesk Anchor L J) ℕ
  write_opening burn vault_id required now = do
    exit ← gets (opening burn vault_id required now)
    index ← gets (λ d. length d.exits)
    rescue (on_consumed (ledger.note burn.burn_ref)) (on_vaults (release vault_id required))
    rescue (on_journal (journal.append (open_event (as_u32 index) (journaled exit)))) (do
      modify (λ d. record d { consumed = ledger.forget burn.burn_ref d.consumed })
      on_vaults (release vault_id required))
    modify (λ d. record d { exits = d.exits ++ exit ∷ [] })
    pure index

  -- after the proof is verified
  unfoldable pub open_verified :
      (chain_id : ℕ) → AuthenticatedBurn → (now : ℕ) → Call (ExitDesk Anchor L J) ℕ
  open_verified chain_id burn now = do
    required ← ask (λ d. check_burn d.cfg d.consumed chain_id burn)
    vault_id ← on_vaults (lock_any required)
    write_opening burn vault_id required now

  unfoldable pub write_letter : DeadLetter → Call (ExitDesk Anchor L J) (Unit {0})
  write_letter letter d =
      if is_held letter d.dead
      then (ok tt, d)
      else if leb max_dead_letters (length d.dead)
      then (err ExitError.ledger_full, d)
      else (on_journal (journal.append (dead_letter_event (as_u32 (length d.dead)) letter))
            >> modify (λ t. record t { dead = t.dead ++ letter ∷ [] }))
          d

module _ {H C I Commitment Beacon D E : Type 0} (qtv : Qtv H C I Commitment Beacon)
    (codec : QtvCodec D E) where
  unfoldable pub letter_of : ProofOfBurn C I → ExitError → (now : ℕ) → DeadLetter
  letter_of proof error now = record {
    height = claimed_height qtv codec proof;
    leaf_digest = leaf_digest qtv codec proof;
    burn_ref = unwrap_or 0 (claimed_burn_ref qtv codec proof);
    reason = of error;
    recorded_at = now;
  }

module _ {H C I Commitment Beacon D E L J : Type 0} (qtv : Qtv H C I Commitment Beacon)
    (codec : QtvCodec D E) ⦃ledger : ReplayLedger L⦄ ⦃journal : ExitJournal J⦄ where
  unfoldable pub open_exit :
      ProofOfBurn C I → (now : ℕ) → Call (ExitDesk (QuantovaAnchor Commitment Beacon) L J) ℕ
  open_exit proof now = do
    burn ← ask (λ d. verify qtv codec d.anchor proof)
    chain_id ← gets (λ d. d.anchor.chain_id)
    open_verified chain_id burn now

  unfoldable pub dead_letter :
      ProofOfBurn C I
      → ExitError
      → (now : ℕ) → Call (ExitDesk (QuantovaAnchor Commitment Beacon) L J) (Unit {0})
  dead_letter proof error now = write_letter (letter_of qtv codec proof error now)
