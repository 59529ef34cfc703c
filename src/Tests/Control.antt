-- ===== src/Tests/Control.antt =====
-- The theorems on pauses, freezes, reserves and corridors at the concrete gateway.
use q_oracle.Base.{
  ℕ, ◌≤◌, ◌<◌, ◌≡◌, ◌≢◌, ◌↔◌, refl, ◌⊎◌, inl, true, false, some, List, [], ◌∷◌, arith,
}
use q_oracle.Base.Tests.{ltb, unwrap_or}
use q_oracle.Base.Result.{ok}
use q_oracle.Base.Map.{contains_key, insert, lookup, or_insert, remove, nat_key}
use q_oracle.Codec.Bytes.{to_be_bytes, to_le_bytes}
use q_oracle.Codec.Writer
use q_oracle.Airlock.Envelope.{SignerSig}
use q_oracle.Gateway.Messages
use q_oracle.Gateway.Operators
use q_oracle.Gateway.Operators.{
  consider, pubkey, register, scan, supermajority_floor, unregister, verified_quorum, verifies,
  verify_quorum, OperatorSet, size,
}
use q_oracle.Gateway.State
use q_oracle.Gateway.State.{Gateway, MintReceipt, ExitTicket, CorridorConfig}
use q_oracle.Gateway.Settings.{register_asset_cap, set_governance, pause_all}
use q_oracle.Gateway.Corridor.{register_corridor, accept_batch, write_batch}
use q_oracle.Gateway.Corridor.Checks.{required, check_batch, corridor_cursor}
use q_oracle.Gateway.Call.{checked, touch_guard, log_admin}
use q_oracle.Gateway.Reserve.{attest_reserve, record_report}
use q_oracle.Gateway.Reserve.Checks.{
  minted_of_asset, outstanding_of, pending_exit_of, pending_from, quorum_met, check_reserve,
  short_reserve, first_short,
}
use q_oracle.Gateway.Pause.{resume_all, write_unpause, resume_source, write_resume, report_reorg}
use q_oracle.Gateway.Pause.Checks.{check_unpause, check_resume}
use q_oracle.Gateway.Freeze.{emergency_freeze, write_freeze}
use q_oracle.Gateway.Freeze.Checks.{freeze_horizon, is_frozen, check_freeze}
use q_oracle.Gateway.Closed.{
  IsClosed, shut-IsClosed, attest_reserve-shortfall, resume_all-backed, emergency_freeze-lasts,
}
use q_oracle.Gateway.Steps.{Op, run}
use q_oracle.Gateway.Steps.Routes.Batches.{run-batch_once}
use q_oracle.Gateway.Steps.Routes.Resumed.{run-resume_once}
use q_oracle.Gateway.Steps.Routes.Ratchet.{Raised, run-Raised}
use q_oracle.Tests.Fixtures.{ml, sign_all, gate, running, paused, reorged}

shut-IsClosed_example : IsClosed ml paused
shut-IsClosed_example = shut-IsClosed ml paused (inl refl)

-- a report that half of what is outstanding is in escrow
abbrev report : List SignerSig
report = sign_all (Messages.reserve_message 5 50 10 9000 0) Messages.reserve_domain

reported : (attest_reserve ml 5 50 10 report running).0 ≡ ok true
unfolding attest_reserve record_report check_reserve outstanding_of minted_of_asset pending_exit_of
    pending_from pause_all Messages.reserve_message Messages.reserve_domain verify_quorum
    verified_quorum scan consider verifies pubkey supermajority_floor contains_key insert lookup
    or_insert remove set_governance register_corridor register_asset_cap State.new Operators.new
    touch_guard log_admin Writer.new Writer.finish Writer.fixed Writer.fixed_id Writer.u8 Writer.u32
    Writer.u64 Writer.u128 to_le_bytes to_be_bytes checked quorum_met
reported = refl

attest_reserve-shortfall_example :
    (true ≡ ltb 50 (outstanding_of 5 running))
    × (lookup 5 (attest_reserve ml 5 50 10 report running).1.escrowed ≡ some 50)
    × (true ≡ true → IsClosed ml (attest_reserve ml 5 50 10 report running).1)
attest_reserve-shortfall_example = attest_reserve-shortfall ml 5 50 10 report running true reported

abbrev unpause : List SignerSig
unpause = sign_all (Messages.unpause_message 10 9000 0) Messages.unpause_domain

resumed : (resume_all ml 10 unpause paused).0 ≡ ok tt
unfolding resume_all write_unpause check_unpause short_reserve first_short pending_exit_of
    pending_from Messages.unpause_message Messages.unpause_domain verify_quorum verified_quorum scan
    consider verifies pubkey supermajority_floor contains_key insert lookup or_insert remove
    set_governance register_corridor register_asset_cap State.new Operators.new touch_guard
    log_admin Writer.new Writer.finish Writer.fixed Writer.fixed_id Writer.u8 Writer.u32 Writer.u64
    Writer.u128 to_le_bytes to_be_bytes checked quorum_met
resumed = refl

resume_all-backed_example :
    (paused.global_pause ≡ true)
    × ((resume_all ml 10 unpause paused).1.global_pause ≡ false)
    × ((a n : ℕ)
        → lookup a paused.per_asset_minted ≡ some n
        → outstanding_of a paused ≤ unwrap_or 0 (lookup a paused.escrowed))
resume_all-backed_example = resume_all-backed ml 10 unpause paused resumed

abbrev freeze : List SignerSig
freeze = sign_all (Messages.freeze_message_for_era 20 9000 0) Messages.freeze_domain

froze : (emergency_freeze ml 20 freeze running).0 ≡ ok tt
unfolding emergency_freeze write_freeze check_freeze Messages.freeze_message_for_era
    Messages.freeze_domain verify_quorum verified_quorum scan consider verifies pubkey
    supermajority_floor contains_key insert lookup or_insert remove set_governance register_corridor
    register_asset_cap State.new Operators.new touch_guard log_admin Writer.new Writer.finish
    Writer.fixed Writer.fixed_id Writer.u8 Writer.u32 Writer.u64 Writer.u128 to_le_bytes to_be_bytes
    checked quorum_met
froze = refl

abbrev frozen : Gateway ℕ
frozen = (emergency_freeze ml 20 freeze running).1

emergency_freeze-lasts_example :
    (freeze_horizon running ≤ freeze_horizon frozen)
    × (10 < 20)
    × ((is_frozen frozen ≡ true) ↔ ((0 < 20) ⊎ (is_frozen running ≡ true)))
unfolding set_governance register_corridor register_asset_cap State.new
emergency_freeze-lasts_example = emergency_freeze-lasts ml 20 freeze running froze

abbrev batch : List SignerSig
batch = sign_all (Messages.batch_message 1 0 9000 0) Messages.batch_domain

batched : (accept_batch ml 1 0 batch gate).0 ≡ ok tt
unfolding accept_batch write_batch check_batch corridor_cursor required Messages.batch_message
    Messages.batch_domain verify_quorum verified_quorum scan consider verifies pubkey
    supermajority_floor contains_key insert lookup or_insert remove set_governance register_corridor
    register_asset_cap State.new Operators.new touch_guard log_admin Writer.new Writer.finish
    Writer.fixed Writer.fixed_id Writer.u8 Writer.u32 Writer.u64 Writer.u128 to_le_bytes to_be_bytes
    checked quorum_met
batched = refl

run-batch_once_example :
    (accept_batch ml 1 0 batch (run ml (Op.pause_all ∷ []) (accept_batch ml 1 0 batch gate).1)).0
    ≢ ok tt
run-batch_once_example = run-batch_once ml 1 0 batch batch gate (Op.pause_all ∷ []) batched

abbrev resume : List SignerSig
resume = sign_all (Messages.resume_message 1 10 9000 0) Messages.resume_domain

resumed_source : (resume_source ml 1 10 resume reorged).0 ≡ ok tt
unfolding resume_source write_resume check_resume Messages.resume_message Messages.resume_domain
    verify_quorum verified_quorum scan consider verifies pubkey supermajority_floor contains_key
    insert lookup or_insert remove set_governance register_corridor register_asset_cap State.new
    Operators.new touch_guard log_admin Writer.new Writer.finish Writer.fixed Writer.fixed_id
    Writer.u8 Writer.u32 Writer.u64 Writer.u128 to_le_bytes to_be_bytes checked quorum_met
resumed_source = refl

abbrev reopened : Gateway ℕ
reopened = run ml (Op.pause_source_direct 1 ∷ []) (resume_source ml 1 10 resume reorged).1

run-resume_once_example :
    ((again : List SignerSig) → (resume_source ml 1 8 again reopened).0 ≢ ok tt)
    × ((depth : ℕ) (again : List SignerSig) → (report_reorg ml 1 depth 8 again reopened).0 ≢ ok tt)
run-resume_once_example =
    run-resume_once ml 1 10 resume reorged (Op.pause_source_direct 1 ∷ []) resumed_source 8
      (omega arith)

gate-Raised : Raised 1 6 1 gate.corridors
unfolding set_governance register_corridor register_asset_cap State.new or_insert contains_key
    lookup insert
gate-Raised = (
  record { confirmation_depth = 6; quorum = 0; tier = 1; active = true },
  refl,
  refl,
  omega arith,
)

run-Raised_example : Raised 1 6 1 (run ml (Op.register_corridor 1 0 ∷ []) gate).corridors
run-Raised_example = run-Raised ml 1 6 1 (Op.register_corridor 1 0 ∷ []) gate gate-Raised
