-- ===== src/Tests/Desk/Restart.antt =====
-- A restart of the exit desk, and the theorems on its parts.
use q_oracle.Base.{ℕ, ◌*◌, ◌≤◌, ◌<◌, ◌≡◌, refl, some, List, [], ◌∷◌, arith}
use q_oracle.Base.Lists.{length}
use q_oracle.Base.Result.{ok, err}
use q_oracle.Base.Words.{u128_max}
use q_oracle.Base.Map
use q_oracle.Codec.Bytes
use q_oracle.Desk.Errors.{ExitError}
use q_oracle.Desk.Vaults
use q_oracle.Desk.Ledger.Memory
use q_oracle.Desk.Ledger.Memory.{memory_ledger, memory_ledger-Undoes}
use q_oracle.Desk.Statement
use q_oracle.Desk.Statement.{required_collateral, user_premium}
use q_oracle.Desk.Statement.Bounds.{required_collateral-covers}
use q_oracle.Desk.Attestation.Bytes.{encode, decode}
use q_oracle.Desk.Attestation.RoundTrip.{attestation_round_trip}
use q_oracle.Desk.Anchor
use q_oracle.Desk.BurnProof
use q_oracle.Desk.BurnProof.{AuthenticatedBurn, verify}
use q_oracle.Desk.BurnProof.Sound.{IsCertified, IsBound, verify_sound}
use q_oracle.Desk.State
use q_oracle.Desk.Checks
use q_oracle.Desk.Open
use q_oracle.Desk.Settle
use q_oracle.Desk.Reconstruct.{reconstruct}
use q_oracle.Desk.Steps
use q_oracle.Desk.Steps.{Op, run, open_exit_op, slash_op, take_seized_reserve_op}
use q_oracle.Desk.Steps.Recovered.{reconstruct-run}
use q_oracle.Desk.Steps.Recovered.Replays.{Fits, slashed_total}
use q_oracle.Tests.Desk.{
  toy_qtv, toy_codec, burn_proof, desk, anchor, settings, payout, short_journal,
  short_journal-Keeps,
}
use q_oracle.Tests.Desk.Runs.{desk-IsSound}

-- an exit is opened and slashed, and the reserve is taken
abbrev history : List (Op ℕ ℕ)
history = open_exit_op burn_proof 1000 ∷ slash_op 0 2000 ∷ take_seized_reserve_op ∷ []

history-Fits : Fits (run toy_qtv toy_codec history desk)
unfolding Steps.run Steps.step Open.open_exit Open.open_verified Open.write_opening
    Checks.check_burn Checks.statement_of Statement.serves Statement.validate
    Statement.required_collateral BurnProof.verify BurnProof.certified BurnProof.parse_burn_leaf
    BurnProof.parse_burn_fields BurnProof.array_of BurnProof.bound BurnProof.burn_ref_preimage
    BurnProof.skip_tx Anchor.binding Anchor.commitment_at Bytes.to_be_bytes Bytes.to_le_bytes
    Bytes.from_be_bytes Bytes.from_le_bytes Map.lookup Map.insert Map.remove Map.replace
    Map.contains_key Map.or_insert Vaults.lock_any Vaults.lock Vaults.release Vaults.choose
    Vaults.precedes Vaults.most_free Vaults.register Vaults.seize Memory.is_released Memory.note
    Memory.forget State.register_vault State.slash_opens_at State.take_seized_reserve Settle.slash
    Settle.pending_exit Settle.apply_slash Statement.is_pending Statement.user_premium
history-Fits = record { ids = omega arith; total = omega arith }

-- The reserve was taken, and is whole again after the restart.
reconstruct-run_example :
    reconstruct (record desk { journal = (run toy_qtv toy_codec history desk).journal }) ≡ (
      ok tt,
      record (run toy_qtv toy_codec history desk) {
        seized_reserve = slashed_total (run toy_qtv toy_codec history desk).exits;
      },
    )
unfolding State.register_vault
reconstruct-run_example =
    reconstruct-run toy_qtv toy_codec memory_ledger-Undoes short_journal-Keeps history desk
      desk-IsSound refl refl history-Fits

required_collateral-covers_example :
    (u128_max < 1000 * 15000 → required_collateral 1000 settings ≡ err ExitError.overflow)
    × (1000 * 15000 ≤ u128_max
        → (locked : ℕ) × (premium : ℕ) × (required_collateral 1000 settings ≡ ok locked)
          × (user_premium 1000 settings ≡ ok premium)
          × (1000 ≤ premium)
          × (premium ≤ locked)
          × (locked * 10000 ≤ 1000 * 15000))
unfolding Statement.is_unsafe
required_collateral-covers_example = required_collateral-covers settings 1000 refl

abbrev burn : AuthenticatedBurn
burn = record {
  asset_id = 7;
  holder = 8;
  destination = 9;
  amount = 1000;
  burn_ref = 143;
  dest_chain = 5;
  finalized_height = 3;
}

verified : verify toy_qtv toy_codec anchor burn_proof ≡ ok burn
unfolding BurnProof.verify BurnProof.certified BurnProof.parse_burn_leaf BurnProof.parse_burn_fields
    BurnProof.array_of BurnProof.bound BurnProof.burn_ref_preimage BurnProof.skip_tx Anchor.binding
    Anchor.commitment_at Bytes.to_be_bytes Bytes.to_le_bytes Bytes.from_be_bytes Bytes.from_le_bytes
verified = refl

verify_sound_example :
    (header : ℕ) × (toy_qtv.header_from_bytes burn_proof.header_bytes ≡ some header)
    × IsCertified toy_qtv toy_codec anchor burn_proof header
    × (3 ≡ toy_qtv.height header)
    × IsBound toy_qtv toy_codec 77 burn
verify_sound_example = verify_sound toy_qtv toy_codec anchor burn_proof burn verified

attestation_round_trip_example :
    (length (encode (payout 55)) ≡ 141) × (decode (encode (payout 55)) ≡ ok (payout 55))
attestation_round_trip_example = attestation_round_trip (payout 55) (record {
  version = omega arith;
  corridor = omega arith;
  asset_id = omega arith;
  amount = omega arith;
  beneficiary = omega arith;
  burn_ref = omega arith;
  foreign_ref = omega arith;
  proof_height = omega arith;
})
