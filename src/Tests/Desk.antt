-- ===== src/Tests/Desk.antt =====
-- Runs of the exit desk at concrete data: two burns, two payouts and a journal that is full after four events.
pub mod Runs
pub mod Restart
pub mod Acks
pub mod Stored
use q_oracle.Base.{
  ℕ, ◌+◌, ◌*◌, ◌/◌, ◌≡◌, ◌≢◌, refl, Bool, true, false, Option, none, some, List, [], ◌∷◌, ◌++◌,
  arith,
}
use q_oracle.Base.Tests.{leb, ltb, ◌==◌, if◌then◌else◌}
use q_oracle.Base.Lists.{length, take, drop}
use q_oracle.Base.Result.{Result, ok, err, panic}
use q_oracle.Base.Action.{Action}
use q_oracle.Codec.Bytes.{to_be_bytes}
use q_oracle.Desk.Errors.{ExitError}
use q_oracle.Desk.Vaults.{VaultBook}
use q_oracle.Desk.Ledger.Memory.{MemoryLedger, memory_ledger}
use q_oracle.Desk.Journal.{ExitEvent, ExitJournal, Keeps, open_event, slash_event}
use q_oracle.Desk.Statement.{DeskConfig, ExitStatement, Exit, ExitState, pending}
use q_oracle.Desk.Attestation.{PayoutAttestation, PayoutWatcher}
use q_oracle.Desk.Qtv.{Qtv, QtvCodec}
use q_oracle.Desk.Anchor.{QuantovaAnchor}
use q_oracle.Desk.BurnProof.{ProofOfBurn, native_event_source, event_bridge_burn}
use q_oracle.Desk.Checks.{journaled}
use q_oracle.Desk.State.{ExitDesk, fresh_desk, register_vault}

-- The external code, played by short functions: the hash is a length, a header its height.
abbrev pub toy_qtv : Qtv ℕ ℕ ℕ ℕ ℕ
toy_qtv = record {
  header_from_bytes = λ bytes. some (length bytes);
  hash = λ h. h;
  height = λ h. h;
  event_root = λ h. h;
  verify_inclusion = λ root leaf path. root == path;
  block_val = λ c. c;
  block_height = λ c. c;
  envelope_height = λ c. c;
  slot = λ c. c;
  attesters = λ c. 1 ∷ 2 ∷ 3 ∷ [];
  verified = λ binding commitment beacon tau c. leb tau 3;
  commitment_from = λ slot keys budget. slot;
  commitment_slot = λ commitment. commitment;
  beacon_from_seed = λ seed. seed;
  finality_threshold = λ n. n * 2 / 3 + 1;
  public_key_bytes = 2;
  sha3_256 = λ bytes. length bytes;
}

abbrev pub toy_bytes : List ℕ → Option (List ℕ × List ℕ)
toy_bytes [] = none
toy_bytes (n ∷ rest) = some (take n rest, drop n rest)

abbrev pub toy_word : List ℕ → Option (ℕ × List ℕ)
toy_word [] = none
toy_word (n ∷ rest) = some (n, rest)

abbrev pub toy_codec : QtvCodec (List ℕ) (List ℕ)
toy_codec = record {
  decoder = λ bytes. bytes;
  get_bytes = toy_bytes;
  get_u64 = toy_word;
  get_u128 = toy_word;
  remaining = length;
  finish = λ rest. length rest == 0;
  encoder = [];
  put_bytes = λ bytes e. e ++ length bytes ∷ bytes;
  put_u64 = λ n e. e ++ n ∷ [];
  put_u128 = λ n e. e ++ n ∷ [];
  into_bytes = λ e. e;
}

-- a burn of 1000 units of the asset 7 for the destination 9, under the reference 143, the length of its preimage
abbrev pub burn_fields : List ℕ
burn_fields =
    (16 ∷ to_be_bytes 16 7)
    ++ ((32 ∷ to_be_bytes 32 8)
        ++ ((1000 ∷ [])
            ++ ((32 ∷ to_be_bytes 32 9) ++ ((5 ∷ 1 ∷ 2 ∷ []) ++ (32 ∷ to_be_bytes 32 143)))))

abbrev pub burn_leaf : List ℕ
burn_leaf =
    (10 ∷ native_event_source) ++ ((4 ∷ event_bridge_burn) ++ (length burn_fields ∷ burn_fields))

abbrev pub burn_proof : ProofOfBurn ℕ ℕ
burn_proof = record {
  header_bytes = 0 ∷ 0 ∷ 0 ∷ [];
  certificate = 3;
  leaf = burn_leaf;
  inclusion = 3;
}

abbrev pub anchor : QuantovaAnchor ℕ ℕ
anchor = record {
  chain_id = 5;
  genesis = 77;
  tau = 2;
  commitment = 0;
  keys = [];
  budget = 0;
  beacon = 0;
}

-- A journal that is full after four events.
abbrev pub short_append : ExitEvent → Action (List ExitEvent) ExitError (Unit {0})
short_append e j =
    if leb 4 (length j) then (err ExitError.persist_failed, j) else (ok tt, j ++ e ∷ [])

pub short_total : (e : ExitEvent) (j : List ExitEvent) → (short_append e j).0 ≢ panic
short_total e j h = ground arith

pub short_err :
    (e : ExitEvent) (j : List ExitEvent) → (short_append e j).0 ≢ ok tt → (short_append e j).1 ≡ j
short_err e j h = ground arith

instance abbrev pub short_journal : ExitJournal (List ExitEvent)
short_journal = record {
  append = short_append;
  events = λ j. j;
  append_total = short_total;
  append_err = short_err;
}

short_ok :
    (e : ExitEvent) (j : List ExitEvent)
    → (short_append e j).0 ≡ ok tt
    → (short_append e j).1 ≡ j ++ e ∷ []
short_ok e j h = ground arith

pub short_journal-Keeps : Keeps short_journal
short_journal-Keeps = record { append_ok = short_ok }

abbrev pub settings : DeskConfig
settings = record {
  corridor = 4;
  bridge_dest_chain = 6;
  secure_bps = 15000;
  premium_bps = 10000;
  window = 100;
  grace = 10;
  assets = 7 ∷ [];
  max_amount = 0;
}

abbrev pub Desk : Type 0
Desk = ExitDesk (QuantovaAnchor ℕ ℕ) MemoryLedger (List ExitEvent)

abbrev pub empty_desk : Desk
empty_desk = fresh_desk settings anchor [] []

-- one vault with 5000 units
abbrev pub desk : Desk
desk = register_vault 1 5000 empty_desk

-- the statement and the exit of the burn, and the desk where it is open
abbrev pub statement : ExitStatement
statement = record {
  version = 1;
  corridor = 4;
  asset_id = 7;
  amount = 1000;
  holder = 8;
  destination = 9;
  burn_ref = 143;
  finalized_height = 3;
}

abbrev pub exit_in : ExitState → Exit
exit_in state = record {
  statement = statement;
  vault_id = 1;
  locked = 1500;
  issued_at = 1000;
  deadline = 1100;
  state = state;
}

abbrev pub busy : Desk
busy = record empty_desk {
  vaults = (1, record { vault_id = 1; free = 3500; locked = 1500 }) ∷ [];
  exits = exit_in pending ∷ [];
  consumed = (143, tt) ∷ [];
  journal = open_event 0 (journaled (exit_in pending)) ∷ [];
}

-- the desk with a journal that is full
abbrev pub full_desk : Desk
full_desk = record desk {
  journal = slash_event 0 ∷ slash_event 0 ∷ slash_event 0 ∷ slash_event 0 ∷ [];
}

-- a payout of the exit with a foreign reference, and the watcher that attests it
abbrev pub payout : ℕ → PayoutAttestation
payout foreign_ref = record {
  version = 1;
  corridor = 4;
  asset_id = 7;
  amount = 1000;
  beneficiary = 9;
  burn_ref = 143;
  foreign_ref = foreign_ref;
  proof_height = 1;
}

abbrev pub paying : ℕ → PayoutWatcher
paying foreign_ref = record { corridor = 4; confirm = λ s. some (payout foreign_ref) }
