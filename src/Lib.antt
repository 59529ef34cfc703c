-- ===== src/Lib.antt =====
-- Verification library of Q-Oracle, the bridge oracle of Quantova.
--
-- The program. Operators watch foreign chains and sign facts about deposits (crates/q-codec: the fact and its bytes;
-- crates/q-airlock: the envelope that carries a fact with its signatures). The gateway (crates/q-gateway) admits a
-- deposit when enough distinct registered operators have signed it or when a light client has proved it, and
-- mints. It keeps caps, epoch budgets, reserves, corridors, pauses, freezes and a queue of exits. The exit desk
-- (crates/q-exits) pays out on the foreign chain: a burn that is proved against Quantova's committee opens an exit, which locks the
-- collateral of a vault; a proved payout settles it, and an exit that is overdue is slashed.
--
-- Files. Base holds what the others share: tests and numbers, lists, the arithmetic of machine words, results and
-- maps. The other modules follow the code:
--   Codec.Writer, Codec.Reader, Codec.Parser: Writer and Reader of crates/q-codec/src/lib.rs; a Parser is a
--     method of the reader, with the reader passed on.
--   Codec.Errors, Codec.Fact: Direction, CodecError and BridgeFact with encode, decode, is_zero, attest_preimage
--     and validate. The child modules of Codec.Fact hold the proofs.
--   Airlock.Envelope, Airlock.Parse: the types of crates/q-airlock/src/lib.rs and `parse`, whose loop over the signatures
--     is `parse_signatures`. Airlock.Encode: both `encode` functions.
--   Gateway.Operators: crates/q-gateway/src/operators.rs, and supermajority_floor of gateway.rs. The method `remove`
--     is `unregister` here. The loop of verified_quorum is `scan`, one round of it `consider`.
--   Gateway.Errors, Gateway.State, Gateway.Messages: errors.rs, and the types, constants and signed messages of
--     crates/q-gateway/src/gateway.rs.
--   Gateway.Call: a method on `&mut Gateway` is a function from the state to a result and the state, so that an
--     early return keeps what was written before it. `checked` is a check followed by writes that cannot fail.
--   Gateway.Settings, Reserve, Corridor, Pause, Freeze, Exits, Deposit: the methods of Gateway by subject, with
--     the `&self` checks in the child module Checks of each.
--   Gateway.Steps: histories, any sequence of calls with any arguments. The caps, the operator sets and the era are
--     set before. Its children hold what every history keeps.
--   Gateway.Closed: what a paused, frozen or short gateway refuses.
--   Desk.Errors, Desk.Vaults, Desk.Ledger, Desk.Journal: errors.rs, vault.rs, the trait ReplayLedger with MemoryLedger of
--     ledger.rs, and the events and the trait ExitJournal of journal.rs, in crates/q-exits/src. The traits are records with the
--     laws that their users rely on; the method `record` of a ledger is `note`.
--   Desk.Statement, Desk.Attestation, Desk.Outbound: ExitStatement, DeskConfig and Exit of exits.rs, PayoutAttestation of
--     payout.rs and ExitDecision of outbound.rs, with their checks and bytes.
--   Desk.Outbound.Quorum: ExitEnvelope and verify_ack_quorum of outbound.rs.
--   Desk.Journal.Frames: the bytes of PersistentJournal in journal.rs, as `compact` saves them and load_frames reads them,
--     with state_tag of state_mac.rs.
--   Desk.Qtv, Desk.Anchor, Desk.BurnProof: the calls of the qtv crates, as parameters; anchor.rs and burn_proof.rs.
--   Desk.State, Checks, Open, Settle, Reconstruct: ExitDesk of exits.rs and its methods, as functions from the state to a
--     result and the state (Base.Action). `rescue` is the clean-up before an early return of an error.
--   Desk.Moves: the desk as a state machine, what makes its books agree, and how each call ends. Desk.Steps: histories of calls.
--   Tests: concrete runs.
--
-- Representation. Machine integers are natural numbers, with saturating, checked and wrapping operations written
-- out (Base.Words). A byte array `[u8; N]` that is an id or a hash is the number of its bytes, most significant first,
-- which has the same order and equality; the encoder writes it back as N bytes. Byte strings are lists of numbers.
-- BTreeMap and BTreeSet are association lists in key order (Base.Map). A panic is the result `panic`: an
-- overflow of a checked addition is one. Public keys and ML-DSA are the parameter MlDsa: an equality test of
-- keys that decides equality, the length of a signature and the verification function.
--
-- Bounds. All recursion is structural, on the input's lists or on the width of a number: there is no fuel.
--
-- Not modelled. The guard snapshot of the gateway (encode_guard, rehydrate_guard), methods that
-- only return a field, the persistent ledger of q-exits and the journal's calls of its store, its burn watcher, feed, store and RPC, the payout
-- watchers, and the other crates: the light clients qlc-bitcoin, qlc-ethereum and qlc-cosmos, q-bls,
-- q-watchtower, q-attestor, q-federated, q-assets, q-qbridge, q-prover-bridge, q-runtime and q-isolation. The
-- networking, storage and process code of these is input and output, and the hashes and curves are external.
pub mod Base
pub mod Codec
pub mod Airlock
pub mod Gateway
pub mod Desk
pub mod Tests
