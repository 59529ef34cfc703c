-- ===== src/Desk/Journal/Frames.antt =====
-- The frames of crates/q-exits/src/journal.rs: an event in 182 bytes, and a tag that chains it to the events before
-- it. The tag is a hash with the key of
-- state_mac.rs.
pub mod Parts
pub mod RoundTrip
pub mod Saved
pub mod Loaded
use q_oracle.Base.{
  ℕ, suc, zero, ◌+◌, ◌*◌, ◌/◌, ◌%◌, Bool, ◌||◌, not, List, [], ◌∷◌, ◌++◌, map, Option, none, some,
}
use q_oracle.Base.Tests.{ltb, ◌==◌, if◌then◌else◌}
use q_oracle.Base.Lists.{length, take, drop}
use q_oracle.Base.Map.{list_beq, nat_key}
use q_oracle.Base.Result.{Result, ok, err, ok_or, fail_if, ◌>>=◌, ◌>>◌}
use q_oracle.Codec.Bytes.{to_le_bytes, to_be_bytes, from_le_bytes, from_be_bytes}
use q_oracle.Desk.Errors.{ExitError}
use q_oracle.Desk.Journal.{
  JournaledExit, DeadLetter, ExitEvent, open_event, settle_event, slash_event, dead_letter_event,
  tag, from_tag,
}

abbrev pub journal_version : ℕ
journal_version = 3

-- b"QXEJ", b"exit-journal" and b"exit-journal-genesis"
abbrev pub magic : List ℕ
magic = b'Q' ∷ b'X' ∷ b'E' ∷ b'J' ∷ []

abbrev pub domain : List ℕ
domain = b'e' ∷ b'x' ∷ b'i' ∷ b't' ∷ b'-' ∷ b'j' ∷ b'o' ∷ b'u' ∷ b'r' ∷ b'n' ∷ b'a' ∷ b'l' ∷ []

abbrev pub genesis_domain : List ℕ
genesis_domain = domain ++ b'-' ∷ b'g' ∷ b'e' ∷ b'n' ∷ b'e' ∷ b's' ∷ b'i' ∷ b's' ∷ []

abbrev pub body_len : ℕ
body_len = 177

abbrev pub header_len : ℕ
header_len = 45

abbrev pub max_journal_entries : ℕ
max_journal_entries = 8000000

abbrev pub frame_meta : ℕ
frame_meta = 182

abbrev pub frame_len : ℕ
frame_len = 214

abbrev pub kind_open : ℕ
kind_open = 1

abbrev pub kind_settle : ℕ
kind_settle = 2

abbrev pub kind_slash : ℕ
kind_slash = 3

abbrev pub kind_dead : ℕ
kind_dead = 4

-- Parts of a buffer, each with its width in bytes.
abbrev pub Parts : Type 0
Parts = List (ℕ × List ℕ)

abbrev pub word : ℕ → ℕ → ℕ × List ℕ
word n v = (n, to_le_bytes n v)

abbrev pub array : ℕ → ℕ → ℕ × List ℕ
array n v = (n, to_be_bytes n v)

abbrev pub zeros : ℕ → List ℕ
zeros zero = []
zeros (suc n) = 0 ∷ zeros n

abbrev pub blank : ℕ → ℕ × List ℕ
blank n = (n, zeros n)

unfoldable pub joined : Parts → List ℕ
joined [] = []
joined (p ∷ parts) = p.1 ++ joined parts

-- the parts of an event, with the zeros that nothing is written over
abbrev pub parts_of : ExitEvent → Parts
parts_of (open_event index e) =
    word 1 kind_open
    ∷ word 4 index
    ∷ word 1 e.version
    ∷ word 4 e.corridor
    ∷ array 16 e.asset_id
    ∷ word 16 e.amount
    ∷ array 32 e.holder
    ∷ array 32 e.destination
    ∷ array 32 e.burn_ref
    ∷ word 8 e.finalized_height
    ∷ word 4 e.vault_id
    ∷ word 16 e.locked
    ∷ word 8 e.issued_at
    ∷ word 8 e.deadline
    ∷ []
parts_of (settle_event index foreign_ref) =
    word 1 kind_settle ∷ word 4 index ∷ array 32 foreign_ref ∷ blank 145 ∷ []
parts_of (slash_event index) = word 1 kind_slash ∷ word 4 index ∷ blank 177 ∷ []
parts_of (dead_letter_event index l) =
    word 1 kind_dead
    ∷ word 4 index
    ∷ word 8 l.height
    ∷ array 32 l.leaf_digest
    ∷ array 32 l.burn_ref
    ∷ word 1 (tag l.reason)
    ∷ word 8 l.recorded_at
    ∷ blank 96
    ∷ []

unfoldable pub body_of : ExitEvent → List ℕ
body_of event = joined (parts_of event)

unfoldable pub slice : ℕ → ℕ → List ℕ → List ℕ
slice off n bytes = take n (drop off bytes)

unfoldable pub byte_at : ℕ → List ℕ → ℕ
byte_at off bytes = from_le_bytes (slice off 1 bytes)

unfoldable pub u32_at : ℕ → List ℕ → ℕ
u32_at off bytes = from_le_bytes (slice off 4 bytes)

unfoldable pub u64_at : ℕ → List ℕ → ℕ
u64_at off bytes = from_le_bytes (slice off 8 bytes)

unfoldable pub u128_at : ℕ → List ℕ → ℕ
u128_at off bytes = from_le_bytes (slice off 16 bytes)

unfoldable pub arr16 : ℕ → List ℕ → ℕ
arr16 off bytes = from_be_bytes (slice off 16 bytes)

unfoldable pub arr32 : ℕ → List ℕ → ℕ
arr32 off bytes = from_be_bytes (slice off 32 bytes)

-- The events by kind; the offsets of the source's `b`, the body, are counted from the frame's start.
unfoldable pub decode_body : List ℕ → Result ExitError ExitEvent
decode_body f =
    let index = u32_at 1 f in
    if byte_at 0 f == kind_open
    then ok (
        open_event index (record {
          version = byte_at 5 f;
          corridor = u32_at 6 f;
          asset_id = arr16 10 f;
          amount = u128_at 26 f;
          holder = arr32 42 f;
          destination = arr32 74 f;
          burn_ref = arr32 106 f;
          finalized_height = u64_at 138 f;
          vault_id = u32_at 146 f;
          locked = u128_at 150 f;
          issued_at = u64_at 166 f;
          deadline = u64_at 174 f;
        }))
    else if byte_at 0 f == kind_settle
    then ok (settle_event index (arr32 5 f))
    else if byte_at 0 f == kind_slash
    then ok (slash_event index)
    else if byte_at 0 f == kind_dead
    then (ok_or (from_tag (byte_at 77 f)) ExitError.persist_failed >>= λ reason. ok (
        dead_letter_event index (record {
          height = u64_at 5 f;
          leaf_digest = arr32 13 f;
          burn_ref = arr32 45 f;
          reason = reason;
          recorded_at = u64_at 78 f;
        })))
    else err ExitError.persist_failed

unfoldable pub header : ℕ → List ℕ → List ℕ
header count head = magic ++ journal_version ∷ (to_le_bytes 8 count ++ head)

-- b"QORACLE/STATE-TAG/v1"
abbrev pub state_tag_prefix : List ℕ
state_tag_prefix =
    b'Q' ∷ b'O' ∷ b'R' ∷ b'A' ∷ b'C' ∷ b'L' ∷ b'E' ∷ b'/' ∷ b'S' ∷ b'T' ∷ b'A' ∷ b'T' ∷ b'E' ∷ b'-'
    ∷ b'T' ∷ b'A' ∷ b'G' ∷ b'/' ∷ b'v' ∷ b'1' ∷ []

-- The key is read from a file, and empty when there is none.
module _ (sha3_256 : List ℕ → ℕ) (key : List ℕ) where
  unfoldable pub state_tag : List ℕ → List ℕ → List ℕ
  state_tag domain body = to_be_bytes 32 (
      sha3_256 (
        state_tag_prefix
        ++ (to_le_bytes 4 (length domain)
            ++ (domain ++ (to_le_bytes 4 (length key) ++ (key ++ body))))))

  unfoldable pub genesis_tag : List ℕ
  genesis_tag = state_tag genesis_domain (magic ++ journal_version ∷ [])

  unfoldable pub chain_tag : List ℕ → ℕ → List ℕ → List ℕ
  chain_tag prev seq meta = state_tag domain (prev ++ (to_le_bytes 8 seq ++ meta))

  unfoldable pub frame_of : ExitEvent → ℕ → List ℕ → List ℕ
  frame_of event seq prev = let meta = body_of event in meta ++ chain_tag prev seq meta

  unfoldable pub decode_frame : List ℕ → ℕ → List ℕ → Result ExitError ExitEvent
  decode_frame frame seq prev = do
    fail_if (not (length frame == frame_len)) ExitError.persist_failed
    fail_if (not (list_beq (drop frame_meta frame) (chain_tag prev seq (take frame_meta frame))))
        ExitError.persist_failed
    decode_body frame

  -- the frames of `compact`, and the tag of the last
  unfoldable pub compact_frames : List ExitEvent → ℕ → List ℕ → List ℕ × List ℕ
  compact_frames [] i prev = ([], prev)
  compact_frames (event ∷ events) i prev =
      let frame = frame_of event i prev in
      let rest = compact_frames events (suc i) (drop frame_meta frame) in (frame ++ rest.0, rest.1)

  -- what `compact` saves
  unfoldable pub compacted : List ExitEvent → List ℕ
  compacted events =
      let frames = compact_frames events 0 genesis_tag in
      header (length events) frames.1 ++ frames.0

  -- the loop of `load_frames`, with the frames still to read and the index of the next
  unfoldable pub load_events : ℕ → ℕ → List ℕ → List ℕ → Result ExitError (List ExitEvent × List ℕ)
  load_events zero i prev body = ok ([], prev)
  load_events (suc left) i prev body = do
    let frame = slice (i * frame_len) frame_len body
    event ← decode_frame frame i prev
    rest ← load_events left (suc i) (drop frame_meta frame) body
    ok (event ∷ rest.0, rest.1)

  -- The events, whether something is torn at the end, and the tag of the last event.
  unfoldable pub load_frames : List ℕ → Result ExitError (List ExitEvent × Bool × List ℕ)
  load_frames bytes = do
    fail_if
        (ltb (length bytes) header_len
          || not (list_beq (take 4 bytes) magic)
          || not (byte_at 4 bytes == journal_version))
        ExitError.persist_failed
    let count = u64_at 5 bytes
    let head_expected = slice 13 32 bytes
    let body = drop header_len bytes
    let whole = length body / frame_len
    fail_if (ltb max_journal_entries whole) ExitError.persist_failed
    fail_if (ltb whole count) ExitError.persist_failed
    loaded ← load_events count 0 genesis_tag body
    fail_if (not (list_beq loaded.1 head_expected)) ExitError.persist_failed
    ok (loaded.0, not (length body % frame_len == 0) || ltb count whole, loaded.1)
