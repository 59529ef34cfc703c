-- ===== src/Desk/Journal/Frames/RoundTrip.antt =====
-- A frame is decoded to the event that it was made of.
use q_oracle.Base.{ℕ, suc, zero, ◌+◌, ◌^◌, ◌<◌, ◌≡◌, refl, ap, some, List, [], ◌∷◌, ◌++◌, arith}
use q_oracle.Base.Lists.{length, length-append}
use q_oracle.Base.Result.{ok}
use q_oracle.Codec.Bytes.{length-to_le_bytes, length-to_be_bytes}
use q_oracle.Desk.Journal.{
  ExitEvent, DeadReason, tag, from_tag, open_event, settle_event, slash_event, dead_letter_event,
}
use q_oracle.Desk.Journal.Frames.{
  Parts, joined, parts_of, word, array, zeros, body_of, decode_body, byte_at, u32_at, u64_at,
  u128_at, arr16, arr32, kind_open, kind_settle, kind_slash, kind_dead,
}
use q_oracle.Desk.Journal.Frames.Parts.{Sized, word_at, array_at}

-- Every field fits the type that the source gives it.
abbrev pub InRange : ExitEvent → Type 0
InRange (open_event index e) =
    (index < 256 ^ 4)
    × (e.version < 256 ^ 1)
    × (e.corridor < 256 ^ 4)
    × (e.asset_id < 256 ^ 16)
    × (e.amount < 256 ^ 16)
    × (e.holder < 256 ^ 32)
    × (e.destination < 256 ^ 32)
    × (e.burn_ref < 256 ^ 32)
    × (e.finalized_height < 256 ^ 8)
    × (e.vault_id < 256 ^ 4)
    × (e.locked < 256 ^ 16)
    × (e.issued_at < 256 ^ 8)
    × (e.deadline < 256 ^ 8)
InRange (settle_event index foreign_ref) = (index < 256 ^ 4) × (foreign_ref < 256 ^ 32)
InRange (slash_event index) = index < 256 ^ 4
InRange (dead_letter_event index l) =
    (index < 256 ^ 4)
    × (l.height < 256 ^ 8)
    × (l.leaf_digest < 256 ^ 32)
    × (l.burn_ref < 256 ^ 32)
    × (l.recorded_at < 256 ^ 8)

length-zeros : (n : ℕ) → length (zeros n) ≡ n
length-zeros zero = refl
length-zeros (suc n) = ap suc (length-zeros n)

sized_word : (n v : ℕ) → length (word n v).1 ≡ n
sized_word n v = length-to_le_bytes n v

sized_array : (n v : ℕ) → length (array n v).1 ≡ n
sized_array n v = length-to_be_bytes n v

pub parts_of-Sized : (e : ExitEvent) → Sized (parts_of e)
parts_of-Sized (open_event index e) = (
  sized_word 1 _,
  (
    sized_word 4 _,
    (
      sized_word 1 _,
      (
        sized_word 4 _,
        (
          sized_array 16 _,
          (
            sized_word 16 _,
            (
              sized_array 32 _,
              (
                sized_array 32 _,
                (
                  sized_array 32 _,
                  (
                    sized_word 8 _,
                    (sized_word 4 _, (sized_word 16 _, (sized_word 8 _, (sized_word 8 _, tt)))),
                  ),
                ),
              ),
            ),
          ),
        ),
      ),
    ),
  ),
)
parts_of-Sized (settle_event index r) =
    (sized_word 1 _, (sized_word 4 _, (sized_array 32 _, (length-zeros 145, tt))))
parts_of-Sized (slash_event index) = (sized_word 1 _, (sized_word 4 _, (length-zeros 177, tt)))
parts_of-Sized (dead_letter_event index l) = (
  sized_word 1 _,
  (
    sized_word 4 _,
    (
      sized_word 8 _,
      (
        sized_array 32 _,
        (sized_array 32 _, (sized_word 1 _, (sized_word 8 _, (length-zeros 96, tt)))),
      ),
    ),
  ),
)

from_tag-tag : (r : DeadReason) → from_tag (tag r) ≡ some r
unfolding from_tag tag
from_tag-tag DeadReason.unproven = refl
from_tag-tag DeadReason.malformed = refl
from_tag-tag DeadReason.wrong_destination = refl
from_tag-tag DeadReason.unserved_asset = refl
from_tag-tag DeadReason.above_ceiling = refl
from_tag-tag DeadReason.unknown_vault = refl
from_tag-tag DeadReason.refused = refl

tag-lt : (r : DeadReason) → tag r < 256 ^ 1
unfolding tag
tag-lt r = ground arith

pub decode_body-body_of :
    (e : ExitEvent) (rest : List ℕ) → InRange e → decode_body (body_of e ++ rest) ≡ ok e
unfolding decode_body body_of byte_at u32_at u64_at u128_at arr16 arr32
decode_body-body_of (slash_event index) rest h =
    let p = parts_of (slash_event index) in
    let z = parts_of-Sized (slash_event index) in
    rw (word_at p z rest 0 kind_slash 1 refl (omega arith), word_at p z rest 1 index 4 refl h) refl
decode_body-body_of (settle_event index r) rest h =
    let p = parts_of (settle_event index r) in
    let z = parts_of-Sized (settle_event index r) in
    rw
      (
        word_at p z rest 0 kind_settle 1 refl (omega arith),
        word_at p z rest 1 index 4 refl h.0,
        array_at p z rest 2 r 32 refl h.1,
      )
      refl
decode_body-body_of (open_event index e) rest h =
    let p = parts_of (open_event index e) in
    let z = parts_of-Sized (open_event index e) in
    rw
      (
        word_at p z rest 0 kind_open 1 refl (omega arith),
        word_at p z rest 1 index 4 refl h.0,
        word_at p z rest 2 e.version 1 refl h.1,
        word_at p z rest 3 e.corridor 4 refl h.2,
        array_at p z rest 4 e.asset_id 16 refl h.3,
        word_at p z rest 5 e.amount 16 refl h.4,
        array_at p z rest 6 e.holder 32 refl h.5,
        array_at p z rest 7 e.destination 32 refl h.6,
        array_at p z rest 8 e.burn_ref 32 refl h.7,
        word_at p z rest 9 e.finalized_height 8 refl h.8,
        word_at p z rest 10 e.vault_id 4 refl h.9,
        word_at p z rest 11 e.locked 16 refl h.10,
        word_at p z rest 12 e.issued_at 8 refl h.11,
        word_at p z rest 13 e.deadline 8 refl h.12,
      )
      refl
decode_body-body_of (dead_letter_event index l) rest h =
    let p = parts_of (dead_letter_event index l) in
    let z = parts_of-Sized (dead_letter_event index l) in
    rw
      (
        word_at p z rest 0 kind_dead 1 refl (omega arith),
        word_at p z rest 1 index 4 refl h.0,
        word_at p z rest 2 l.height 8 refl h.1,
        array_at p z rest 3 l.leaf_digest 32 refl h.2,
        array_at p z rest 4 l.burn_ref 32 refl h.3,
        word_at p z rest 5 (tag l.reason) 1 refl (tag-lt l.reason),
        word_at p z rest 6 l.recorded_at 8 refl h.4,
        from_tag-tag l.reason,
      )
      refl

-- The body of an event is as long as its parts.
widths : Parts → ℕ
widths [] = 0
widths (p ∷ parts) = p.0 + widths parts

length-joined : (parts : Parts) → Sized parts → length (joined parts) ≡ widths parts
unfolding joined widths
length-joined [] z = refl
length-joined ((n, bs) ∷ parts) z =
    omega (arith, length-append bs (joined parts), z.0, length-joined parts z.1)

pub length-body_of : (e : ExitEvent) → length (body_of e) ≡ 182
unfolding body_of widths
length-body_of (open_event index e) =
    length-joined (parts_of (open_event index e)) (parts_of-Sized (open_event index e))
length-body_of (settle_event index r) =
    length-joined (parts_of (settle_event index r)) (parts_of-Sized (settle_event index r))
length-body_of (slash_event index) =
    length-joined (parts_of (slash_event index)) (parts_of-Sized (slash_event index))
length-body_of (dead_letter_event index l) =
    length-joined (parts_of (dead_letter_event index l))
      (parts_of-Sized (dead_letter_event index l))
