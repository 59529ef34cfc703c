-- ===== src/Desk/Journal/Frames/Loaded.antt =====
-- What `compact` saves is loaded again.
use q_oracle.Base.{
  ℕ, suc, ◌+◌, ◌*◌, ◌≤◌, ◌≡◌, refl, sym, ap, ◌∙◌, true, not, List, [], ◌∷◌, ◌++◌, append_assoc,
  arith,
}
use q_oracle.Base.Tests.{◌==◌}
use q_oracle.Base.Lists.{length, take, drop, length-append, All}
use q_oracle.Base.Map.{list_beq, list_beq_iff, nat_key}
use q_oracle.Base.Result.{ok}
use q_oracle.Codec.Bytes.{length-to_be_bytes}
use q_oracle.Desk.Journal.{ExitEvent}
use q_oracle.Desk.Journal.Frames.{
  state_tag, body_of, chain_tag, frame_of, decode_body, decode_frame, slice, genesis_tag,
  compact_frames, compacted, header, load_events, load_frames, max_journal_entries,
}
use q_oracle.Desk.Journal.Frames.RoundTrip.{InRange, decode_body-body_of, length-body_of}
use q_oracle.Desk.Journal.Frames.Saved.{
  take_front, drop_front, saved_length, saved_magic, saved_version, saved_count, saved_head,
  saved_frames, whole_few, whole_enough, whole_long, whole_torn,
}

beq_refl : (xs : List ℕ) → list_beq xs xs ≡ true
beq_refl xs = (list_beq_iff xs xs).1 refl

module _ (sha3_256 : List ℕ → ℕ) (key : List ℕ) where
  length-state_tag : (d m : List ℕ) → length (state_tag sha3_256 key d m) ≡ 32
  unfolding state_tag
  length-state_tag d m = length-to_be_bytes 32 _

  abbrev tag_of : ExitEvent → ℕ → List ℕ → List ℕ
  tag_of e i prev = chain_tag sha3_256 key prev i (body_of e)

  length-tag : (e : ExitEvent) (i : ℕ) (prev : List ℕ) → length (tag_of e i prev) ≡ 32
  unfolding chain_tag
  length-tag e i prev = length-state_tag _ _

  length-frame_of :
      (e : ExitEvent) (i : ℕ) (prev : List ℕ) → length (frame_of sha3_256 key e i prev) ≡ 214
  unfolding frame_of
  length-frame_of e i prev =
      omega
        (arith, length-append (body_of e) (tag_of e i prev), length-body_of e, length-tag e i prev)

  take-frame :
      (e : ExitEvent) (i : ℕ) (prev : List ℕ)
      → take 182 (frame_of sha3_256 key e i prev) ≡ body_of e
  unfolding frame_of
  take-frame e i prev = take_front 182 (body_of e) (tag_of e i prev) (length-body_of e)

  drop-frame :
      (e : ExitEvent) (i : ℕ) (prev : List ℕ)
      → drop 182 (frame_of sha3_256 key e i prev) ≡ tag_of e i prev
  unfolding frame_of
  drop-frame e i prev = drop_front 182 (body_of e) (tag_of e i prev) (length-body_of e)

  decode-frame :
      (e : ExitEvent) (i : ℕ) (prev : List ℕ)
      → InRange e
      → decode_body (frame_of sha3_256 key e i prev) ≡ ok e
  unfolding frame_of
  decode-frame e i prev h = decode_body-body_of e (tag_of e i prev) h

  pub decode_frame-frame_of :
      (e : ExitEvent) (i : ℕ) (prev : List ℕ)
      → InRange e
      → decode_frame sha3_256 key (frame_of sha3_256 key e i prev) i prev ≡ ok e
  unfolding decode_frame
  decode_frame-frame_of e i prev h =
      rw
        (
          length-frame_of e i prev,
          drop-frame e i prev,
          take-frame e i prev,
          beq_refl (tag_of e i prev),
        )
        (decode-frame e i prev h)

  -- the loop reads the frames that `compact` wrote, wherever in the buffer they begin
  load_events-compact_frames :
      (events : List ExitEvent) (i : ℕ) (prev before after : List ℕ)
      → length before ≡ i * 214
      → All InRange events
      → load_events sha3_256 key
          (length events)
          i
          prev
          (before ++ ((compact_frames sha3_256 key events i prev).0 ++ after))
        ≡ ok (events, (compact_frames sha3_256 key events i prev).1)
  unfolding load_events compact_frames slice
  load_events-compact_frames [] i prev before after at h = refl
  load_events-compact_frames (e ∷ events) i prev before after at h =
      let frame = frame_of sha3_256 key e i prev in
      let rest = compact_frames sha3_256 key events (suc i) (drop 182 frame) in
      rw
        (
          append_assoc frame rest.0 after,
          drop_front (i * 214) before (frame ++ (rest.0 ++ after)) at,
          take_front 214 frame (rest.0 ++ after) (length-frame_of e i prev),
          decode_frame-frame_of e i prev h.0,
          sym (append_assoc before frame (rest.0 ++ after)),
          load_events-compact_frames events (suc i) (drop 182 frame) (before ++ frame) after
              (omega (arith, length-append before frame, at, length-frame_of e i prev)) h.1,
        )
        refl

  length-frames :
      (events : List ExitEvent) (i : ℕ) (prev : List ℕ)
      → length (compact_frames sha3_256 key events i prev).0 ≡ length events * 214
  unfolding compact_frames
  length-frames [] i prev = refl
  length-frames (e ∷ events) i prev =
      let frame = frame_of sha3_256 key e i prev in
      let rest = compact_frames sha3_256 key events (suc i) (drop 182 frame) in
      omega (
        arith,
        length-append frame rest.0,
        length-frame_of e i prev,
        length-frames events (suc i) (drop 182 frame),
      )

  length-head :
      (events : List ExitEvent) (i : ℕ) (prev : List ℕ)
      → length prev ≡ 32
      → length (compact_frames sha3_256 key events i prev).1 ≡ 32
  unfolding compact_frames
  length-head [] i prev wide = wide
  length-head (e ∷ events) i prev wide =
      length-head events (suc i) (drop 182 (frame_of sha3_256 key e i prev))
        (ap length (drop-frame e i prev) ∙ length-tag e i prev)

  length-genesis : length (genesis_tag sha3_256 key) ≡ 32
  unfolding genesis_tag
  length-genesis = length-state_tag _ _

-- What `compact` saves is loaded again, also when more bytes stand behind it, as a write that was cut off leaves them: the same
-- events in the same order, the tag of the last event, and whether there were such bytes. The events fit their types, and
-- there are no more bytes than the journal takes.
pub load_frames-compacted :
    (sha3_256 : List ℕ → ℕ) (key : List ℕ) (events : List ExitEvent) (after : List ℕ)
    → All InRange events
    → length events * 214 + length after ≤ max_journal_entries * 214
    → load_frames sha3_256 key (compacted sha3_256 key events ++ after)
      ≡ ok (
        events,
        not (length after == 0),
        (compact_frames sha3_256 key events 0 (genesis_tag sha3_256 key)).1,
      )
unfolding load_frames compacted
load_frames-compacted sha3_256 key events after h few =
    let c = compact_frames sha3_256 key events 0 (genesis_tag sha3_256 key) in
    let n = length events in
    let f = c.0 ++ after in
    let wide =
      length-head sha3_256 key events 0 (genesis_tag sha3_256 key) (length-genesis sha3_256 key) in
    let many =
      length-append c.0 after
      ∙ ap (λ k. k + length after)
          (length-frames sha3_256 key events 0 (genesis_tag sha3_256 key)) in
    rw
      (
        append_assoc (header n c.1) c.0 after,
        saved_length n c.1 f wide,
        saved_magic n c.1 f wide,
        saved_version n c.1 f wide,
        saved_count n c.1 f wide (omega arith),
        saved_head n c.1 f wide,
        saved_frames n c.1 f wide,
        many,
        whole_few n (length after) few,
        whole_enough n (length after) few,
        whole_long n (length after) few,
        whole_torn n (length after) few,
        load_events-compact_frames sha3_256 key events 0 (genesis_tag sha3_256 key) [] after refl h,
        beq_refl c.1,
      )
      refl
