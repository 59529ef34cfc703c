-- ===== src/Tests/Desk/Stored.antt =====
-- A journal that was written and is loaded again.
use q_oracle.Base.{ℕ, ◌+◌, ◌≡◌, true, List, [], ◌∷◌, ◌++◌, arith}
use q_oracle.Base.Result.{ok}
use q_oracle.Desk.Journal.{ExitEvent, settle_event, slash_event}
use q_oracle.Desk.Journal.Frames.{compacted, compact_frames, genesis_tag, load_frames}
use q_oracle.Desk.Journal.Frames.Loaded.{load_frames-compacted}

abbrev sum : List ℕ → ℕ
sum [] = 0
sum (x ∷ xs) = x + sum xs

abbrev secret : List ℕ
secret = 7 ∷ 9 ∷ []

abbrev events : List ExitEvent
events = settle_event 0 5 ∷ slash_event 1 ∷ []

-- one byte of a third frame was written
load_frames-compacted_example :
    load_frames sum secret (compacted sum secret events ++ 3 ∷ [])
    ≡ ok (events, true, (compact_frames sum secret events 0 (genesis_tag sum secret)).1)
load_frames-compacted_example =
    load_frames-compacted sum secret events (3 ∷ []) ((omega arith, omega arith), (omega arith, tt))
      (omega arith)
