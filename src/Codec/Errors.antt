-- ===== src/Codec/Errors.antt =====
-- `CodecError` and `Direction` of crates/q-codec/src/lib.rs.
use q_oracle.Base.{ℕ, ◌≡◌, arith}
use q_oracle.Base.Tests.{◌==◌, if◌then◌else◌}
use q_oracle.Base.Result.{Result, ok, err}

pub data CodecError : Type 0 where
  short_input trailing_bytes : CodecError
  unknown_tag bad_version : ℕ → CodecError
  zero_amount zero_asset zero_recipient zero_source_ref zero_chain length_mismatch : CodecError

pub data Direction : Type 0 where
  deposit exit_ack : Direction

unfoldable pub tag : Direction → ℕ
tag deposit = 0
tag exit_ack = 1

unfoldable pub from_tag : ℕ → Result CodecError Direction
from_tag t = if t == 0 then ok deposit else if t == 1 then ok exit_ack else err (unknown_tag t)

pub from_tag-tag : (d : Direction) → from_tag (tag d) ≡ ok d
unfolding from_tag tag
from_tag-tag deposit = ground arith
from_tag-tag exit_ack = ground arith

pub tag-from_tag : (t : ℕ) (d : Direction) → from_tag t ≡ ok d → tag d ≡ t
unfolding from_tag tag
tag-from_tag t d h = ground arith
