-- ===== src/Tests/Quorum.antt =====
-- The theorems on operator sets at three operators.
use q_oracle.Base.{◌*◌, ◌≤◌, ◌<◌, ◌≡◌, refl, true, some, [], ◌∷◌, arith}
use q_oracle.Base.Lists.{length, All}
use q_oracle.Base.Map.{contains_key, insert, lookup, nat_key}
use q_oracle.Airlock.Envelope.{SignerSig}
use q_oracle.Gateway.Operators.{
  consider, pubkey, register, scan, supermajority_floor, unregister, verified_quorum, verifies,
  verify_quorum, size,
}
use q_oracle.Gateway.Operators.Scan.{has, IsDistinct}
use q_oracle.Gateway.Operators.Quorum.{verified_quorum_sound, verified_quorum_complete}
use q_oracle.Gateway.Operators.Quorum.Overlap.{common, quorums_overlap}
use q_oracle.Gateway.Operators.Keys.{HasDistinctKeys, register-HasDistinctKeys}
use q_oracle.Tests.Fixtures.{ml, sign, sign_all, set}

-- a message of two bytes in a context of one
abbrev good : SignerSig
good = sign 2 (4 ∷ 5 ∷ []) (6 ∷ [])

abbrev broken : SignerSig
broken = sign 3 (4 ∷ 4 ∷ []) (6 ∷ [])

verified_quorum_sound_example :
    All
      (λ s. verifies ml (4 ∷ 5 ∷ []) (6 ∷ []) set s ≡ true)
      (verified_quorum ml (4 ∷ 5 ∷ []) (6 ∷ []) set (good ∷ broken ∷ good ∷ []))
    × IsDistinct (verified_quorum ml (4 ∷ 5 ∷ []) (6 ∷ []) set (good ∷ broken ∷ good ∷ []))
verified_quorum_sound_example =
    verified_quorum_sound ml (4 ∷ 5 ∷ []) (6 ∷ []) set (good ∷ broken ∷ good ∷ [])

good-verifies : verifies ml (4 ∷ 5 ∷ []) (6 ∷ []) set good ≡ true
unfolding verifies pubkey lookup
good-verifies = refl

verified_quorum_complete_example :
    has 2 (verified_quorum ml (4 ∷ 5 ∷ []) (6 ∷ []) set (broken ∷ good ∷ good ∷ [])) ≡ true
verified_quorum_complete_example =
    verified_quorum_complete ml (4 ∷ 5 ∷ []) (6 ∷ []) set (broken ∷ []) (good ∷ []) good
      (omega arith) good-verifies

all_three :
    supermajority_floor (size set)
    ≤ length (verified_quorum ml (4 ∷ 5 ∷ []) (6 ∷ []) set (sign_all (4 ∷ 5 ∷ []) (6 ∷ [])))
unfolding verify_quorum verified_quorum scan consider verifies pubkey supermajority_floor
    contains_key insert lookup
all_three = omega arith

quorums_overlap_example :
    3
    < 3
      * common
          (verified_quorum ml (4 ∷ 5 ∷ []) (6 ∷ []) set (sign_all (4 ∷ 5 ∷ []) (6 ∷ [])))
          (verified_quorum ml (4 ∷ 5 ∷ []) (6 ∷ []) set (sign_all (4 ∷ 5 ∷ []) (6 ∷ [])))
quorums_overlap_example =
    quorums_overlap ml (4 ∷ 5 ∷ []) (6 ∷ []) (4 ∷ 5 ∷ []) (6 ∷ []) set
      (sign_all (4 ∷ 5 ∷ []) (6 ∷ [])) (sign_all (4 ∷ 5 ∷ []) (6 ∷ [])) (omega arith) all_three
      all_three

set-HasDistinctKeys : HasDistinctKeys set
unfolding pubkey lookup
set-HasDistinctKeys i j k hi hj = ground arith

register-HasDistinctKeys_example :
    HasDistinctKeys (register ml 4 14 set).1
    × HasDistinctKeys (unregister 4 set)
    × ((register ml 4 14 set).0 ≡ true → pubkey 4 (register ml 4 14 set).1 ≡ some 14)
register-HasDistinctKeys_example = register-HasDistinctKeys ml 4 14 set set-HasDistinctKeys
