-- ===== src/Desk/Anchor.antt =====
-- crates/q-exits/src/anchor.rs: the committee of Quantova that the desk trusts.
use q_oracle.Base.{ℕ, Bool, ◌||◌, not, List, [], ◌∷◌, ◌++◌}
use q_oracle.Base.Tests.{ltb, ◌==◌, if◌then◌else◌}
use q_oracle.Base.Lists.{length, all, any}
use q_oracle.Base.Map.{list_beq, nat_key}
use q_oracle.Base.Result.{Result, ok, fail_if, ◌>>=◌, ◌>>◌}
use q_oracle.Desk.Errors.{ExitError}
use q_oracle.Desk.Qtv.{Qtv, MemberKey}

pub record MemberConfig : Type 0 where
  pub id : ℕ
  pub weight : ℕ
  pub stake : ℕ
  pub root_digest : ℕ
  pub root_slots : ℕ
  pub attest_pk : List ℕ

pub record QuantovaAnchor (Commitment Beacon : Type 0) : Type 0 where
  pub chain_id : ℕ
  pub genesis : ℕ
  pub tau : ℕ
  pub commitment : Commitment
  pub keys : List MemberKey
  pub budget : ℕ
  pub beacon : Beacon

unfoldable pub member_key : MemberConfig → MemberKey
member_key m = record {
  id = m.id;
  weight = m.weight;
  stake = m.stake;
  root_digest = m.root_digest;
  root_slots = m.root_slots;
  attest_pk = m.attest_pk;
}

-- `k.id == member.id || k.attest_pk[..] == member.attest_pk[..]`
unfoldable pub clashes : MemberConfig → MemberKey → Bool
clashes m k = k.id == m.id || list_beq k.attest_pk m.attest_pk

module _ {H C I Commitment Beacon : Type 0} (qtv : Qtv H C I Commitment Beacon) where
  -- the loop over the members, with the keys so far
  unfoldable pub admit : List MemberConfig → List MemberKey → Result ExitError (List MemberKey)
  admit [] keys = ok keys
  admit (m ∷ members) keys = do
    fail_if (not (length m.attest_pk == qtv.public_key_bytes)) ExitError.bad_public_key_len
    fail_if (all (λ b. b == 0) m.attest_pk) (ExitError.degenerate_key m.id)
    fail_if (any (clashes m) keys) (ExitError.duplicate_member m.id)
    admit members (keys ++ member_key m ∷ [])

  unfoldable pub from_config :
      (chain_id tau slot budget beacon_seed : ℕ)
      → List MemberConfig
      → Result ExitError (QuantovaAnchor Commitment Beacon)
  from_config chain_id tau slot budget beacon_seed members = do
    fail_if (chain_id == 0 || tau == 0) ExitError.unset_anchor
    fail_if (length members == 0) ExitError.unset_anchor
    keys ← admit members []
    fail_if (ltb (length keys) tau) ExitError.tau_above_committee
    let need = qtv.finality_threshold (length keys)
    fail_if (ltb tau need) (ExitError.tau_below_quorum tau need)
    ok (record {
      chain_id = chain_id;
      genesis = 0;
      tau = tau;
      commitment = qtv.commitment_from slot keys budget;
      keys = keys;
      budget = budget;
      beacon = qtv.beacon_from_seed beacon_seed;
    })

  unfoldable pub commitment_at : ℕ → QuantovaAnchor Commitment Beacon → Commitment
  commitment_at slot a =
      if slot == qtv.commitment_slot a.commitment
      then a.commitment
      else qtv.commitment_from slot a.keys a.budget

module _ {Commitment Beacon : Type 0} where
  unfoldable pub with_genesis :
      ℕ → QuantovaAnchor Commitment Beacon → QuantovaAnchor Commitment Beacon
  with_genesis genesis a = record a { genesis = genesis }

  unfoldable pub binding : QuantovaAnchor Commitment Beacon → ℕ × ℕ
  binding a = (a.chain_id, a.genesis)
