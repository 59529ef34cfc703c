-- ===== src/Gateway/Corridor.antt =====
-- Corridors, crates/q-gateway/src/gateway.rs: registration, quorum, tier and the batch cursor.
pub mod Checks
use q_oracle.Base.{ℕ, ◌*◌, Bool, true, ◌||◌, Option, none, some, List, [], ◌∷◌}
use q_oracle.Base.Tests.{ltb, leb, if◌then◌else◌}
use q_oracle.Base.Words.{sat_mul_u64}
use q_oracle.Base.Result.{Result, ok, err, fail_if, ok_or}
use q_oracle.Base.Map.{Map, lookup, insert, or_insert, nat_key}
use q_oracle.Airlock.Envelope.{SignerSig}
use q_oracle.Gateway.Errors.{GatewayError}
use q_oracle.Gateway.Operators.{MlDsa, size}
use q_oracle.Gateway.Messages.{tier_domain}
use q_oracle.Gateway.State.{Gateway, CorridorConfig, base_tier}
use q_oracle.Gateway.Call.{
  Call, pure, ask, gets, modify, ◌>>=◌, ◌>>◌, checked, touch_guard, log_admin,
}
use Checks.{check_tier, check_batch}

module _ {K : Type 0} where
  unfoldable pub register_corridor : ℕ → ℕ → Gateway K → Gateway K
  register_corridor source_chain confirmation_depth g = record g {
    corridors =
        or_insert source_chain
          (record {
            confirmation_depth = confirmation_depth;
            quorum = 0;
            tier = base_tier;
            active = true;
          })
          g.corridors;
  }

  unfoldable pub set_corridor_active : ℕ → Bool → Gateway K → Gateway K
  unfolding touch_guard
  set_corridor_active source_chain active g = elim (lookup source_chain g.corridors) [
    | none ↦ g
    | some c ↦
        touch_guard
          (record g { corridors = insert source_chain (record c { active = active }) g.corridors })
  ]

  unfoldable pub set_corridor_quorum : ℕ → ℕ → Call K (Unit {0})
  unfolding touch_guard
  set_corridor_quorum source_chain quorum = do
    n ← gets (λ g. size g.operators)
    ask λ _.
        fail_if (ltb quorum 2 || ltb n quorum || leb (sat_mul_u64 quorum 3) (sat_mul_u64 n 2))
          (GatewayError.thin_quorum quorum n)
    corridor ←
        ask
          λ g. ok_or (lookup source_chain g.corridors) (GatewayError.corridor_not_open source_chain)
    modify λ g. touch_guard (record g {
      corridors = insert source_chain (record corridor { quorum = quorum }) g.corridors;
    })

  -- The tier of a corridor that is open.
  unfoldable pub write_tier : ℕ → ℕ → List ℕ × List SignerSig → Gateway K → Gateway K
  unfolding touch_guard log_admin
  write_tier source_chain proposed (message, accepted) g = elim (lookup source_chain g.corridors) [
    | none ↦ g
    | some c ↦ touch_guard (
        log_admin tier_domain message accepted
          (record g { corridors = insert source_chain (record c { tier = proposed }) g.corridors }))
  ]

  unfoldable pub set_corridor_tier : MlDsa K → ℕ → ℕ → List SignerSig → Call K (Unit {0})
  set_corridor_tier ml source_chain proposed sigs =
      checked (check_tier ml source_chain proposed sigs) (write_tier source_chain proposed)

  unfoldable pub write_batch : ℕ → ℕ → Gateway K → Gateway K
  unfolding touch_guard
  write_batch source_chain next g =
      touch_guard (record g { corridor_cursor = insert source_chain next g.corridor_cursor })

  unfoldable pub accept_batch : MlDsa K → ℕ → ℕ → List SignerSig → Call K (Unit {0})
  accept_batch ml source_chain batch_index sigs =
      checked (check_batch ml source_chain batch_index sigs) (write_batch source_chain)
