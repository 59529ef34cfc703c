-- ===== src/Gateway/Steps/Checked.antt =====
-- A call that checks and then writes: whatever holds of the state before and after the writes holds of
-- the state that the call leaves, and it succeeds exactly where the check does.
use q_oracle.Base.{◌≡◌, refl, arith}
use q_oracle.Base.Result.{Result, ok, err, panic}
use q_oracle.Gateway.Errors.{GatewayError}
use q_oracle.Gateway.State.{Gateway}
use q_oracle.Gateway.Call.{checked}

module _ {K A : Type 0} (q : Gateway K → Result GatewayError A) (write : A → Gateway K → Gateway K)
    (g : Gateway K) where
  pub checked-cases :
      (P : Gateway K → Type 0)
      → P g
      → ((a : A) → q g ≡ ok a → P (write a g))
      → P (checked q write g).1
  unfolding checked
  checked-cases P before after = go (q g) refl
    where
      go :
          (m : Result GatewayError A)
          → q g ≡ m
          → P
              (elim m as (λ _. Result GatewayError (Unit {0}) × Gateway K) [
                | ok a ↦ (ok tt, write a g)
                | err e ↦ (err e, g)
                | panic ↦ (panic, g)
              ]).1
      go (ok a) e = after a e
      go (err x) e = before
      go panic e = before

  -- An error of the check leaves the state alone.
  pub checked-err : (e : GatewayError) → (checked q write g).0 ≡ err e → (checked q write g).1 ≡ g
  unfolding checked
  checked-err e h = ground arith

  pub checked-ok :
      {u : Unit {0}}
      → (checked q write g).0 ≡ ok u
      → (a : A) × (q g ≡ ok a) × ((checked q write g).1 ≡ write a g)
  unfolding checked
  checked-ok h = ground arith
