-- ===== src/Gateway/Call.antt =====
-- A method on `&mut Gateway`: the state comes back beside the error too, since what was written before
-- an early return stays written.
use q_oracle.Base.{ℕ, List, [], ◌∷◌, ◌++◌}
use q_oracle.Base.Words.{wrapping_add_u64}
use q_oracle.Base.Result.{Result, ok, err, panic}
use q_oracle.Airlock.Envelope.{SignerSig}
use q_oracle.Gateway.Errors.{GatewayError}
use q_oracle.Gateway.State.{Gateway}

abbrev pub Call : Type 0 → Type 0 → Type 0
Call K A = Gateway K → Result GatewayError A × Gateway K

module _ {K A : Type 0} where
  abbrev pub pure : A → Call K A
  pure a g = (ok a, g)

  -- a `&self` method, its error passed on
  abbrev pub ask : (Gateway K → Result GatewayError A) → Call K A
  ask q g = (q g, g)

  abbrev pub gets : (Gateway K → A) → Call K A
  gets f g = (ok (f g), g)

module _ {K : Type 0} where
  abbrev pub modify : (Gateway K → Gateway K) → Call K (Unit {0})
  modify f g = (ok tt, f g)

  infixl 5 ◌>>=◌ ◌>>◌
  abbrev pub ◌>>=◌ : {A B : Type 0} → Call K A → (A → Call K B) → Call K B
  ◌>>=◌ m f g =
      let (r, g') = m g in elim r [ ok a ↦ f a g' | err e ↦ (err e, g') | panic ↦ (panic, g') ]

  abbrev pub ◌>>◌ : {A B : Type 0} → Call K A → Call K B → Call K B
  m >> k = m >>= λ _. k

  -- `let a = self.check(..)?;` and then writes that cannot fail
  unfoldable pub checked :
      {A : Type 0}
      → (Gateway K → Result GatewayError A)
      → (A → Gateway K → Gateway K)
      → Call K (Unit {0})
  checked check write = do a ← ask check; modify (write a)

  unfoldable pub touch_guard : Gateway K → Gateway K
  touch_guard g = record g { guard_revision = wrapping_add_u64 g.guard_revision 1 }

  unfoldable pub log_admin : List ℕ → List ℕ → List SignerSig → Gateway K → Gateway K
  log_admin domain message signatures g = record g {
    admin_records =
        g.admin_records
        ++ record { domain = domain; message = message; signatures = signatures } ∷ [];
  }
