-- ===== src/Desk/Moves/Backing.antt =====
-- On a sound desk the collateral of a pending exit can be released and seized.
use q_oracle.Base.{ℕ, ◌+◌, ◌≤◌, ◌≡◌, refl, true, some, inl, inr, arith}
use q_oracle.Base.Tests.{Option-cases}
use q_oracle.Base.Words.{u128_max}
use q_oracle.Base.Map.{lookup, contains_key, nat_key}
use q_oracle.Desk.Vaults.{Vault, VaultBook}
use q_oracle.Desk.Vaults.Effects.{Released, Seized}
use q_oracle.Desk.Vaults.Funds.{free_of_found, locked_of_found}
use q_oracle.Desk.Statement.{Exit, is_pending}
use q_oracle.Desk.State.{ExitDesk, get}
use q_oracle.Desk.Sums.{locked_share, sum_by-get, All-get}
use q_oracle.Desk.Moves.Sound.{IsSound, pending_share}

known_vault :
    (v : ℕ) (s : VaultBook) → contains_key v s ≡ true → (w : Vault) × (lookup v s ≡ some w)
unfolding contains_key
known_vault v s h = elim (Option-cases (lookup v s)) [
  | inl e ↦ absurd (ground arith)
  | inr (w, e) ↦ (w, e)
]

module _ {Anchor L J : Type 0} (d : ExitDesk Anchor L J) (sound : IsSound d) (id : ℕ) (exit : Exit)
    (at : get id d.exits ≡ some exit) (was : is_pending exit ≡ true) where
  -- the vault of a pending exit holds what the exit locked, and has room for it
  backing :
      (w : Vault) × (lookup exit.vault_id d.vaults ≡ some w)
      × (exit.locked ≤ w.locked)
      × (w.free + exit.locked ≤ u128_max)
  backing =
      let (w, found) =
        known_vault exit.vault_id d.vaults (All-get _ id exit d.exits sound.held at) in
      let v = exit.vault_id in
      let shared : exit.locked ≤ w.locked = ground (
        arith,
        locked_of_found v w d.vaults found,
        sound.backed v,
        sum_by-get (locked_share v) id exit d.exits at,
        pending_share v exit was,
      ) in
      (
        w,
        found,
        shared,
        omega (
          arith,
          shared,
          sound.room v,
          free_of_found v w d.vaults found,
          locked_of_found v w d.vaults found,
        ),
      )

  pub can_release : (s : VaultBook) × Released exit.vault_id exit.locked d.vaults s
  can_release =
      let (w, found, enough, fits) = backing in
      (_, record { vault = w; found = found; enough = enough; fits = fits; after = refl })

  pub can_seize : (s : VaultBook) × Seized exit.vault_id exit.locked d.vaults s
  can_seize =
      let (w, found, enough, fits) = backing in
      (_, record { vault = w; found = found; enough = enough; after = refl })
