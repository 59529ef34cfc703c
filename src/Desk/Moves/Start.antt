-- ===== src/Desk/Moves/Start.antt =====
-- A desk that is assembled, with its vaults registered, is sound.
use q_oracle.Base.{
  ℕ, ◌+◌, ◌≤◌, ◌≡◌, refl, ◌∙◌, subst, Bool, true, false, Option, none, some, List, [], ◌∷◌, inl,
  inr, arith,
}
use q_oracle.Base.Tests.{◌==◌, if◌then◌else◌, ==_iff, ==_refl, Option-cases}
use q_oracle.Base.Words.{u128_max, sat_add_u128}
use q_oracle.Base.Lists.{All}
use q_oracle.Base.Result.{ok, err, ok-injective}
use q_oracle.Base.Map.{
  lookup, insert, contains_key, or_insert, nat_key, lookup-insert, lookup-replace,
}
use q_oracle.Desk.Errors.{ExitError}
use q_oracle.Desk.Vaults.{Vault, VaultBook, register, free_of, locked_of}
use q_oracle.Desk.Statement.{DeskConfig, Exit, is_unsafe}
use q_oracle.Desk.State.{ExitDesk, assemble, fresh_desk, register_vault}
use q_oracle.Desk.Moves.Sound.{IsSound}

-- what a registration does to every vault
after_register : (v c k : ℕ) (s : VaultBook) → Option Vault
after_register v c k s =
    if v == k
    then (elim (lookup v s) [
      | none ↦ some (record { vault_id = v; free = sat_add_u128 0 c; locked = 0 })
      | some w ↦ some (record w { free = sat_add_u128 w.free c })
    ])
    else lookup k s

lookup-register : (v c k : ℕ) (s : VaultBook) → lookup k (register v c s) ≡ after_register v c k s
unfolding register or_insert contains_key after_register
lookup-register v c k s =
    let fresh : Vault = record { vault_id = v; free = 0; locked = 0 } in
    let filled : Vault = record { vault_id = v; free = sat_add_u128 0 c; locked = 0 } in
    elim (Option-cases (lookup v s)) [
      | inl e ↦ ground (
        arith,
        e,
        lookup-insert v k fresh s,
        lookup-insert v v fresh s,
        lookup-replace v k filled (insert v fresh s),
        ==_refl v,
      )
      | inr (w, e) ↦
          ground (arith, e, lookup-replace v k (record w { free = sat_add_u128 w.free c }) s)
    ]

module _ (v c k : ℕ) (s : VaultBook) where
  free_of-register :
      free_of k (register v c s) ≡ (if v == k then sat_add_u128 (free_of v s) c else free_of k s)
  unfolding free_of after_register
  free_of-register = ground (arith, lookup-register v c k s)

  locked_of-register : locked_of k (register v c s) ≡ locked_of k s
  unfolding locked_of after_register
  locked_of-register = ground (arith, lookup-register v c k s, (==_iff v k).0)

  contains_key-register : contains_key k s ≡ true → contains_key k (register v c s) ≡ true
  unfolding contains_key after_register
  contains_key-register h = ground (arith, lookup-register v c k s)

held_more :
    (v c : ℕ) (s : VaultBook) (exits : List Exit)
    → All (λ e. contains_key e.vault_id s ≡ true) exits
    → All (λ e. contains_key e.vault_id (register v c s) ≡ true) exits
held_more v c s [] h = tt
held_more v c s (e ∷ exits) h =
    (contains_key-register v c e.vault_id s h.0, held_more v c s exits h.1)

module _ {Anchor L J : Type 0} where
  -- Registering a vault keeps a desk sound, as long as its collateral with what is locked is a `u128`.
  pub register_vault-IsSound :
      (v c : ℕ) (d : ExitDesk Anchor L J)
      → IsSound d
      → free_of v d.vaults + locked_of v d.vaults + c ≤ u128_max
      → IsSound (register_vault v c d)
  unfolding register_vault
  register_vault-IsSound v c d h small = record {
    room = λ k. ground (
      arith,
      h.room k,
      (==_iff v k).0,
      free_of-register v c k d.vaults,
      locked_of-register v c k d.vaults,
    );
    backed = λ k. locked_of-register v c k d.vaults ∙ h.backed k;
    held = held_more v c d.vaults d.exits h.held;
  }

  pub fresh_desk-IsSound :
      (cfg : DeskConfig) (anchor : Anchor) (consumed : L) (journal : J)
      → IsSound (fresh_desk cfg anchor consumed journal)
  unfolding free_of locked_of lookup
  fresh_desk-IsSound cfg anchor consumed journal = record {
    room = λ k. omega arith;
    backed = λ k. refl;
    held = tt;
  }

  -- A new desk is sound.
  pub assemble-IsSound :
      (cfg : DeskConfig) (anchor : Anchor) (consumed : L) (journal : J) (d : ExitDesk Anchor L J)
      → assemble cfg anchor consumed journal ≡ ok d
      → IsSound d
  unfolding assemble
  assemble-IsSound cfg anchor consumed journal d h = go (is_unsafe cfg) h
    where
      go :
          (b : Bool)
          → (if b then err ExitError.unsafe_params else ok (fresh_desk cfg anchor consumed journal))
            ≡ ok d
          → IsSound d
      go true e = cc e
      go false e = subst IsSound (ok-injective e) (fresh_desk-IsSound cfg anchor consumed journal)
