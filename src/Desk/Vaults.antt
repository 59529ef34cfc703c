-- ===== src/Desk/Vaults.antt =====
-- crates/q-exits/src/vault.rs: the collateral of the vaults, free or locked for an exit.
pub mod Effects
pub mod Funds
use q_oracle.Base.{
  ℕ, ◌+◌, ◌-◌, max, Bool, true, false, ◌&&◌, ◌||◌, Option, none, some, List, [], ◌∷◌,
}
use q_oracle.Base.Tests.{ltb, leb, ◌==◌, if◌then◌else◌}
use q_oracle.Base.Words.{sat_add_u128, checked_add_u128, checked_sub}
use q_oracle.Base.Result.{Result, ok, err, ok_or, fail_if}
use q_oracle.Base.Action.{Action, pure, ask, gets, modify, require, fail, ◌>>=◌, ◌>>◌}
use q_oracle.Base.Map.{Map, lookup, or_insert, replace, contains_key, nat_key}
use q_oracle.Desk.Errors.{ExitError}

pub record Vault : Type 0 where
  pub vault_id : ℕ
  pub free : ℕ
  pub locked : ℕ

abbrev pub VaultBook : Type 0
VaultBook = Map ℕ Vault

abbrev pub new : VaultBook
new = []

unfoldable pub free_of : ℕ → VaultBook → ℕ
free_of vault_id vaults = elim (lookup vault_id vaults) [ none ↦ 0 | some v ↦ v.free ]

unfoldable pub locked_of : ℕ → VaultBook → ℕ
locked_of vault_id vaults = elim (lookup vault_id vaults) [ none ↦ 0 | some v ↦ v.locked ]

-- `entry(..).or_insert(..)`, and the write through the reference it gives
unfoldable pub register : ℕ → ℕ → VaultBook → VaultBook
register vault_id collateral vaults =
    let opened = or_insert vault_id (record { vault_id = vault_id; free = 0; locked = 0 }) vaults in
    elim (lookup vault_id opened) [
      | none ↦ opened
      | some v ↦ replace vault_id (record v { free = sat_add_u128 v.free collateral }) opened
    ]

-- The vault with the least free collateral among those that have enough, the least id first.
unfoldable pub precedes : Vault → Vault → Bool
precedes a b = ltb a.free b.free || (a.free == b.free && leb a.vault_id b.vault_id)

unfoldable pub choose : ℕ → VaultBook → Option Vault
choose amount [] = none
choose amount ((_, v) ∷ rest) =
    let later = choose amount rest in
    if ltb v.free amount
    then later
    else elim later [ none ↦ some v | some w ↦ if precedes v w then some v else some w ]

unfoldable pub most_free : VaultBook → ℕ
most_free [] = 0
most_free ((_, v) ∷ rest) = max v.free (most_free rest)

unfoldable pub lock : ℕ → ℕ → Action VaultBook ExitError (Unit {0})
lock vault_id amount = do
  vault ← ask λ vaults. ok_or (lookup vault_id vaults) (ExitError.unknown_vault vault_id)
  require (ltb vault.free amount) (ExitError.thin_vault vault.free amount)
  locked ← ask λ _. ok_or (checked_add_u128 vault.locked amount) ExitError.overflow
  modify (replace vault_id (record vault { free = vault.free - amount; locked = locked }))

unfoldable pub lock_any : ℕ → Action VaultBook ExitError ℕ
lock_any amount vaults = elim (choose amount vaults) [
  | none ↦ (err (ExitError.thin_vault (most_free vaults) amount), vaults)
  | some v ↦ (lock v.vault_id amount >> pure v.vault_id) vaults
]

unfoldable pub release : ℕ → ℕ → Action VaultBook ExitError (Unit {0})
release vault_id amount = do
  vault ← ask λ vaults. ok_or (lookup vault_id vaults) (ExitError.unknown_vault vault_id)
  locked ← ask λ _. ok_or (checked_sub vault.locked amount) ExitError.overflow
  free ← ask λ _. ok_or (checked_add_u128 vault.free amount) ExitError.overflow
  modify (replace vault_id (record vault { free = free; locked = locked }))

unfoldable pub seize : ℕ → ℕ → Action VaultBook ExitError (Unit {0})
seize vault_id amount = do
  vault ← ask λ vaults. ok_or (lookup vault_id vaults) (ExitError.unknown_vault vault_id)
  locked ← ask λ _. ok_or (checked_sub vault.locked amount) ExitError.overflow
  modify (replace vault_id (record vault { locked = locked }))
