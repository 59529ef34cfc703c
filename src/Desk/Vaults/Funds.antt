-- ===== src/Desk/Vaults/Funds.antt =====
-- The free and the locked collateral of every vault after each effect on a book.
use q_oracle.Base.{ℕ, ◌+◌, ◌-◌, ◌≡◌, ap, ◌∙◌, true, some, arith}
use q_oracle.Base.Tests.{◌==◌, if◌then◌else◌}
use q_oracle.Base.Map.{lookup, replace, contains_key, nat_key, lookup-replace, contains_key-replace}
use q_oracle.Desk.Vaults.{Vault, VaultBook, free_of, locked_of}
use q_oracle.Desk.Vaults.Effects.{Locked, Released, Seized}

-- the funds of every vault after an assignment to one, and after each effect
module _ (v : ℕ) (w : Vault) (s : VaultBook) {old : Vault} (found : lookup v s ≡ some old)
    (k : ℕ) where
  free_of-replace : free_of k (replace v w s) ≡ (if v == k then w.free else free_of k s)
  unfolding free_of
  free_of-replace = ground (arith, lookup-replace v k w s)

  locked_of-replace : locked_of k (replace v w s) ≡ (if v == k then w.locked else locked_of k s)
  unfolding locked_of
  locked_of-replace = ground (arith, lookup-replace v k w s)

-- `a`, for the vault at hand
abbrev pub part : ℕ → ℕ → ℕ → ℕ
part v k a = if v == k then a else 0

module _ (v : ℕ) (w : Vault) (s : VaultBook) (found : lookup v s ≡ some w) where
  pub free_of_found : free_of v s ≡ w.free
  unfolding free_of
  free_of_found = ground arith

  pub locked_of_found : locked_of v s ≡ w.locked
  unfolding locked_of
  locked_of_found = ground arith

module _ (v a : ℕ) (s t : VaultBook) where
  pub Locked-funds :
      (h : Locked v a s t) (k : ℕ)
      → (free_of k s ≡ free_of k t + part v k a) × (locked_of k t ≡ locked_of k s + part v k a)
  Locked-funds h k =
      let w = record h.vault { free = h.vault.free - a; locked = h.vault.locked + a } in
      ground (
        arith,
        ap (free_of k) h.after,
        ap (locked_of k) h.after,
        free_of-replace v w s h.found k,
        locked_of-replace v w s h.found k,
        free_of_found v h.vault s h.found,
        locked_of_found v h.vault s h.found,
      )

  pub Released-funds :
      (h : Released v a s t) (k : ℕ)
      → (free_of k t ≡ free_of k s + part v k a) × (locked_of k s ≡ locked_of k t + part v k a)
  Released-funds h k =
      let w = record h.vault { free = h.vault.free + a; locked = h.vault.locked - a } in
      ground (
        arith,
        ap (free_of k) h.after,
        ap (locked_of k) h.after,
        free_of-replace v w s h.found k,
        locked_of-replace v w s h.found k,
        free_of_found v h.vault s h.found,
        locked_of_found v h.vault s h.found,
      )

  pub Seized-funds :
      (h : Seized v a s t) (k : ℕ)
      → (free_of k t ≡ free_of k s) × (locked_of k s ≡ locked_of k t + part v k a)
  Seized-funds h k =
      let w = record h.vault { locked = h.vault.locked - a } in
      ground (
        arith,
        ap (free_of k) h.after,
        ap (locked_of k) h.after,
        free_of-replace v w s h.found k,
        locked_of-replace v w s h.found k,
        free_of_found v h.vault s h.found,
        locked_of_found v h.vault s h.found,
      )

-- The same vaults are known after each effect.
module _ (v a : ℕ) (s t : VaultBook) (k : ℕ) where
  pub Locked-known : Locked v a s t → contains_key k t ≡ contains_key k s
  Locked-known h = ap (contains_key k) h.after ∙ contains_key-replace v k _ s

  pub Released-known : Released v a s t → contains_key k t ≡ contains_key k s
  Released-known h = ap (contains_key k) h.after ∙ contains_key-replace v k _ s

  pub Seized-known : Seized v a s t → contains_key k t ≡ contains_key k s
  Seized-known h = ap (contains_key k) h.after ∙ contains_key-replace v k _ s

pub contains_key-found :
    (v : ℕ) (w : Vault) (s : VaultBook) → lookup v s ≡ some w → contains_key v s ≡ true
unfolding contains_key
contains_key-found v w s h = ground arith
