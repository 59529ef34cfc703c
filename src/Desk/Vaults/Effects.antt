-- ===== src/Desk/Vaults/Effects.antt =====
-- What a lock, a release and a seizure of collateral do to a book.
use q_oracle.Base.{ℕ, ◌+◌, ◌-◌, ◌≤◌, ◌≡◌, refl, sym, ap, ◌∙◌, Option, none, some, inl, inr, arith}
use q_oracle.Base.Tests.{ltb, Bool-cases}
use q_oracle.Base.Words.{u128_max}
use q_oracle.Base.Result.{Result, ok, err}
use q_oracle.Base.Map.{lookup, replace, nat_key, lookup-replace_same, replace-replace, replace_same}
use q_oracle.Desk.Errors.{ExitError}
use q_oracle.Desk.Vaults.{Vault, VaultBook, lock, lock_any, release, seize, choose, most_free}

-- `a` of the vault `v` goes from free to locked, from locked to free, or from locked out of the book.
pub record Locked (v a : ℕ) (s t : VaultBook) : Type 0 where
  pub vault : Vault
  pub found : lookup v s ≡ some vault
  pub enough : a ≤ vault.free
  pub fits : vault.locked + a ≤ u128_max
  pub after : t ≡ replace v (record vault { free = vault.free - a; locked = vault.locked + a }) s

pub record Released (v a : ℕ) (s t : VaultBook) : Type 0 where
  pub vault : Vault
  pub found : lookup v s ≡ some vault
  pub enough : a ≤ vault.locked
  pub fits : vault.free + a ≤ u128_max
  pub after : t ≡ replace v (record vault { free = vault.free + a; locked = vault.locked - a }) s

pub record Seized (v a : ℕ) (s t : VaultBook) : Type 0 where
  pub vault : Vault
  pub found : lookup v s ≡ some vault
  pub enough : a ≤ vault.locked
  pub after : t ≡ replace v (record vault { locked = vault.locked - a }) s

pub Locked-lock : (v a : ℕ) (s t : VaultBook) → Locked v a s t → lock v a s ≡ (ok tt, t)
unfolding lock
Locked-lock v a s t h = ground (arith, h.found, h.enough, h.fits, h.after)

pub Released-release : (v a : ℕ) (s t : VaultBook) → Released v a s t → release v a s ≡ (ok tt, t)
unfolding release
Released-release v a s t h = ground (arith, h.found, h.enough, h.fits, h.after)

pub Seized-seize : (v a : ℕ) (s t : VaultBook) → Seized v a s t → seize v a s ≡ (ok tt, t)
unfolding seize
Seized-seize v a s t h = ground (arith, h.found, h.enough, h.after)

-- `lock` fails and writes nothing, or locks.
pub data LockEnds (v a : ℕ) (s : VaultBook) (r : Result ExitError (Unit {0}) × VaultBook)
    : Type 0 where
  refused : (e : ExitError) → r ≡ (err e, s) → LockEnds v a s r
  done : (t : VaultBook) → Locked v a s t → r ≡ (ok tt, t) → LockEnds v a s r

pub lock-LockEnds : (v a : ℕ) (s : VaultBook) → LockEnds v a s (lock v a s)
lock-LockEnds v a s = go (lookup v s) refl
  where
    go : (o : Option Vault) → lookup v s ≡ o → LockEnds v a s (lock v a s)
    go none e = LockEnds.refused (ExitError.unknown_vault v) (unfold lock in ground arith)
    go (some w) e = elim (Bool-cases (ltb w.free a)) [
      | inl thin ↦ LockEnds.refused (ExitError.thin_vault w.free a) (unfold lock in ground arith)
      | inr enough ↦ elim (Bool-cases (ltb u128_max (w.locked + a))) [
        | inl over ↦ LockEnds.refused ExitError.overflow (unfold lock in ground arith)
        | inr fits ↦
            let locked : Locked v a s
                (replace v (record w { free = w.free - a; locked = w.locked + a }) s) =
              record {
                vault = w;
                found = e;
                enough = ground arith;
                fits = ground arith;
                after = refl;
              } in
            LockEnds.done _ locked (Locked-lock v a s _ locked)
      ]
    ]

pub data LockAnyEnds (a : ℕ) (s : VaultBook) (r : Result ExitError ℕ × VaultBook) : Type 0 where
  refused : (e : ExitError) → r ≡ (err e, s) → LockAnyEnds a s r
  done : (v : ℕ) (t : VaultBook) → Locked v a s t → r ≡ (ok v, t) → LockAnyEnds a s r

pub lock_any-LockAnyEnds : (a : ℕ) (s : VaultBook) → LockAnyEnds a s (lock_any a s)
unfolding lock_any
lock_any-LockAnyEnds a s = go (choose a s) refl
  where
    go : (o : Option Vault) → choose a s ≡ o → LockAnyEnds a s (lock_any a s)
    go none e = LockAnyEnds.refused (ExitError.thin_vault (most_free s) a) (ground (arith, e))
    go (some w) e = elim (lock-LockEnds w.vault_id a s) [
      | LockEnds.refused x r ↦
          LockAnyEnds.refused x (ground (arith, e, ap (λ p. p.0) r, ap (λ p. p.1) r))
      | LockEnds.done t locked r ↦
          LockAnyEnds.done w.vault_id t locked (ground (arith, e, ap (λ p. p.0) r, ap (λ p. p.1) r))
    ]

given_back :
    (w : Vault) (a : ℕ)
    → a ≤ w.free
    → ◌≡◌ {A = Vault} (record w { free = w.free - a + a; locked = w.locked + a - a }) w
given_back w a h =
    let free : w.free - a + a ≡ w.free = omega arith in
    let locked : w.locked + a - a ≡ w.locked = omega arith in rw (free, locked) refl

-- A lock that is given back leaves the book as it was.
pub release-Locked :
    (v a : ℕ) (s t : VaultBook) (h : Locked v a s t)
    → h.vault.free ≤ u128_max
    → release v a t ≡ (ok tt, s)
release-Locked v a s t h small = Released-release v a t s (record {
  vault = record h.vault { free = h.vault.free - a; locked = h.vault.locked + a };
  found = rw (h.after) (lookup-replace_same v _ h.vault s h.found);
  enough = omega arith;
  fits = omega (arith, h.enough);
  after = sym (
      ap (replace v _) h.after
      ∙ replace-replace v _ _ s
      ∙ ap (λ w. replace v w s) (given_back h.vault a h.enough)
      ∙ replace_same v h.vault s h.found);
})
