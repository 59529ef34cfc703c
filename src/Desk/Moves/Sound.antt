-- ===== src/Desk/Moves/Sound.antt =====
-- The books of the desk agree: the locked collateral of a vault is that of its pending exits.
use q_oracle.Base.{ℕ, ◌+◌, ◌≤◌, ◌≡◌, refl, ◌∙◌, true, false, some, List, [], ◌∷◌, arith}
use q_oracle.Base.Lists.{All, All-append}
use q_oracle.Base.Words.{u128_max}
use q_oracle.Base.Map.{contains_key, nat_key}
use q_oracle.Desk.Vaults.{VaultBook, free_of, locked_of}
use q_oracle.Desk.Vaults.Funds.{
  part, Locked-funds, Released-funds, Seized-funds, Locked-known, Released-known, Seized-known,
  contains_key-found,
}
use q_oracle.Desk.Ledger.{ReplayLedger}
use q_oracle.Desk.Journal.{ExitJournal}
use q_oracle.Desk.Statement.{Exit, ExitState, pending, settled, slashed, is_pending}
use q_oracle.Desk.State.{ExitDesk, get, set_at}
use q_oracle.Desk.Sums.{sum_by, sum_by-append, sum_by-set_at, locked_share, All-set_at, All-get}
use q_oracle.Desk.Open.{opening}
use q_oracle.Desk.Moves.{Move}

module _ {Anchor L J : Type 0} where
  pub record IsSound (d : ExitDesk Anchor L J) : Type 0 where
    pub room : (v : ℕ) → free_of v d.vaults + locked_of v d.vaults ≤ u128_max
    pub backed : (v : ℕ) → locked_of v d.vaults ≡ sum_by (locked_share v) d.exits
    pub held : All (λ e. contains_key e.vault_id d.vaults ≡ true) d.exits

-- no vault is lost
module _ (s t : VaultBook) (same : (k : ℕ) → contains_key k t ≡ contains_key k s) where
  held_on :
      (exits : List Exit)
      → All (λ e. contains_key e.vault_id s ≡ true) exits
      → All (λ e. contains_key e.vault_id t ≡ true) exits
  held_on [] h = tt
  held_on (e ∷ exits) h = (same e.vault_id ∙ h.0, held_on exits h.1)

-- an exit's share, by its state
pub pending_share :
    (k : ℕ) (e : Exit) → is_pending e ≡ true → locked_share k e ≡ part e.vault_id k e.locked
pending_share k e h = ground arith

-- the pending exits after one of them is closed
closed_sum :
    (k id : ℕ) (e : Exit) (state : ExitState) (exits : List Exit)
    → get id exits ≡ some e
    → is_pending e ≡ true
    → is_pending (record e { state = state }) ≡ false
    → sum_by (locked_share k) exits
      ≡ sum_by (locked_share k) (set_at id (record e { state = state }) exits)
        + part e.vault_id k e.locked
unfolding is_pending
closed_sum k id e state exits at was is = ground (
  arith,
  sum_by-set_at (locked_share k) id e (record e { state = state }) exits at,
  pending_share k e was,
)

-- a new exit's share
opened_share :
    (k : ℕ) (e : Exit) → e.state ≡ pending → locked_share k e ≡ part e.vault_id k e.locked
unfolding is_pending
opened_share k e h = ground arith

module _ {Anchor L J : Type 0} ⦃ledger : ReplayLedger L⦄ ⦃journal : ExitJournal J⦄ where
  -- the exit under an index is closed, and what it locked is no longer locked
  closed-IsSound :
      (d t : ExitDesk Anchor L J) (id : ℕ) (e : Exit) (state : ExitState)
      → get id d.exits ≡ some e
      → is_pending e ≡ true
      → is_pending (record e { state = state }) ≡ false
      → t.exits ≡ set_at id (record e { state = state }) d.exits
      → ((k : ℕ) → contains_key k t.vaults ≡ contains_key k d.vaults)
      → ((k : ℕ)
          → free_of k t.vaults + locked_of k t.vaults ≤ free_of k d.vaults + locked_of k d.vaults)
      → ((k : ℕ) → locked_of k d.vaults ≡ locked_of k t.vaults + part e.vault_id k e.locked)
      → IsSound d
      → IsSound t
  closed-IsSound d t id e state at was is exits known shrinks moved h = record {
    room = λ k. omega (arith, shrinks k, h.room k);
    backed = λ k.
        rw exits (omega (arith, moved k, h.backed k, closed_sum k id e state d.exits at was is));
    held = rw exits (
        held_on d.vaults t.vaults known _
          (All-set_at _ id _ d.exits h.held (All-get _ id e d.exits h.held at)));
  }

  pub Move-IsSound : {d t : ExitDesk Anchor L J} → Move d t → IsSound d → IsSound t
  Move-IsSound (Move.stayed _ _) h = record { room = h.room; backed = h.backed; held = h.held }
  Move-IsSound {d} (Move.opened burn chain_id required v now {s} checked lock noted appended) h =
      let e = opening burn v required now d in
      let known = λ (k : ℕ). Locked-known v required d.vaults s k lock in
      let there = contains_key-found v lock.vault d.vaults lock.found in
      record {
        room = λ k. ground (arith, Locked-funds v required d.vaults s lock k, h.room k);
        backed = λ k. ground (
          arith,
          Locked-funds v required d.vaults s lock k,
          h.backed k,
          sum_by-append (locked_share k) d.exits e,
          opened_share k e refl,
        );
        held =
            All-append _ d.exits _ (held_on d.vaults s known d.exits h.held) (known v ∙ there, tt);
      }
  Move-IsSound {d} (Move.paid id e payout {s} at was _ released _ _) h =
      let funds = Released-funds e.vault_id e.locked d.vaults s released in
      closed-IsSound d _ id e settled at was (unfold is_pending in refl) refl
        (λ k. Released-known e.vault_id e.locked d.vaults s k released)
        (λ k. ground (arith, funds k)) (λ k. (funds k).1) h
  Move-IsSound {d} (Move.seized id e now {s} at was _ taken _) h =
      let funds = Seized-funds e.vault_id e.locked d.vaults s taken in
      closed-IsSound d _ id e slashed at was (unfold is_pending in refl) refl
        (λ k. Seized-known e.vault_id e.locked d.vaults s k taken) (λ k. ground (arith, funds k))
        (λ k. (funds k).1) h
  Move-IsSound (Move.lettered _ _ _) h = record { room = h.room; backed = h.backed; held = h.held }
  Move-IsSound Move.taken h = record { room = h.room; backed = h.backed; held = h.held }
