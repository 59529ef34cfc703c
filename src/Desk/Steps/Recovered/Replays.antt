-- ===== src/Desk/Steps/Recovered/Replays.antt =====
-- What the replay of each event does to the desk that is rebuilt.
use q_oracle.Base.{ℕ, ◌+◌, ◌^◌, ◌≤◌, ◌<◌, ◌≡◌, ap, ◌∙◌, true, some, List, [], ◌∷◌, ◌++◌, arith}
use q_oracle.Base.Words.{u128_max}
use q_oracle.Base.Lists.{length}
use q_oracle.Base.Result.{ok}
use q_oracle.Base.Action.{pure, >>=-ok, >>=-eq-ok}
use q_oracle.Desk.Vaults.{VaultBook, lock}
use q_oracle.Desk.Vaults.Effects.{
  Locked, Released, Seized, Locked-lock, Released-release, Seized-seize,
}
use q_oracle.Desk.Ledger.{ReplayLedger}
use q_oracle.Desk.Journal.{
  ExitEvent, ExitJournal, DeadLetter, open_event, settle_event, slash_event, dead_letter_event,
}
use q_oracle.Desk.Statement.{Exit, pending, settled, slashed, is_pending}
use q_oracle.Desk.State.{ExitDesk, get, set_at, as_u32}
use q_oracle.Desk.Checks.{journaled}
use q_oracle.Desk.Settle.{apply_slash}
use q_oracle.Desk.Reconstruct.{replay, replay_all, open_at}
use q_oracle.Desk.Sums.{sum_by, slashed_share}
use q_oracle.Desk.Moves.{Noted}

-- all that was seized
abbrev pub slashed_total : List Exit → ℕ
slashed_total = sum_by slashed_share

as_u32_small : (n : ℕ) → n < 256 ^ 4 → as_u32 n ≡ n
as_u32_small n h = omega arith

module _ {Anchor L J : Type 0} ⦃ledger : ReplayLedger L⦄ ⦃journal : ExitJournal J⦄ where
  -- the exits have ids of 32 bits, and what was seized is a `u128`
  pub record Fits (d : ExitDesk Anchor L J) : Type 0 where
    pub ids : length d.exits ≤ 256 ^ 4
    pub total : slashed_total d.exits ≤ u128_max

  -- the desk with another journal, and with all that was ever seized in its reserve
  abbrev pub rebuilt : J → ExitDesk Anchor L J → ExitDesk Anchor L J
  rebuilt k d = record d { journal = k; seized_reserve = slashed_total d.exits }

  -- the events in their order, and the last one
  pub replay_all-append :
      (events : List ExitEvent) (event : ExitEvent) (d t u : ExitDesk Anchor L J)
      → replay_all events d ≡ (ok tt, t)
      → replay event t ≡ (ok tt, u)
      → replay_all (events ++ event ∷ []) d ≡ (ok tt, u)
  unfolding replay_all
  replay_all-append [] event d t u h e =
      >>=-ok (replay event) (λ _. pure tt) (ap (λ p. replay event p.1) h ∙ e)
  replay_all-append (x ∷ events) event d t u h e =
      let (_, s, first, rest) = >>=-eq-ok (replay x) (λ _. replay_all events) h in
      >>=-ok (replay x) (λ _. replay_all (events ++ event ∷ [])) first
      ∙ replay_all-append events event s t u rest e

  open_at-lem :
      (id : ℕ) (e : Exit) (d : ExitDesk Anchor L J)
      → get id d.exits ≡ some e
      → is_pending e ≡ true
      → open_at id d ≡ (ok e, d)
  unfolding open_at
  open_at-lem id e d at was = ground (arith)

  module _ (k : J) (d : ExitDesk Anchor L J) where
    pub replay-open :
        (e : Exit) (s : VaultBook) (l : L)
        → e.state ≡ pending
        → length d.exits < 256 ^ 4
        → Locked e.vault_id e.locked d.vaults s
        → Noted e.statement.burn_ref d.consumed l
        → replay (open_event (as_u32 (length d.exits)) (journaled e)) (rebuilt k d)
          ≡ (ok tt, record (rebuilt k d) { vaults = s; consumed = l; exits = d.exits ++ e ∷ [] })
    unfolding replay
    replay-open e s l fresh small lock noted =
        let locks = Locked-lock e.vault_id e.locked d.vaults s lock in
        ground (
          arith,
          as_u32_small (length d.exits) small,
          noted.fresh,
          ap (λ p. p.0) locks,
          ap (λ p. p.1) locks,
          ap (λ p. p.0) noted.passed,
          ap (λ p. p.1) noted.passed,
        )

    pub replay-settle :
        (id : ℕ) (e : Exit) (r : ℕ) (s : VaultBook) (l : L)
        → get id d.exits ≡ some e
        → is_pending e ≡ true
        → id < 256 ^ 4
        → Released e.vault_id e.locked d.vaults s
        → Noted r d.consumed l
        → replay (settle_event (as_u32 id) r) (rebuilt k d) ≡ (
          ok tt,
          record (rebuilt k d) {
            vaults = s;
            consumed = l;
            exits = set_at id (record e { state = settled }) d.exits;
          },
        )
    unfolding replay
    replay-settle id e r s l at was small released noted =
        let back = Released-release e.vault_id e.locked d.vaults s released in
        let found = open_at-lem id e (rebuilt k d) at was in
        ground (
          arith,
          as_u32_small id small,
          noted.fresh,
          ap (λ p. p.0) found,
          ap (λ p. p.1) found,
          ap (λ p. p.0) back,
          ap (λ p. p.1) back,
          ap (λ p. p.0) noted.passed,
          ap (λ p. p.1) noted.passed,
        )

    pub replay-slash :
        (id : ℕ) (e : Exit) (s : VaultBook)
        → get id d.exits ≡ some e
        → is_pending e ≡ true
        → id < 256 ^ 4
        → Seized e.vault_id e.locked d.vaults s
        → slashed_total d.exits + e.locked ≤ u128_max
        → replay (slash_event (as_u32 id)) (rebuilt k d) ≡ (
          ok tt,
          record (rebuilt k d) {
            vaults = s;
            exits = set_at id (record e { state = slashed }) d.exits;
            seized_reserve = slashed_total d.exits + e.locked;
          },
        )
    unfolding replay apply_slash
    replay-slash id e s at was small seized fits =
        let taken = Seized-seize e.vault_id e.locked d.vaults s seized in
        let found = open_at-lem id e (rebuilt k d) at was in
        ground (
          arith,
          as_u32_small id small,
          ap (λ p. p.0) found,
          ap (λ p. p.1) found,
          ap (λ p. p.0) taken,
          ap (λ p. p.1) taken,
        )

    pub replay-letter :
        (letter : DeadLetter)
        → length d.dead < 65536
        → replay (dead_letter_event (as_u32 (length d.dead)) letter) (rebuilt k d)
          ≡ (ok tt, record (rebuilt k d) { dead = d.dead ++ letter ∷ [] })
    unfolding replay
    replay-letter letter small = ground (arith, as_u32_small (length d.dead) (omega arith))
