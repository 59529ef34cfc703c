-- ===== src/Desk/Moves.antt =====
-- The desk as a state machine: what a call may do to it, whatever the call's arguments are.
pub mod Sound
pub mod Opens
pub mod Closes
pub mod Backing
pub mod Ends
pub mod Slashes
pub mod Start
use q_oracle.Base.{ℕ, ◌<◌, ◌≡◌, ◌≢◌, sym, ap, ◌∙◌, subst, Bool, true, false, ◌∷◌, [], ◌++◌, some}
use q_oracle.Base.Tests.{unwrap_or}
use q_oracle.Base.Words.{checked_add_u128}
use q_oracle.Base.Lists.{length}
use q_oracle.Base.Result.{Result, ok, err}
use q_oracle.Desk.Errors.{ExitError}
use q_oracle.Desk.Vaults.{VaultBook}
use q_oracle.Desk.Vaults.Effects.{Locked, Released, Seized}
use q_oracle.Desk.Ledger.{ReplayLedger}
use q_oracle.Desk.Journal.{
  DeadLetter, ExitEvent, ExitJournal, open_event, settle_event, slash_event, dead_letter_event,
}
use q_oracle.Desk.Statement.{Exit, settled, slashed, is_pending}
use q_oracle.Desk.BurnProof.{AuthenticatedBurn}
use q_oracle.Desk.Attestation.{PayoutAttestation, covers}
use q_oracle.Desk.State.{ExitDesk, as_u32, get, slash_opens_at}
use q_oracle.Desk.Checks.{check_burn, journaled}
use q_oracle.Desk.Open.{opening}
use q_oracle.Desk.Settle.{close}

module _ {L : Type 0} ⦃ledger : ReplayLedger L⦄ where
  -- A reference that was not used is recorded.
  pub record Noted (r : ℕ) (l m : L) : Type 0 where
    pub fresh : ledger.is_released r l ≡ false
    pub passed : ledger.note r l ≡ (ok tt, m)

  -- No reference is used up: nothing was written, or what was written was taken back.
  pub data Idle (l : L) : L → Type 0 where
    same : Idle l l
    failed : (r : ℕ) → (ledger.note r l).0 ≢ ok tt → Idle l (ledger.note r l).1
    undone : (r : ℕ) (m : L) → Noted r l m → Idle l (ledger.forget r m)

module _ {J : Type 0} ⦃journal : ExitJournal J⦄ where
  pub record Appended (event : ExitEvent) (j k : J) : Type 0 where
    pub passed : journal.append event j ≡ (ok tt, k)

  pub data Silent (j : J) : J → Type 0 where
    same : Silent j j
    failed : (e : ExitEvent) → (journal.append e j).0 ≢ ok tt → Silent j (journal.append e j).1

module _ {L : Type 0} ⦃ledger : ReplayLedger L⦄ where
  pub failed_note : (r : ℕ) {x : ExitError} {l m : L} → ledger.note r l ≡ (err x, m) → Idle l m
  failed_note r {x} {l} e =
      subst (Idle l) (ap (λ p. p.1) e) (Idle.failed r (λ h. cc (sym (ap (λ p. p.0) e) ∙ h)))

module _ {J : Type 0} ⦃journal : ExitJournal J⦄ where
  pub failed_append :
      (event : ExitEvent) {x : ExitError} {j k : J}
      → journal.append event j ≡ (err x, k)
      → Silent j k
  failed_append event {x} {j} e =
      subst (Silent j) (ap (λ p. p.1) e) (Silent.failed event (λ h. cc (sym (ap (λ p. p.0) e) ∙ h)))

module _ {Anchor L J : Type 0} ⦃ledger : ReplayLedger L⦄ ⦃journal : ExitJournal J⦄ where
  -- One move of the desk: nothing, an exit opened, settled or slashed, a dead letter kept, or the
  -- reserve of seized collateral taken.
  pub data Move (d : ExitDesk Anchor L J) : ExitDesk Anchor L J → Type 0 where
    stayed :
        {l : L} {j : J}
        → Idle d.consumed l
        → Silent d.journal j
        → Move d (record d { consumed = l; journal = j })
    opened :
        (burn : AuthenticatedBurn) (chain_id required v now : ℕ) {s : VaultBook} {l : L} {j : J}
        → check_burn d.cfg d.consumed chain_id burn ≡ ok required
        → Locked v required d.vaults s
        → Noted burn.burn_ref d.consumed l
        → Appended
            (open_event (as_u32 (length d.exits)) (journaled (opening burn v required now d)))
            d.journal
            j
        → Move d (record d {
          vaults = s;
          exits = d.exits ++ opening burn v required now d ∷ [];
          consumed = l;
          journal = j;
        })
    paid :
        (id : ℕ) (exit : Exit) (payout : PayoutAttestation) {s : VaultBook} {l : L} {j : J}
        → get id d.exits ≡ some exit
        → is_pending exit ≡ true
        → covers exit.statement payout ≡ true
        → Released exit.vault_id exit.locked d.vaults s
        → Noted payout.foreign_ref d.consumed l
        → Appended (settle_event (as_u32 id) payout.foreign_ref) d.journal j
        → Move d (record (close id exit settled d) { vaults = s; consumed = l; journal = j })
    seized :
        (id : ℕ) (exit : Exit) (now : ℕ) {s : VaultBook} {j : J}
        → get id d.exits ≡ some exit
        → is_pending exit ≡ true
        → slash_opens_at d.cfg exit < now
        → Seized exit.vault_id exit.locked d.vaults s
        → Appended (slash_event (as_u32 id)) d.journal j
        → Move d (record (close id exit slashed d) {
          vaults = s;
          journal = j;
          seized_reserve =
              unwrap_or d.seized_reserve (checked_add_u128 d.seized_reserve exit.locked);
        })
    lettered :
        (letter : DeadLetter) {j : J}
        → length d.dead < 65536
        → Appended (dead_letter_event (as_u32 (length d.dead)) letter) d.journal j
        → Move d (record d { dead = d.dead ++ letter ∷ []; journal = j })
    taken : Move d (record d { seized_reserve = 0 })

  -- A call that fails: the exits, the vaults, the letters and the reserve are as they were.
  pub record Refused {A : Type 0} (d : ExitDesk Anchor L J)
      (r : Result ExitError A × ExitDesk Anchor L J) : Type 0 where
    pub error : ExitError
    pub used : L
    pub log : J
    pub idle : Idle d.consumed used
    pub silent : Silent d.journal log
    pub ends : r ≡ (err error, record d { consumed = used; journal = log })

  -- a refusal that writes nothing at all
  pub err_unchanged :
      {A : Type 0} {d : ExitDesk Anchor L J} {r : Result ExitError A × ExitDesk Anchor L J}
      (e : ExitError)
      → r ≡ (err e, d)
      → Refused d r
  err_unchanged {d = d} e h = record {
    error = e;
    used = d.consumed;
    log = d.journal;
    idle = Idle.same;
    silent = Silent.same;
    ends = h;
  }

  pub Refused-Move :
      {A : Type 0} {d : ExitDesk Anchor L J} {r : Result ExitError A × ExitDesk Anchor L J}
      → Refused d r
      → Move d r.1
  Refused-Move {d = d} h = subst (Move d) (sym (ap (λ p. p.1) h.ends)) (Move.stayed h.idle h.silent)
