-- ===== src/Desk/Steps/Recovered.antt =====
-- A desk rebuilt from its journal is the desk that wrote it.
pub mod Replays
use q_oracle.Base.{
  ℕ, ◌+◌, ◌%◌, ◌^◌, ◌≤◌, ◌<◌, ◌≡◌, ◌≢◌, refl, sym, ap, ◌∙◌, subst, true, false, some, List, [], ◌∷◌,
  ◌++◌, append-nil, arith,
}
use q_oracle.Base.Tests.{◌==◌, if◌then◌else◌, unwrap_or, ==_refl}
use q_oracle.Base.Words.{u128_max, checked_add_u128}
use q_oracle.Base.Lists.{length, length-append}
use q_oracle.Base.Result.{Result, ok, err, panic}
use q_oracle.Base.Action.{pure, >>=-ok, >>=-eq-ok}
use q_oracle.Desk.Errors.{ExitError}
use q_oracle.Desk.Vaults.{VaultBook, lock, release, seize}
use q_oracle.Desk.Vaults.Effects.{
  Locked, Released, Seized, Locked-lock, Released-release, Seized-seize,
}
use q_oracle.Desk.Ledger.{ReplayLedger, Undoes}
use q_oracle.Desk.Journal.{
  ExitEvent, ExitJournal, Keeps, DeadLetter, open_event, settle_event, slash_event,
  dead_letter_event,
}
use q_oracle.Desk.Qtv.{Qtv, QtvCodec}
use q_oracle.Desk.Anchor.{QuantovaAnchor}
use q_oracle.Desk.Statement.{Exit, ExitState, pending, settled, slashed, is_pending}
use q_oracle.Desk.State.{ExitDesk, get, set_at, as_u32}
use q_oracle.Desk.Checks.{journaled, statement_of}
use q_oracle.Desk.Open.{opening}
use q_oracle.Desk.Settle.{close, apply_slash}
use q_oracle.Desk.Reconstruct.{replay, replay_all, reconstruct, open_at, reopened}
use q_oracle.Desk.Sums.{sum_by, slashed_share, sum_by-append, sum_by-set_at, length-set_at, get-lt}
use q_oracle.Desk.Moves.{Move, Idle, Silent, Noted, Appended}
use q_oracle.Desk.Moves.Sound.{IsSound}
use q_oracle.Desk.Steps.{Op, run}
use q_oracle.Desk.Steps.Refines.{Moves, run-Moves}
use q_oracle.Desk.Steps.Recovered.Replays.{
  Fits, slashed_total, rebuilt, replay_all-append, replay-open, replay-settle, replay-slash,
  replay-letter,
}

-- the total after an exit is closed
slashed_total-close :
    (id : ℕ) (e : Exit) (state : ExitState) (exits : List Exit)
    → get id exits ≡ some e
    → is_pending e ≡ true
    → slashed_total (set_at id (record e { state = state }) exits)
      ≡ slashed_total exits + slashed_share (record e { state = state })
unfolding is_pending
slashed_total-close id e state exits at was =
    ground (arith, sum_by-set_at slashed_share id e (record e { state = state }) exits at)

module _ {Anchor L J : Type 0} ⦃ledger : ReplayLedger L⦄ ⦃journal : ExitJournal J⦄ where
  Move-Fits : {d t : ExitDesk Anchor L J} → Move d t → Fits t → Fits d
  Move-Fits (Move.stayed _ _) h = record { ids = h.ids; total = h.total }
  Move-Fits {d} (Move.opened burn _ required v now _ _ _ _) h = record {
    ids = omega (arith, h.ids, length-append d.exits (opening burn v required now d ∷ []));
    total =
        omega (arith, h.total, sum_by-append slashed_share d.exits (opening burn v required now d));
  }
  Move-Fits {d} (Move.paid id e _ at was _ _ _ _) h = record {
    ids = omega (arith, h.ids, length-set_at id (record e { state = settled }) d.exits);
    total = omega (arith, h.total, slashed_total-close id e settled d.exits at was);
  }
  Move-Fits {d} (Move.seized id e _ at was _ _ _) h = record {
    ids = omega (arith, h.ids, length-set_at id (record e { state = slashed }) d.exits);
    total = omega (arith, h.total, slashed_total-close id e slashed d.exits at was);
  }
  Move-Fits (Move.lettered _ _ _) h = record { ids = h.ids; total = h.total }
  Move-Fits Move.taken h = record { ids = h.ids; total = h.total }

module _ {L : Type 0} ⦃ledger : ReplayLedger L⦄ (undoes : Undoes ledger) where
  pub Idle-same : {l m : L} → Idle l m → m ≡ l
  Idle-same Idle.same = refl
  Idle-same {l} (Idle.failed r bad) = undoes.note_fails r l bad
  Idle-same {l} (Idle.undone r m n) =
      ap (λ p. ledger.forget r p.1) (sym n.passed)
      ∙ undoes.forget_note r l n.fresh (ap (λ p. p.0) n.passed)

module _ {J : Type 0} ⦃journal : ExitJournal J⦄ where
  pub Silent-events : {j k : J} → Silent j k → journal.events k ≡ journal.events j
  Silent-events Silent.same = refl
  Silent-events {j} (Silent.failed e bad) = journal.append_err e j bad

  Appended-events :
      (keeps : Keeps journal) (e : ExitEvent) {j k : J}
      → Appended e j k
      → journal.events k ≡ journal.events j ++ e ∷ []
  Appended-events keeps e {j} a =
      ap (λ p. journal.events p.1) (sym a.passed) ∙ keeps.append_ok e j (ap (λ p. p.0) a.passed)

module _ {Anchor L J : Type 0} ⦃ledger : ReplayLedger L⦄ ⦃journal : ExitJournal J⦄
    (undoes : Undoes ledger) (keeps : Keeps journal) (k : J) (origin : ExitDesk Anchor L J) where
  abbrev Recovers : ExitDesk Anchor L J → Type 0
  Recovers d = replay_all (journal.events d.journal) (rebuilt k origin) ≡ (ok tt, rebuilt k d)

  -- one more event, whose replay differs from the move in the total alone, which is the same
  extended :
      (event : ExitEvent) (d t : ExitDesk Anchor L J) (total : ℕ)
      → Appended event d.journal t.journal
      → Recovers d
      → replay event (rebuilt k d) ≡ (ok tt, record (rebuilt k t) { seized_reserve = total })
      → total ≡ slashed_total t.exits
      → Recovers t
  extended event d t total appended h e same = rw (Appended-events keeps event appended) (
      replay_all-append (journal.events d.journal) event (rebuilt k origin) (rebuilt k d)
        (rebuilt k t) h (e ∙ ap (λ n. (ok tt, record (rebuilt k t) { seized_reserve = n })) same))

  Move-Recovers : {d t : ExitDesk Anchor L J} → Move d t → Fits t → Recovers d → Recovers t
  unfolding is_pending statement_of
  Move-Recovers {d} (Move.stayed {l} idle silent) fits h =
      rw (Silent-events silent)
        (h ∙ ap (λ x. (ok tt, record (rebuilt k d) { consumed = x })) (sym (Idle-same undoes idle)))
  Move-Recovers {d} {t} (Move.opened burn _ required v now {s} {l} _ hold noted appended) fits h =
      let e = opening burn v required now d in
      let small : length d.exits < 256 ^ 4 =
        omega (arith, fits.ids, length-append d.exits (e ∷ [])) in
      extended _ d t (slashed_total d.exits) appended h
        (replay-open k d e s l refl small hold noted)
        (omega (arith, sum_by-append slashed_share d.exits e))
  Move-Recovers {d} {t} (Move.paid id e payout {s} {l} at was _ released noted appended) fits h =
      let same = length-set_at id (record e { state = settled }) d.exits in
      let small : id < 256 ^ 4 = omega (arith, fits.ids, same, get-lt id e d.exits at) in
      extended _ d t (slashed_total d.exits) appended h
        (replay-settle k d id e payout.foreign_ref s l at was small released noted)
        (omega (arith, slashed_total-close id e settled d.exits at was))
  Move-Recovers {d} {t} (Move.seized id e now {s} at was _ seized appended) fits h =
      let same = length-set_at id (record e { state = slashed }) d.exits in
      let more = slashed_total-close id e slashed d.exits at was in
      let small : id < 256 ^ 4 = omega (arith, fits.ids, same, get-lt id e d.exits at) in
      extended _ d t (slashed_total d.exits + e.locked) appended h
        (replay-slash k d id e s at was small seized (omega (arith, fits.total, more)))
        (omega (arith, more))
  Move-Recovers {d} {t} (Move.lettered letter room appended) fits h =
      extended _ d t (slashed_total d.exits) appended h (replay-letter k d letter room) refl
  Move-Recovers Move.taken fits h = h

  Moves-Recovers :
      {d : ExitDesk Anchor L J} → Moves origin d → Fits d → Recovers origin → Recovers d
  Moves-Recovers Moves.still fits h = h
  Moves-Recovers (Moves.onward ms m) fits h =
      Move-Recovers m fits (Moves-Recovers ms (Move-Fits m fits) h)

-- A restart loses nothing: from a sound desk with an empty journal that keeps its events, a ledger whose `forget` undoes a
-- record, and a reserve that is the total locked in its slashed exits, after any calls, `reconstruct` on the first desk with the journal as it is then succeeds and gives the
-- desk that the calls left, with all that was ever seized in the reserve, as long as the exits number at most 2^32 and what was
-- seized is a `u128`.
pub reconstruct-run :
    {H C I Commitment Beacon D E L J : Type 0} (qtv : Qtv H C I Commitment Beacon)
    (codec : QtvCodec D E) ⦃ledger : ReplayLedger L⦄ ⦃journal : ExitJournal J⦄
    (undoes : Undoes ledger) (keeps : Keeps journal) (ops : List (Op C I))
    (d : ExitDesk (QuantovaAnchor Commitment Beacon) L J)
    → IsSound d
    → journal.events d.journal ≡ []
    → d.seized_reserve ≡ slashed_total d.exits
    → Fits (run qtv codec ops d)
    → reconstruct (record d { journal = (run qtv codec ops d).journal }) ≡ (
      ok tt,
      record (run qtv codec ops d) { seized_reserve = slashed_total (run qtv codec ops d).exits },
    )
unfolding reconstruct replay_all
reconstruct-run qtv codec ⦃journal = journal⦄ undoes keeps ops d sound empty reserve fits =
    let k = (run qtv codec ops d).journal in
    let moves = (run-Moves qtv codec ops d sound).0 in
    let start : replay_all (journal.events d.journal) (rebuilt k d) ≡ (ok tt, rebuilt k d) =
      rw empty refl in
    ap (λ n. replay_all (journal.events k) (record d { journal = k; seized_reserve = n })) reserve
    ∙ Moves-Recovers undoes keeps k d moves fits start
