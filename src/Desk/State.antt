-- ===== src/Desk/State.antt =====
-- `ExitDesk` of crates/q-exits/src/exits.rs, and the reads of it. The type of the anchor is a parameter: only the
-- proof of a burn looks into it.
use q_oracle.Base.{ℕ, suc, zero, ◌%◌, ◌^◌, Bool, ◌&&◌, ◌||◌, not, Option, none, some, List, [], ◌∷◌}
use q_oracle.Base.Tests.{ltb, ◌==◌, if◌then◌else◌}
use q_oracle.Base.Words.{sat_add_u64}
use q_oracle.Base.Result.{Result, ok, err}
use q_oracle.Base.Action.{Action, within}
use q_oracle.Desk.Errors.{ExitError}
use q_oracle.Desk.Vaults.{VaultBook, register}
use q_oracle.Desk.Ledger.{ReplayLedger}
use q_oracle.Desk.Journal.{DeadLetter}
use q_oracle.Desk.Statement.{DeskConfig, Exit, pending, settled, slashed, is_pending, is_unsafe}
use q_oracle.Desk.Outbound.{ExitDecision, ExitOutcome, decide}

pub record ExitDesk (Anchor L J : Type 0) : Type 0 where
  pub cfg : DeskConfig
  pub anchor : Anchor
  pub vaults : VaultBook
  pub exits : List Exit
  pub dead : List DeadLetter
  pub consumed : L
  pub journal : J
  pub seized_reserve : ℕ

-- `as u32` of a length
abbrev pub as_u32 : ℕ → ℕ
as_u32 n = n % 256 ^ 4

-- `get` and the assignment through `get_mut`
abbrev pub get {ℓ} : {A : Type ℓ} → ℕ → List A → Option A
get i [] = none
get zero (x ∷ xs) = some x
get (suc i) (x ∷ xs) = get i xs

abbrev pub set_at {ℓ} : {A : Type ℓ} → ℕ → A → List A → List A
set_at i y [] = []
set_at zero y (x ∷ xs) = y ∷ xs
set_at (suc i) y (x ∷ xs) = x ∷ set_at i y xs

abbrev pub Call : Type 0 → Type 0 → Type 0
Call D X = Action D ExitError X

unfoldable pub slash_opens_at : DeskConfig → Exit → ℕ
slash_opens_at cfg exit = sat_add_u64 exit.deadline cfg.grace

-- the indices, from `i` on, of the exits that pass a test
unfoldable pub ids_of : (Exit → Bool) → ℕ → List Exit → List ℕ
ids_of test i [] = []
ids_of test i (exit ∷ exits) =
    let rest = ids_of test (suc i) exits in if test exit then i ∷ rest else rest

unfoldable pub decision_of : DeskConfig → Exit → Option ExitDecision
decision_of cfg exit = elim exit.state [
  | pending ↦ none
  | settled ↦ some (decide ExitOutcome.settle exit.statement cfg.bridge_dest_chain)
  | slashed ↦ some (decide ExitOutcome.slash exit.statement cfg.bridge_dest_chain)
]

unfoldable pub still_dead : {L : Type 0} → ReplayLedger L → L → List DeadLetter → List DeadLetter
still_dead ledger consumed [] = []
still_dead ledger consumed (letter ∷ letters) =
    let rest = still_dead ledger consumed letters in
    if letter.burn_ref == 0 || not (ledger.is_released letter.burn_ref consumed)
    then letter ∷ rest
    else rest

module _ {Anchor L J : Type 0} where
  -- a desk before its first call
  abbrev pub fresh_desk : DeskConfig → Anchor → L → J → ExitDesk Anchor L J
  fresh_desk cfg anchor consumed journal = record {
    cfg = cfg;
    anchor = anchor;
    vaults = [];
    exits = [];
    dead = [];
    consumed = consumed;
    journal = journal;
    seized_reserve = 0;
  }

  unfoldable pub assemble : DeskConfig → Anchor → L → J → Result ExitError (ExitDesk Anchor L J)
  assemble cfg anchor consumed journal =
      if is_unsafe cfg
      then err ExitError.unsafe_params
      else ok (fresh_desk cfg anchor consumed journal)

  -- calls on the parts of the desk
  abbrev pub on_vaults : {A : Type 0} → Action VaultBook ExitError A → Call (ExitDesk Anchor L J) A
  on_vaults = within (λ d. d.vaults) (λ v d. record d { vaults = v })

  abbrev pub on_consumed : {A : Type 0} → Action L ExitError A → Call (ExitDesk Anchor L J) A
  on_consumed = within (λ d. d.consumed) (λ l d. record d { consumed = l })

  abbrev pub on_journal : {A : Type 0} → Action J ExitError A → Call (ExitDesk Anchor L J) A
  on_journal = within (λ d. d.journal) (λ j d. record d { journal = j })

  unfoldable pub register_vault : ℕ → ℕ → ExitDesk Anchor L J → ExitDesk Anchor L J
  register_vault vault_id collateral d = record d { vaults = register vault_id collateral d.vaults }

  unfoldable pub settleable : ExitDesk Anchor L J → List ℕ
  settleable d = ids_of is_pending 0 d.exits

  unfoldable pub slashable : ℕ → ExitDesk Anchor L J → List ℕ
  slashable now d =
      ids_of (λ exit. is_pending exit && ltb (slash_opens_at d.cfg exit) now) 0 d.exits

  unfoldable pub decision : ℕ → ExitDesk Anchor L J → Option ExitDecision
  decision id d = elim (get id d.exits) [ none ↦ none | some exit ↦ decision_of d.cfg exit ]

  unfoldable pub take_seized_reserve : ExitDesk Anchor L J → ℕ × ExitDesk Anchor L J
  take_seized_reserve d = (d.seized_reserve, record d { seized_reserve = 0 })

  unfoldable pub dead_letters : ⦃ledger : ReplayLedger L⦄ → ExitDesk Anchor L J → List DeadLetter
  dead_letters ⦃ledger⦄ d = still_dead ledger d.consumed d.dead
