-- ===== src/Gateway/Deposit/Admission.antt =====
-- Which deposits are admitted: the conditions that `process_deposit` checks, read off one by one.
use q_oracle.Base.{ℕ, ◌+◌, ◌≤◌, ◌≡◌, ◌≢◌, ◌↔◌, true, false, Option, none, some, arith}
use q_oracle.Base.Tests.{unwrap_or}
use q_oracle.Base.Words.{u128_max}
use q_oracle.Base.Result.{ok}
use q_oracle.Base.Map.{lookup, contains, nat_key, pair_key}
use q_oracle.Codec.Errors.{deposit}
use q_oracle.Codec.Fact.{BridgeFact, is_zero}
use q_oracle.Codec.Fact.Validate.{IsValid, validate-IsValid}
use q_oracle.Airlock.Envelope.{AttestationEnvelope}
use q_oracle.Gateway.Operators.{MlDsa, size}
use q_oracle.Gateway.State.{Gateway, CorridorConfig}
use q_oracle.Gateway.Reserve.Checks.{
  outstanding_of, reserve_is_fresh, charge_asset_escrow, charge_asset_epoch,
}
use q_oracle.Gateway.Corridor.Checks.{required}
use q_oracle.Gateway.Freeze.Checks.{mint_freeze_horizon}
use q_oracle.Gateway.Deposit.Checks.{
  check_open, check_fact, check_cap, check_epoch, attesters, precheck_deposit, check_deposit,
}

-- A sum that is a `u128` and within the bound; `None` sets no bound.
abbrev pub Within : ℕ → Option ℕ → Type 0
Within n none = Unit
Within n (some cap) = (n ≤ cap) × (n ≤ u128_max)

IsValid-nonzero : (fact : BridgeFact) → IsValid fact → is_zero fact ≡ false
unfolding is_zero
IsValid-nonzero fact v = ground arith

module _ {K : Type 0} where
  pub record IsOpen (g : Gateway K) : Type 0 where
    pub unpaused : g.global_pause ≡ false
    pub thawed : mint_freeze_horizon g ≤ g.current_height

  -- The corridor that the deposit came through is open, active and not paused.
  pub record Passable (source_chain : ℕ) (c : CorridorConfig) (g : Gateway K) : Type 0 where
    pub found : lookup source_chain g.corridors ≡ some c
    pub active : c.active ≡ true
    pub source : contains source_chain g.paused_sources ≡ false

  pub record IsProper (fact : BridgeFact) (c : CorridorConfig) (g : Gateway K) : Type 0 where
    pub destined : g.dest_chain_id ≢ 0
    pub valid : IsValid fact
    pub inbound : fact.direction ≡ deposit
    pub here : fact.dest_chain ≡ g.chain_id
    pub unexpired : g.current_height ≤ fact.expiry_height
    pub passable : Passable fact.source_chain c g
    pub final : c.confirmation_depth ≤ fact.finality_depth

  -- What may be minted: the supply stays within the cap and the escrow, the epoch's mints within both budgets.
  pub record HasRoom (a n : ℕ) (g : Gateway K) : Type 0 where
    pub registered :
        (cap : ℕ) × (lookup a g.per_asset_cap ≡ some cap) × (outstanding_of a g + n ≤ cap)
    pub supply_fits : outstanding_of a g + n ≤ u128_max
    pub epoch : g.epoch_minted + n ≤ g.epoch_cap
    pub epoch_fits : g.epoch_minted + n ≤ u128_max
    pub fresh : reserve_is_fresh a g ≡ true
    pub backed : Within (outstanding_of a g + n) (lookup a g.escrowed)
    pub asset_epoch :
        Within
          (unwrap_or 0 (lookup a g.per_asset_epoch_minted) + n)
          (lookup a g.per_asset_epoch_cap)

  check_open_iff : (g : Gateway K) → (check_open g ≡ ok tt) ↔ IsOpen g
  unfolding check_open
  check_open_iff g = (λ h. ground arith, λ v. ground arith)

  check_fact_sound :
      (fact : BridgeFact) (g : Gateway K) (c : CorridorConfig)
      → check_fact fact g ≡ ok c
      → IsProper fact c g
  unfolding check_fact
  check_fact_sound fact g c h = ground (arith, (validate-IsValid fact).0)

  check_fact_complete :
      (fact : BridgeFact) (g : Gateway K) (c : CorridorConfig)
      → IsProper fact c g
      → check_fact fact g ≡ ok c
  unfolding check_fact
  check_fact_complete fact g c v =
      ground (arith, (validate-IsValid fact).1 v.valid, IsValid-nonzero fact v.valid)

  -- The checks of the room, in the order of `process_deposit` with the replay check between them.
  room_sound :
      (a n : ℕ) (g : Gateway K)
      → check_cap a n g ≡ ok tt
      → check_epoch n g ≡ ok tt
      → charge_asset_epoch a n g ≡ ok tt
      → HasRoom a n g
  unfolding check_cap check_epoch charge_asset_epoch charge_asset_escrow
  room_sound a n g hc he ha = ground arith

  room_complete :
      (a n : ℕ) (g : Gateway K)
      → HasRoom a n g
      → (check_cap a n g ≡ ok tt) × (check_epoch n g ≡ ok tt) × (charge_asset_epoch a n g ≡ ok tt)
  unfolding check_cap check_epoch charge_asset_epoch charge_asset_escrow
  room_complete a n g r = (ground arith, ground arith, ground arith)

  pub record IsAttested (ml : MlDsa K) (env : AttestationEnvelope) (c : CorridorConfig)
      (g : Gateway K) : Type 0 where
    pub needed : required c g.operators ≢ 0
    pub reachable : required c g.operators ≤ size g.operators
    pub reached : required c g.operators ≤ attesters ml env.fact env.signatures g

  -- Everything that an admitted deposit meets.
  pub record IsAdmissible (ml : MlDsa K) (env : AttestationEnvelope) (g : Gateway K) : Type 0 where
    pub corridor : CorridorConfig
    pub unlocked : IsOpen g
    pub proper : IsProper env.fact corridor g
    pub attested : IsAttested ml env corridor g
    pub room : HasRoom env.fact.asset_id env.fact.amount g
    pub unused : contains (env.fact.source_chain, env.fact.source_ref) g.used_refs ≡ false

  precheck_deposit_sound :
      (ml : MlDsa K) (env : AttestationEnvelope) (g : Gateway K)
      → precheck_deposit ml env g ≡ ok tt
      → (c : CorridorConfig) × (check_open g ≡ ok tt)
        × (check_fact env.fact g ≡ ok c)
        × IsAttested ml env c g
  unfolding precheck_deposit
  precheck_deposit_sound ml env g h = ground arith

  check_deposit_parts :
      (ml : MlDsa K) (env : AttestationEnvelope) (g : Gateway K)
      → check_deposit ml env g ≡ ok tt
      → (precheck_deposit ml env g ≡ ok tt)
        × (check_cap env.fact.asset_id env.fact.amount g ≡ ok tt)
        × (check_epoch env.fact.amount g ≡ ok tt)
        × (contains (env.fact.source_chain, env.fact.source_ref) g.used_refs ≡ false)
        × (charge_asset_epoch env.fact.asset_id env.fact.amount g ≡ ok tt)
  unfolding check_deposit
  check_deposit_parts ml env g h = ground arith

  pub check_deposit_sound :
      (ml : MlDsa K) (env : AttestationEnvelope) (g : Gateway K)
      → check_deposit ml env g ≡ ok tt
      → IsAdmissible ml env g
  check_deposit_sound ml env g h =
      let (pre, cap, epoch, unused, charged) = check_deposit_parts ml env g h in
      let (c, opened, proper, attested) = precheck_deposit_sound ml env g pre in
      record {
        corridor = c;
        unlocked = (check_open_iff g).0 opened;
        proper = check_fact_sound env.fact g c proper;
        attested = attested;
        room = room_sound env.fact.asset_id env.fact.amount g cap epoch charged;
        unused = unused;
      }

  pub check_deposit_complete :
      (ml : MlDsa K) (env : AttestationEnvelope) (g : Gateway K)
      → IsAdmissible ml env g
      → check_deposit ml env g ≡ ok tt
  unfolding check_deposit precheck_deposit
  check_deposit_complete ml env g v =
      let (hc, he, ha) = room_complete env.fact.asset_id env.fact.amount g v.room in
      ground (
        arith,
        hc,
        he,
        ha,
        (check_open_iff g).1 v.unlocked,
        check_fact_complete env.fact g v.corridor v.proper,
      )
