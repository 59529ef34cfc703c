-- ===== src/Gateway/Reserve/Checks.antt =====
-- What the gateway reads of its reserves: the supply of an asset, the escrow and epoch checks of a deposit,
-- and the check of a reserve report (crates/q-gateway/src/gateway.rs).
use q_oracle.Base.{ℕ, max, Bool, true, false, not, ◌||◌, Option, none, some, List, [], ◌∷◌}
use q_oracle.Base.Tests.{ltb, leb, ◌==◌, if◌then◌else◌, unwrap_or}
use q_oracle.Base.Lists.{length}
use q_oracle.Base.Words.{sat_add_u64, sat_add_u128, checked_add_u128}
use q_oracle.Base.Result.{Result, ok, err, ◌>>=◌, ◌>>◌, fail_if, ok_or}
use q_oracle.Base.Map.{Map, lookup, insert, contains_key, nat_key}
use q_oracle.Airlock.Envelope.{SignerSig}
use q_oracle.Gateway.Errors.{GatewayError}
use q_oracle.Gateway.Operators.{MlDsa, size, supermajority_floor, verified_quorum}
use q_oracle.Gateway.Messages.{reserve_message, reserve_domain}
use q_oracle.Gateway.State.{Gateway, ExitTicket, resume_skew}

-- the amounts of the tickets for one asset, added up from the left
unfoldable pub pending_from : ℕ → ℕ → Map ℕ ExitTicket → ℕ
pending_from asset_id acc [] = acc
pending_from asset_id acc ((_, t) ∷ m) =
    pending_from asset_id (if t.asset_id == asset_id then sat_add_u128 acc t.amount else acc) m

module _ {K : Type 0} where
  unfoldable pub pending_exit_of : ℕ → Gateway K → ℕ
  pending_exit_of asset_id g = pending_from asset_id 0 g.pending_exits

  unfoldable pub minted_of_asset : ℕ → Gateway K → ℕ
  minted_of_asset asset_id g = unwrap_or 0 (lookup asset_id g.per_asset_minted)

  -- `minted + pending exits`, saturating
  unfoldable pub outstanding_of : ℕ → Gateway K → ℕ
  outstanding_of asset_id g = sat_add_u128 (minted_of_asset asset_id g) (pending_exit_of asset_id g)

  unfoldable pub reserve_is_fresh : ℕ → Gateway K → Bool
  reserve_is_fresh asset_id g = elim g.reserve_max_age [
    | none ↦ true
    | some max_age ↦ elim (lookup asset_id g.reserve_reported_at) [
      | none ↦ false
      | some at ↦ leb g.current_height (sat_add_u64 at max_age)
    ]
  ]

  pub stale_among : Gateway K → Map ℕ ℕ → List ℕ
  stale_among g [] = []
  stale_among g ((asset_id, _) ∷ m) =
      if reserve_is_fresh asset_id g then stale_among g m else asset_id ∷ stale_among g m

  unfoldable pub stale_reserves : Gateway K → List ℕ
  unfolding stale_among
  stale_reserves g = stale_among g g.per_asset_cap

  unfoldable pub charge_asset_escrow : ℕ → ℕ → Gateway K → Result GatewayError (Unit {0})
  charge_asset_escrow asset_id amount g = do
    fail_if (not (reserve_is_fresh asset_id g)) (GatewayError.reserve_stale asset_id)
    elim (lookup asset_id g.escrowed) [
      | none ↦ ok tt
      | some escrowed ↦
          let minted = outstanding_of asset_id g in
          let e = GatewayError.escrow_exceeded minted escrowed amount in
          (do after ← ok_or (checked_add_u128 minted amount) e; fail_if (ltb escrowed after) e)
    ]

  unfoldable pub charge_asset_epoch : ℕ → ℕ → Gateway K → Result GatewayError (Unit {0})
  charge_asset_epoch asset_id amount g = do
    charge_asset_escrow asset_id amount g
    elim (lookup asset_id g.per_asset_epoch_cap) [
      | none ↦ ok tt
      | some cap ↦
          let minted = unwrap_or 0 (lookup asset_id g.per_asset_epoch_minted) in
          let e = GatewayError.epoch_cap_exceeded minted cap amount in
          (do after ← ok_or (checked_add_u128 minted amount) e; fail_if (ltb cap after) e)
    ]

  unfoldable pub record_asset_epoch : ℕ → ℕ → Gateway K → Gateway K
  record_asset_epoch asset_id amount g = record g {
    per_asset_epoch_minted =
        insert asset_id
          (sat_add_u128 (unwrap_or 0 (lookup asset_id g.per_asset_epoch_minted)) amount)
          g.per_asset_epoch_minted;
  }

  -- the first asset, in key order, whose supply exceeds what is escrowed for it
  unfoldable pub first_short : Gateway K → Map ℕ ℕ → Option ℕ
  first_short g [] = none
  first_short g ((asset_id, minted) ∷ m) =
      let rest = first_short g m in
      if ltb (unwrap_or 0 (lookup asset_id g.escrowed))
        (sat_add_u128 minted (pending_exit_of asset_id g))
      then some asset_id
      else rest

  unfoldable pub short_reserve : Gateway K → Option ℕ
  short_reserve g = first_short g g.per_asset_minted

  unfoldable pub quorum_met :
      MlDsa K → List ℕ → List ℕ → List SignerSig → Gateway K → Result GatewayError (List SignerSig)
  quorum_met ml message domain sigs g =
      let accepted = verified_quorum ml message domain g.operators sigs in
      let need = max g.operators.threshold (supermajority_floor (size g.operators)) in
      if ltb (length accepted) need
      then err (GatewayError.below_threshold (length accepted) need)
      else ok accepted

  unfoldable pub check_reserve :
      MlDsa K
      → ℕ
      → ℕ
      → ℕ
      → List SignerSig
      → Gateway K
      → Result GatewayError (List ℕ × List SignerSig)
  check_reserve ml asset_id escrowed at_height sigs g = do
    max_age ← ok_or g.reserve_max_age GatewayError.reserve_reports_not_required
    fail_if (not (contains_key asset_id g.per_asset_cap)) GatewayError.asset_not_registered
    fail_if
        (g.current_height == 0
          || ltb (sat_add_u64 g.current_height resume_skew) at_height
          || ltb (sat_add_u64 at_height max_age) g.current_height)
        (GatewayError.reserve_report_out_of_window at_height g.current_height)
    elim (lookup asset_id g.reserve_reported_at) [
      | none ↦ ok tt
      | some last ↦
          fail_if (leb at_height last) (GatewayError.reserve_report_replayed at_height last)
    ]
    let message = reserve_message asset_id escrowed at_height g.dest_chain_id g.era
    accepted ← quorum_met ml message reserve_domain sigs g
    ok (message, accepted)

  unfoldable pub precheck_reserve :
      MlDsa K → ℕ → ℕ → ℕ → List SignerSig → Gateway K → Result GatewayError (Unit {0})
  precheck_reserve ml asset_id escrowed at_height sigs g = do
    check_reserve ml asset_id escrowed at_height sigs g >>= λ _. ok tt
