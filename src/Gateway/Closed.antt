-- ===== src/Gateway/Closed.antt =====
-- What a paused, a frozen and a short gateway refuses (crates/q-gateway/src/gateway.rs).
use q_oracle.Base.{
  ℕ, ◌≤◌, ◌<◌, ◌≡◌, ◌≢◌, ◌↔◌, subst, ◌⊎◌, inl, inr, Bool, true, false, none, some, List, [], ◌∷◌,
  arith,
}
use q_oracle.Base.Tests.{unwrap_or, ltb}
use q_oracle.Base.Words.{sat_add_u128}
use q_oracle.Base.Result.{ok}
use q_oracle.Base.Map.{Map, lookup, nat_key, lookup_head, lookup-insert}
use native.Nat.{ℕᴺ_discrete}
use q_oracle.Airlock.Envelope.{SignerSig, AttestationEnvelope}
use q_oracle.Gateway.Operators.{MlDsa}
use q_oracle.Gateway.State.{Gateway, MintReceipt, ExitTicket}
use q_oracle.Gateway.Settings.{pause_all}
use q_oracle.Gateway.Reserve.{attest_reserve, record_report}
use q_oracle.Gateway.Reserve.Checks.{
  outstanding_of, pending_exit_of, minted_of_asset, first_short, short_reserve,
}
use q_oracle.Gateway.Pause.{resume_all, write_unpause}
use q_oracle.Gateway.Pause.Checks.{check_unpause}
use q_oracle.Gateway.Freeze.{emergency_freeze, write_freeze}
use q_oracle.Gateway.Freeze.Checks.{is_frozen, freeze_horizon, mint_freeze_horizon, check_freeze}
use q_oracle.Gateway.Exits.{finalize_exit}
use q_oracle.Gateway.Deposit.{admit_trustless, process_deposit}
use q_oracle.Gateway.Deposit.Checks.{
  check_open, precheck_trustless, precheck_deposit, check_deposit,
}
use q_oracle.Gateway.Steps.Checked.{checked-ok}

module _ {K : Type 0} (ml : MlDsa K) where
  -- it neither mints nor pays
  pub record IsClosed (g : Gateway K) : Type 0 where
    pub deposits :
        (env : AttestationEnvelope) (r : MintReceipt) → (process_deposit ml env g).0 ≢ ok r
    pub proofs : (a r n c : ℕ) → (admit_trustless a r n c g).0 ≢ ok tt
    pub exits : (id : ℕ) (t : ExitTicket) → (finalize_exit id g).0 ≢ ok t

  -- While the gateway is paused or frozen it is closed: no attested deposit, no proved deposit and no exit
  -- succeeds.
  pub shut-IsClosed : (g : Gateway K) → (g.global_pause ≡ true) ⊎ (is_frozen g ≡ true) → IsClosed g
  unfolding process_deposit check_deposit precheck_deposit check_open admit_trustless
      precheck_trustless finalize_exit is_frozen mint_freeze_horizon
  shut-IsClosed g (inl p) = record {
    deposits = λ env r h. ground arith;
    proofs = λ a r n c h. (let (_, e, _) = checked-ok _ _ g h in ground arith);
    exits = λ id t h. ground arith;
  }
  shut-IsClosed g (inr f) = record {
    deposits = λ env r h. ground arith;
    proofs = λ a r n c h. (let (_, e, _) = checked-ok _ _ g h in ground arith);
    exits = λ id t h. ground arith;
  }

  -- A reserve report that is accepted records what is escrowed and answers whether that is less than what was
  -- outstanding. If it is, the gateway is closed afterwards: no attested or proved deposit and no exit succeeds.
  pub attest_reserve-shortfall :
      (a escrowed h : ℕ) (sigs : List SignerSig) (g : Gateway K) (short : Bool)
      → (attest_reserve ml a escrowed h sigs g).0 ≡ ok short
      → (short ≡ ltb escrowed (outstanding_of a g))
        × (lookup a (attest_reserve ml a escrowed h sigs g).1.escrowed ≡ some escrowed)
        × (short ≡ true → IsClosed (attest_reserve ml a escrowed h sigs g).1)
  attest_reserve-shortfall a escrowed h sigs g short done =
      let answered : short ≡ ltb escrowed (outstanding_of a g) =
        unfold attest_reserve in
        unfold record_report in
        unfold outstanding_of in unfold minted_of_asset in unfold pending_exit_of in ground arith in
      (
        answered,
        unfold attest_reserve in
            unfold record_report in
            unfold pause_all in ground (arith, lookup-insert a a escrowed g.escrowed),
        λ s. shut-IsClosed _ (
            inl (
              unfold attest_reserve in
              unfold record_report in
              unfold pause_all in
              unfold outstanding_of in
              unfold minted_of_asset in unfold pending_exit_of in ground arith)),
      )

  -- A freeze that is accepted, to a height in the future, never ends an earlier freeze sooner, and leaves the
  -- gateway frozen exactly if it was frozen before or the height is above that of every earlier freeze: a
  -- lifted freeze is not taken up again up to its own height.
  pub emergency_freeze-lasts :
      (until_height : ℕ) (sigs : List SignerSig) (g : Gateway K)
      → (emergency_freeze ml until_height sigs g).0 ≡ ok tt
      → let g' = (emergency_freeze ml until_height sigs g).1 in
        (freeze_horizon g ≤ freeze_horizon g')
        × (g.current_height < until_height)
        × ((is_frozen g' ≡ true) ↔ ((g.frozen_until < until_height) ⊎ (is_frozen g ≡ true)))
  unfolding emergency_freeze freeze_horizon is_frozen
  emergency_freeze-lasts until_height sigs g done =
      let (m, passed, written) = checked-ok _ _ g done in
      let later : g.current_height < until_height = unfold check_freeze in ground arith in
      unfold write_freeze in (ground arith, later, (λ f. ground arith, λ o. ground arith))

  first_short_inv :
      (g : Gateway K) (b k : ℕ) (m : Map ℕ ℕ)
      → first_short g ((b, k) ∷ m) ≡ none
      → (first_short g m ≡ none)
        × (sat_add_u128 k (pending_exit_of b g) ≤ unwrap_or 0 (lookup b g.escrowed))
  unfolding first_short
  first_short_inv g b k m h = ground arith

  first_short-none :
      (g : Gateway K) (m : Map ℕ ℕ)
      → first_short g m ≡ none
      → (a n : ℕ) → lookup a m ≡ some n
      → sat_add_u128 n (pending_exit_of a g) ≤ unwrap_or 0 (lookup a g.escrowed)
  first_short-none g [] h a n e = unfold lookup in ground arith
  first_short-none g ((b, k) ∷ m) h a n e =
      let (rest, fits) = first_short_inv g b k m h in
      elim (ℕᴺ_discrete b a) [
        | yes same ↦
            let e' : k ≡ n = ground (arith, lookup_head a b k m) in
            subst (λ n. sat_add_u128 n (pending_exit_of a g) ≤ unwrap_or 0 (lookup a g.escrowed)) e'
              (subst (λ b. sat_add_u128 k (pending_exit_of b g) ≤ unwrap_or 0 (lookup b g.escrowed))
                same fits)
        | no other ↦ first_short-none g m rest a n (ground (arith, lookup_head a b k m))
      ]

  -- The gateway is resumed only with its reserves whole: after `resume_all` succeeds it is no longer paused,
  -- it was paused before, and of every asset that was minted what is outstanding is within the escrow.
  pub resume_all-backed :
      (h : ℕ) (sigs : List SignerSig) (g : Gateway K)
      → (resume_all ml h sigs g).0 ≡ ok tt
      → (g.global_pause ≡ true)
        × ((resume_all ml h sigs g).1.global_pause ≡ false)
        × ((a n : ℕ)
            → lookup a g.per_asset_minted ≡ some n
            → outstanding_of a g ≤ unwrap_or 0 (lookup a g.escrowed))
  unfolding resume_all
  resume_all-backed h sigs g done =
      let (m, passed, written) = checked-ok _ _ g done in
      (
        unfold check_unpause in ground arith,
        unfold write_unpause in ground arith,
        λ a n e.
            let none_short : short_reserve g ≡ none = unfold check_unpause in ground arith in
            unfold outstanding_of in
            unfold minted_of_asset in
            ground (
              arith,
              first_short-none g g.per_asset_minted (unfold short_reserve in none_short) a n e,
            ),
      )
