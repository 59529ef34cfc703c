-- ===== src/Gateway/Steps/Replay.antt =====
-- A reference of a source chain is minted at most once in any history.
use q_oracle.Base.{ℕ, ◌≡◌, ◌≢◌, sym, ap, ◌∙◌, subst, true, List, [], ◌∷◌, arith}
use q_oracle.Base.Result.{Result, ok}
use q_oracle.Base.Map.{contains, contains-add, pair_key, nat_key}
use q_oracle.Airlock.Envelope.{AttestationEnvelope}
use q_oracle.Gateway.Errors.{GatewayError}
use q_oracle.Gateway.Operators.{MlDsa}
use q_oracle.Gateway.State.{Gateway, MintReceipt}
use q_oracle.Gateway.Call.{touch_guard}
use q_oracle.Gateway.Exits.{request_exit, finalize_exit, cancel_exit}
use q_oracle.Gateway.Exits.Outcomes.{
  Requested, Finalized, Cancelled, request_exit-Requested, finalize_exit-Finalized,
  cancel_exit-Cancelled,
}
use q_oracle.Gateway.Deposit.{write_mint, admit_trustless, process_deposit}
use q_oracle.Gateway.Deposit.Checks.{precheck_trustless}
use q_oracle.Gateway.Deposit.Outcomes.{Processed, process_deposit-Processed}
use q_oracle.Gateway.Deposit.Admission.{check_deposit_sound}
use q_oracle.Gateway.Steps.{Op, step, run}
use q_oracle.Gateway.Steps.Checked.{checked-cases, checked-ok}
use q_oracle.Gateway.Steps.Frame.{step-SameLedger}

module _ {K : Type 0} where
  -- the reference has been minted on its chain
  abbrev pub Used : ℕ × ℕ → Gateway K → Type 0
  Used key g = contains key g.used_refs ≡ true

  write_mint-Used :
      (a r n c : ℕ) (g : Gateway K) (key : ℕ × ℕ) → Used key g → Used key (write_mint a r n c g)
  unfolding write_mint
  write_mint-Used a r n c g key u = ground (arith, contains-add (c, r) key g.used_refs)

  write_mint-uses : (a r n c : ℕ) (g : Gateway K) → Used (c, r) (write_mint a r n c g)
  unfolding write_mint
  write_mint-uses a r n c g = ground (arith, contains-add (c, r) (c, r) g.used_refs)

module _ {K : Type 0} {A : Type 0} (key : ℕ × ℕ) where
  after :
      {h : Gateway K} {r : Result GatewayError A × Gateway K} {x : Result GatewayError A}
      → r ≡ (x, h)
      → Used key h
      → Used key r.1
  after e v = subst (Used key) (sym (ap (λ p. p.1) e)) v

module _ {K : Type 0} (ml : MlDsa K) (key : ℕ × ℕ) where
  request_exit-Used : (a n d : ℕ) (g : Gateway K) → Used key g → Used key (request_exit a n d g).1
  request_exit-Used a n d g u = elim (request_exit-Requested a n d g) [
    | Requested.refused e _ r ↦ after key r u
    | Requested.aborted _ _ r ↦ after key r u
    | Requested.done _ _ r ↦ after key r (unfold touch_guard in u)
  ]

  finalize_exit-Used : (id : ℕ) (g : Gateway K) → Used key g → Used key (finalize_exit id g).1
  finalize_exit-Used id g u = elim (finalize_exit-Finalized id g) [
    | Finalized.refused e r ↦ after key r u
    | Finalized.done _ _ _ _ _ r ↦ after key r (unfold touch_guard in u)
  ]

  cancel_exit-Used : (id : ℕ) (g : Gateway K) → Used key g → Used key (cancel_exit id g).1
  cancel_exit-Used id g u = elim (cancel_exit-Cancelled id g) [
    | Cancelled.refused _ r ↦ after key r u
    | Cancelled.done _ _ r ↦ after key r (unfold touch_guard in u)
  ]

  admit_trustless-Used :
      (a r n c : ℕ) (g : Gateway K) → Used key g → Used key (admit_trustless a r n c g).1
  unfolding admit_trustless
  admit_trustless-Used a r n c g u =
      checked-cases _ _ g (Used key) u (λ _ _. write_mint-Used a r n c g key u)

  process_deposit-Used :
      (env : AttestationEnvelope) (g : Gateway K)
      → Used key g
      → Used key (process_deposit ml env g).1
  process_deposit-Used env g u = elim (process_deposit-Processed ml env g) [
    | Processed.refused _ _ r ↦ after key r u
    | Processed.aborted _ r ↦ after key r u
    | Processed.done c r ↦ after key r (
        write_mint-Used env.fact.asset_id env.fact.source_ref env.fact.amount env.fact.source_chain
          g key u)
  ]

  step-Used : (op : Op) (g : Gateway K) → Used key g → Used key (step ml op g)
  step-Used (Op.request_exit a n d) g u = unfold step in request_exit-Used a n d g u
  step-Used (Op.finalize_exit id) g u = unfold step in finalize_exit-Used id g u
  step-Used (Op.cancel_exit id) g u = unfold step in cancel_exit-Used id g u
  step-Used (Op.admit_trustless a r n c) g u = unfold step in admit_trustless-Used a r n c g u
  step-Used (Op.process_deposit env) g u = unfold step in process_deposit-Used env g u
  step-Used op g u = rw ((step-SameLedger ml op g tt).refs) u

  run-Used : (ops : List Op) (g : Gateway K) → Used key g → Used key (run ml ops g)
  unfolding run
  run-Used [] g u = u
  run-Used (op ∷ ops) g u = run-Used ops (step ml op g) (step-Used op g u)

  -- a used reference is refused, by an attested deposit and by a proved one
  process_deposit-unused :
      (env : AttestationEnvelope) (g : Gateway K) (r : MintReceipt)
      → (env.fact.source_chain, env.fact.source_ref) ≡ key
      → Used key g
      → (process_deposit ml env g).0 ≢ ok r
  process_deposit-unused env g r same u h = elim (process_deposit-Processed ml env g) [
    | Processed.refused _ _ q ↦ cc (sym (ap (λ p. p.0) q) ∙ h)
    | Processed.aborted _ q ↦ cc (sym (ap (λ p. p.0) q) ∙ h)
    | Processed.done c q ↦
        cc (sym (check_deposit_sound ml env g c).unused ∙ ap (λ k. contains k g.used_refs) same ∙ u)
  ]

  admit_trustless-unused :
      (a r n c : ℕ) (g : Gateway K)
      → (c, r) ≡ key
      → Used key g
      → (admit_trustless a r n c g).0 ≢ ok tt
  unfolding admit_trustless precheck_trustless
  admit_trustless-unused a r n c g same u h =
      let (_, e, _) = checked-ok _ _ g h in
      let u' = ap (λ k. contains k g.used_refs) same ∙ u in ground arith

module _ {K : Type 0} where
  admit_trustless-uses :
      (a r n c : ℕ) (g : Gateway K)
      → (admit_trustless a r n c g).0 ≡ ok tt
      → Used (c, r) (admit_trustless a r n c g).1
  unfolding admit_trustless
  admit_trustless-uses a r n c g h =
      let (_, _, e) = checked-ok _ _ g h in subst (Used (c, r)) (sym e) (write_mint-uses a r n c g)

module _ {K : Type 0} (ml : MlDsa K) where
  process_deposit-uses :
      (env : AttestationEnvelope) (g : Gateway K) (r : MintReceipt)
      → (process_deposit ml env g).0 ≡ ok r
      → Used (env.fact.source_chain, env.fact.source_ref) (process_deposit ml env g).1
  process_deposit-uses env g r h = elim (process_deposit-Processed ml env g) [
    | Processed.refused _ _ q ↦ cc (sym (ap (λ p. p.0) q) ∙ h)
    | Processed.aborted _ q ↦ cc (sym (ap (λ p. p.0) q) ∙ h)
    | Processed.done c q ↦ after _ q (
        write_mint-uses env.fact.asset_id env.fact.source_ref env.fact.amount env.fact.source_chain
          g)
  ]

-- The call is a deposit that names the chain and the reference of `key`, attested or proved, and the gateway accepts it.
pub data Accepted {K : Type 0} (ml : MlDsa K) (key : ℕ × ℕ) (g : Gateway K) : Op → Type 0 where
  attested :
      (env : AttestationEnvelope) (r : MintReceipt)
      → (env.fact.source_chain, env.fact.source_ref) ≡ key
      → (process_deposit ml env g).0 ≡ ok r
      → Accepted ml key g (Op.process_deposit env)
  proved :
      (asset_id source_ref amount source_chain : ℕ)
      → (source_chain, source_ref) ≡ key
      → (admit_trustless asset_id source_ref amount source_chain g).0 ≡ ok tt
      → Accepted ml key g (Op.admit_trustless asset_id source_ref amount source_chain)

module _ {K : Type 0} (ml : MlDsa K) (key : ℕ × ℕ) where
  Accepted-uses : {op : Op} (g : Gateway K) → Accepted ml key g op → Used key (step ml op g)
  unfolding step
  Accepted-uses g (attested env r same h) =
      subst (λ k. Used k (process_deposit ml env g).1) same (process_deposit-uses ml env g r h)
  Accepted-uses g (proved a r n c same h) =
      subst (λ k. Used k (admit_trustless a r n c g).1) same (admit_trustless-uses a r n c g h)

  Accepted-unused : {op : Op} (g : Gateway K) → Accepted ml key g op → ¬ Used key g
  Accepted-unused g (attested env r same h) u = process_deposit-unused ml key env g r same u h
  Accepted-unused g (proved a r n c same h) u = admit_trustless-unused ml key a r n c g same u h

-- No reference of a source chain is minted twice: once a deposit is accepted, attested or proved, after any further
-- calls no deposit that names the same reference of the same chain is accepted, attested or proved.
pub run-replay :
    {K : Type 0} (ml : MlDsa K) (key : ℕ × ℕ) (g : Gateway K) (first second : Op) (ops : List Op)
    → Accepted ml key g first
    → ¬ Accepted ml key (run ml ops (step ml first g)) second
run-replay ml key g first second ops done again =
    Accepted-unused ml key _ again (run-Used ml key ops _ (Accepted-uses ml key g done))
