-- ===== src/Codec/Fact/Canonical.antt =====
-- The encoding is canonical: what decodes is exactly what `encode` writes for the result.
use q_oracle.Base.{ℕ, ◌≤◌, ◌≡◌, refl, ◌∙◌, List, arith}
use q_oracle.Base.Result.{ok}
use q_oracle.Base.Words.{u64_max}
use q_oracle.Base.Lists.{length, All}
use q_oracle.Codec.Bytes.{IsByte}
use q_oracle.Codec.Errors.{tag-from_tag}
use q_oracle.Codec.Parser.{◌>>◌}
use q_oracle.Codec.Reader.Parses.{
  Accepts, bind-Accepts, finish-Accepts, run-Accepts, lift-Parses, u8-Parses, u32-Parses,
  u64-Parses, u128-Parses, array16-Parses, array32-Parses,
}
use q_oracle.Codec.Fact.{BridgeFact, encode, decode, parse_fact, check_version, fact_version}
use q_oracle.Codec.Fact.RoundTrip.{layout, encode-layout}

check_version_inv : (v : ℕ) {u : Unit {0}} → check_version v ≡ ok u → v ≡ fact_version
unfolding check_version
check_version_inv v h = ground arith

parse_fact-Accepts : Accepts parse_fact (λ f xs. (layout f ≡ xs) × (f.version ≡ fact_version))
unfolding parse_fact ◌>>◌
parse_fact-Accepts = bind-Accepts _ _ u8-Parses λ version x0 e0.
    bind-Accepts _ _ (lift-Parses _) λ _ c hc. bind-Accepts _ _ u32-Parses λ source_chain x1 e1.
      bind-Accepts _ _ u32-Parses λ dest_chain x2 e2. bind-Accepts _ _ u32-Parses λ route_id x3 e3.
        bind-Accepts _ _ u8-Parses λ direction_tag x4 e4.
          bind-Accepts _ _ (lift-Parses _) λ direction d hd.
            bind-Accepts _ _ u64-Parses λ nonce x5 e5.
              bind-Accepts _ _ array32-Parses λ source_ref x6 e6.
                bind-Accepts _ _ array16-Parses λ asset_id x7 e7.
                  bind-Accepts _ _ u128-Parses λ amount x8 e8.
                    bind-Accepts _ _ array32-Parses λ recipient x9 e9.
                      bind-Accepts _ _ u32-Parses λ finality_depth x10 e10.
                        bind-Accepts _ _ u64-Parses λ observed_height x11 e11.
                          bind-Accepts _ _ u64-Parses λ expiry_height x12 e12.
                            λ r r' f bs at bytes h.
                              let (ef, eb) = finish-Accepts _ r r' f bs at bytes h in
                              let t = tag-from_tag direction_tag direction hd.0 in
                              rw (ef, eb, ← e0, hc.1, ← e1, ← e2, ← e3, ← e4, hd.1)
                                (rw (← e5, ← e6, ← e7, ← e8, ← e9, ← e10, ← e11, ← e12)
                                  (rw t (refl, check_version_inv version hc.0)))

-- Whatever bytes decode to a fact, as many as a `u64` counts, are the encoding of that fact, and its version is 1.
pub encode-decode :
    (bs : List ℕ) (f : BridgeFact)
    → length bs ≤ u64_max
    → All IsByte bs
    → decode bs ≡ ok f
    → (encode f ≡ bs) × (f.version ≡ fact_version)
unfolding decode
encode-decode bs f fits bytes h =
    let (e, v) = run-Accepts parse_fact _ f bs parse_fact-Accepts fits bytes h in
    (encode-layout f ∙ e, v)
