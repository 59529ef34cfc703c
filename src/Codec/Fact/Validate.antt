-- ===== src/Codec/Fact/Validate.antt =====
-- What `validate` lets through, and what the signed message of a fact binds.
use q_oracle.Base.{ℕ, ◌^◌, ◌<◌, ◌≡◌, ◌≢◌, ◌↔◌, refl, sym, ap, ◌∙◌, List, ◌++◌, append_assoc, arith}
use q_oracle.Base.Result.{ok, ok-injective}
use q_oracle.Base.Lists.{length, take, drop, take-append, drop-append}
use q_oracle.Codec.Bytes.{to_le_bytes, from_le_bytes, from_le_bytes-to_le_bytes}
use q_oracle.Codec.Writer
use q_oracle.Codec.Fact.{
  BridgeFact, encode, decode, validate, attest_preimage, attest_domain, fact_version,
}
use q_oracle.Codec.Fact.RoundTrip.{InRange, length-encode, decode-encode}

-- What the fields of a valid fact are.
pub record IsValid (f : BridgeFact) : Type 0 where
  pub version : f.version ≡ fact_version
  pub source_chain : f.source_chain ≢ 0
  pub dest_chain : f.dest_chain ≢ 0
  pub amount : f.amount ≢ 0
  pub asset_id : f.asset_id ≢ 0
  pub recipient : f.recipient ≢ 0
  pub source_ref : f.source_ref ≢ 0

-- `validate` accepts exactly the facts of version 1 whose chains, amount, asset, recipient and reference are not zero.
pub validate-IsValid : (f : BridgeFact) → (validate f ≡ ok tt) ↔ IsValid f
unfolding validate
validate-IsValid f = (λ h. ground arith, λ v. ground arith)

preimage-layout :
    (d : ℕ) (f : BridgeFact) → attest_preimage d f ≡ attest_domain ++ (encode f ++ to_le_bytes 8 d)
unfolding attest_preimage Writer.finish Writer.new Writer.fixed Writer.u64
preimage-layout d f = simp append_assoc

append-injective :
    (xs xs' ys ys' : List ℕ)
    → length xs ≡ length xs'
    → xs ++ ys ≡ xs' ++ ys'
    → (xs ≡ xs') × (ys ≡ ys')
append-injective xs xs' ys ys' e h = (
  sym (take-append xs ys)
      ∙ ap (take (length xs)) h
      ∙ ap (λ n. take n (xs' ++ ys')) e
      ∙ take-append xs' ys',
  sym (drop-append xs ys)
      ∙ ap (drop (length xs)) h
      ∙ ap (λ n. drop n (xs' ++ ys')) e
      ∙ drop-append xs' ys',
)

-- The message that the operators sign binds the whole fact and the destination chain: two facts of
-- version 1 in range with the same message are the same fact, for the same destination.
pub attest_preimage-injective :
    (d d' : ℕ) (f g : BridgeFact)
    → d < 256 ^ 8
    → d' < 256 ^ 8
    → InRange f
    → InRange g
    → f.version ≡ fact_version
    → g.version ≡ fact_version
    → attest_preimage d f ≡ attest_preimage d' g
    → (f ≡ g) × (d ≡ d')
attest_preimage-injective d d' f g hd hd' hf hg vf vg h =
    let e = sym (preimage-layout d f) ∙ h ∙ preimage-layout d' g in
    let (_, body) = append-injective attest_domain attest_domain _ _ refl e in
    let (facts, dests) =
      append-injective (encode f) (encode g) _ _ (length-encode f ∙ sym (length-encode g)) body in
    (
      ok-injective (sym (decode-encode f hf vf) ∙ ap decode facts ∙ decode-encode g hg vg),
      sym (from_le_bytes-to_le_bytes 8 d hd)
          ∙ ap from_le_bytes dests
          ∙ from_le_bytes-to_le_bytes 8 d' hd',
    )
