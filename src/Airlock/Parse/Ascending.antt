-- ===== src/Airlock/Parse/Ascending.antt =====
-- What an attestation that parses looks like.
use q_oracle.Base.{
  ℕ, zero, suc, ◌≡◌, ◌≢◌, ◌<◌, refl, sym, ap, ◌∙◌, false, not, Option, none, some, List, [], ◌∷◌,
  arith,
}
use q_oracle.Base.Tests.{◌==◌}
use q_oracle.Base.Lists.{length}
use q_oracle.Base.Result.{Result, ok, err, panic, >>=-eq-ok, fail_if-eq-ok, map_err, ok-injective}
use q_oracle.Codec.Errors.{CodecError}
use q_oracle.Codec.Reader
use q_oracle.Codec.Reader.{Reader}
use q_oracle.Codec.Fact.{decode, fact_encoded_len}
use q_oracle.Airlock.Envelope.{
  SignerSig, AttestationEnvelope, Artifact, codec, bad_version, non_canonical,
}
use q_oracle.Airlock.Parse.{
  parse, parse_tagged, parse_attestation, parse_signatures, out_of_order, envelope_version,
}

-- An id is above the one before it, if there is one.
abbrev pub IsAbove : Option ℕ → ℕ → Type 0
IsAbove none id = Unit
IsAbove (some last) id = last < id

pub IsAbove-out_of_order :
    (last : Option ℕ) (id : ℕ) → IsAbove last id → out_of_order id last ≡ false
IsAbove-out_of_order none id h = refl
IsAbove-out_of_order (some last) id h = ground arith

out_of_order-IsAbove : (last : Option ℕ) (id : ℕ) → out_of_order id last ≡ false → IsAbove last id
out_of_order-IsAbove none id h = tt
out_of_order-IsAbove (some last) id h = ground arith

-- Every operator id is above the one before it.
abbrev pub IsAscending : Option ℕ → List SignerSig → Type 0
IsAscending last [] = Unit
IsAscending last (s ∷ sigs) = IsAbove last s.operator_id × IsAscending (some s.operator_id) sigs

-- one round of the loop that succeeds
parse_signatures_inv :
    (count : ℕ) (last : Option ℕ) (r r' : Reader) (sigs : List SignerSig)
    → parse_signatures (suc count) last r ≡ ok (sigs, r')
    → (s : SignerSig) × (at : Reader) × (rest : List SignerSig) × (out_of_order s.operator_id last
        ≡ false)
      × (parse_signatures count (some s.operator_id) at ≡ ok (rest, r'))
      × (sigs ≡ s ∷ rest)
unfolding parse_signatures
parse_signatures_inv count last r r' sigs h =
    let ((id, r1), _, k1) = >>=-eq-ok (map_err codec (Reader.u32 r)) _ h in
    let (up, k2) = fail_if-eq-ok (out_of_order id last) non_canonical _ k1 in
    let ((sig, r2), _, k3) = >>=-eq-ok (map_err codec (Reader.bytes_u16 r1)) _ k2 in
    let ((rest, r3), more, k4) = >>=-eq-ok (parse_signatures count (some id) r2) _ k3 in
    let e : ◌≡◌ {A = List SignerSig × Reader}
        (record { operator_id = id; signature = sig } ∷ rest, r3) (sigs, r') =
      ok-injective k4 in
    (
      record { operator_id = id; signature = sig },
      r2,
      rest,
      up,
      more ∙ ap (λ (v : Reader). ok (rest, v)) (ap (λ p. p.1) e),
      sym (ap (λ p. p.0) e),
    )

parse_signatures-IsAscending :
    (count : ℕ) (last : Option ℕ) (r r' : Reader) (sigs : List SignerSig)
    → parse_signatures count last r ≡ ok (sigs, r')
    → IsAscending last sigs × (length sigs ≡ count)
parse_signatures-IsAscending zero last r r' sigs h = unfold parse_signatures in ground arith
parse_signatures-IsAscending (suc count) last r r' sigs h =
    let (s, at, rest, up, more, e) = parse_signatures_inv count last r r' sigs h in
    let (ups, n) = parse_signatures-IsAscending count (some s.operator_id) at r' rest more in
    rw e ((out_of_order-IsAbove last s.operator_id up, ups), ap suc n)

parse_attestation_inv :
    (r : Reader) (env : AttestationEnvelope)
    → parse_attestation r ≡ ok env
    → (count : ℕ) × (at : Reader) × (after : Reader) × (count ≢ 0)
      × (parse_signatures count none at ≡ ok (env.signatures, after))
unfolding parse_attestation
parse_attestation_inv r env h =
    let ((version, r1), _, k1) = >>=-eq-ok (map_err codec (Reader.u8 r)) _ h in
    let (_, k2) = fail_if-eq-ok (not (version == envelope_version)) bad_version _ k1 in
    let ((bytes, r2), _, k3) = >>=-eq-ok (map_err codec (Reader.fixed fact_encoded_len r1)) _ k2 in
    let (fact, _, k4) = >>=-eq-ok (map_err codec (decode bytes)) _ k3 in
    let ((count, r3), _, k5) = >>=-eq-ok (map_err codec (Reader.u32 r2)) _ k4 in
    let (some_sigs, k6) = fail_if-eq-ok (count == 0) non_canonical _ k5 in
    let ((sigs, r4), read, k7) = >>=-eq-ok (parse_signatures count none r3) _ k6 in
    let (_, _, k8) = >>=-eq-ok (map_err codec (Reader.finish r4)) _ k7 in
    let e : sigs ≡ env.signatures = ap (λ v. v.signatures) (ok-injective k8) in
    (count, r3, r4, ground arith, read ∙ ap (λ (v : List SignerSig). ok (v, r4)) e)

parse_inv :
    (input : List ℕ) (env : AttestationEnvelope)
    → parse input ≡ ok (Artifact.attestation env)
    → (r : Reader) × (parse_attestation r ≡ ok env)
unfolding parse parse_tagged
parse_inv input env h = tag_read (Reader.u8 (Reader.new input)) refl
  where
    tag_read :
        (m : Result CodecError (ℕ × Reader))
        → Reader.u8 (Reader.new input) ≡ m
        → (r : Reader) × (parse_attestation r ≡ ok env)
    tag_read (ok (tag, r)) e = (r, ground arith)
    tag_read (err x) e = absurd (ground arith)
    tag_read panic e = absurd (ground arith)

-- An attestation that parses has at least one signature, and the ids of its operators strictly ascend.
pub parse-IsAscending :
    (input : List ℕ) (env : AttestationEnvelope)
    → parse input ≡ ok (Artifact.attestation env)
    → IsAscending none env.signatures × (length env.signatures ≢ 0)
parse-IsAscending input env h =
    let (r, parsed) = parse_inv input env h in
    let (count, at, after, some_sigs, sigs) = parse_attestation_inv r env parsed in
    let (up, n) = parse_signatures-IsAscending count none at after env.signatures sigs in
    (up, λ e. some_sigs (sym n ∙ e))
