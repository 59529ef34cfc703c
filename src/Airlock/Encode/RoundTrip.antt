-- ===== src/Airlock/Encode/RoundTrip.antt =====
-- What is encoded parses as what it was.
use q_oracle.Base.{
  ℕ, ◌+◌, ◌*◌, ◌^◌, ◌≤◌, ◌<◌, ◌≡◌, refl, sym, ap, subst, ◌∙◌, true, false, Option, none, some, List,
  [], ◌∷◌, ◌++◌, append_assoc, append-nil, arith,
}
use q_oracle.Base.Tests.{leb, ◌==◌}
use q_oracle.Base.Words.{u64_max}
use q_oracle.Base.Lists.{length, length-append, All}
use q_oracle.Base.Result.{ok, ◌>>=◌}
use q_oracle.Codec.Bytes.{to_le_bytes, length-to_le_bytes, from_le_bytes-to_le_bytes}
use q_oracle.Codec.Writer
use q_oracle.Codec.Writer.{Writer}
use q_oracle.Codec.Reader
use q_oracle.Codec.Reader.{Reader, Parser}
use q_oracle.Codec.Reader.Reads.{
  At, skip, At-skip, advance_lem, slice_lem, Reads, fixed-Reads, u8-Reads, u32-Reads, finish_lem,
  skip-zero, skip-skip,
}
use q_oracle.Codec.Fact.{encode, fact_version}
use q_oracle.Codec.Fact.RoundTrip.{InRange, decode-encode, length-encode}
use q_oracle.Airlock.Envelope.{SignerSig, AttestationEnvelope, Artifact}
use q_oracle.Airlock.Parse.{parse, parse_tagged, parse_attestation, parse_signatures}
use q_oracle.Airlock.Parse.Ascending.{IsAscending, IsAbove-out_of_order}
use q_oracle.Airlock.Encode.{insert_by_id, sort_by_id, encode_signatures, encode_attestation}

-- the bytes of a signature, and of all
abbrev sig_bytes : SignerSig → List ℕ
sig_bytes s = to_le_bytes 4 s.operator_id ++ (to_le_bytes 2 (length s.signature) ++ s.signature)

abbrev sigs_bytes : List SignerSig → List ℕ
sigs_bytes [] = []
sigs_bytes (s ∷ sigs) = sig_bytes s ++ sigs_bytes sigs

-- Every field of a signature fits its place.
abbrev pub Fits : SignerSig → Type 0
Fits s = (s.operator_id < 256 ^ 4) × (length s.signature ≤ 65535)

bytes_u16-Reads :
    (bs : List ℕ) → length bs ≤ 65535 → Reads Reader.bytes_u16 bs (to_le_bytes 2 (length bs) ++ bs)
unfolding Reader.bytes_u16
bytes_u16-Reads bs h r ys at =
    let n = to_le_bytes 2 (length bs) in
    let at1 = subst (At r) (append_assoc n bs ys) at in
    let two = sym (length-to_le_bytes 2 (length bs)) in
    let r1 = record r { pos = r.pos + 2 } in
    let at2 =
      subst (λ k. At (record r { pos = r.pos + k }) (bs ++ ys)) (sym two)
        (At-skip r n (bs ++ ys) at1) in
    rw
      (
        ap (λ k. Reader.advance k r) two
            ∙ advance_lem r n (bs ++ ys) at1
            ∙ ap (λ k. ok (r.pos + k)) (sym two),
        ap (λ k. Reader.slice (r.pos + k) r) two ∙ slice_lem r n (bs ++ ys) at1,
        from_le_bytes-to_le_bytes 2 (length bs) (omega arith),
        fixed-Reads bs r1 ys at2,
        skip-skip 2 (length bs) r,
      )
      (ap (λ k. ok (bs, skip k r)) (omega (arith, length-append n bs, two)))

sort_by_id-IsAscending :
    (sigs : List SignerSig) (last : Option ℕ) → IsAscending last sigs → sort_by_id sigs ≡ sigs
unfolding sort_by_id insert_by_id
sort_by_id-IsAscending [] last h = refl
sort_by_id-IsAscending (s ∷ []) last h = refl
sort_by_id-IsAscending (s ∷ t ∷ sigs) last h =
    rw (sort_by_id-IsAscending (t ∷ sigs) (some s.operator_id) h.1) (ground (arith, h.1.0))

encode_signatures_lem :
    (sigs : List SignerSig) (w : Writer)
    → All Fits sigs
    → encode_signatures sigs w ≡ ok (record { buf = w.buf ++ sigs_bytes sigs })
unfolding encode_signatures Writer.bytes_u16 Writer.u32
encode_signatures_lem [] w h = rw (append-nil w.buf) refl
encode_signatures_lem (s ∷ sigs) w h =
    let small : leb (length s.signature) 65535 ≡ true = ground (arith, h.0.1) in
    rw (small, encode_signatures_lem sigs _ h.1) (simp append_assoc)

-- the loop reads what was written
parse_signatures_lem :
    (sigs : List SignerSig) (last : Option ℕ) (r : Reader) (ys : List ℕ)
    → IsAscending last sigs
    → All Fits sigs
    → At r (sigs_bytes sigs ++ ys)
    → parse_signatures (length sigs) last r ≡ ok (sigs, skip (length (sigs_bytes sigs)) r)
unfolding parse_signatures
parse_signatures_lem [] last r ys up h at = rw (skip-zero r) refl
parse_signatures_lem (s ∷ sigs) last r ys up h at =
    let id = to_le_bytes 4 s.operator_id in
    let sig = to_le_bytes 2 (length s.signature) ++ s.signature in
    let rest = sigs_bytes sigs ++ ys in
    let at1 =
      subst (At r) (append_assoc (id ++ sig) (sigs_bytes sigs) ys ∙ append_assoc id sig rest) at in
    let r1 = skip (length id) r in
    let at2 = At-skip r id (sig ++ rest) at1 in
    let r2 = skip (length sig) r1 in
    rw
      (
        u32-Reads s.operator_id h.0.0 r (sig ++ rest) at1,
        IsAbove-out_of_order last s.operator_id up.0,
        bytes_u16-Reads s.signature h.0.1 r1 rest at2,
        parse_signatures_lem sigs (some s.operator_id) r2 ys up.1 h.1 (At-skip r1 sig rest at2),
      )
      (ap (λ q. ok (s ∷ sigs, q))
        (skip-skip (length sig) (length (sigs_bytes sigs)) r1
          ∙ skip-skip (length id) (length sig + length (sigs_bytes sigs)) r
          ∙ ap (λ k. skip k r)
              (omega (arith, length-append id sig, length-append (id ++ sig) (sigs_bytes sigs)))))

length-sigs_bytes :
    (sigs : List SignerSig) → All Fits sigs → length (sigs_bytes sigs) ≤ length sigs * 65541
length-sigs_bytes [] h = omega arith
length-sigs_bytes (s ∷ sigs) h =
    let id = to_le_bytes 4 s.operator_id in
    let n = to_le_bytes 2 (length s.signature) in
    omega (
      arith,
      length-append (sig_bytes s) (sigs_bytes sigs),
      length-append id (n ++ s.signature),
      length-append n s.signature,
      length-to_le_bytes 4 s.operator_id,
      length-to_le_bytes 2 (length s.signature),
      h.0.1,
      length-sigs_bytes sigs h.1,
    )

-- the bytes of an envelope
abbrev one : List ℕ
one = to_le_bytes 1 1

abbrev after_head : AttestationEnvelope → List ℕ
after_head env =
    encode env.fact ++ (to_le_bytes 4 (length env.signatures) ++ (sigs_bytes env.signatures ++ []))

abbrev env_bytes : AttestationEnvelope → List ℕ
env_bytes env = one ++ (one ++ after_head env)

module _ (env : AttestationEnvelope) (range : InRange env.fact)
    (up : IsAscending none env.signatures) (fit : All Fits env.signatures)
    (few : length env.signatures < 256 ^ 4) where
  encode_attestation_lem : encode_attestation env ≡ ok (env_bytes env)
  unfolding encode_attestation Writer.new Writer.u8 Writer.fixed Writer.u32 Writer.finish
  encode_attestation_lem =
      rw (sort_by_id-IsAscending env.signatures none up, encode_signatures_lem env.signatures _ fit)
        (simp (append_assoc, append-nil))

  env_bytes-short : length (env_bytes env) ≤ u64_max
  env_bytes-short =
      let c = to_le_bytes 4 (length env.signatures) in
      omega (
        arith,
        length-append one (one ++ after_head env),
        length-append one (after_head env),
        length-append (encode env.fact) (c ++ (sigs_bytes env.signatures ++ [])),
        length-append c (sigs_bytes env.signatures ++ []),
        ap length (append-nil (sigs_bytes env.signatures)),
        length-to_le_bytes 1 1,
        length-to_le_bytes 4 (length env.signatures),
        length-encode env.fact,
        length-sigs_bytes env.signatures fit,
        few,
      )

  parse_attestation_lem :
      (r : Reader)
      → env.fact.version ≡ fact_version
      → leb 1 (length env.signatures) ≡ true
      → At r (one ++ after_head env)
      → parse_attestation r ≡ ok env
  unfolding parse_attestation
  parse_attestation_lem r v some_sig at =
      let f = encode env.fact in
      let n = length env.signatures in
      let c = to_le_bytes 4 n in
      let sigs = sigs_bytes env.signatures in
      let r1 = skip (length one) r in
      let at1 = At-skip r one (after_head env) at in
      let r2 = skip (length f) r1 in
      let at2 = At-skip r1 f (c ++ (sigs ++ [])) at1 in
      let r3 = skip (length c) r2 in
      let at3 = At-skip r2 c (sigs ++ []) at2 in
      let r4 = skip (length sigs) r3 in
      let none_zero : (n == 0) ≡ false = ground arith in
      rw
        (
          u8-Reads 1 (omega arith) r (after_head env) at,
          ap (λ k. Reader.fixed k r1) (sym (length-encode env.fact))
              ∙ fixed-Reads f r1 (c ++ (sigs ++ [])) at1,
          decode-encode env.fact range v,
          u32-Reads n few r2 (sigs ++ []) at2,
          none_zero,
          parse_signatures_lem env.signatures none r3 [] up fit at3,
          finish_lem r4 (At-skip r3 sigs [] at3),
        )
        refl

-- An attestation whose fact is of version 1, whose fields fit their types, which has at least one signature and fewer than
-- 2^32, none longer than 65535 bytes, and whose operator ids strictly ascend is encoded, and `parse` gives the same
-- attestation back.
pub parse-encode_attestation :
    (env : AttestationEnvelope)
    → InRange env.fact
    → env.fact.version ≡ fact_version
    → IsAscending none env.signatures
    → All Fits env.signatures
    → 1 ≤ length env.signatures
    → length env.signatures < 256 ^ 4
    → (encode_attestation env >>= parse) ≡ ok (Artifact.attestation env)
unfolding parse parse_tagged Reader.new
parse-encode_attestation env range v up fit some_sig few =
    let bytes = env_bytes env in
    let r = Reader.new bytes in
    let at : At r bytes = record {
      rest = refl;
      within = omega arith;
      fits = env_bytes-short env range up fit few;
    } in
    rw
      (
        encode_attestation_lem env range up fit few,
        u8-Reads 1 (omega arith) r (one ++ after_head env) at,
        parse_attestation_lem env range up fit few (skip (length one) r) v (ground arith)
            (At-skip r one (one ++ after_head env) at),
      )
      refl
