-- ===== src/Desk/BurnProof/Sound.antt =====
-- What a verified burn proves.
use q_oracle.Base.{ℕ, ◌≤◌, ◌≡◌, refl, ap, subst, true, ◌||◌, not, Option, none, some, arith}
use q_oracle.Base.Lists.{length}
use q_oracle.Base.Result.{ok, fail_if, ok_or, peel, ok-injective}
use q_oracle.Base.Map.{list_beq, nat_key}
use q_oracle.Base.{List}
use q_oracle.Desk.Errors.{ExitError}
use q_oracle.Desk.Qtv.{Qtv, QtvCodec}
use q_oracle.Desk.Anchor.{QuantovaAnchor, binding, commitment_at}
use q_oracle.Desk.BurnProof.{
  AuthenticatedBurn, ProofOfBurn, native_event_source, event_bridge_burn, leaf_part, array_of,
  bound, burn_ref_preimage, skip_tx, parse_burn_fields, parse_burn_leaf, certified, verify,
}

ok_or-some : {A : Type 0} (o : Option A) (e : ExitError) {a : A} → ok_or o e ≡ ok a → o ≡ some a
ok_or-some none e h = cc h
ok_or-some (some b) e h = ap some (ok-injective h)

module _ {H C I Commitment Beacon D E : Type 0} (qtv : Qtv H C I Commitment Beacon)
    (codec : QtvCodec D E) where
  -- The certificate is for the header, from the anchor's committee, and the leaf is in the header's event tree.
  pub record IsCertified (anchor : QuantovaAnchor Commitment Beacon) (proof : ProofOfBurn C I)
      (header : H) : Type 0 where
    pub hash : qtv.block_val proof.certificate ≡ qtv.hash header
    pub block_height : qtv.block_height proof.certificate ≡ qtv.height header
    pub envelope_height : qtv.envelope_height proof.certificate ≡ qtv.height header
    pub finalized :
        qtv.verified
          (binding anchor)
          (commitment_at qtv (qtv.slot proof.certificate) anchor)
          anchor.beacon
          anchor.tau
          proof.certificate
        ≡ true
    pub attested : anchor.tau ≤ length (qtv.attesters proof.certificate)
    pub included : qtv.verify_inclusion (qtv.event_root header) proof.leaf proof.inclusion ≡ true

  certified-IsCertified :
      (anchor : QuantovaAnchor Commitment Beacon) (proof : ProofOfBurn C I) (header : H)
      {u : Unit {0}}
      → certified qtv codec anchor proof header ≡ ok u
      → IsCertified anchor proof header
  unfolding certified
  certified-IsCertified anchor proof header h = record {
    hash = ground arith;
    block_height = ground arith;
    envelope_height = ground arith;
    finalized = ground arith;
    attested = ground arith;
    included = ground arith;
  }

  -- the burn's reference is the hash of its fields for the chain with a genesis, with some nonce and event index
  unfoldable pub IsBound : ℕ → AuthenticatedBurn → Type 0
  IsBound genesis burn =
      (nonce : ℕ) × (index : ℕ) × (qtv.sha3_256 (
          burn_ref_preimage qtv codec burn.dest_chain genesis burn.asset_id burn.holder burn.amount
            burn.destination nonce index)
        ≡ burn.burn_ref)

  bound-eq :
      (genesis : ℕ) (preimage : ℕ → List ℕ) (burn_ref : ℕ)
      → bound qtv codec (some genesis) preimage burn_ref ≡ ok tt
      → qtv.sha3_256 (preimage genesis) ≡ burn_ref
  unfolding bound
  bound-eq genesis preimage burn_ref h = ground arith

  parse_burn_fields-IsBound :
      (input : List ℕ) (height genesis : ℕ) (burn : AuthenticatedBurn)
      → parse_burn_fields qtv codec input height (some genesis) ≡ ok burn
      → (burn.finalized_height ≡ height) × IsBound genesis burn
  unfolding parse_burn_fields IsBound
  parse_burn_fields-IsBound input height genesis burn h =
      peel (leaf_part (codec.get_bytes (codec.decoder input))) _ h λ f1 _ k1.
        peel (leaf_part (codec.get_bytes f1.1)) _ k1 λ f2 _ k2.
          peel (leaf_part (codec.get_u128 f2.1)) _ k2 λ f3 _ k3.
            peel (leaf_part (codec.get_bytes f3.1)) _ k3 λ f4 _ k4.
              peel (leaf_part (codec.get_u64 f4.1)) _ k4 λ f5 _ k5.
                peel (leaf_part (codec.get_u64 f5.1)) _ k5 λ f6 _ k6.
                  peel (leaf_part (codec.get_u64 f6.1)) _ k6 λ f7 _ k7.
                    peel (leaf_part (codec.get_bytes f7.1)) _ k7 λ f8 _ k8.
                      peel (fail_if (not (codec.finish f8.1)) ExitError.leaf_decode) _ k8 λ _ _ k9.
                        peel (array_of 16 f1.0) _ k9 λ asset_id _ k10.
                          peel (array_of 32 f2.0) _ k10 λ holder _ k11.
                            peel (array_of 32 f4.0) _ k11 λ destination _ k12.
                              peel (array_of 32 f8.0) _ k12 λ burn_ref _ k13.
                                peel
                                  (bound qtv codec (some genesis)
                                    (λ g.
                                      burn_ref_preimage qtv codec f5.0 g asset_id holder f3.0
                                        destination f6.0 f7.0)
                                    burn_ref)
                                  _ k13
                                  λ _ b k14.
                                    subst (λ x. (x.finalized_height ≡ height) × IsBound genesis x)
                                      (ok-injective k14)
                                      (refl, (f6.0, f7.0, bound-eq genesis _ burn_ref b))

  parse_burn_leaf-IsBound :
      (leaf : List ℕ) (height genesis : ℕ) (burn : AuthenticatedBurn)
      → parse_burn_leaf qtv codec leaf height (some genesis) ≡ ok burn
      → (burn.finalized_height ≡ height) × IsBound genesis burn
  unfolding parse_burn_leaf
  parse_burn_leaf-IsBound leaf height genesis burn h =
      peel (leaf_part (codec.get_bytes (codec.decoder leaf))) _ h λ o1 _ k1.
        peel (leaf_part (codec.get_bytes o1.1)) _ k1 λ o2 _ k2.
          peel (leaf_part (codec.get_bytes o2.1)) _ k2 λ o3 _ k3.
            peel (skip_tx qtv codec o3.1) _ k3 λ o4 _ k4.
              peel (fail_if (not (codec.finish o4)) ExitError.leaf_decode) _ k4 λ _ _ k5.
                peel
                  (fail_if
                    (not (list_beq o1.0 native_event_source)
                      || not (list_beq o2.0 event_bridge_burn))
                    ExitError.not_a_burn_leaf)
                  _ k5 λ _ _ k6. parse_burn_fields-IsBound o3.0 height genesis burn k6

-- A burn that `verify` accepts is proved: some header decodes from the proof's bytes, the certificate is for its hash and height,
-- is verified against the anchor's committee and has at least `tau` attesters, the leaf is in the header's event tree, and
-- the burn has the header's height and a reference that is the hash of its fields and the anchor's genesis.
pub verify_sound :
    {H C I Commitment Beacon D E : Type 0} (qtv : Qtv H C I Commitment Beacon)
    (codec : QtvCodec D E) (anchor : QuantovaAnchor Commitment Beacon) (proof : ProofOfBurn C I)
    (burn : AuthenticatedBurn)
    → verify qtv codec anchor proof ≡ ok burn
    → (header : H) × (qtv.header_from_bytes proof.header_bytes ≡ some header)
      × IsCertified qtv codec anchor proof header
      × (burn.finalized_height ≡ qtv.height header)
      × IsBound qtv codec anchor.genesis burn
unfolding verify
verify_sound qtv codec anchor proof burn h =
    peel (ok_or (qtv.header_from_bytes proof.header_bytes) ExitError.header_decode) _ h
      λ header found k1. peel (certified qtv codec anchor proof header) _ k1 λ _ passed k2.
        let (height, is_bound) =
          parse_burn_leaf-IsBound qtv codec proof.leaf (qtv.height header) anchor.genesis burn k2 in
        (
          header,
          ok_or-some _ _ found,
          certified-IsCertified qtv codec anchor proof header passed,
          height,
          is_bound,
        )
