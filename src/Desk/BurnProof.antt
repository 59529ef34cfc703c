-- ===== src/Desk/BurnProof.antt =====
-- crates/q-exits/src/burn_proof.rs: a burn on Quantova, proved by a block header, its certificate and an inclusion.
pub mod Sound
use q_oracle.Base.{ℕ, Bool, true, false, ◌||◌, not, Option, none, some, List, [], ◌∷◌}
use q_oracle.Base.Tests.{ltb, ◌==◌, if◌then◌else◌}
use q_oracle.Base.Lists.{length}
use q_oracle.Base.Map.{list_beq, nat_key}
use q_oracle.Base.Result.{Result, ok, err, panic, fail_if, ok_or, ◌>>=◌, ◌>>◌}
use q_oracle.Codec.Bytes.{to_be_bytes, from_be_bytes}
use q_oracle.Desk.Errors.{ExitError}
use q_oracle.Desk.Qtv.{Qtv, QtvCodec}
use q_oracle.Desk.Anchor.{QuantovaAnchor, commitment_at, binding}

-- b"qtv/native", b"QBBN" and b"qtv/bridge/burn-ref/v2"
abbrev pub native_event_source : List ℕ
native_event_source = b'q' ∷ b't' ∷ b'v' ∷ b'/' ∷ b'n' ∷ b'a' ∷ b't' ∷ b'i' ∷ b'v' ∷ b'e' ∷ []

abbrev pub event_bridge_burn : List ℕ
event_bridge_burn = b'Q' ∷ b'B' ∷ b'B' ∷ b'N' ∷ []

abbrev pub bridge_burn_ref_domain : List ℕ
bridge_burn_ref_domain =
    b'q' ∷ b't' ∷ b'v' ∷ b'/' ∷ b'b' ∷ b'r' ∷ b'i' ∷ b'd' ∷ b'g' ∷ b'e' ∷ b'/' ∷ b'b' ∷ b'u' ∷ b'r'
    ∷ b'n' ∷ b'-' ∷ b'r' ∷ b'e' ∷ b'f' ∷ b'/' ∷ b'v' ∷ b'2' ∷ []

pub record AuthenticatedBurn : Type 0 where
  pub asset_id : ℕ
  pub holder : ℕ
  pub destination : ℕ
  pub amount : ℕ
  pub burn_ref : ℕ
  pub dest_chain : ℕ
  pub finalized_height : ℕ

pub record ProofOfBurn (Certificate Inclusion : Type 0) : Type 0 where
  pub header_bytes : List ℕ
  pub certificate : Certificate
  pub leaf : List ℕ
  pub inclusion : Inclusion

-- `.map_err(|_| ExitError::LeafDecode)`
abbrev pub leaf_part {ℓ} : {A : Type ℓ} → Option A → Result ExitError A
leaf_part o = ok_or o ExitError.leaf_decode

-- `<[u8; N]>::try_from(bytes)`
unfoldable pub array_of : ℕ → List ℕ → Result ExitError ℕ
array_of n bytes = if length bytes == n then ok (from_be_bytes bytes) else err ExitError.leaf_decode

module _ {H C I Commitment Beacon D E : Type 0} (qtv : Qtv H C I Commitment Beacon)
    (codec : QtvCodec D E) where
  -- what the burn reference is the hash of
  unfoldable pub burn_ref_preimage :
      (dest_chain genesis asset_id holder amount destination sender_nonce event_index : ℕ) → List ℕ
  burn_ref_preimage dest_chain genesis asset_id holder amount destination sender_nonce event_index =
      let e0 = codec.put_bytes bridge_burn_ref_domain codec.encoder in
      let e1 = codec.put_u64 dest_chain e0 in
      let e2 = codec.put_bytes (to_be_bytes 32 genesis) e1 in
      let e3 = codec.put_bytes (to_be_bytes 16 asset_id) e2 in
      let e4 = codec.put_bytes (to_be_bytes 32 holder) e3 in
      let e5 = codec.put_u128 amount e4 in
      let e6 = codec.put_bytes (to_be_bytes 32 destination) e5 in
      let e7 = codec.put_u64 sender_nonce e6 in codec.into_bytes (codec.put_u64 event_index e7)

  -- the reference is the hash of the preimage for the genesis, where one is given
  unfoldable pub bound : Option ℕ → (ℕ → List ℕ) → ℕ → Result ExitError (Unit {0})
  bound none preimage burn_ref = ok tt
  bound (some genesis) preimage burn_ref =
      fail_if (not (qtv.sha3_256 (preimage genesis) == burn_ref)) ExitError.burn_ref_unbound

  -- a transaction that may follow the data of the leaf
  unfoldable pub skip_tx : D → Result ExitError D
  skip_tx outer =
      if ltb 0 (codec.remaining outer)
      then (leaf_part (codec.get_bytes outer) >>= λ part. ok part.1)
      else ok outer

  -- the fields of the burn, after the checks of source and selector
  unfoldable pub parse_burn_fields : List ℕ → ℕ → Option ℕ → Result ExitError AuthenticatedBurn
  parse_burn_fields input finalized_height genesis = do
    (asset_bytes, f1) ← leaf_part (codec.get_bytes (codec.decoder input))
    (holder_bytes, f2) ← leaf_part (codec.get_bytes f1)
    (amount, f3) ← leaf_part (codec.get_u128 f2)
    (destination_bytes, f4) ← leaf_part (codec.get_bytes f3)
    (dest_chain, f5) ← leaf_part (codec.get_u64 f4)
    (sender_nonce, f6) ← leaf_part (codec.get_u64 f5)
    (event_index, f7) ← leaf_part (codec.get_u64 f6)
    (burn_ref_bytes, f8) ← leaf_part (codec.get_bytes f7)
    fail_if (not (codec.finish f8)) ExitError.leaf_decode
    asset_id ← array_of 16 asset_bytes
    holder ← array_of 32 holder_bytes
    destination ← array_of 32 destination_bytes
    burn_ref ← array_of 32 burn_ref_bytes
    bound genesis
        (λ g.
          burn_ref_preimage dest_chain g asset_id holder amount destination sender_nonce
            event_index)
        burn_ref
    ok (record {
      asset_id = asset_id;
      holder = holder;
      destination = destination;
      amount = amount;
      burn_ref = burn_ref;
      dest_chain = dest_chain;
      finalized_height = finalized_height;
    })

  unfoldable pub parse_burn_leaf : List ℕ → ℕ → Option ℕ → Result ExitError AuthenticatedBurn
  parse_burn_leaf leaf finalized_height genesis = do
    (contract, o1) ← leaf_part (codec.get_bytes (codec.decoder leaf))
    (selector, o2) ← leaf_part (codec.get_bytes o1)
    (input, o3) ← leaf_part (codec.get_bytes o2)
    o4 ← skip_tx o3
    fail_if (not (codec.finish o4)) ExitError.leaf_decode
    fail_if
        (not (list_beq contract native_event_source) || not (list_beq selector event_bridge_burn))
        ExitError.not_a_burn_leaf
    parse_burn_fields input finalized_height genesis

  -- the checks of `verify` on a decoded header
  unfoldable pub certified :
      QuantovaAnchor Commitment Beacon → ProofOfBurn C I → H → Result ExitError (Unit {0})
  certified anchor proof header = do
    fail_if (not (qtv.block_val proof.certificate == qtv.hash header)) ExitError.header_mismatch
    fail_if
        (not (qtv.block_height proof.certificate == qtv.height header)
          || not (qtv.envelope_height proof.certificate == qtv.height header))
        ExitError.height_mismatch
    fail_if
        (not (
          qtv.verified (binding anchor) (commitment_at qtv (qtv.slot proof.certificate) anchor)
            anchor.beacon anchor.tau proof.certificate))
        ExitError.not_finalized
    fail_if (ltb (length (qtv.attesters proof.certificate)) anchor.tau) ExitError.not_finalized
    fail_if (not (qtv.verify_inclusion (qtv.event_root header) proof.leaf proof.inclusion))
        ExitError.bad_inclusion
    ok tt

  unfoldable pub verify :
      QuantovaAnchor Commitment Beacon → ProofOfBurn C I → Result ExitError AuthenticatedBurn
  verify anchor proof = do
    header ← ok_or (qtv.header_from_bytes proof.header_bytes) ExitError.header_decode
    certified anchor proof header
    parse_burn_leaf proof.leaf (qtv.height header) (some anchor.genesis)

  unfoldable pub claimed_height : ProofOfBurn C I → ℕ
  claimed_height proof = elim (qtv.header_from_bytes proof.header_bytes) [
    | none ↦ qtv.envelope_height proof.certificate
    | some header ↦ qtv.height header
  ]

  unfoldable pub claimed_burn_ref : ProofOfBurn C I → Option ℕ
  claimed_burn_ref proof = elim (parse_burn_leaf proof.leaf 0 none) [
    | ok burn ↦ some burn.burn_ref
    | err _ ↦ none
    | panic ↦ none
  ]

  unfoldable pub leaf_digest : ProofOfBurn C I → ℕ
  leaf_digest proof = qtv.sha3_256 proof.leaf
