-- ===== src/Codec/Fact/RoundTrip.antt =====
-- Decoding what `encode` wrote gives the fact back.
use q_oracle.Base.{ℕ, ◌^◌, ◌<◌, ◌≡◌, List, [], ◌++◌, append_assoc, append-nil, arith}
use q_oracle.Base.Result.{ok}
use q_oracle.Base.Lists.{length, length-append}
use q_oracle.Codec.Bytes.{to_le_bytes, to_be_bytes, length-to_le_bytes, length-to_be_bytes}
use q_oracle.Codec.Errors.{Direction, deposit, exit_ack, tag, from_tag-tag}
use q_oracle.Codec.Writer
use q_oracle.Codec.Parser.{◌>>◌}
use q_oracle.Codec.Reader.Reads.{
  Consumes, bind-Consumes, finish-Consumes, run-Consumes, lift-Reads, u8-Reads, u32-Reads,
  u64-Reads, u128-Reads, array16-Reads, array32-Reads,
}
use q_oracle.Codec.Fact.{BridgeFact, encode, decode, parse_fact, check_version, fact_version}

-- Every field fits the type that the source gives it.
pub record InRange (f : BridgeFact) : Type 0 where
  pub version : f.version < 256
  pub source_chain : f.source_chain < 256 ^ 4
  pub dest_chain : f.dest_chain < 256 ^ 4
  pub route_id : f.route_id < 256 ^ 4
  pub nonce : f.nonce < 256 ^ 8
  pub source_ref : f.source_ref < 256 ^ 32
  pub asset_id : f.asset_id < 256 ^ 16
  pub amount : f.amount < 256 ^ 16
  pub recipient : f.recipient < 256 ^ 32
  pub finality_depth : f.finality_depth < 256 ^ 4
  pub observed_height : f.observed_height < 256 ^ 8
  pub expiry_height : f.expiry_height < 256 ^ 8

-- The layout of an encoded fact, field by field.
abbrev pub layout : BridgeFact → List ℕ
layout f =
    to_le_bytes 1 f.version
    ++ (to_le_bytes 4 f.source_chain
        ++ (to_le_bytes 4 f.dest_chain
            ++ (to_le_bytes 4 f.route_id
                ++ (to_le_bytes 1 (tag f.direction)
                    ++ (to_le_bytes 8 f.nonce
                        ++ (to_be_bytes 32 f.source_ref
                            ++ (to_be_bytes 16 f.asset_id
                                ++ (to_le_bytes 16 f.amount
                                    ++ (to_be_bytes 32 f.recipient
                                        ++ (to_le_bytes 4 f.finality_depth
                                            ++ (to_le_bytes 8 f.observed_height
                                                ++ (to_le_bytes 8 f.expiry_height ++ []))))))))))))

pub encode-layout : (f : BridgeFact) → encode f ≡ layout f
unfolding encode Writer.finish Writer.new Writer.u8 Writer.u32 Writer.u64 Writer.u128
    Writer.fixed_id Writer.fixed
encode-layout f = simp (append_assoc, append-nil)

pub length-encode : (f : BridgeFact) → length (encode f) ≡ 138
length-encode f =
    rw (encode-layout f) (simp (length-append, append-nil, length-to_le_bytes, length-to_be_bytes))

check_version_lem : (v : ℕ) → v ≡ fact_version → check_version v ≡ ok tt
unfolding check_version
check_version_lem v h = ground arith

tag-lt : (d : Direction) → tag d < 256
unfolding tag
tag-lt deposit = omega arith
tag-lt exit_ack = omega arith

parse_fact-Consumes :
    (f : BridgeFact) → InRange f → f.version ≡ fact_version → Consumes parse_fact f (layout f)
unfolding parse_fact ◌>>◌
parse_fact-Consumes f h e = bind-Consumes _ _ (u8-Reads f.version h.version) (
    bind-Consumes _ [] (lift-Reads _ tt (check_version_lem f.version e)) (
      bind-Consumes _ _ (u32-Reads f.source_chain h.source_chain) (
        bind-Consumes _ _ (u32-Reads f.dest_chain h.dest_chain) (
          bind-Consumes _ _ (u32-Reads f.route_id h.route_id) (
            bind-Consumes _ _ (u8-Reads (tag f.direction) (tag-lt f.direction)) (
              bind-Consumes _ [] (lift-Reads _ f.direction (from_tag-tag f.direction)) (
                bind-Consumes _ _ (u64-Reads f.nonce h.nonce) (
                  bind-Consumes _ _ (array32-Reads f.source_ref h.source_ref) (
                    bind-Consumes _ _ (array16-Reads f.asset_id h.asset_id) (
                      bind-Consumes _ _ (u128-Reads f.amount h.amount) (
                        bind-Consumes _ _ (array32-Reads f.recipient h.recipient) (
                          bind-Consumes _ _ (u32-Reads f.finality_depth h.finality_depth) (
                            bind-Consumes _ _ (u64-Reads f.observed_height h.observed_height) (
                              bind-Consumes _ _ (u64-Reads f.expiry_height h.expiry_height)
                                (finish-Consumes f)))))))))))))))

-- Decoding an encoded fact of version 1, whose fields fit their types, gives the same fact.
pub decode-encode :
    (f : BridgeFact) → InRange f → f.version ≡ fact_version → decode (encode f) ≡ ok f
unfolding decode
decode-encode f h e =
    run-Consumes parse_fact f (encode f) (omega (arith, length-encode f))
      (rw (encode-layout f) (parse_fact-Consumes f h e))
