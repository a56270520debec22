-- ===== src/Blockdata/Block/Exact.antt =====
-- The laws of the encoding of headers and blocks of bitcoin/src/blockdata/block.rs.
use rust_riecoin.Base.{ℕ, ◌^◌, ◌<◌, ◌≡◌, refl, ap, none, List, Bool, ◌++◌, append_assoc, arith}
use rust_riecoin.Primitives.Buffer.{Endian}
use rust_riecoin.Primitives.Transaction.{Transaction}
use rust_riecoin.Primitives.Block.{Header, Block, new_unchecked, block_hash, size}
use rust_riecoin.Consensus.Result.{ok, ◌>>=◌, >>=-eq-ok, >>=-ne-panic, ok-subst}
use rust_riecoin.Consensus.Io.{Reader}
use rust_riecoin.Consensus.Codec.{Codec, IsExact}
use rust_riecoin.Consensus.Codec.Fixed.{u32, array, IsArray, int-IsExact, array-IsExact}
use rust_riecoin.Consensus.Codec.Pair.{
  pair, pair-IsExact, read_more, read_fields-read_pair, IsExact-through,
}
use rust_riecoin.Consensus.Vec.{vec}
use rust_riecoin.Consensus.Vec.Exact.{IsVec, vec-IsExact}
use rust_riecoin.Blockdata.Transaction.{transaction}
use rust_riecoin.Blockdata.Transaction.RoundTrip.{IsTransaction}
use rust_riecoin.Blockdata.Transaction.Exact.{transaction-IsExact}
use rust_riecoin.Blockdata.Block.{header, block}

abbrev u32_exact : IsExact u32 (λ v. v < 256 ^ 4)
u32_exact = int-IsExact 4

-- The fields of a header as nested pairs.
abbrev Fields : Type 0
Fields = ℕ × (List ℕ × (List ℕ × (ℕ × (ℕ × ℕ))))

abbrev build : Fields → Header
build p = record {
  version = p.0;
  prev_blockhash = p.1.0;
  merkle_root = p.1.1.0;
  time = p.1.1.1.0;
  bits = p.1.1.1.1.0;
  nonce = p.1.1.1.1.1;
}

abbrev unbuild : Header → Fields
unbuild h = (h.version, (h.prev_blockhash, (h.merkle_root, (h.time, (h.bits, h.nonce)))))

abbrev fields : Codec Fields
fields = pair u32 (pair (array 32) (pair (array 32) (pair u32 (pair u32 u32))))

decode-fields :
    (r : Reader)
    → header.consensus_decode_from_finite_reader r
      ≡ (fields.consensus_decode_from_finite_reader r >>= λ p. ok (build p.0, p.1))
decode-fields =
    read_more u32 (pair (array 32) (pair (array 32) (pair u32 (pair u32 u32))))
      (λ v p. build (v, p)) _
      (λ v.
        read_more (array 32) (pair (array 32) (pair u32 (pair u32 u32))) (λ h p. build (v, (h, p)))
          _
          (λ h.
            read_more (array 32) (pair u32 (pair u32 u32)) (λ m p. build (v, (h, (m, p)))) _
              (λ m.
                read_more u32 (pair u32 u32) (λ t p. build (v, (h, (m, (t, p))))) _
                  (λ t. read_fields-read_pair u32 u32 (λ b n. build (v, (h, (m, (t, (b, n))))))))))

abbrev pub IsHeader : Header → Type 0
IsHeader h =
    (h.version < 2 ^ 32)
    × (IsArray 32 h.prev_blockhash
        × (IsArray 32 h.merkle_root
            × ((h.time < 2 ^ 32) × ((h.bits < 2 ^ 32) × (h.nonce < 2 ^ 32)))))

-- The codec of a header is exact: every header whose fields fit is read back from its 80 bytes,
-- whatever follows them, and bytes that are read as a header are its encoding.
pub header-IsExact : IsExact header IsHeader
header-IsExact =
    IsExact-through
      (pair-IsExact u32_exact (
        pair-IsExact (array-IsExact 32) (
          pair-IsExact (array-IsExact 32)
            (pair-IsExact u32_exact (pair-IsExact u32_exact u32_exact)))))
      header build unbuild (λ h. refl) (λ p. refl) (λ h. refl) decode-fields

-- For any hash function, the hash of a header whose fields are in range is the hash of its
-- encoding, whose returned length is Header::SIZE.
pub block_hash-encode :
    (sha256d : List ℕ → List ℕ) (h : Header)
    → IsHeader h
    → (block_hash sha256d h ≡ sha256d (header.consensus_encode h).bytes)
      × ((header.consensus_encode h).len ≡ size)
unfolding block_hash
block_hash-encode sha256d h v = (ap sha256d (simp append_assoc), omega (arith, v.1.0.0, v.1.1.0.0))

module _ (e : Endian) (debug : Bool) where
  abbrev pub IsBlock : Block → Type 0
  IsBlock b = IsHeader b.header × IsVec (IsTransaction e) b.transactions

  abbrev parts : Codec (Header × List Transaction)
  parts = pair header (vec (transaction e debug))

  abbrev parts_exact : IsExact parts (λ p. IsHeader p.0 × IsVec (IsTransaction e) p.1)
  parts_exact = pair-IsExact header-IsExact (vec-IsExact (transaction-IsExact e debug))

  decode-parts :
      (r : Reader)
      → (block e debug).consensus_decode_from_finite_reader r
        ≡ (parts.consensus_decode_from_finite_reader r >>= λ p. ok (new_unchecked p.0.0 p.0.1, p.1))
  decode-parts = read_fields-read_pair header (vec (transaction e debug)) new_unchecked

  -- A block whose fields are in range and whose transactions have fields in range is read back
  -- from its encoding, whatever follows, as an unchecked block without a witness root; the number
  -- returned is the number of bytes written; whatever bytes decode to a block are the encoding of
  -- that block, whose fields are in range; the decoder never panics.
  pub block-IsExact : IsExact (block e debug) (λ b. IsBlock b × (b.witness_root ≡ none))
  block-IsExact = record {
    counts = λ b h. parts_exact.counts (b.header, b.transactions) h.0;
    decode-encode = λ b rest h.
        rw (decode-parts, parts_exact.decode-encode (b.header, b.transactions) rest h.0, h.1) refl;
    encode-decode = λ r b rest low decoded.
        let (p, e₁, e₂) =
          >>=-eq-ok (parts.consensus_decode_from_finite_reader r) _ (rw decode-parts at decoded) in
        let (valid, split) = parts_exact.encode-decode r p.0 p.1 low e₁ in
        ok-subst
          (λ b rest.
            (IsBlock b × (b.witness_root ≡ none))
            × (r ≡ ((block e debug).consensus_encode b).bytes ++ rest))
          e₂ ((valid, refl), split);
    never_panics = λ r. rw decode-parts (
        >>=-ne-panic (parts.consensus_decode_from_finite_reader r) _ (parts_exact.never_panics r)
          (λ p e h. cc));
  }
