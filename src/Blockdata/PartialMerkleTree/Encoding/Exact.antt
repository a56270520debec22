-- ===== src/Blockdata/PartialMerkleTree/Encoding/Exact.antt =====
-- The laws of the encoding of partial Merkle trees of bitcoin/src/merkle_tree/block.rs.
use rust_riecoin.Base.{
  ℕ, ◌+◌, ◌*◌, ◌/◌, ◌%◌, ◌^◌, ◌<◌, ◌≤◌, ◌≡◌, refl, subst, arith, Bool, false, List, ◌++◌, length,
  append_assoc, length-append, All-append_right, ltb,
}
use rust_riecoin.Base.Bytes.{IsByte, AreBytes}
use rust_riecoin.Internals.CompactSize.{encode}
use rust_riecoin.Consensus.Result.{
  ok, ◌>>=◌, >>=-eq-ok, >>=-ne-panic, ok-subst, guard-eq-ok, if-ne-panic,
}
use rust_riecoin.Consensus.Io.{Reader, emit_compact_size, read_compact_size}
use rust_riecoin.Consensus.Io.Laws.{
  read_compact_size-encode, read_compact_size-eq-ok, read_compact_size-ne-panic,
}
use rust_riecoin.Consensus.Codec.{Codec, IsExact}
use rust_riecoin.Consensus.Codec.Fixed.{u32, array, IsArray, int-IsExact, array-IsExact}
use rust_riecoin.Consensus.Codec.Pair.{
  pair, pair-IsExact, read_more, read_fields-read_pair, IsExact-through,
}
use rust_riecoin.Consensus.Limited.{limited, limited-IsExact}
use rust_riecoin.Consensus.Vec.{vec, max_vec_size, encode_items, decode_items}
use rust_riecoin.Consensus.Vec.Exact.{
  IsVec, vec-IsExact, decode_items-encode_items, encode_items-decode_items, encode_items-counts,
  decode_items-ne-panic,
}
use rust_riecoin.Blockdata.PartialMerkleTree.{PartialMerkleTree}
use rust_riecoin.Blockdata.PartialMerkleTree.Encoding.{
  chunk, chunks, concat, flag_bits, partial_merkle_tree,
}
use rust_riecoin.Blockdata.PartialMerkleTree.Encoding.Chunks.{
  chunk-IsExact, concat-chunks, chunks-concat, length-concat, chunks-IsChunk,
}

-- Whole bytes of flags, no more than are read.
abbrev pub IsFlags : List Bool → Type 0
IsFlags bits = (length bits % 8 ≡ 0) × (length bits ≤ 8 * max_vec_size)

flag_bits-decode-encode :
    (bits : List Bool) (rest : List ℕ)
    → IsFlags bits
    → flag_bits.consensus_decode_from_finite_reader
        ((flag_bits.consensus_encode bits).bytes ++ rest)
      ≡ ok (bits, rest)
unfolding emit_compact_size
flag_bits-decode-encode bits rest (whole, few) =
    let k = (length bits + 7) / 8 in
    let (all, count) = chunks-IsChunk k (length bits) bits (omega arith) (omega arith) in
    let items = decode_items-encode_items chunk-IsExact (chunks (length bits) bits) rest all in
    let read = rw count at items in
    let within : ltb max_vec_size k ≡ false = ground arith in
    rw
      (
        append_assoc,
        read_compact_size-encode k ((encode_items chunk (chunks (length bits) bits)).bytes ++ rest)
            (omega arith),
        within,
        read,
        concat-chunks (length bits) bits (omega arith),
      )
      refl

flag_bits-encode-decode :
    (r : Reader) (bits : List Bool) (rest : Reader)
    → AreBytes r
    → flag_bits.consensus_decode_from_finite_reader r ≡ ok (bits, rest)
    → IsFlags bits × (r ≡ (flag_bits.consensus_encode bits).bytes ++ rest)
unfolding emit_compact_size
flag_bits-encode-decode r bits rest low e =
    let (p, e₁, e₂) = >>=-eq-ok (read_compact_size r) _ e in
    let (split, fits) = read_compact_size-eq-ok r low e₁ in
    let low₁ = All-append_right IsByte (encode p.0) p.1 (subst AreBytes split low) in
    let (within, e₃) = guard-eq-ok (ltb max_vec_size p.0) _ _ e₂ in
    let (q, e₄, e₅) = >>=-eq-ok (decode_items chunk p.0 p.1) _ e₃ in
    let (size, all, split₁) = encode_items-decode_items chunk-IsExact p.0 p.1 q.0 q.1 low₁ e₄ in
    let flags = length-concat q.0 all in
    let same : (length (concat q.0) + 7) / 8 ≡ p.0 = omega arith in
    ok-subst (λ bits rest. IsFlags bits × (r ≡ (flag_bits.consensus_encode bits).bytes ++ rest)) e₅
      (
        (omega arith, ground arith),
        rw (same, chunks-concat q.0 (length (concat q.0)) all (omega arith), append_assoc) (cc),
      )

flag_bits-IsExact : IsExact flag_bits IsFlags
flag_bits-IsExact = record {
  counts = λ bits h.
      let (all, count) =
        chunks-IsChunk ((length bits + 7) / 8) (length bits) bits (omega arith) (omega arith) in
      unfold emit_compact_size in
      omega (
        arith,
        encode_items-counts chunk-IsExact (chunks (length bits) bits) all,
        length-append (encode ((length bits + 7) / 8))
            (encode_items chunk (chunks (length bits) bits)).bytes,
      );
  decode-encode = flag_bits-decode-encode;
  encode-decode = flag_bits-encode-decode;
  never_panics = λ r. >>=-ne-panic (read_compact_size r) _ (read_compact_size-ne-panic r) (λ p e.
      if-ne-panic (ltb max_vec_size p.0) _ _ (λ h. cc)
        (>>=-ne-panic (decode_items chunk p.0 p.1) _ (decode_items-ne-panic chunk-IsExact p.0 p.1)
          (λ q e' h. cc)));
}

abbrev Fields : Type 0
Fields = ℕ × (List (List ℕ) × List Bool)

abbrev build : Fields → PartialMerkleTree
build p = record { num_transactions = p.0; bits = p.1.1; hashes = p.1.0 }

abbrev unbuild : PartialMerkleTree → Fields
unbuild pmt = (pmt.num_transactions, (pmt.hashes, pmt.bits))

-- The hashes, whose reader is limited.
abbrev pub hashes_codec : Codec (List (List ℕ))
hashes_codec = limited (vec (array 32))

abbrev fields : Codec Fields
fields = pair u32 (pair hashes_codec flag_bits)

decode-fields :
    (r : Reader)
    → partial_merkle_tree.consensus_decode_from_finite_reader r
      ≡ (fields.consensus_decode_from_finite_reader r >>= λ p. ok (build p.0, p.1))
decode-fields =
    read_more u32 (pair hashes_codec flag_bits) (λ n p. build (n, p)) _
      (λ n. read_fields-read_pair hashes_codec flag_bits (λ hs bs. build (n, (hs, bs))))

-- Hashes whose encoding is within the limit of their reader.
abbrev pub IsHashes : List (List ℕ) → Type 0
IsHashes hs =
    IsVec (IsArray 32) hs × (length ((vec (array 32)).consensus_encode hs).bytes ≤ max_vec_size)

abbrev pub IsPartialMerkleTree : PartialMerkleTree → Type 0
IsPartialMerkleTree pmt = (pmt.num_transactions < 2 ^ 32) × (IsHashes pmt.hashes × IsFlags pmt.bits)

-- The codec of a partial tree is exact: a tree in range, with hashes within the limit and flags in
-- whole bytes, is read back from its encoding, and bytes that are read as a tree are its encoding.
pub partial_merkle_tree-IsExact : IsExact partial_merkle_tree IsPartialMerkleTree
partial_merkle_tree-IsExact =
    IsExact-through
      (pair-IsExact (int-IsExact 4)
        (pair-IsExact (limited-IsExact (vec-IsExact (array-IsExact 32))) flag_bits-IsExact))
      partial_merkle_tree build unbuild (λ b. refl) (λ p. refl) (λ b. refl) decode-fields
