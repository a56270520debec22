-- ===== src/Blockdata/Block/Size/Laws.antt =====
-- The computed sizes of a block are the lengths of its encodings.
use rust_riecoin.Base.{
  ℕ, ◌+◌, ◌*◌, ◌≡◌, refl, ap, Bool, some, List, [], ◌∷◌, ◌++◌, length, length-append, All, arith,
}
use rust_riecoin.Internals.CompactSize.{encode}
use rust_riecoin.Internals.CompactSize.RoundTrip.{length-encode}
use rust_riecoin.Units.Weight.{from_wu}
use rust_riecoin.Primitives.Buffer.{Endian}
use rust_riecoin.Primitives.Transaction.{Transaction}
use rust_riecoin.Primitives.Block.{Header, Block, size}
use rust_riecoin.Consensus.Io.{emit_compact_size}
use rust_riecoin.Consensus.Vec.{encode_items}
use rust_riecoin.Blockdata.Transaction.{transaction, encode_transaction}
use rust_riecoin.Blockdata.Transaction.RoundTrip.{
  IsTransaction, version_bytes, in_bytes, out_bytes, lock_bytes,
}
use rust_riecoin.Blockdata.Transaction.Size.Laws.{weight-encode}
use rust_riecoin.Blockdata.Block.{header, block}
use rust_riecoin.Blockdata.Block.Exact.{IsHeader, IsBlock, header-IsExact}
use rust_riecoin.Blockdata.Block.Size.{base_sizes, block_base_size, total_sizes, total_size, weight}

-- The transactions one after the other, without markers, flags and witnesses.
unfoldable pub stripped_transactions : List Transaction → List ℕ
stripped_transactions [] = []
stripped_transactions (tx ∷ rest) =
    (version_bytes tx ++ (in_bytes tx ++ (out_bytes tx ++ lock_bytes tx)))
    ++ stripped_transactions rest

-- The block as a node sees it that does not know witnesses.
unfoldable pub stripped : Block → List ℕ
unfolding stripped_transactions
stripped b =
    (header.consensus_encode b.header).bytes
    ++ ((emit_compact_size (length b.transactions)).bytes ++ stripped_transactions b.transactions)

length-header : (h : Header) → IsHeader h → length (header.consensus_encode h).bytes ≡ size
length-header h v = omega (arith, header-IsExact.counts h v, v.1.0.0, v.1.1.0.0)

module _ (e : Endian) (debug : Bool) where
  base_sizes-stripped :
      (txs : List Transaction)
      → All (IsTransaction e) txs
      → base_sizes txs ≡ length (stripped_transactions txs)
  unfolding base_sizes stripped_transactions
  base_sizes-stripped [] v = refl
  base_sizes-stripped (tx ∷ txs) (v, vs) = omega (
    arith,
    (weight-encode e debug tx v).0,
    base_sizes-stripped txs vs,
    length-append (version_bytes tx ++ (in_bytes tx ++ (out_bytes tx ++ lock_bytes tx)))
        (stripped_transactions txs),
  )

  total_sizes-encode :
      (txs : List Transaction)
      → All (IsTransaction e) txs
      → total_sizes e debug txs ≡ some (length (encode_items (transaction e debug) txs).bytes)
  unfolding total_sizes encode_items
  total_sizes-encode [] v = refl
  total_sizes-encode (tx ∷ txs) (v, vs) =
      rw ((weight-encode e debug tx v).1, total_sizes-encode txs vs)
        (ap some (
          omega (
            arith,
            length-append (encode_transaction e debug tx).bytes
                (encode_items (transaction e debug) txs).bytes,
          )))

  block_base_size-stripped :
      (b : Block) → IsBlock e debug b → block_base_size b.transactions ≡ length (stripped b)
  unfolding block_base_size stripped emit_compact_size
  block_base_size-stripped b v = omega (
    arith,
    length-header b.header v.0,
    length-append (header.consensus_encode b.header).bytes
        (encode (length b.transactions) ++ stripped_transactions b.transactions),
    length-append (encode (length b.transactions)) (stripped_transactions b.transactions),
    length-encode (length b.transactions),
    base_sizes-stripped b.transactions v.1.1,
  )

  total_size-encode :
      (b : Block)
      → IsBlock e debug b
      → total_size e debug b ≡ some (length ((block e debug).consensus_encode b).bytes)
  unfolding total_size emit_compact_size
  total_size-encode b v = rw (total_sizes-encode b.transactions v.1.1) (
      ap some (
        omega (
          arith,
          length-header b.header v.0,
          length-append (header.consensus_encode b.header).bytes (
              encode (length b.transactions)
              ++ (encode_items (transaction e debug) b.transactions).bytes),
          length-append (encode (length b.transactions))
              (encode_items (transaction e debug) b.transactions).bytes,
          length-encode (length b.transactions),
        )))

  -- On a block whose fields and transactions are in range, block_base_size is the length of its
  -- serialization without the markers, flags and witnesses of its transactions, total_size that of
  -- its encoding, and the weight three times the one plus the other; none of them panics.
  pub weight-stripped :
      (b : Block)
      → IsBlock e debug b
      → (block_base_size b.transactions ≡ length (stripped b))
        × (total_size e debug b ≡ some (length ((block e debug).consensus_encode b).bytes))
        × (weight e debug b
            ≡ some (
                from_wu
                  (length (stripped b) * 3 + length ((block e debug).consensus_encode b).bytes)))
  unfolding weight
  weight-stripped b v = (
    block_base_size-stripped b v,
    total_size-encode b v,
    rw (total_size-encode b v, block_base_size-stripped b v) refl,
  )
