-- ===== src/Blockdata/Block/Size.antt =====
-- The sizes and the weight of a block, of bitcoin/src/blockdata/block.rs. `none` is the panic of an
-- iteration over a witness. Sizes of data in memory do not overflow a `usize`.
pub mod Laws
use rust_riecoin.Base.{ℕ, ◌+◌, ◌*◌, Bool, Option, some, List, [], ◌∷◌, length}
use rust_riecoin.Internals.CompactSize.{encoded_size}
use rust_riecoin.Units.Weight.{Weight, from_wu}
use rust_riecoin.Primitives.Buffer.{Endian, ◌>>=◌}
use rust_riecoin.Primitives.Transaction.{Transaction}
use rust_riecoin.Primitives.Block.{Block, size}
use rust_riecoin.Blockdata.Transaction.Size as TransactionSize

-- The sum of `tx.base_size()`.
unfoldable pub base_sizes : List Transaction → ℕ
base_sizes [] = 0
base_sizes (tx ∷ rest) = TransactionSize.base_size tx + base_sizes rest

unfoldable pub block_base_size : List Transaction → ℕ
unfolding base_sizes
block_base_size transactions = size + encoded_size (length transactions) + base_sizes transactions

module _ (endian : Endian) (debug : Bool) where
  -- The sum of `tx.total_size()`.
  unfoldable pub total_sizes : List Transaction → Option ℕ
  total_sizes [] = some 0
  total_sizes (tx ∷ rest) = do
    total ← TransactionSize.total_size endian debug tx
    sizes ← total_sizes rest
    some (total + sizes)

  unfoldable pub total_size : Block → Option ℕ
  unfolding total_sizes
  total_size b = do
    sizes ← total_sizes b.transactions
    some (size + encoded_size (length b.transactions) + sizes)

  unfoldable pub weight : Block → Option Weight
  unfolding block_base_size total_size
  weight b = do total ← total_size b; some (from_wu (block_base_size b.transactions * 3 + total))
