-- ===== src/Blockdata/Transaction/Size.antt =====
-- The sizes and the weight of a transaction, of bitcoin/src/blockdata/transaction.rs. `none` is the
-- panic of an iteration over a witness. Sizes of data in memory do not overflow a `usize`.
pub mod Laws
use rust_riecoin.Base.{ℕ, ◌+◌, ◌*◌, Bool, Option, none, some, List, [], ◌∷◌, length, if◌then◌else◌}
use rust_riecoin.Internals.CompactSize.{encoded_size}
use rust_riecoin.Units.Weight.{Weight, from_wu, to_vbytes_ceil}
use rust_riecoin.Primitives.Buffer.{Endian, ◌>>=◌}
use rust_riecoin.Primitives.Witness as Witness
use rust_riecoin.Primitives.Transaction.{TxIn, TxOut, Transaction, uses_segwit_serialization}

abbrev pub out_point_size : ℕ
out_point_size = 32 + 4

abbrev pub sequence_size : ℕ
sequence_size = 4

abbrev pub amount_size : ℕ
amount_size = 8

abbrev pub lock_time_size : ℕ
lock_time_size = 4

-- `TxIn::base_size`
abbrev pub input_base_size : TxIn → ℕ
input_base_size i =
    out_point_size + encoded_size (length i.script_sig) + length i.script_sig + sequence_size

-- `TxOut::size` and `size_from_script_pubkey`
abbrev pub output_size : TxOut → ℕ
output_size o = amount_size + encoded_size (length o.script_pubkey) + length o.script_pubkey

unfoldable pub base_sizes : List TxIn → ℕ
base_sizes [] = 0
base_sizes (i ∷ rest) = input_base_size i + base_sizes rest

unfoldable pub output_sizes : List TxOut → ℕ
output_sizes [] = 0
output_sizes (o ∷ rest) = output_size o + output_sizes rest

unfoldable pub base_size : Transaction → ℕ
unfolding base_sizes output_sizes
base_size tx =
    4
    + encoded_size (length tx.input)
    + base_sizes tx.input
    + encoded_size (length tx.output)
    + output_sizes tx.output
    + lock_time_size

module _ (endian : Endian) (debug : Bool) where
  -- `TxIn::total_size`
  abbrev pub input_total_size : TxIn → Option ℕ
  input_total_size i = do
    size ← Witness.size endian debug i.witness
    some (input_base_size i + size)

  unfoldable pub total_sizes : List TxIn → Option ℕ
  total_sizes [] = some 0
  total_sizes (i ∷ rest) = do
    size ← input_total_size i
    sizes ← total_sizes rest
    some (size + sizes)

  unfoldable pub total_size : Transaction → Option ℕ
  unfolding base_sizes output_sizes total_sizes uses_segwit_serialization
  total_size tx = do
    let uses_segwit = uses_segwit_serialization tx
    inputs ← (if uses_segwit then total_sizes tx.input else some (base_sizes tx.input))
    some (
        4
        + (if uses_segwit then 2 else 0)
        + encoded_size (length tx.input)
        + inputs
        + encoded_size (length tx.output)
        + output_sizes tx.output
        + lock_time_size)

  unfoldable pub weight : Transaction → Option Weight
  unfolding base_size total_size
  weight tx = do size ← total_size tx; some (from_wu (base_size tx * 3 + size))

  unfoldable pub vsize : Transaction → Option ℕ
  unfolding weight
  vsize tx = do w ← weight tx; some (to_vbytes_ceil w)
