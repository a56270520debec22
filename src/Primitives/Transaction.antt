-- ===== src/Primitives/Transaction.antt =====
-- primitives/src/transaction.rs: transactions and their parts. A `Txid` is its 32 bytes, a `ScriptBuf`
-- its bytes, a `Version` its `u32`, a `Sequence` (primitives/src/sequence.rs) its `u32`.
use rust_riecoin.Base.{
  ℕ, ◌^◌, ◌-◌, Bool, true, false, not, ◌||◌, List, [], ◌∷◌, if◌then◌else◌, replicate,
}
use rust_riecoin.Units.Amount.{Amount}
use rust_riecoin.Primitives.Witness.{Witness, is_empty}
use rust_riecoin.Primitives.LockTime.{LockTime}

pub record OutPoint : Type 0 where
  pub txid : List ℕ
  pub vout : ℕ

pub record TxIn : Type 0 where
  pub previous_output : OutPoint
  pub script_sig : List ℕ
  pub sequence : ℕ
  pub witness : Witness

pub record TxOut : Type 0 where
  pub value : Amount
  pub script_pubkey : List ℕ

pub record Transaction : Type 0 where
  pub version : ℕ
  pub lock_time : LockTime
  pub input : List TxIn
  pub output : List TxOut

abbrev pub coinbase_prevout : OutPoint
coinbase_prevout = record { txid = replicate 32 0; vout = 2 ^ 32 - 1 }

-- `self.input.iter().any(|input| !input.witness.is_empty())`
unfoldable pub any_witness : List TxIn → Bool
any_witness [] = false
any_witness (i ∷ rest) = not (is_empty i.witness) || any_witness rest

abbrev pub no_inputs : List TxIn → Bool
no_inputs [] = true
no_inputs (i ∷ rest) = false

unfoldable pub uses_segwit_serialization : Transaction → Bool
unfolding any_witness
uses_segwit_serialization tx = if any_witness tx.input then true else no_inputs tx.input
