-- ===== src/Blockdata/Transaction.antt =====
-- `Encodable` and `Decodable` for transactions and their parts, of bitcoin/src/blockdata/transaction.rs,
-- bitcoin/src/blockdata/mod.rs (lock times) and bitcoin/src/lib.rs (amounts).
pub mod Parts
pub mod Witnesses
pub mod RoundTrip
pub mod Canonical
pub mod Exact
pub mod Size
pub mod Ids
pub mod Predict
use rust_riecoin.Base.{
  ℕ, ◌+◌, Bool, true, false, not, ◌||◌, ◌&&◌, List, [], ◌∷◌, ◌++◌, ltb, ◌==◌, if◌then◌else◌, length,
}
use rust_riecoin.Units.Amount as Amount
use rust_riecoin.Units.Amount.{Amount, from_sat}
use rust_riecoin.Primitives.Buffer.{Endian}
use rust_riecoin.Primitives.Witness.{Witness, new, is_empty}
use rust_riecoin.Primitives.LockTime.{LockTime, from_consensus, to_consensus_u32}
use rust_riecoin.Primitives.Transaction.{
  OutPoint, TxIn, TxOut, Transaction, any_witness, uses_segwit_serialization,
}
use rust_riecoin.Consensus.Result.{
  Result, ok, err, panic, ◌>>=◌, parse_failed, unsupported_segwit_flag,
}
use rust_riecoin.Consensus.Io.{Reader, Written, ◌⊕◌, nothing}
use rust_riecoin.Consensus.Codec.{Codec}
use rust_riecoin.Consensus.Codec.Fixed.{u8, u32, u64, array}
use rust_riecoin.Consensus.Vec.{bytes, vec}
use rust_riecoin.Blockdata.Witness.{run, witness}

abbrev pub segwit_marker : ℕ
segwit_marker = 0x00

abbrev pub segwit_flag : ℕ
segwit_flag = 0x01

abbrev pub amount : Codec Amount
amount = record {
  consensus_encode = λ a. u64.consensus_encode a.sat;
  consensus_decode_from_finite_reader = λ r. do
    (n, r') ← u64.consensus_decode_from_finite_reader r
    elim (from_sat n) [
      | Amount.ok a ↦ ok (a, r')
      | Amount.err _ ↦ err (parse_failed "amount is greater than Amount::MAX_MONEY")
    ];
}

abbrev pub lock_time : Codec LockTime
lock_time = record {
  consensus_encode = λ l. u32.consensus_encode (to_consensus_u32 l);
  consensus_decode_from_finite_reader = λ r. do
    (n, r') ← u32.consensus_decode_from_finite_reader r
    l ← run (from_consensus n)
    ok (l, r');
}

abbrev pub out_point : Codec OutPoint
out_point = record {
  consensus_encode = λ o. (array 32).consensus_encode o.txid ⊕ u32.consensus_encode o.vout;
  consensus_decode_from_finite_reader = λ r. do
    (txid, r₁) ← (array 32).consensus_decode_from_finite_reader r
    (vout, r₂) ← u32.consensus_decode_from_finite_reader r₁
    ok (record { txid = txid; vout = vout }, r₂);
}

-- The witness of an input is not part of its encoding.
abbrev pub tx_in : Codec TxIn
tx_in = record {
  consensus_encode = λ i.
      out_point.consensus_encode i.previous_output
      ⊕ bytes.consensus_encode i.script_sig
      ⊕ u32.consensus_encode i.sequence;
  consensus_decode_from_finite_reader = λ r. do
    (previous_output, r₁) ← out_point.consensus_decode_from_finite_reader r
    (script_sig, r₂) ← bytes.consensus_decode_from_finite_reader r₁
    (sequence, r₃) ← u32.consensus_decode_from_finite_reader r₂
    ok (
      record {
        previous_output = previous_output;
        script_sig = script_sig;
        sequence = sequence;
        witness = new;
      },
      r₃,
    );
}

abbrev pub tx_out : Codec TxOut
tx_out = record {
  consensus_encode = λ o. amount.consensus_encode o.value ⊕ bytes.consensus_encode o.script_pubkey;
  consensus_decode_from_finite_reader = λ r. do
    (value, r₁) ← amount.consensus_decode_from_finite_reader r
    (script_pubkey, r₂) ← bytes.consensus_decode_from_finite_reader r₁
    ok (record { value = value; script_pubkey = script_pubkey }, r₂);
}

-- `debug` and `endian` reach the witnesses.
module _ (endian : Endian) (debug : Bool) where
  abbrev tx_witness : Codec Witness
  tx_witness = witness endian debug

  -- `for input in &self.input { len += input.witness.consensus_encode(w)?; }`
  unfoldable pub encode_witnesses : List TxIn → Written
  encode_witnesses [] = nothing
  encode_witnesses (i ∷ rest) = tx_witness.consensus_encode i.witness ⊕ encode_witnesses rest

  -- `for txin in input.iter_mut() { txin.witness = …; }`
  unfoldable pub decode_witnesses : List TxIn → Reader → Result (List TxIn × Reader)
  decode_witnesses [] r = ok ([], r)
  decode_witnesses (i ∷ rest) r = do
    (w, r₁) ← tx_witness.consensus_decode_from_finite_reader r
    (rest', r₂) ← decode_witnesses rest r₁
    ok (record i { witness = w } ∷ rest', r₂)

  unfoldable pub encode_transaction : Transaction → Written
  unfolding encode_witnesses uses_segwit_serialization
  encode_transaction tx =
      u32.consensus_encode tx.version
      ⊕ (if not (uses_segwit_serialization tx)
          then (vec tx_in).consensus_encode tx.input ⊕ (vec tx_out).consensus_encode tx.output
          else (u8.consensus_encode segwit_marker
              ⊕ u8.consensus_encode segwit_flag
              ⊕ (vec tx_in).consensus_encode tx.input
              ⊕ (vec tx_out).consensus_encode tx.output
              ⊕ encode_witnesses tx.input))
      ⊕ lock_time.consensus_encode tx.lock_time

  -- The part behind the flag byte 1: inputs, outputs, witnesses and lock time.
  unfoldable pub decode_segwit : ℕ → Reader → Result (Transaction × Reader)
  unfolding decode_witnesses any_witness
  decode_segwit version r = do
    (bare, r₁) ← (vec tx_in).consensus_decode_from_finite_reader r
    (output, r₂) ← (vec tx_out).consensus_decode_from_finite_reader r₁
    (input, r₃) ← decode_witnesses bare r₂
    let missing = ltb 0 (length input) && not (any_witness input)
    let rest = lock_time.consensus_decode_from_finite_reader r₃
    if missing
        then err (parse_failed "witness flag set but no witnesses present")
        else (rest >>= λ p.
            ok (record { version = version; lock_time = p.0; input = input; output = output }, p.1))

  unfoldable pub decode_transaction : Reader → Result (Transaction × Reader)
  unfolding decode_segwit
  decode_transaction r = do
    (version, r₁) ← u32.consensus_decode_from_finite_reader r
    (input, r₂) ← (vec tx_in).consensus_decode_from_finite_reader r₁
    let flagged = u8.consensus_decode_from_finite_reader r₂
    if length input == 0
        then (flagged >>= λ p.
            if p.0 == 1 then decode_segwit version p.1 else err (unsupported_segwit_flag p.0))
        else ((vec tx_out).consensus_decode_from_finite_reader r₂ >>= λ q.
            lock_time.consensus_decode_from_finite_reader q.1 >>= λ t.
            ok (record { version = version; lock_time = t.0; input = input; output = q.0 }, t.1))

  abbrev pub transaction : Codec Transaction
  transaction = record {
    consensus_encode = encode_transaction;
    consensus_decode_from_finite_reader = decode_transaction;
  }
