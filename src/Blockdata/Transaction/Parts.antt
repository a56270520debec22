-- ===== src/Blockdata/Transaction/Parts.antt =====
-- The laws of `Encodable` and `Decodable` for amounts, lock times, out points, inputs and outputs.
use rust_riecoin.Base.{ℕ, List, ◌^◌, ◌<◌, ◌≡◌, ◌≢◌, refl, sym, ◌∙◌, ◌++◌, arith}
use rust_riecoin.Units.Amount as Amount
use rust_riecoin.Units.Amount.{Amount, from_sat, max_money}
use rust_riecoin.Units.Amount.Laws.{IsAmount}
use rust_riecoin.Units.Absolute.{height_from_consensus, time_from_consensus}
use rust_riecoin.Primitives.Witness.{new}
use rust_riecoin.Primitives.LockTime.{from_consensus, to_consensus_u32}
use rust_riecoin.Primitives.LockTime.Laws.{
  IsLockTime, from_consensus-total, from_consensus-to_consensus_u32,
}
use rust_riecoin.Primitives.Transaction.{OutPoint, TxIn, TxOut}
use rust_riecoin.Consensus.Result.{
  Result, ok, err, panic, ◌>>=◌, >>=-eq-ok, >>=-ne-panic, ok-subst, parse_failed, >>=_congr,
}
use rust_riecoin.Consensus.Io.{Reader}
use rust_riecoin.Consensus.Codec.{Codec, IsExact}
use rust_riecoin.Consensus.Codec.Fixed.{u32, u64, array, IsArray, int-IsExact, array-IsExact}
use rust_riecoin.Consensus.Codec.Pair.{pair, pair-IsExact, read_fields-read_pair, IsExact-through}
use rust_riecoin.Consensus.Vec.{bytes}
use rust_riecoin.Consensus.Vec.Exact.{IsBytes, bytes-IsExact}
use rust_riecoin.Blockdata.Witness.{run}
use rust_riecoin.Blockdata.Transaction.{amount, lock_time, out_point, tx_in, tx_out}

abbrev u32_exact : IsExact u32 (λ v. v < 256 ^ 4)
u32_exact = int-IsExact 4

abbrev u64_exact : IsExact u64 (λ v. v < 256 ^ 8)
u64_exact = int-IsExact 8

-- `from_consensus` has a lock time for every number.
from_consensus-ne-panic : (n : ℕ) → run (from_consensus n) ≢ panic
unfolding from_consensus height_from_consensus time_from_consensus
from_consensus-ne-panic n = ground arith

in_range :
    (n : ℕ) (r : Reader) {a : Amount} {rest : Reader}
    → ◌≡◌ {A = Result (Amount × Reader)}
        (elim (from_sat n) [
          | Amount.ok a ↦ ok (a, r)
          | Amount.err _ ↦ err (parse_failed "amount is greater than Amount::MAX_MONEY")
        ])
        (ok (a, rest))
    → IsAmount a × (n ≡ a.sat) × (r ≡ rest)
unfolding from_sat
in_range n r e = ground arith

pub amount-IsExact : IsExact amount IsAmount
unfolding from_sat
amount-IsExact = record {
  counts = λ a h. u64_exact.counts a.sat (omega arith);
  decode-encode = λ a rest h. rw (u64_exact.decode-encode a.sat rest (omega arith)) (ground arith);
  encode-decode = λ r a rest low e.
      let (p, e₁, e₂) = >>=-eq-ok (u64.consensus_decode_from_finite_reader r) _ e in
      let (fits, split) = u64_exact.encode-decode r p.0 p.1 low e₁ in
      let (valid, code, same) = in_range p.0 p.1 e₂ in (valid, rw (sym code, sym same) split);
  never_panics = λ r.
      >>=-ne-panic (u64.consensus_decode_from_finite_reader r) _ (u64_exact.never_panics r)
        (λ p e. ground arith);
}

-- A lock time in the range of its unit is read back from its encoding; the count returned is that
-- of the bytes written; what decodes to a lock time is its encoding; the decoder never panics.
pub lock_time-IsExact : IsExact lock_time IsLockTime
lock_time-IsExact = record {
  counts = λ l h. u32_exact.counts (to_consensus_u32 l) ((from_consensus-to_consensus_u32 l h).1);
  decode-encode = λ l rest h.
      let (back, fits) = from_consensus-to_consensus_u32 l h in
      rw (u32_exact.decode-encode (to_consensus_u32 l) rest fits, back) refl;
  encode-decode = λ r l rest low e.
      let (p, e₁, e₂) = >>=-eq-ok (u32.consensus_decode_from_finite_reader r) _ e in
      let (fits, split) = u32_exact.encode-decode r p.0 p.1 low e₁ in
      let (l', back, valid, code) = from_consensus-total p.0 fits in
      ok-subst (λ l rest. IsLockTime l × (r ≡ (lock_time.consensus_encode l).bytes ++ rest))
        (rw back at e₂) (valid, rw code split);
  never_panics = λ r.
      >>=-ne-panic (u32.consensus_decode_from_finite_reader r) _ (u32_exact.never_panics r) (λ p e.
        >>=-ne-panic (run (from_consensus p.0)) _ (from_consensus-ne-panic p.0) (λ l e' h. cc));
}

abbrev pub IsOutPoint : OutPoint → Type 0
IsOutPoint o = IsArray 32 o.txid × (o.vout < 2 ^ 32)

pub out_point-IsExact : IsExact out_point IsOutPoint
out_point-IsExact =
    IsExact-through (pair-IsExact (array-IsExact 32) (int-IsExact 4)) out_point
      (λ p. record { txid = p.0; vout = p.1 }) (λ o. (o.txid, o.vout)) (λ o. refl) (λ p. refl)
      (λ o. refl) (read_fields-read_pair (array 32) u32 (λ a b. record { txid = a; vout = b }))

abbrev pub IsTxOut : TxOut → Type 0
IsTxOut o = IsAmount o.value × IsBytes o.script_pubkey

-- An output whose value is at most Amount::MAX_MONEY is read back from its encoding; the count
-- returned is that of the bytes written; what decodes to an output is its encoding, and its value
-- is at most Amount::MAX_MONEY; the decoder never panics.
pub tx_out-IsExact : IsExact tx_out IsTxOut
tx_out-IsExact =
    IsExact-through (pair-IsExact amount-IsExact bytes-IsExact) tx_out
      (λ p. record { value = p.0; script_pubkey = p.1 }) (λ o. (o.value, o.script_pubkey))
      (λ o. refl) (λ p. refl) (λ o. refl)
      (read_fields-read_pair amount bytes (λ a b. record { value = a; script_pubkey = b }))

-- An input as its encoding has it: the witness is not there.
abbrev pub bare : TxIn → TxIn
bare i = record i { witness = new }

-- What the encoding of an input holds.
abbrev pub IsTxIn : TxIn → Type 0
IsTxIn i = IsOutPoint i.previous_output × (IsBytes i.script_sig × (i.sequence < 2 ^ 32))

-- The fields of an input that are read back.
abbrev fields : Codec (OutPoint × (List ℕ × ℕ))
fields = pair out_point (pair bytes u32)

abbrev fields_exact : IsExact fields (λ p. IsOutPoint p.0 × (IsBytes p.1.0 × (p.1.1 < 256 ^ 4)))
fields_exact = pair-IsExact out_point-IsExact (pair-IsExact bytes-IsExact u32_exact)

abbrev build : OutPoint × (List ℕ × ℕ) → TxIn
build p = record { previous_output = p.0; script_sig = p.1.0; sequence = p.1.1; witness = new }

decode-fields :
    (r : Reader)
    → tx_in.consensus_decode_from_finite_reader r
      ≡ (fields.consensus_decode_from_finite_reader r >>= λ p. ok (build p.0, p.1))
decode-fields r =
    >>=_congr (out_point.consensus_decode_from_finite_reader r)
      (λ x e. read_fields-read_pair bytes u32 (λ a b. build (x.0, (a, b))) x.1)
    ∙ read_fields-read_pair out_point (pair bytes u32) (λ a b. build (a, b)) r

abbrev unbuild : TxIn → OutPoint × (List ℕ × ℕ)
unbuild i = (i.previous_output, (i.script_sig, i.sequence))

-- An input whose fields are in range and that has no witness is read back from its encoding; the
-- count returned is that of the bytes written; what decodes to an input is its encoding, and the
-- input has no witness; the decoder never panics.
pub tx_in-IsExact : IsExact tx_in (λ i. IsTxIn i × (i.witness ≡ new))
tx_in-IsExact = record {
  counts = λ i h. fields_exact.counts (unbuild i) h.0;
  decode-encode =
      λ i rest h. rw (decode-fields, fields_exact.decode-encode (unbuild i) rest h.0, h.1) refl;
  encode-decode = λ r i rest low e.
      let (p, e₁, e₂) =
        >>=-eq-ok (fields.consensus_decode_from_finite_reader r) _ (rw decode-fields at e) in
      let (valid, split) = fields_exact.encode-decode r p.0 p.1 low e₁ in
      ok-subst
        (λ i rest. (IsTxIn i × (i.witness ≡ new)) × (r ≡ (tx_in.consensus_encode i).bytes ++ rest))
        e₂ ((valid, refl), split);
  never_panics = λ r. rw decode-fields (
      >>=-ne-panic (fields.consensus_decode_from_finite_reader r) _ (fields_exact.never_panics r)
        (λ p e h. cc));
}
