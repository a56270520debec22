-- ===== src/Crypto/Sighash/Legacy/Parts.antt =====
-- The transaction whose serialization a legacy signature hash is of, and the inputs and outputs
-- that bitcoin/src/crypto/sighash.rs writes in its place.
use rust_riecoin.Base.{
  ℕ, zero, suc, ltb→lt, ◌+◌, ◌-◌, ◌/◌, ◌%◌, ◌^◌, ◌≡◌, refl, sym, ap, ◌∙◌, ◌⊎◌, inl, inr, min, Bool,
  true, false, not, ◌&&◌, none, some, List, [], ◌∷◌, ◌++◌, append_assoc, append-nil, length,
  get_elem?, replicate, ltb, leb, ◌==◌, if◌then◌else◌, arith, length-append, length-replicate,
}
use rust_riecoin.Base.Bytes.{to_le_bytes}
use rust_riecoin.Internals.CompactSize.{encode}
use rust_riecoin.Primitives.Witness.{new}
use rust_riecoin.Primitives.Transaction.{TxIn, TxOut, Transaction}
use rust_riecoin.Consensus.Io.{emit_compact_size}
use rust_riecoin.Consensus.Codec.Fixed.{u32}
use rust_riecoin.Consensus.Vec.{bytes, vec, encode_items, consensus_encode_with_size}
use rust_riecoin.Blockdata.Transaction.{out_point, tx_in, lock_time, tx_out}
use rust_riecoin.Crypto.Sighash.EcdsaType as Ecdsa
use rust_riecoin.Crypto.Sighash.EcdsaType.{
  EcdsaSighashType, from_consensus, split_anyonecanpay_flag, is_invalid_use_of_sighash_single,
}
use rust_riecoin.Crypto.Sighash.EcdsaType.Laws.{base}
use rust_riecoin.Crypto.Sighash.Prevouts.{ok, get_elem?-cases, at_index-eq}
use rust_riecoin.Crypto.Sighash.Legacy.{
  Write, write_null_txouts, write_inputs, write_all_or_one_input, write_outputs, frees_others,
}

-- An output of the largest value and without a script.
abbrev null_output : TxOut
null_output = record { value = record { sat = 2 ^ 64 - 1 }; script_pubkey = [] }

module _ (input_index : ℕ) (script_pubkey : List ℕ) (frees : Bool) where
  -- The signed input carries the script; the others have none, and with SINGLE or NONE no sequence.
  abbrev modified_inputs : ℕ → List TxIn → List TxIn
  modified_inputs n [] = []
  modified_inputs n (i ∷ rest) =
      record {
        previous_output = i.previous_output;
        script_sig = if n == input_index then script_pubkey else [];
        sequence = if not (n == input_index) && frees then 0 else i.sequence;
        witness = new;
      }
      ∷ modified_inputs (suc n) rest

abbrev modified_outputs : ℕ → EcdsaSighashType → List TxOut → List TxOut
modified_outputs input_index Ecdsa.none output = []
modified_outputs input_index Ecdsa.single output =
    replicate input_index null_output
    ++ (elim (get_elem? output input_index) [ none ↦ [] | some txout ↦ txout ∷ [] ])
modified_outputs input_index _ output = output

-- The signed input on its own.
abbrev signed_input : TxIn → List ℕ → TxIn
signed_input i script_pubkey = record {
  previous_output = i.previous_output;
  script_sig = script_pubkey;
  sequence = i.sequence;
  witness = new;
}

-- The transaction that is signed, where `low` is the type and `acp` its flag ANYONECANPAY.
abbrev pub modified : Transaction → ℕ → TxIn → List ℕ → EcdsaSighashType → Bool → Transaction
modified tx input_index txin script_pubkey low acp = record {
  version = tx.version;
  lock_time = tx.lock_time;
  input =
      if acp
      then signed_input txin script_pubkey ∷ []
      else modified_inputs input_index script_pubkey (frees_others low) 0 tx.input;
  output = modified_outputs input_index low tx.output;
}

-- The serialization without marker, flag and witnesses.
abbrev pub serialized : Transaction → List ℕ
serialized tx =
    (u32.consensus_encode tx.version).bytes
    ++ ((vec tx_in).consensus_encode tx.input).bytes
    ++ ((vec tx_out).consensus_encode tx.output).bytes
    ++ (lock_time.consensus_encode tx.lock_time).bytes

-- What is signed of the input `txin`: the modified transaction, and the type in four bytes.
unfoldable pub message : Transaction → ℕ → TxIn → List ℕ → ℕ → List ℕ
message tx input_index txin script_pubkey n =
    serialized (modified tx input_index txin script_pubkey (base (n % 0x20)) (n / 0x80 % 2 == 1))
    ++ to_le_bytes 4 n

abbrev pub ok_run : List ℕ → Write
ok_run bs = record { written = bs; result = ok tt }

null-eq : (tx_out.consensus_encode null_output).bytes ≡ replicate 8 0xff ++ 0x00 ∷ []
unfolding to_le_bytes consensus_encode_with_size emit_compact_size encode
null-eq = refl

regroup : (x s q r : List ℕ) → x ++ (s ++ (q ++ r)) ≡ (x ++ (s ++ q)) ++ r
regroup x s q r = simp append_assoc

write_inputs-eq :
    (input_index : ℕ) (script_pubkey : List ℕ) (t : EcdsaSighashType) (n : ℕ) (xs : List TxIn)
    → write_inputs input_index script_pubkey t n xs
      ≡ ok_run
          (encode_items tx_in
            (modified_inputs input_index script_pubkey (frees_others t) n xs)).bytes
unfolding write_inputs encode_items
write_inputs-eq input_index script_pubkey t n [] = refl
write_inputs-eq input_index script_pubkey t n (i ∷ rest) =
    rw (write_inputs-eq input_index script_pubkey t (suc n) rest) (
      ap ok_run (
        regroup (out_point.consensus_encode i.previous_output).bytes
          (bytes.consensus_encode (if n == input_index then script_pubkey else [])).bytes
          (u32.consensus_encode
            (if not (n == input_index) && frees_others t then 0 else i.sequence)).bytes
          (encode_items tx_in
            (modified_inputs input_index script_pubkey (frees_others t) (suc n) rest)).bytes))

write_null_txouts-eq :
    (n : ℕ) → write_null_txouts n ≡ ok_run (encode_items tx_out (replicate n null_output)).bytes
unfolding write_null_txouts encode_items
write_null_txouts-eq zero = refl
write_null_txouts-eq (suc n) = rw (null-eq, write_null_txouts-eq n) refl

length-modified_inputs :
    (input_index : ℕ) (script_pubkey : List ℕ) (frees : Bool) (n : ℕ) (xs : List TxIn)
    → length (modified_inputs input_index script_pubkey frees n xs) ≡ length xs
length-modified_inputs input_index script_pubkey frees n [] = refl
length-modified_inputs input_index script_pubkey frees n (x ∷ xs) =
    ap suc (length-modified_inputs input_index script_pubkey frees (suc n) xs)

-- Outputs in front of the last one.
encode_items-last :
    (xs : List TxOut) (o : TxOut)
    → (encode_items tx_out (xs ++ o ∷ [])).bytes
      ≡ (encode_items tx_out xs).bytes ++ (tx_out.consensus_encode o).bytes
unfolding encode_items
encode_items-last [] o = append-nil (tx_out.consensus_encode o).bytes
encode_items-last (x ∷ xs) o =
    ap (λ t. (tx_out.consensus_encode x).bytes ++ t) (encode_items-last xs o)
    ∙ sym (
        append_assoc (tx_out.consensus_encode x).bytes (encode_items tx_out xs).bytes
          (tx_out.consensus_encode o).bytes)

pub inputs-eq :
    (tx : Transaction) (input_index : ℕ) (txin : TxIn) (script_pubkey : List ℕ)
    (low : EcdsaSighashType) (acp : Bool)
    → get_elem? tx.input input_index ≡ some txin
    → write_all_or_one_input input_index script_pubkey low acp tx
      ≡ ok_run
          ((vec tx_in).consensus_encode
            (modified tx input_index txin script_pubkey low acp).input).bytes
unfolding encode_items
inputs-eq tx input_index txin script_pubkey low true found =
    rw (at_index-eq tx.input input_index found, append-nil) refl
inputs-eq tx input_index txin script_pubkey low false found =
    rw (write_inputs-eq input_index script_pubkey low 0 tx.input, length-modified_inputs) refl

base-cases :
    (low : ℕ)
    → (base low ≡ Ecdsa.none)
      ⊎ ((base low ≡ Ecdsa.single) × ((low == 3) ≡ true))
      ⊎ (base low ≡ Ecdsa.all)
base-cases low = ground arith

single_outputs-eq :
    (tx : Transaction) (input_index : ℕ) {o : TxOut}
    → get_elem? tx.output input_index ≡ some o
    → ltb input_index (length tx.output) ≡ true
    → write_outputs input_index Ecdsa.single tx
      ≡ ok_run
          ((vec tx_out).consensus_encode
            (modified_outputs input_index Ecdsa.single tx.output)).bytes
single_outputs-eq tx input_index {o} found below =
    let same : min input_index (length tx.output - 1) ≡ input_index =
      (let h = ltb→lt input_index (length tx.output) below in omega arith) in
    let size : length (replicate input_index null_output ++ o ∷ []) ≡ input_index + 1 =
      (length-append (replicate input_index null_output) (o ∷ [])
        ∙ ap (λ n. n + 1) (length-replicate input_index null_output)) in
    rw
      (
        same,
        found,
        size,
        at_index-eq tx.output input_index found,
        write_null_txouts-eq input_index,
        encode_items-last,
      )
      refl

pub outputs-eq :
    (tx : Transaction) (input_index : ℕ) (low : ℕ)
    → ((low == 3) && leb (length tx.output) input_index) ≡ false
    → write_outputs input_index (base low) tx
      ≡ ok_run
          ((vec tx_out).consensus_encode (modified_outputs input_index (base low) tx.output)).bytes
unfolding encode_items
outputs-eq tx input_index low enough = elim (base-cases low) [
  | inl e ↦ rw e (ap ok_run (sym (append-nil (emit_compact_size 0).bytes)))
  | inr (inl (e, three)) ↦ rw e (elim (get_elem?-cases tx.output input_index) [
    | inl (o, found, below) ↦ single_outputs-eq tx input_index found below
    | inr (missing, above) ↦ absurd (ground arith)
  ])
  | inr (inr e) ↦ rw e refl
]

pub in_a_row : (a b c d e : List ℕ) → a ++ (b ++ (c ++ (d ++ e))) ≡ (((a ++ b) ++ c) ++ d) ++ e
in_a_row a b c d e = simp append_assoc
