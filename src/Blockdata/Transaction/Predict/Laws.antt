-- ===== src/Blockdata/Transaction/Predict/Laws.antt =====
-- The prediction is the weight of the transaction that is built.
use rust_riecoin.Base.{
  ℕ, suc, ◌+◌, ◌-◌, ◌*◌, ◌≤◌, ◌≡◌, refl, sym, ◌∙◌, ap, Bool, true, false, not, ◌&&◌, ap₂, some,
  List, [], ◌∷◌, ◌++◌, map, length, ◌==◌, if◌then◌else◌, arith, All, length-append, Bool-cases, inl,
  inr, ==_iff,
}
use rust_riecoin.Internals.CompactSize.{encoded_size, encode}
use rust_riecoin.Internals.CompactSize.RoundTrip.{length-encode}
use rust_riecoin.Primitives.Buffer.{Endian}
use rust_riecoin.Primitives.Witness.{is_empty}
use rust_riecoin.Primitives.Witness.Layout.{elements}
use rust_riecoin.Primitives.Transaction.{
  TxIn, Transaction, any_witness, no_inputs, uses_segwit_serialization,
}
use rust_riecoin.Units.Weight.{from_wu}
use rust_riecoin.Blockdata.Witness.{IsWitness}
use rust_riecoin.Blockdata.Witness.Exact.{written-layout}
use rust_riecoin.Blockdata.Transaction.{encode_witnesses}
use rust_riecoin.Blockdata.Transaction.Witnesses.{IsInput}
use rust_riecoin.Blockdata.Transaction.RoundTrip.{IsTransaction}
use rust_riecoin.Blockdata.Transaction.Size.{base_sizes, base_size, weight}
use rust_riecoin.Blockdata.Transaction.Size.Laws.{total_size-sum, lengths}
use rust_riecoin.Blockdata.Transaction.Predict.{InputWeightPrediction, new, predict_weight}
use rust_riecoin.Blockdata.Transaction.Predict.Sums.{
  flag, weights, flags, script_size-new, witness_size-stack, flag_one, no_flag, zero_sum, de_morgan,
  fixed, predicted, script_lens,
}

uses_any :
    (xs : List TxIn)
    → (length xs == 0) ≡ false
    → (if any_witness xs then true else no_inputs xs) ≡ any_witness xs
uses_any [] h = cc
uses_any (i ∷ xs) h = elim (Bool-cases (any_witness (i ∷ xs))) [
  | inl t ↦ rw t refl
  | inr t ↦ rw t refl
]

module _ (e : Endian) (debug : Bool) where
  abbrev pub predictions : (xs : List TxIn) → All (IsInput e) xs → List InputWeightPrediction
  predictions [] h = []
  predictions (i ∷ xs) ((_, v), hs) =
      new (length i.script_sig) (map length v.stack) ∷ predictions xs hs

  length-predictions :
      (xs : List TxIn) (h : All (IsInput e) xs) → length (predictions xs h) ≡ length xs
  length-predictions [] h = refl
  length-predictions (i ∷ xs) (_, hs) = ap suc (length-predictions xs hs)

  abbrev wits : List TxIn → ℕ
  wits xs = length (encode_witnesses e debug xs).bytes

  length-wits :
      (i : TxIn) (xs : List TxIn) (v : IsWitness e i.witness)
      → wits (i ∷ xs) ≡ encoded_size (length v.stack) + length (elements v.stack) + wits xs
  unfolding encode_witnesses
  length-wits i xs v =
      rw (v.laid_out, written-layout e debug v.stack v.small)
        (omega (
          arith,
          length-append (encode (length v.stack) ++ elements v.stack)
              (encode_witnesses e debug xs).bytes,
          length-append (encode (length v.stack)) (elements v.stack),
          length-encode (length v.stack),
        ))

  no_wits : wits [] ≡ 0
  unfolding encode_witnesses
  no_wits = refl

  sums :
      (xs : List TxIn) (h : All (IsInput e) xs)
      → let ps = predictions xs h in
        (weights ps + length xs ≡ 4 * base_sizes xs + wits xs + flags ps)
        × (flags ps ≤ length xs)
        × ((flags ps == 0) ≡ not (any_witness xs))
        × (flags ps ≡ 0 → wits xs ≡ length xs)
  unfolding base_sizes any_witness
  sums [] h = (omega (arith, no_wits), omega arith, refl, λ _. no_wits)
  sums (i ∷ xs) ((h, v), hs) =
      let n = length i.script_sig in
      let p : InputWeightPrediction = new n (map length v.stack) in
      let ps : List InputWeightPrediction = predictions xs hs in
      let (fits, unflagged) = witness_size-stack n v.stack in
      let written = length-wits i xs v in
      let script : p.script_size ≡ n + encoded_size n = script_size-new n (map length v.stack) in
      let count : i.witness.witness_elements ≡ length v.stack =
        ap (λ w. w.witness_elements) v.laid_out in
      let (total, few, none, alone) = sums xs hs in
      (
        omega (arith, script, fits, total, written),
        omega (arith, flag_one p, few),
        zero_sum (flag p) (flags ps)
            ∙ ap₂ (λ a b. a && b) (unflagged ∙ ap (λ k. k == 0) (sym count)) none
            ∙ de_morgan (is_empty i.witness) (any_witness xs),
        λ z.
            omega (arith, written, fits, alone (omega (arith, z)), no_flag p (omega (arith, z)), z),
      )

  same_weight :
      (tx : Transaction) (v : IsTransaction e tx)
      → (length tx.input == 0) ≡ false
      → let ps = predictions tx.input v.input.1 in
        base_size tx * 3 + lengths e debug tx ≡ (
          if flags ps == 0
          then fixed (length ps) tx.output * 4 + weights ps
          else fixed (length ps) tx.output * 4 + weights ps + length ps - flags ps + 2)
  unfolding base_size uses_segwit_serialization
  same_weight tx v some_input =
      let ps = predictions tx.input v.input.1 in
      let (total, few, none, alone) = sums tx.input v.input.1 in
      let size = length-predictions tx.input v.input.1 in
      let uses = uses_any tx.input some_input in
      let width = ap encoded_size size in
      elim (Bool-cases (any_witness tx.input)) [
        | inl h ↦ rw (none ∙ ap not h, uses ∙ h) (omega (arith, total, few, size, width))
        | inr h ↦
            rw (none ∙ ap not h, uses ∙ h)
              (let unflagged = (==_iff (flags ps) 0).0 (none ∙ ap not h) in
                omega (arith, total, few, size, width, unflagged, alone unflagged))
      ]

  -- On a transaction with at least one input, whose fields are in range, the weight that
  -- predict_weight gives for the lengths of its scripts and witness elements is the weight of the
  -- transaction.
  pub predict_weight-weight :
      (tx : Transaction) (v : IsTransaction e tx)
      → (length tx.input == 0) ≡ false
      → weight e debug tx
        ≡ some (predict_weight (predictions tx.input v.input.1) (script_lens tx.output))
  unfolding weight
  predict_weight-weight tx v some_input = rw (total_size-sum e debug tx v) (
      ap (λ n. some (from_wu n))
        (same_weight tx v some_input ∙ sym (predicted (predictions tx.input v.input.1) tx.output)))

  -- On a transaction without inputs, whose fields are in range, the weight is 2 more than
  -- predict_weight gives for its outputs.
  pub predict_weight-no_inputs :
      (tx : Transaction)
      → IsTransaction e tx
      → tx.input ≡ []
      → weight e debug tx ≡ some (from_wu ((predict_weight [] (script_lens tx.output)).wu + 2))
  unfolding weight base_size base_sizes uses_segwit_serialization encode_witnesses any_witness
  predict_weight-no_inputs tx v none =
      rw (total_size-sum e debug tx v, predicted [] tx.output, none)
        (ap (λ n. some (from_wu n)) (omega arith))
