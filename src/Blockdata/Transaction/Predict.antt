-- ===== src/Blockdata/Transaction/Predict.antt =====
-- `predict_weight` and `InputWeightPrediction` of bitcoin/src/blockdata/transaction.rs: the weight of a
-- transaction from the lengths of its scripts and witness elements. The sums do not wrap here; the
-- source leaves their overflow unchecked.
pub mod Sums
pub mod Laws
use rust_riecoin.Base.{ℕ, ◌+◌, ◌-◌, ◌*◌, List, [], ◌∷◌, ltb, ◌==◌, if◌then◌else◌}
use rust_riecoin.Internals.CompactSize.{encoded_size, encoded_size_const}
use rust_riecoin.Units.Weight.{Weight, from_wu, to_wu}

-- `Weight::from_vb_unchecked(OutPoint::SIZE + Sequence::SIZE)`
abbrev pub tx_in_base_weight : Weight
tx_in_base_weight = from_wu ((36 + 4) * 4)

pub record InputWeightPrediction : Type 0 where
  pub script_size : ℕ
  pub witness_size : ℕ

-- The fold of `InputWeightPrediction::new` over the lengths of the elements.
unfoldable pub fold_elements : ℕ × ℕ → List ℕ → ℕ × ℕ
fold_elements acc [] = acc
fold_elements acc (elem_len ∷ rest) =
    fold_elements (acc.0 + 1, acc.1 + (elem_len + encoded_size elem_len)) rest

unfoldable pub new : ℕ → List ℕ → InputWeightPrediction
unfolding fold_elements
new input_script_len witness_element_lengths =
    let folded = fold_elements (0, 0) witness_element_lengths in
    record {
      script_size = input_script_len + encoded_size input_script_len;
      witness_size = if ltb 0 folded.0 then folded.1 + encoded_size folded.0 else 0;
    }

abbrev pub witness_weight : InputWeightPrediction → Weight
witness_weight p = from_wu (p.script_size * 4 + p.witness_size)

abbrev pub total_weight : InputWeightPrediction → Weight
total_weight p = from_wu (to_wu tx_in_base_weight + to_wu (witness_weight p))

-- The number of inputs, their weight, and the number of those with a witness.
unfoldable pub fold_inputs : ℕ × ℕ × ℕ → List InputWeightPrediction → ℕ × ℕ × ℕ
fold_inputs acc [] = acc
fold_inputs (count, weight, with_witnesses) (p ∷ rest) =
    fold_inputs
      (
        count + 1,
        weight + to_wu (total_weight p),
        with_witnesses + (if ltb 0 p.witness_size then 1 else 0),
      )
      rest

unfoldable pub fold_outputs : ℕ × ℕ → List ℕ → ℕ × ℕ
fold_outputs acc [] = acc
fold_outputs acc (script_len ∷ rest) =
    fold_outputs (acc.0 + 1, acc.1 + script_len + encoded_size script_len) rest

unfoldable pub predict_weight_internal : ℕ → ℕ → ℕ → ℕ → ℕ → Weight
predict_weight_internal input_count input_weight inputs_with_witnesses output_count
      output_scripts_size =
    let output_size = 8 * output_count + output_scripts_size in
    let non_input_size =
      4 + encoded_size_const input_count + encoded_size_const output_count + output_size + 4 in
    from_wu (
      if inputs_with_witnesses == 0
      then non_input_size * 4 + input_weight
      else non_input_size * 4 + input_weight + input_count - inputs_with_witnesses + 2)

unfoldable pub predict_weight : List InputWeightPrediction → List ℕ → Weight
unfolding fold_inputs fold_outputs predict_weight_internal
predict_weight inputs output_script_lens =
    let (input_count, input_weight, inputs_with_witnesses) = fold_inputs (0, 0, 0) inputs in
    let (output_count, output_scripts_size) = fold_outputs (0, 0) output_script_lens in
    predict_weight_internal input_count input_weight inputs_with_witnesses output_count
      output_scripts_size
