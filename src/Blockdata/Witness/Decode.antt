-- ===== src/Blockdata/Witness/Decode.antt =====
-- The decoder that fills the buffer in place returns the layout of the stack that is read.
use native.Mathlib.Nat.{zero-add}
use rust_riecoin.Base.{
  ℕ, zero, suc, ◌+◌, ◌*◌, ◌≤◌, ◌≡◌, refl, sym, ap, ◌∙◌, List, [], ◌∷◌, ◌++◌, ltb, length, arith,
  length-append, append_assoc, drop, ◌==◌, length-replicate, replicate, length-drop, Bool-cases,
  inl, inr,
}
use rust_riecoin.Internals.CompactSize.{encoded_size, encode}
use rust_riecoin.Internals.CompactSize.RoundTrip.{length-encode}
use rust_riecoin.Primitives.Buffer.{Endian, to_ne_bytes}
use rust_riecoin.Primitives.Buffer.Laws.{length-to_ne_bytes}
use rust_riecoin.Primitives.Witness.Layout.{elements, indices, layout}
use rust_riecoin.Consensus.Result.{ok, ◌>>=◌, >>=_assoc, >>=_congr}
use rust_riecoin.Consensus.Io.{Reader, read_compact_size, read_exact}
use rust_riecoin.Consensus.Io.Laws.{read_exact-eq-ok}
use rust_riecoin.Consensus.Vec.{max_vec_size}
use rust_riecoin.Blockdata.Witness.{required_len, decode_elements, finish, consensus_decode}
use rust_riecoin.Blockdata.Witness.Stack.{
  read_witness, read_stack, length-read_stack, required_len-eq-ok,
}
use rust_riecoin.Blockdata.Witness.Turn.{
  replicate_add, completed, completed-cons, finish_lem, buffer, cursor_step, size_step, slack_after,
  bytes_step,
}

module _ (e : Endian) where
  module _ (n space : ℕ) where
    decode_elements_lem :
        (k i cursor : ℕ) (done gap stack slack content : List ℕ) (r : Reader)
        → content ≡ done ++ (gap ++ (stack ++ slack))
        → length done ≡ i * 4
        → length gap ≡ k * 4
        → space ≡ length done + length gap
        → cursor ≡ space + length stack
        → cursor ≤ max_vec_size + space
        → (decode_elements e k i space cursor content r >>= finish n space)
          ≡ (read_stack k space cursor r >>= λ p. ok (completed e n stack done p.0, p.1))
    unfolding decode_elements read_stack
    decode_elements_lem zero i cursor done [] stack slack content r eq hd hg hs hc small =
        rw eq (finish_lem e n space cursor done stack slack r (omega arith) hc)
    decode_elements_lem zero i cursor done (x ∷ gap) stack slack content r eq hd hg hs hc small =
        absurd (omega arith)
    decode_elements_lem (suc k) i cursor done gap stack slack content r eq hd hg hs hc small =
        >>=_assoc (read_compact_size r) _ _
        ∙ >>=_congr (read_compact_size r) (λ p e₁.
          >>=_assoc (required_len space cursor p.0) _ _
          ∙ >>=_congr (required_len space cursor p.0) (λ m e₂.
            let (hm, limit) = required_len-eq-ok space cursor p.0 e₂ in
            let size = (length-encode p.0).0 in
            let cur' = to_ne_bytes e 4 (length stack) in
            let four : 4 ≤ length gap = omega arith in
            rw
              (
                eq,
                cursor_step e space i cursor m p.0 done gap stack slack hd four hs hc hm limit,
                size_step e space i cursor m p.0 done gap stack slack hd four hs hc hm limit,
              )
              (>>=_assoc (read_exact p.0 p.1) _ _
                ∙ >>=_congr (read_exact p.0 p.1) (λ b e₃.
                  let (split, len) = read_exact-eq-ok p.0 p.1 e₃ in
                  let stack' = stack ++ (encode p.0 ++ b.0) in
                  let slack' =
                    slack_after e space i cursor m p.0 done gap stack slack hd four hs hc hm
                      limit in
                  let content' =
                    buffer e space i cursor m p.0 done gap stack slack hd four hs hc hm limit
                      (encode p.0 ++ (b.0 ++ slack')) in
                  let grown = length-append stack (encode p.0 ++ b.0) in
                  let grown' = length-append (encode p.0) b.0 in
                  let ih =
                    decode_elements_lem k (i + 1) (cursor + encoded_size p.0 + p.0) (done ++ cur')
                      (drop 4 gap) stack' slack' content' b.1 (simp append_assoc)
                      (omega
                        (arith, length-append done cur', length-to_ne_bytes e 4 (length stack)))
                      (omega (arith, length-drop 4 gap))
                      (omega (
                        arith,
                        length-append done cur',
                        length-to_ne_bytes e 4 (length stack),
                        length-drop 4 gap,
                      ))
                      (omega arith) (omega arith) in
                  rw
                    (
                      bytes_step e space i cursor m p.0 done gap stack slack hd four hs hc hm limit
                          b.0 len,
                      size,
                    )
                    (ih
                      ∙ >>=_congr (read_stack k space (cursor + encoded_size p.0 + p.0) b.1)
                          (λ t e₄.
                            ap (λ w. ok (w, t.1)) (completed-cons e n p.0 stack done b.0 t.0 len))
                      ∙ sym (
                          >>=_assoc (read_stack k space (cursor + encoded_size p.0 + p.0) b.1) _
                            _)))
                ∙ sym (>>=_assoc (read_exact p.0 p.1) _ _)))
          ∙ sym (>>=_assoc (required_len space cursor p.0) _ _))
        ∙ sym (>>=_assoc (read_compact_size r) _ _)

  from_zeros :
      (n : ℕ) (r : Reader)
      → n ≤ max_vec_size
      → (decode_elements e n 0 (n * 4) (n * 4) (replicate (n * 4 + 128) 0) r >>= finish n (n * 4))
        ≡ (read_stack n (n * 4) (n * 4) r >>= λ q. ok (layout e q.0, q.1))
  from_zeros n r h =
      let gap = replicate {A = ℕ} (n * 4) 0 in
      let size : length gap ≡ n * 4 = length-replicate (n * 4) 0 in
      decode_elements_lem n (n * 4) n 0 (n * 4) [] gap [] (replicate 128 0) _ r
        (replicate_add (n * 4) 128) (omega arith) size (omega arith) (omega arith) (omega arith)
      ∙ >>=_congr (read_stack n (n * 4) (n * 4) r) (λ q e₁.
        let count = length-read_stack n (n * 4) (n * 4) r e₁ in
        ap (λ w. ok (w, q.1))
          (λ i. record {
            content = elements q.0 ++ indices e 0 q.0;
            witness_elements = sym count i;
            indices_start = zero-add (length (elements q.0)) i;
          }))

  -- The witness decoder, which fills a growing buffer in place and rotates it, makes the same
  -- reads and returns the same errors as a reader of a list of byte strings, and where that
  -- succeeds returns the layout of the list.
  pub consensus_decode-read_witness :
      (r : Reader) → consensus_decode e r ≡ (read_witness r >>= λ q. ok (layout e q.0, q.1))
  unfolding consensus_decode read_witness
  consensus_decode-read_witness r =
      >>=_congr (read_compact_size r) (λ p e₁. elim (Bool-cases (ltb max_vec_size p.0)) [
        | inl over ↦ rw over
        | inr few ↦ rw few (elim (Bool-cases (p.0 == 0)) [
          | inl none_left ↦
              let zero_left : p.0 ≡ 0 = ground arith in rw zero_left (unfold read_stack in refl)
          | inr some_left ↦ rw some_left (from_zeros p.0 p.1 (ground arith))
        ])
      ])
      ∙ sym (>>=_assoc (read_compact_size r) _ _)
