-- ===== src/Consensus/Vec.antt =====
-- Sequences in bitcoin/src/consensus/encode.rs: `impl_vec!`, `Vec<u8>` and the chunked reading of
-- bytes. `Vec::with_capacity` only reserves memory and is not modelled.
pub mod Chunks
pub mod Exact
use mathlib.Core.Logic.{dite}
use mathlib.Core.WellFounded.{Acc}
use native.Mathlib.Decide.{dec_lt}
use rust_riecoin.Base.{
  ℕ, zero, suc, ◌+◌, ◌-◌, ◌*◌, ◌<◌, min, List, [], ◌∷◌, ◌++◌, length, arith, lt_wf,
}
use rust_riecoin.Consensus.Result.{Result, ok, panic, ◌>>=◌}
use rust_riecoin.Consensus.Io.{
  Reader, Written, ◌⊕◌, nothing, emit_compact_size, emit_slice, read_exact, read_compact_size,
}
use rust_riecoin.Consensus.Codec.{Codec}

abbrev pub max_vec_size : ℕ
max_vec_size = 4_000_000

unfoldable pub consensus_encode_with_size : List ℕ → Written
consensus_encode_with_size v = emit_compact_size (length v) ⊕ emit_slice v

rest_shrinks : (len chunk_size : ℕ) → 0 < chunk_size → 0 < len → len - min len chunk_size < len
rest_shrinks len chunk_size p h = omega arith

-- The loop of `read_bytes_from_finite_reader`: `ret` is what was read, `len` is what is missing.
pub read_chunks :
    (chunk_size : ℕ)
    → 0 < chunk_size
    → (len : ℕ) → Acc ◌<◌ len
    → List ℕ
    → Reader
    → Result (List ℕ × Reader)
read_chunks chunk_size p len (Acc.intro _ smaller) ret r =
    dite (dec_lt 0 len)
      (λ h. do
        (chunk, r') ← read_exact (min len chunk_size) r
        read_chunks chunk_size p (len - min len chunk_size)
            (smaller _ (rest_shrinks len chunk_size p h)) (ret ++ chunk) r')
      (λ _. ok (ret, r))

-- A chunk size of 0 fails the assertion.
pub read_bytes_from_finite_reader : ℕ → ℕ → Reader → Result (List ℕ × Reader)
unfolding read_chunks lt_wf dec_lt
read_bytes_from_finite_reader len chunk_size r =
    dite (dec_lt 0 chunk_size) (λ p. read_chunks chunk_size p len (lt_wf.apply len) [] r)
      (λ _. panic)

-- `Vec<u8>`
abbrev pub bytes : Codec (List ℕ)
bytes = record {
  consensus_encode = consensus_encode_with_size;
  consensus_decode_from_finite_reader = λ r. do
    (len, r') ← read_compact_size r
    read_bytes_from_finite_reader len (128 * 1024) r';
}

module _ {A : Type 0} (c : Codec A) where
  -- `for c in self.iter() { len += c.consensus_encode(w)?; }`
  unfoldable pub encode_items : List A → Written
  encode_items [] = nothing
  encode_items (x ∷ xs) = c.consensus_encode x ⊕ encode_items xs

  -- `for _ in 0..len { ret.push(…) }`
  unfoldable pub decode_items : ℕ → Reader → Result (List A × Reader)
  decode_items zero r = ok ([], r)
  decode_items (suc n) r = do
    (x, r') ← c.consensus_decode_from_finite_reader r
    (xs, r'') ← decode_items n r'
    ok (x ∷ xs, r'')

  -- `impl_vec!`
  abbrev pub vec : Codec (List A)
  vec = record {
    consensus_encode = λ xs. emit_compact_size (length xs) ⊕ encode_items xs;
    consensus_decode_from_finite_reader = λ r. do
      (len, r') ← read_compact_size r
      decode_items len r';
  }
