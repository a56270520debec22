-- ===== src/Consensus/Vec/Chunks.antt =====
-- The chunked reading of bytes, against one read of all of them.
use mathlib.Core.Logic.{dif_pos, dif_neg}
use mathlib.Core.WellFounded.{Acc}
use native.Mathlib.Bridge.{le_prop}
use native.Mathlib.Decide.{dec_lt}
use rust_riecoin.Base.{
  ℕ, zero, suc, ◌+◌, ◌-◌, ◌<◌, ◌≤◌, ◌≡◌, refl, sym, ap, min, List, [], ◌∷◌, ◌++◌, take, drop, arith,
  lt_wf, append_assoc, append-nil, length-drop,
}
use rust_riecoin.Consensus.Result.{ok, ◌>>=◌, >>=_assoc, >>=-ok}
use rust_riecoin.Consensus.Io.{Reader, read_exact}
use rust_riecoin.Consensus.Vec.{rest_shrinks, read_chunks, read_bytes_from_finite_reader}

take-nil : (n : ℕ) → take {A = ℕ} n [] ≡ []
take-nil zero = refl
take-nil (suc n) = refl

drop-nil : (n : ℕ) → drop {A = ℕ} n [] ≡ []
drop-nil zero = refl
drop-nil (suc n) = refl

take-add : (n m k : ℕ) (r : List ℕ) → n ≡ m + k → take n r ≡ take m r ++ take k (drop m r)
take-add n zero k r h = let e : n ≡ k = omega arith in rw e
take-add zero (suc m) k r h = absurd (omega arith)
take-add (suc n) (suc m) k [] h = sym (take-nil k)
take-add (suc n) (suc m) k (x ∷ r) h = ap (λ t. x ∷ t) (take-add n m k r (omega arith))

drop-add : (n m k : ℕ) (r : List ℕ) → n ≡ m + k → drop n r ≡ drop k (drop m r)
drop-add n zero k r h = let e : n ≡ k = omega arith in rw e
drop-add zero (suc m) k r h = absurd (omega arith)
drop-add (suc n) (suc m) k [] h = sym (drop-nil k)
drop-add (suc n) (suc m) k (x ∷ r) h = drop-add n m k r (omega arith)

-- One read of `n` bytes is a read of `m` and one of the rest.
pub read_exact_split :
    (n m : ℕ) (r : Reader)
    → m ≤ n
    → read_exact n r
      ≡ (read_exact m r >>= λ p. read_exact (n - m) p.1 >>= λ q. ok (p.0 ++ q.0, q.1))
unfolding read_exact
read_exact_split n m r h =
    ground (arith, take-add n m (n - m) r, drop-add n m (n - m) r, length-drop m r)

read_exact-zero : (r : Reader) → read_exact 0 r ≡ ok ([], r)
unfolding read_exact
read_exact-zero r = ground arith

-- Reading in chunks of any positive size is one read, behind what was read before.
read_chunks_lem :
    (chunk_size : ℕ) (p : 0 < chunk_size) (len : ℕ) (w : Acc ◌<◌ len) (ret : List ℕ) (r : Reader)
    → read_chunks chunk_size p len w ret r ≡ (read_exact len r >>= λ q. ok (ret ++ q.0, q.1))
unfolding read_chunks
read_chunks_lem chunk_size p len (Acc.intro _ smaller) ret r = elim (dec_lt 0 len) [
  | yes h ↦
      let ih = λ (ret' : List ℕ) (r' : Reader).
        read_chunks_lem chunk_size p (len - min len chunk_size)
          (smaller _ (rest_shrinks len chunk_size p h)) ret' r' in
      rw (dif_pos _ le_prop h, read_exact_split len (min len chunk_size) r (omega arith), >>=_assoc)
        (simp (append_assoc, >>=_assoc, ih))
  | no h ↦ let e : len ≡ 0 = omega arith in rw (dif_neg _ h, e, read_exact-zero, append-nil)
]

-- read_bytes_from_finite_reader returns the next len bytes, or missing_data where there are fewer,
-- for any chunk size but 0.
pub read_bytes-read_exact :
    (len chunk_size : ℕ) (r : Reader)
    → 0 < chunk_size
    → read_bytes_from_finite_reader len chunk_size r ≡ read_exact len r
unfolding read_bytes_from_finite_reader
read_bytes-read_exact len chunk_size r p =
    rw (dif_pos _ le_prop p, read_chunks_lem chunk_size p len (lt_wf.apply len) [] r)
      (>>=-ok (read_exact len r))
