-- ===== src/Blockdata/Witness/Turn.antt =====
-- One turn of the loop of the witness decoder of bitcoin/src/blockdata/witness.rs, and its end.
use native.Mathlib.Nat.{zero-add}
use rust_riecoin.Base.{
  ℕ, zero, suc, ◌+◌, ◌-◌, ◌*◌, ◌<◌, ◌≤◌, ◌≡◌, refl, sym, ap, ◌∙◌, List, [], ◌∷◌, ◌++◌, leb, length,
  arith, length-append, append_assoc, append-nil, take, drop, max, some, take-append,
  length-replicate, replicate, take-append-drop, length-take, length-drop, Bool-cases, inl, inr,
}
use rust_riecoin.Internals.CompactSize.{encoded_size, encode}
use rust_riecoin.Internals.CompactSize.RoundTrip.{length-encode}
use rust_riecoin.Primitives.Buffer.{Endian, copy_from_slice, encode_cursor, to_ne_bytes}
use rust_riecoin.Primitives.Buffer.Laws.{
  copy_from_slice_lem, encode_cursor_lem, rotate_left_lem, length-to_ne_bytes,
}
use rust_riecoin.Primitives.Witness.{Witness}
use rust_riecoin.Primitives.Witness.Layout.{item, elements, indices}
use rust_riecoin.Consensus.Result.{ok}
use rust_riecoin.Consensus.Io.{Reader}
use rust_riecoin.Consensus.Vec.{max_vec_size}
use rust_riecoin.Blockdata.Witness.{grow, resize_if_needed, finish}

-- Doubling passes the required length within its fuel.
grow-lt :
    (fuel new_len required : ℕ)
    → required < new_len + fuel
    → 1 ≤ new_len
    → required < grow fuel new_len required
unfolding grow
grow-lt zero new_len required h p = omega arith
grow-lt (suc fuel) new_len required h p = ground (arith, grow-lt fuel (new_len * 2) required)

-- `resize_if_needed` appends zeros until the buffer is longer than the required length.
pub resize_if_needed_lem :
    (vec : List ℕ) (required : ℕ)
    → (slack : List ℕ) × (resize_if_needed vec required ≡ vec ++ slack)
      × (required < length vec + length slack)
unfolding resize_if_needed
resize_if_needed_lem vec required =
    let bound = grow-lt (required + 1) (max (length vec) 1) required (omega arith) (omega arith) in
    let target = grow (required + 1) (max (length vec) 1) required in
    let added : length (replicate {A = ℕ} (target - length vec) 0) ≡ target - length vec =
      length-replicate (target - length vec) 0 in
    elim (Bool-cases (leb (length vec) required)) [
      | inl short ↦ (replicate (target - length vec) 0, rw short, omega arith)
      | inr long ↦ ([], rw (long, append-nil), ground arith)
    ]

pub replicate_add : (m n : ℕ) → replicate {A = ℕ} (m + n) 0 ≡ replicate m 0 ++ replicate n 0
replicate_add zero n = rw zero-add
replicate_add (suc m) n =
    let h : suc m + n ≡ suc (m + n) = omega arith in rw h (ap (λ t. 0 ∷ t) (replicate_add m n))

module _ (e : Endian) where
  -- The witness that the elements `xs` complete, with `stack` and the cursors `done` before them.
  abbrev pub completed : ℕ → List ℕ → List ℕ → List (List ℕ) → Witness
  completed n stack done xs = record {
    content = stack ++ (elements xs ++ (done ++ indices e (length stack) xs));
    witness_elements = n;
    indices_start = length stack + length (elements xs);
  }

  -- An element moves from the front of those that are read to the end of the buffer.
  pub completed-cons :
      (n size : ℕ) (stack done b : List ℕ) (t : List (List ℕ))
      → length b ≡ size
      → completed n (stack ++ (encode size ++ b)) (done ++ to_ne_bytes e 4 (length stack)) t
        ≡ completed n stack done (b ∷ t)
  completed-cons n size stack done b t h =
      let start = length-append stack (item b) in
      let same : (stack ++ item b)
            ++ (elements t
                ++ ((done ++ to_ne_bytes e 4 (length stack))
                    ++ indices e (length (stack ++ item b)) t))
          ≡ stack
            ++ ((item b ++ elements t)
                ++ (done
                    ++ (to_ne_bytes e 4 (length stack)
                        ++ indices e (length stack + length (item b)) t))) =
        rw start (simp append_assoc) in
      let total : length (stack ++ item b) + length (elements t)
          ≡ length stack + length (item b ++ elements t) =
        omega (arith, length-append (item b) (elements t)) in
      rw (← h) (λ i. record { content = same i; witness_elements = n; indices_start = total i })

  pub finish_lem :
      (n space cursor : ℕ) (done stack slack : List ℕ) (r : Reader)
      → space ≡ length done
      → cursor ≡ space + length stack
      → finish n space ((done ++ (stack ++ slack), cursor), r) ≡ ok (completed n stack done [], r)
  finish_lem n space cursor done stack slack r h k =
      let kept : take cursor (done ++ (stack ++ slack)) ≡ done ++ stack =
        rw (← append_assoc done stack slack)
          (take-append cursor (done ++ stack) slack (omega (arith, length-append done stack))) in
      let left : cursor - space ≡ length stack + 0 = omega arith in
      rw (kept, rotate_left_lem space done stack (done ++ stack) refl h, left, append-nil)

  -- One turn of the loop, for an element of `size` bytes: the next cursor, the buffer made long
  -- enough, the compact size and the bytes.
  module _ (space i cursor m size : ℕ) (done gap stack slack : List ℕ) (hd : length done ≡ i * 4)
      (hg : 4 ≤ length gap) (hs : space ≡ length done + length gap)
      (hc : cursor ≡ space + length stack) (hm : m ≡ cursor + size + encoded_size size)
      (limit : m ≤ max_vec_size + space) where
    abbrev pub buffer : List ℕ → List ℕ
    buffer t = done ++ (to_ne_bytes e 4 (length stack) ++ (drop 4 gap ++ (stack ++ t)))

    length-buffer : (t : List ℕ) → length (buffer t) ≡ cursor + length t
    length-buffer t = omega (
      arith,
      length-append done (to_ne_bytes e 4 (length stack) ++ (drop 4 gap ++ (stack ++ t))),
      length-append (to_ne_bytes e 4 (length stack)) (drop 4 gap ++ (stack ++ t)),
      length-append (drop 4 gap) (stack ++ t),
      length-append stack t,
      length-to_ne_bytes e 4 (length stack),
      length-drop 4 gap,
    )

    abbrev free : List ℕ
    free = slack ++ (resize_if_needed_lem (buffer slack) m).0

    room : encoded_size size + size < length free
    room =
        let (more, grown, long) = resize_if_needed_lem (buffer slack) m in
        omega (arith, length-append slack more, length-buffer slack)

    pub cursor_step :
        encode_cursor e (done ++ (gap ++ (stack ++ slack))) 0 i (cursor - space)
        ≡ some (buffer slack)
    cursor_step =
        let at : cursor - space ≡ length stack = omega arith in
        rw at (
          encode_cursor_lem e _ done (take 4 gap) (drop 4 gap ++ (stack ++ slack)) 0 i
            (length stack) (rw (← append_assoc (take 4 gap), take-append-drop)) (omega arith)
            (omega (arith, length-take 4 gap)) (omega arith))

    pub size_step :
        copy_from_slice cursor (encode size) (resize_if_needed (buffer slack) m)
        ≡ some (buffer (encode size ++ drop (encoded_size size) free))
    size_step =
        let (more, grown, long) = resize_if_needed_lem (buffer slack) m in
        rw grown (
          copy_from_slice_lem cursor (encode size)
            (done ++ (to_ne_bytes e 4 (length stack) ++ (drop 4 gap ++ stack)))
            (take (encoded_size size) free) (drop (encoded_size size) free) _
            (rw take-append-drop (simp append_assoc))
            (omega (arith, rw append-nil at (length-buffer [])))
            (omega (arith, length-take (encoded_size size) free, length-encode size, room))
          ∙ simp append_assoc)

    abbrev pub slack_after : List ℕ
    slack_after = drop size (drop (encoded_size size) free)

    pub bytes_step :
        (b : List ℕ)
        → length b ≡ size
        → copy_from_slice
            (cursor + length (encode size))
            b
            (buffer (encode size ++ drop (encoded_size size) free))
          ≡ some (buffer (encode size ++ (b ++ slack_after)))
    bytes_step b hb =
        let rest = drop (encoded_size size) free in
        copy_from_slice_lem (cursor + length (encode size)) b
          (done ++ (to_ne_bytes e 4 (length stack) ++ (drop 4 gap ++ (stack ++ encode size))))
          (take size rest) (drop size rest) _ (rw take-append-drop (simp append_assoc))
          (sym (length-buffer (encode size)))
          (omega (arith, length-take size rest, length-drop (encoded_size size) free, room))
        ∙ simp append_assoc
