-- ===== src/Consensus/Codec/Fixed.antt =====
-- `impl_int_encodable!` and `impl_array!` of bitcoin/src/consensus/encode.rs.
use rust_riecoin.Base.{ℕ, ◌^◌, ◌<◌, ◌≡◌, refl, sym, subst, List, length, All-append_left}
use rust_riecoin.Base.Bytes.{IsByte, AreBytes, length-to_le_bytes}
use rust_riecoin.Consensus.Io.{sized, emit_u8, emit_int, emit_slice, read_u8, read_int, read_exact}
use rust_riecoin.Consensus.Io.Laws.{
  read_int-append, read_int-eq-ok, read_int-ne-panic, read_exact-append, read_exact-eq-ok,
  read_exact-ne-panic, read_u8-eq-ok, read_u8-ne-panic,
}
use rust_riecoin.Consensus.Codec.{Codec, IsExact}

-- An unsigned integer of `k` bytes: `u16`, `u32` and `u64` for `k` = 2, 4 and 8.
abbrev pub int : ℕ → Codec ℕ
int k = record {
  consensus_encode = λ v. sized (emit_int k v) k;
  consensus_decode_from_finite_reader = read_int k;
}

abbrev pub u8 : Codec ℕ
u8 = record {
  consensus_encode = λ v. sized (emit_u8 v) 1;
  consensus_decode_from_finite_reader = read_u8;
}

abbrev pub u32 : Codec ℕ
u32 = int 4

abbrev pub u64 : Codec ℕ
u64 = int 8

-- A byte array `[u8; n]`.
abbrev pub array : ℕ → Codec (List ℕ)
array n = record {
  consensus_encode = λ v. emit_slice v;
  consensus_decode_from_finite_reader = read_exact n;
}

abbrev pub IsArray : ℕ → List ℕ → Type 0
IsArray n bs = (length bs ≡ n) × AreBytes bs

pub int-IsExact : (k : ℕ) → IsExact (int k) (λ v. v < 256 ^ k)
int-IsExact k = record {
  counts = λ v h. sym (length-to_le_bytes k v);
  decode-encode = λ v rest h. read_int-append k v rest h;
  encode-decode =
      λ r v rest bytes e. let (split, fits) = read_int-eq-ok k r bytes e in (fits, split);
  never_panics = read_int-ne-panic k;
}

pub u8-IsExact : IsExact u8 IsByte
u8-IsExact = record {
  counts = λ v h. refl;
  decode-encode = λ v rest h. unfold read_u8 in refl;
  encode-decode = λ r v rest bytes e. let (split, fits) = read_u8-eq-ok r bytes e in (fits, split);
  never_panics = read_u8-ne-panic;
}

pub array-IsExact : (n : ℕ) → IsExact (array n) (IsArray n)
array-IsExact n = record {
  counts = λ v h. refl;
  decode-encode = λ v rest h. read_exact-append n v rest (sym h.0);
  encode-decode = λ r v rest bytes e.
      let (split, size) = read_exact-eq-ok n r e in
      ((size, All-append_left IsByte v rest (subst AreBytes split bytes)), split);
  never_panics = read_exact-ne-panic n;
}
