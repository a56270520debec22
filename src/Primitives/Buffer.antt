-- ===== src/Primitives/Buffer.antt =====
-- What `primitives/src/witness.rs` uses of slices and vectors: writes into a range, rotation, and
-- cursors of four bytes in the byte order of the machine. `none` stands for a panic.
pub mod Laws
use mathlib.Core.List.{reverse}
use rust_riecoin.Base.{
  ℕ, ◌+◌, ◌-◌, ◌*◌, ◌^◌, Option, none, some, List, ◌++◌, ltb, leb, if◌then◌else◌, length, take,
  drop,
}
use rust_riecoin.Base.Bytes.{to_le_bytes, from_le_bytes}

infixl 5 ◌>>=◌
abbrev pub ◌>>=◌ {ℓ κ} : {A : Type ℓ} {B : Type κ} → Option A → (A → Option B) → Option B
none >>= f = none
some a >>= f = f a

-- `buf[start..start + bs.len()].copy_from_slice(bs)`
unfoldable pub copy_from_slice : ℕ → List ℕ → List ℕ → Option (List ℕ)
copy_from_slice start bs buf =
    if leb (start + length bs) (length buf)
    then some (take start buf ++ (bs ++ drop (start + length bs) buf))
    else none

-- `buf[start..].rotate_right(k)`
unfoldable pub rotate_right_from : ℕ → ℕ → List ℕ → Option (List ℕ)
rotate_right_from start k buf =
    let tail = drop start buf in
    if leb (start + k) (length buf)
    then some (take start buf ++ (drop (length tail - k) tail ++ take (length tail - k) tail))
    else none

-- `buf.rotate_left(k)`
unfoldable pub rotate_left : ℕ → List ℕ → Option (List ℕ)
rotate_left k buf = if leb k (length buf) then some (drop k buf ++ take k buf) else none

-- The byte order of the machine that the code runs on.
pub data Endian : Type 0 where
  little big : Endian

unfoldable pub to_ne_bytes : Endian → ℕ → ℕ → List ℕ
to_ne_bytes little k v = to_le_bytes k v
to_ne_bytes big k v = reverse (to_le_bytes k v)

unfoldable pub from_ne_bytes : Endian → List ℕ → ℕ
from_ne_bytes little bs = from_le_bytes bs
from_ne_bytes big bs = from_le_bytes (reverse bs)

-- A cursor that does not fit a `u32` fails the `expect`.
unfoldable pub encode_cursor : Endian → List ℕ → ℕ → ℕ → ℕ → Option (List ℕ)
encode_cursor endian bytes start_of_indices index value =
    if ltb value (2 ^ 32)
    then copy_from_slice (start_of_indices + index * 4) (to_ne_bytes endian 4 value) bytes
    else none

-- `none` is the source's `None`: the cursor lies behind the end.
unfoldable pub decode_cursor : Endian → List ℕ → ℕ → ℕ → Option ℕ
decode_cursor endian bytes start_of_indices index =
    let start = start_of_indices + index * 4 in
    if leb (start + 4) (length bytes)
    then some (from_ne_bytes endian (take 4 (drop start bytes)))
    else none
