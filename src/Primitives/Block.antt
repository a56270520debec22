-- ===== src/Primitives/Block.antt =====
-- primitives/src/block.rs: block headers and blocks. A hash is its 32 bytes; the version, an `i32`, is
-- the `u32` of the same bits.
use rust_riecoin.Base.{
  ℕ, ◌+◌, ◌/◌, ◌%◌, ◌^◌, Bool, false, not, Option, none, List, ◌++◌, ltb, ◌==◌, if◌then◌else◌,
}
use rust_riecoin.Base.Bytes.{to_le_bytes}
use rust_riecoin.Primitives.Transaction.{Transaction}

pub record Header : Type 0 where
  pub version : ℕ
  pub prev_blockhash : List ℕ
  pub merkle_root : List ℕ
  pub time : ℕ
  pub bits : ℕ
  pub nonce : ℕ

-- `Header::SIZE`
abbrev pub size : ℕ
size = 4 + 32 + 32 + 4 + 4 + 4

-- The engine takes its input in pieces; `sha256d` is the hash of their concatenation.
unfoldable pub block_hash : (List ℕ → List ℕ) → Header → List ℕ
block_hash sha256d h = sha256d (
    to_le_bytes 4 h.version
    ++ h.prev_blockhash
    ++ h.merkle_root
    ++ to_le_bytes 4 h.time
    ++ to_le_bytes 4 h.bits
    ++ to_le_bytes 4 h.nonce)

-- The marker type of the validation has no values; what an unchecked block may do is in the types of
-- the functions on it.
pub record Block : Type 0 where
  pub header : Header
  pub transactions : List Transaction
  pub witness_root : Option (List ℕ)

abbrev pub new_unchecked : Header → List Transaction → Block
new_unchecked header transactions = record {
  header = header;
  transactions = transactions;
  witness_root = none;
}

abbrev pub assume_checked : Block → Option (List ℕ) → Block
assume_checked b witness_root = record {
  header = b.header;
  transactions = b.transactions;
  witness_root = witness_root;
}

-- `Version::is_signalling_soft_fork`: the top three bits are `001`, and the bit is set.
unfoldable pub is_signalling_soft_fork : ℕ → ℕ → Bool
is_signalling_soft_fork version bit =
    if ltb 28 bit
    then false
    else if not (version / 2 ^ 29 == 1)
    then false
    else ltb 0 (version % 2 ^ 29 / 2 ^ bit % 2)
