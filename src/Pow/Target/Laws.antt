-- ===== src/Pow/Target/Laws.antt =====
-- When a hash meets a target, of bitcoin/src/pow.rs.
use rust_riecoin.Base.{ℕ, ◌≡◌, List, length, arith, true, ◌≤◌, ◌↔◌}
use rust_riecoin.Base.Bytes as Bytes
use rust_riecoin.Base.Bytes.{AreBytes}
use rust_riecoin.Pow.U256.{from_le_bytes}
use rust_riecoin.Pow.U256.Laws.{value, IsU256, lt-value}
use rust_riecoin.Pow.U256.Digits.{from_le_bytes-value}
use rust_riecoin.Pow.Target.{Target, is_met_by}

-- For a target below 2^256 and a hash of 32 bytes, is_met_by answers true exactly when the number
-- whose little-endian digits are the bytes of the hash is at most the target.
pub is_met_by_iff :
    (t : Target) (block_hash : List ℕ)
    → IsU256 t.inner
    → AreBytes block_hash
    → length block_hash ≡ 32
    → (is_met_by t block_hash ≡ true) ↔ (Bytes.from_le_bytes block_hash ≤ value t.inner)
unfolding is_met_by
is_met_by_iff t block_hash v h n =
    let (same, fits) = from_le_bytes-value block_hash h n in
    let order = lt-value t.inner (from_le_bytes block_hash) v fits in
    (λ met. ground arith, λ below. ground arith)
