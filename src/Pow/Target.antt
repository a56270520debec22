-- ===== src/Pow/Target.antt =====
-- Targets of bitcoin/src/pow.rs.
pub mod Laws
use rust_riecoin.Base.{ℕ, Bool, not, List}
use rust_riecoin.Pow.U256.{U256, lt, from_le_bytes}

pub record Target : Type 0 where
  pub inner : U256

unfoldable pub is_met_by : Target → List ℕ → Bool
unfolding from_le_bytes lt
is_met_by t block_hash = let hash = from_le_bytes block_hash in not (lt t.inner hash)
