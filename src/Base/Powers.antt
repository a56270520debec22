-- ===== src/Base/Powers.antt =====
-- Powers of two, at exponents that are not numerals.
use Prim.Native.Nat.{ℕ, zero, suc, ◌+◌, ◌-◌, ◌*◌, ◌^◌, ◌≤◌, ◌<◌}
use mathlib.Core.Path.{◌≡◌, sym, ap, ◌∙◌}
use native.Mathlib.Nat.{pow-suc}
use native.Mathlib.Omega.{arith}

-- Neither factor of a positive product is zero.
pub factor_pos : (p q n : ℕ) → p * q ≡ suc n → 0 < q
factor_pos p zero n e = absurd (omega arith)
factor_pos p (suc q) n e = omega arith

pub pow_double : (n : ℕ) → 2 ^ suc n ≡ 2 * 2 ^ n
pow_double n = rw (pow-suc 2 n) (omega arith)

pub pow_pos : (n : ℕ) → 0 < 2 ^ n
pow_pos zero = omega arith
pow_pos (suc n) = omega (arith, pow_pos n, pow_double n)

pub pow_split : (a b : ℕ) → 2 ^ (a + b) ≡ 2 ^ a * 2 ^ b
pow_split zero b = let same : 0 + b ≡ b = omega arith in rw same (omega arith)
pow_split (suc a) b =
    let rest = pow_split a b in
    let same : suc a + b ≡ suc (a + b) = omega arith in
    rw (same, pow-suc 2 a, pow-suc 2 (a + b)) (omega arith)

-- The power that completes another one.
pub completing : (n b : ℕ) → b ≤ n → 2 ^ b * 2 ^ (n - b) ≡ 2 ^ n
completing n b h =
    let whole : b + (n - b) ≡ n = omega arith in sym (pow_split b (n - b)) ∙ ap (λ k. 2 ^ k) whole
