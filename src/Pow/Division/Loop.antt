-- ===== src/Pow/Division/Loop.antt =====
-- The loop of the long division of bitcoin/src/pow.rs.
use rust_riecoin.Base.{
  ℕ, zero, suc, ◌+◌, ◌-◌, ◌*◌, ◌^◌, ◌<◌, ◌≤◌, ◌≡◌, ap, arith, Bool-cases, inl, inr,
}
use rust_riecoin.Base.Powers.{pow_double}
use rust_riecoin.Pow.U256.{U256, lt, wrapping_sub, wrapping_shr}
use rust_riecoin.Pow.U256.Laws.{value, IsU256, lt-value, value-lt, overflowing_sub-value}
use rust_riecoin.Pow.U256.Shift.{shift-value, wrapping_shr-IsU256}
use rust_riecoin.Pow.Division.{set_quotient_bit, divide_bit, long_division}
use rust_riecoin.Pow.Division.Bits.{IsClear, IsClear-next, set_quotient_bit-value}

-- Quotient and rest after the bits down to `s` were divided.
pub record Divided (d total s : ℕ) (ret sub : U256) : Type 0 where
  pub fits : IsU256 ret
  pub sub_fits : IsU256 sub
  pub clear : IsClear s ret
  pub sum : value ret * d + value sub ≡ total
  pub below : value sub < d * 2 ^ s

module _ (d total : ℕ) where
  divide_bit-Divided :
      (s : ℕ) (ret sub shifted : U256)
      → s < 256
      → IsU256 shifted
      → value shifted ≡ d * 2 ^ s
      → Divided d total (suc s) ret sub
      → Divided d total s (divide_bit s sub shifted ret).0 (divide_bit s sub shifted ret).1
  unfolding divide_bit wrapping_sub
  divide_bit-Divided s ret sub shifted b v e h =
      let order = lt-value sub shifted h.sub_fits v in
      let double : d * 2 ^ suc s ≡ d * (2 * 2 ^ s) = ap (λ t. d * t) (pow_double s) in
      let less = h.below in
      elim (Bool-cases (lt sub shifted)) [
        | inl smaller ↦ rw smaller (record {
          fits = h.fits;
          sub_fits = h.sub_fits;
          clear = IsClear-next s ret h.clear;
          sum = h.sum;
          below = ground (arith, order, smaller, e);
        })
        | inr larger ↦
            let set = set_quotient_bit-value ret s h.fits b h.clear in
            let difference = overflowing_sub-value sub shifted h.sub_fits v in
            let enough : value shifted ≤ value sub = ground (arith, order, larger) in
            let bound = value-lt sub h.sub_fits in
            let rest : value (wrapping_sub sub shifted) ≡ value sub - value shifted =
              omega (arith, difference.0) in
            let product : value (set_quotient_bit ret s) * d ≡ (value ret + 2 ^ s) * d =
              ap (λ t. t * d) set.0 in
            let sum = h.sum in
            rw larger (record {
              fits = set.1;
              sub_fits = difference.2;
              clear = set.2;
              sum = omega (arith, rest, product);
              below = omega (arith, rest);
            })
      ]

  pub long_division-Divided :
      (s : ℕ) (sub shifted ret : U256)
      → s < 256
      → IsU256 shifted
      → value shifted ≡ d * 2 ^ s
      → Divided d total (suc s) ret sub
      → Divided d total 0 (long_division s sub shifted ret).0 (long_division s sub shifted ret).1
  unfolding long_division
  long_division-Divided zero sub shifted ret b v e h =
      divide_bit-Divided zero ret sub shifted b v e h
  long_division-Divided (suc s) sub shifted ret b v e h =
      let half : d * 2 ^ suc s ≡ d * (2 * 2 ^ s) = ap (λ t. d * t) (pow_double s) in
      let shift = (shift-value shifted 1 v).1 in
      long_division-Divided s (divide_bit (suc s) sub shifted ret).1 (wrapping_shr shifted 1)
        (divide_bit (suc s) sub shifted ret).0 (omega arith) (wrapping_shr-IsU256 shifted 1 v)
        (omega (arith, shift, half, e)) (divide_bit-Divided (suc s) ret sub shifted b v e h)
