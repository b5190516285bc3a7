-- ===== src/Pricing/Rounding.antt =====
-- `price.quantize(Decimal("0.0001"), rounding=ROUND_HALF_UP)`, in whole units of the last place.
use native.Mathlib.Nat.{
  le-div_iff_mul-le, le_of_mul-le-mul_right, mul-le-mul_right, mul-le-mul_left, div-mul-le_self,
}
use gpu_relay.Common.{ℕ, ◌+◌, ◌*◌, ◌/◌, ◌≤◌, ◌<◌, ℚ, ◌≤ℚ◌, arith}

unfoldable pub half_up : ℕ → ℚ → ℕ
half_up scale a = (2 * (a.num * scale) + a.den) / (2 * a.den)

-- The result is within half a unit of the exact value: 2 * |result * den - num * scale| ≤ den, the
-- lower side being strict for what is rounded up.
pub half_up_bounds :
    (scale : ℕ) (a : ℚ)
    → 0 < a.den
    → (2 * (half_up scale a * a.den) ≤ 2 * (a.num * scale) + a.den)
      × (2 * (a.num * scale) < 2 * (half_up scale a * a.den) + a.den)
unfolding half_up
half_up_bounds scale a h = grind arith

div_mono : (m n d e : ℕ) → 0 < d → 0 < e → m * e ≤ n * d → m / d ≤ n / e
div_mono m n d e hd he h =
    (le-div_iff_mul-le he).1 (
      le_of_mul-le-mul_right {k = d} (omega (arith, h, mul-le-mul_right e (div-mul-le_self m d)))
        hd)

-- Rounding keeps the order of fractions.
pub half_up_mono :
    (scale : ℕ) (a b : ℚ) → 0 < a.den → 0 < b.den → a ≤ℚ b → half_up scale a ≤ half_up scale b
unfolding half_up
half_up_mono scale a b ha hb h =
    div_mono _ _ (2 * a.den) (2 * b.den) (omega arith) (omega arith)
      (omega (arith, mul-le-mul_left (4 * scale) h))
