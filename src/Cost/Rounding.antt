-- ===== src/Cost/Rounding.antt =====
-- `quantize(Decimal("0.000001"))` under the default rounding, ROUND_HALF_EVEN, in whole units of
-- the last place.
use gpu_relay.Common.{ℕ, ◌+◌, ◌*◌, ◌/◌, ◌%◌, ◌≤◌, ◌<◌, ◌≡◌, ℚ, arith, ltb, if◌then◌else◌}

unfoldable pub half_even : ℕ → ℚ → ℕ
half_even scale a =
    let q = a.num * scale / a.den in
    let r = a.num * scale % a.den in
    if ltb (2 * r) a.den then q else if ltb a.den (2 * r) then q + 1 else q + q % 2

-- The result is within half a unit of the exact value, and even at a tie.
pub half_even_bounds :
    (scale : ℕ) (a : ℚ)
    → 0 < a.den
    → (2 * (half_even scale a * a.den) ≤ 2 * (a.num * scale) + a.den)
      × (2 * (a.num * scale) ≤ 2 * (half_even scale a * a.den) + a.den)
      × ((2 * (a.num * scale) ≡ 2 * (half_even scale a * a.den) + a.den)
          → half_even scale a % 2 ≡ 0)
unfolding half_even
half_even_bounds scale a h = grind arith
