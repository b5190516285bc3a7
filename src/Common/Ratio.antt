-- ===== src/Common/Ratio.antt =====
-- Decimals and floats that are never negative, as exact fractions. The program's own rounding of
-- intermediate results (binary floats, 28 digits) is not modelled.
use Prim.Native.Nat.{ℕ, ◌+◌, ◌*◌, ◌≤◌}
use mathlib.Core.Bool.{Bool}
use gpu_relay.Common.Tests.{leb}

-- `den` is positive in every value that the program builds.
pub record ℚ : Type 0 where
  pub num : ℕ
  pub den : ℕ

infixl 70 ◌/ℚ◌
abbrev pub ◌/ℚ◌ : ℕ → ℕ → ℚ
n /ℚ d = record { num = n; den = d }

abbrev pub of_ℕ : ℕ → ℚ
of_ℕ n = record { num = n; den = 1 }

infixl 65 ◌+ℚ◌
infixl 70 ◌*ℚ◌
infix 50 ◌≤ℚ◌
abbrev pub ◌+ℚ◌ : ℚ → ℚ → ℚ
a +ℚ b = record { num = a.num * b.den + b.num * a.den; den = a.den * b.den }

abbrev pub ◌*ℚ◌ : ℚ → ℚ → ℚ
a *ℚ b = record { num = a.num * b.num; den = a.den * b.den }

abbrev pub ◌≤ℚ◌ : ℚ → ℚ → Type 0
a ≤ℚ b = a.num * b.den ≤ b.num * a.den

abbrev pub leb_ℚ : ℚ → ℚ → Bool
leb_ℚ a b = leb (a.num * b.den) (b.num * a.den)
