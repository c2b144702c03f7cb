-- ===== src/Float64/Rounding.antt =====
-- Rounding of a quotient to 53 significant bits, ties to even.
pub mod Laws
use cozystack_scheduler.Prelude.{
  ℕ, zero, suc, ◌+◌, ◌*◌, ◌/◌, ◌%◌, ◌^◌, Bool, true, false, if◌then◌else◌, ltb,
}

-- 2 ^ 1074 units are 1, and the greatest float64 is below 2 ^ 1024.
abbrev pub exponents : ℕ
exponents = 2045

-- n + r / d, rounded to the nearest number, and to the even one of two.
abbrev pub round_half_even : ℕ → ℕ → ℕ → ℕ
round_half_even n r d = if ltb (2 * r) d then n else if ltb d (2 * r) then n + 1 else n + n % 2

abbrev pub nearest : ℕ → ℕ → ℕ
nearest p d = round_half_even (p / d) (p % d) d

-- p / (d / ulp) as a multiple of the first of ulp, 2 * ulp, ... of which it is less than 2 ^ 53.
unfoldable pub round_from : ℕ → ℕ → ℕ → ℕ → ℕ
round_from zero p d ulp = ulp * nearest p d
round_from (suc fuel) p d ulp = elim (ltb p (2 ^ 53 * d)) [
  | true ↦ ulp * nearest p d
  | false ↦ round_from fuel p (2 * d) (2 * ulp)
]

-- p / q as a number of units with at most 53 significant bits.
unfoldable pub round_quotient : ℕ → ℕ → ℕ
round_quotient p q = round_from exponents p q 1
