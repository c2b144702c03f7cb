-- ===== src/Prelude/Division.antt =====
-- Division of natural numbers, beyond what `omega` knows of a divisor that is a numeral.
use Prim.Native.Nat.{ℕ, ◌/◌, ◌≤◌, ◌<◌}
use native.Mathlib.Nat.{div-mul-le_self, le-div_iff_mul-le}
use native.Mathlib.Omega.{arith}

pub div-le-div : (a b k : ℕ) → 0 < k → a ≤ b → a / k ≤ b / k
div-le-div a b k h i =
    (le-div_iff_mul-le {x = a / k} {y = b} h).1 (omega (arith, div-mul-le_self a k))
