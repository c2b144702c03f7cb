-- ===== src/InterPodAffinity/Normalizing/Percent.antt =====
-- The share of a hundred that `NormalizeScore` (pkg/interpodaffinity/scoring.go) computes by float64.
use cozystack_scheduler.Prelude.{
  ℕ, ◌*◌, ◌/◌, ◌≤◌, ◌<◌, ◌≡◌, refl, ap, ◌∙◌, false, arith, div-le-div,
}
use native.Mathlib.Nat.{mul-le-mul_left, mul-le-mul_right, mul_comm, zero-div}
use cozystack_scheduler.Words.{half_word, abs64}
use cozystack_scheduler.Float64.{unit, of_int64, is_negative, mul, div, to_int64}
use cozystack_scheduler.Float64.Rounding.{round_quotient, round_from}
use cozystack_scheduler.Float64.Rounding.Laws.{round_quotient-scale, round_quotient_mono}

-- A natural number as a float64, in units.
unfoldable pub as_units : ℕ → ℕ
as_units n = round_quotient (n * unit) 1

-- int64(100 * (float64(part) / float64(whole)))
unfoldable pub percent : ℕ → ℕ → ℕ
percent whole part =
    round_quotient (as_units 100 * round_quotient (as_units part * unit) (as_units whole)) unit
    / unit

of_int64-as_units :
    (n : ℕ) → n < half_word → of_int64 n ≡ record { negative = false; magnitude = as_units n }
unfolding of_int64 as_units
of_int64-as_units n h =
    let plus : is_negative n ≡ false = ground arith in
    let same : abs64 n ≡ n = ground arith in rw (of_int64, plus, same, as_units) refl

pub percent_lem :
    (whole part : ℕ)
    → whole < half_word
    → part < half_word
    → to_int64 (mul (of_int64 100) (div (of_int64 part) (of_int64 whole))) ≡ percent whole part
unfolding percent to_int64 mul div
percent_lem whole part h i =
    rw (of_int64-as_units 100 (omega arith), of_int64-as_units part i, of_int64-as_units whole h)
      refl

unit-pos : 0 < unit
unfolding unit
unit-pos = omega arith

as_units-zero : as_units 0 ≡ 0
unfolding as_units round_quotient round_from unit
as_units-zero = refl

as_units-one : as_units 1 ≡ unit
unfolding as_units round_quotient round_from unit
as_units-one = refl

as_units_mono : (a b : ℕ) → a ≤ b → as_units a ≤ as_units b
unfolding as_units
as_units_mono a b h =
    round_quotient_mono (a * unit) (b * unit) 1 (omega arith) (mul-le-mul_right unit h)

as_units-pos : (n : ℕ) → 0 < n → 0 < as_units n
as_units-pos n h = omega (arith, as_units_mono 1 n h, as_units-one, unit-pos)

pub percent_mono : (whole a b : ℕ) → 0 < whole → a ≤ b → percent whole a ≤ percent whole b
unfolding percent
percent_mono whole a b h i =
    let parts = mul-le-mul_right unit (as_units_mono a b i) in
    let shares =
      round_quotient_mono (as_units a * unit) (as_units b * unit) (as_units whole)
        (as_units-pos whole h) parts in
    let hundreds = round_quotient_mono _ _ unit unit-pos (mul-le-mul_left (as_units 100) shares) in
    div-le-div _ _ unit unit-pos hundreds

rounded_zero : round_quotient 0 1 ≡ 0
unfolding round_quotient round_from
rounded_zero = refl

rounded_unit : round_quotient unit 1 ≡ unit
unfolding round_quotient round_from unit
rounded_unit = refl

percent_of_shares : round_quotient (as_units 100) 1 / unit ≡ 100
unfolding as_units round_quotient round_from unit
percent_of_shares = refl

round_quotient-zero : (q : ℕ) → 0 < q → round_quotient 0 q ≡ 0
round_quotient-zero q h =
    ap (λ p. round_quotient p q) (omega arith) ∙ round_quotient-scale 0 q h ∙ rounded_zero

pub percent-none : (whole : ℕ) → 0 < whole → percent whole 0 ≡ 0
unfolding percent
percent-none whole h =
    let share : round_quotient (as_units 0 * unit) (as_units whole) ≡ 0 =
      ap (λ p. round_quotient p (as_units whole)) (rw as_units-zero (omega arith))
      ∙ round_quotient-zero (as_units whole) (as_units-pos whole h) in
    let hundreds : round_quotient
          (as_units 100 * round_quotient (as_units 0 * unit) (as_units whole)) unit
        ≡ 0 =
      ap (λ x. round_quotient (as_units 100 * x) unit) share
      ∙ ap (λ p. round_quotient p unit) (omega arith)
      ∙ round_quotient-zero unit unit-pos in
    ap (λ x. x / unit) hundreds ∙ zero-div unit

pub percent-all : (whole : ℕ) → 0 < whole → percent whole whole ≡ 100
unfolding percent
percent-all whole h =
    let share : round_quotient (as_units whole * unit) (as_units whole) ≡ unit =
      ap (λ p. round_quotient p (as_units whole)) (mul_comm (as_units whole) unit)
      ∙ round_quotient-scale unit (as_units whole) (as_units-pos whole h)
      ∙ rounded_unit in
    ap (λ x. round_quotient (as_units 100 * x) unit / unit) share
    ∙ ap (λ x. x / unit) (round_quotient-scale (as_units 100) unit unit-pos)
    ∙ percent_of_shares
