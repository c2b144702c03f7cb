-- ===== src/Float64.antt =====
-- Go's float64, as far as pkg/ uses it: finite values, as a sign and a number of units of 2 ^ -1074,
-- of which every finite float64 is a multiple. Each operation is exact and then rounded to 53
-- significant bits, ties to even. Infinities and NaN do not occur: int64 values, their quotients by
-- values that are not zero, and a few products and sums stay far below 2 ^ 1024.
pub mod Rounding
use cozystack_scheduler.Prelude.{
  ℕ, zero, suc, ◌+◌, ◌-◌, ◌*◌, ◌/◌, ◌%◌, ◌^◌, Bool, true, false, if◌then◌else◌, ltb, leb, eqb,
}
use cozystack_scheduler.Words.{word, half_word, abs64, neg64}
use cozystack_scheduler.Float64.Rounding.{round_quotient}

pub record Float64 : Type 0 where
  pub negative : Bool
  pub magnitude : ℕ

-- The units in 1.
unfoldable pub unit : ℕ
unit = 2 ^ 1074

abbrev pub is_negative : ℕ → Bool
is_negative a = leb half_word a

-- float64(a) of an int64 pattern
unfoldable pub of_int64 : ℕ → Float64
unfolding unit
of_int64 a = record { negative = is_negative a; magnitude = round_quotient (abs64 a * unit) 1 }

abbrev pub differs : Bool → Bool → Bool
differs true true = false
differs false false = false
differs a b = true

-- a * b
unfoldable pub mul : Float64 → Float64 → Float64
unfolding unit
mul a b = record {
  negative = differs a.negative b.negative;
  magnitude = round_quotient (a.magnitude * b.magnitude) unit;
}

-- a / b, for b other than zero
unfoldable pub div : Float64 → Float64 → Float64
unfolding unit
div a b = record {
  negative = differs a.negative b.negative;
  magnitude = round_quotient (a.magnitude * unit) b.magnitude;
}

-- a + b
unfoldable pub add : Float64 → Float64 → Float64
add a b =
    if differs a.negative b.negative
    then (if leb b.magnitude a.magnitude
        then record {
          negative = a.negative;
          magnitude = round_quotient (a.magnitude - b.magnitude) 1;
        }
        else record {
          negative = b.negative;
          magnitude = round_quotient (b.magnitude - a.magnitude) 1;
        })
    else record { negative = a.negative; magnitude = round_quotient (a.magnitude + b.magnitude) 1 }

abbrev pub signed : Bool → ℕ → ℕ
signed negative n = if negative then neg64 n else n

-- int64(a), rounded towards zero, for values that fit
unfoldable pub to_int64 : Float64 → ℕ
unfolding unit
to_int64 a = signed a.negative (a.magnitude / unit)

-- int64(math.Round(a)): halves away from zero
unfoldable pub round_to_int64 : Float64 → ℕ
unfolding unit
round_to_int64 a = signed a.negative ((2 * a.magnitude + unit) / (2 * unit))
