-- ===== src/Words.antt =====
-- Go's int64 and int as bit patterns below 2 ^ 64, with wrap-around: -1 is 2 ^ 64 - 1.
use native.Mathlib.Nat.{div-le_self}
use cozystack_scheduler.Prelude.{
  true, ℕ, ◌+◌, ◌-◌, ◌*◌, ◌/◌, ◌%◌, ◌^◌, ◌<◌, ◌≡◌, Bool, arith, ltb, leb, eqb, if◌then◌else◌,
}

abbrev pub word : ℕ
word = 2 ^ 64

abbrev pub half_word : ℕ
half_word = 2 ^ 63

-- a + b
abbrev pub add64 : ℕ → ℕ → ℕ
add64 a b = (a + b) % word

-- a - b
abbrev pub sub64 : ℕ → ℕ → ℕ
sub64 a b = (a + (word - b % word)) % word

abbrev pub minus_one : ℕ
minus_one = word - 1

-- The order of the signed values is that of the patterns with the sign bit flipped.
abbrev pub flip_sign : ℕ → ℕ
flip_sign a = (a + half_word) % word

-- a < b
abbrev pub slt : ℕ → ℕ → Bool
slt a b = ltb (flip_sign a) (flip_sign b)

-- a <= b
abbrev pub sle : ℕ → ℕ → Bool
sle a b = leb (flip_sign a) (flip_sign b)

-- int64(x) of an int32 pattern
abbrev pub extend32 : ℕ → ℕ
extend32 a = if ltb a (2 ^ 31) then a else a + (word - 2 ^ 32)

-- a * b of int32 patterns
abbrev pub mul32 : ℕ → ℕ → ℕ
mul32 a b = (a * b) % 2 ^ 32

abbrev pub minus_one32 : ℕ
minus_one32 = 2 ^ 32 - 1

pub add64_assoc : (a b c : ℕ) → add64 (add64 a b) c ≡ add64 a (add64 b c)
add64_assoc a b c = omega arith

pub add64_mod : (a b : ℕ) → add64 (a % word) b ≡ (a + b) % word
add64_mod a b = omega arith

-- Taking k away after adding it k times, one at a time or together.
pub add64-cancel : (a k : ℕ) → a < word → add64 (add64 a k) (k * minus_one) ≡ a
add64-cancel a k h = omega arith

-- A signed value below 2 ^ 63 is positive exactly if it is not zero.
pub slt-zero : (a : ℕ) → a < half_word → slt 0 a ≡ ltb 0 a
slt-zero a h = ground arith

-- a * b
abbrev pub mul64 : ℕ → ℕ → ℕ
mul64 a b = (a * b) % word

-- The magnitude of a signed value.
abbrev pub abs64 : ℕ → ℕ
abs64 a = if ltb a half_word then a else word - a

abbrev pub neg64 : ℕ → ℕ
neg64 a = (word - a) % word

-- a / b, rounded towards zero, for b other than zero.
abbrev pub quot64 : ℕ → ℕ → ℕ
quot64 a b =
    let q = abs64 a / abs64 b in if eqb (a / half_word) (b / half_word) then q % word else neg64 q

abbrev pub max_int64 : ℕ
max_int64 = half_word - 1

abbrev pub min_int64 : ℕ
min_int64 = half_word

pub quot64-small : (a b : ℕ) → a < half_word → b < half_word → quot64 a b ≡ a / b
quot64-small a b h k =
    let s : abs64 a ≡ a = ground arith in
    let t : abs64 b ≡ b = ground arith in
    let u : eqb (a / half_word) (b / half_word) ≡ true = ground arith in
    rw (quot64, u, s, t) (omega (arith, div-le_self a b))
