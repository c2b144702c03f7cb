-- ===== src/Float64/Rounding/Laws.antt =====
-- The rounding of a quotient is monotone, and does not change when both of its numbers are scaled.
use cozystack_scheduler.Prelude.{
  ℕ, zero, suc, ◌+◌, ◌*◌, ◌/◌, ◌%◌, ◌^◌, ◌≤◌, ◌<◌, ◌≡◌, refl, sym, ap, ◌∙◌, inl, inr, true, arith,
  ltb, Bool-cases, div-le-div,
}
use mathlib.Core.Path.{subst}
use native.Mathlib.Nat.{
  mul_assoc, pow-zero, pow-suc, mul-lt-mul_of_pos_right, lt_of_mul-lt-mul_right, div-add-mod,
  mul-le-mul_left, le-div_iff_mul-le, div-lt_iff_lt-mul, mul-div-mul_right,
}
use cozystack_scheduler.Float64.Rounding.{
  exponents, round_half_even, nearest, round_from, round_quotient,
}

half_even_mono : (n r s d : ℕ) → r ≤ s → round_half_even n r d ≤ round_half_even n s d
half_even_mono n r s d h = ground arith

half_even-bounds : (n r d : ℕ) → (n ≤ round_half_even n r d) × (round_half_even n r d ≤ n + 1)
half_even-bounds n r d = (ground arith, ground arith)

nearest_mono : (a b d : ℕ) → 0 < d → a ≤ b → nearest a d ≤ nearest b d
nearest_mono a b d h i =
    let q = div-le-div a b d h i in
    elim (Bool-cases (ltb (a / d) (b / d))) [
      | inl e ↦ omega (
        arith,
        half_even-bounds (a / d) (a % d) d,
        half_even-bounds (b / d) (b % d) d,
        ltb_lem (a / d) (b / d) e,
      )
      | inr e ↦
          let same : a / d ≡ b / d = ground arith in
          let rest : a % d ≤ b % d =
            omega (arith, div-add-mod a d, div-add-mod b d, ap (λ n. d * n) same) in
          subst (λ n. nearest a d ≤ round_half_even n (b % d) d) same
            (half_even_mono (a / d) (a % d) (b % d) d rest)
    ]
  where
    ltb_lem : (x y : ℕ) → ltb x y ≡ true → x < y
    ltb_lem x y e = ground arith

nearest-upper : (a c d : ℕ) → 0 < d → a < c * d → nearest a d ≤ c
nearest-upper a c d h i =
    omega (arith, half_even-bounds (a / d) (a % d) d, (div-lt_iff_lt-mul {x = a} {y = c} h).1 i)

nearest-lower : (a c d : ℕ) → 0 < d → c * d ≤ a → c ≤ nearest a d
nearest-lower a c d h i =
    omega (arith, half_even-bounds (a / d) (a % d) d, (le-div_iff_mul-le {x = c} {y = a} h).1 i)

round_from-lower :
    (fuel p d ulp : ℕ) → 0 < d → 2 ^ 52 * d ≤ p → ulp * 2 ^ 52 ≤ round_from fuel p d ulp
unfolding round_from
round_from-lower zero p d ulp h i = mul-le-mul_left ulp (nearest-lower p (2 ^ 52) d h i)
round_from-lower (suc fuel) p d ulp h i = elim (Bool-cases (ltb p (2 ^ 53 * d))) [
  | inl e ↦ rw (round_from, e) (mul-le-mul_left ulp (nearest-lower p (2 ^ 52) d h i))
  | inr e ↦
      let rest = round_from-lower fuel p (2 * d) (2 * ulp) (omega (arith, h)) (ground arith) in
      rw (round_from, e) (omega (arith, rest))
]

round_from_mono :
    (fuel a b d ulp : ℕ) → 0 < d → a ≤ b → round_from fuel a d ulp ≤ round_from fuel b d ulp
unfolding round_from
round_from_mono zero a b d ulp h i = mul-le-mul_left ulp (nearest_mono a b d h i)
round_from_mono (suc fuel) a b d ulp h i = elim (Bool-cases (ltb b (2 ^ 53 * d))) [
  | inl e ↦
      let f : ltb a (2 ^ 53 * d) ≡ true = ground arith in
      rw (round_from, e, f) (mul-le-mul_left ulp (nearest_mono a b d h i))
  | inr e ↦ elim (Bool-cases (ltb a (2 ^ 53 * d))) [
    | inr f ↦
        rw (round_from, e, f) (round_from_mono fuel a b (2 * d) (2 * ulp) (omega (arith, h)) i)
    | inl f ↦
        let above = round_from-lower fuel b (2 * d) (2 * ulp) (omega (arith, h)) (ground arith) in
        let below = mul-le-mul_left ulp (nearest-upper a (2 ^ 53) d h (ground arith)) in
        rw (round_from, e, f) (omega (arith, above, below))
  ]
]

ltb_scale : (a b q : ℕ) → 0 < q → ltb (a * q) (b * q) ≡ ltb a b
ltb_scale a b q h = elim (Bool-cases (ltb a b)) [
  | inl e ↦
      let less = mul-lt-mul_of_pos_right {m = a} {n = b} {k = q} (ground arith) h in ground arith
  | inr e ↦ elim (Bool-cases (ltb (a * q) (b * q))) [
    | inr f ↦ rw (e) f
    | inl f ↦ let less = lt_of_mul-lt-mul_right q {m = a} {n = b} (ground arith) in ground arith
  ]
]

nearest-scale : (c d q : ℕ) → 0 < q → nearest (c * q) (d * q) ≡ nearest c d
nearest-scale c d q h =
    let quotient = mul-div-mul_right {m = q} c d h in
    let rest : (c * q) % (d * q) ≡ (c % d) * q =
      grind (arith, div-add-mod (c * q) (d * q), quotient, ap (λ x. x * q) (div-add-mod c d)) in
    let less : ltb (2 * ((c % d) * q)) (d * q) ≡ ltb (2 * (c % d)) d =
      ap (λ x. ltb x (d * q)) (sym (mul_assoc 2 (c % d) q)) ∙ ltb_scale (2 * (c % d)) d q h in
    let more : ltb (d * q) (2 * ((c % d) * q)) ≡ ltb d (2 * (c % d)) =
      ap (λ x. ltb (d * q) x) (sym (mul_assoc 2 (c % d) q)) ∙ ltb_scale d (2 * (c % d)) q h in
    rw (quotient, rest, less, more) refl

round_from-scale :
    (fuel c d q ulp : ℕ) → 0 < q → round_from fuel (c * q) (d * q) ulp ≡ round_from fuel c d ulp
unfolding round_from
round_from-scale zero c d q ulp h = ap (λ n. ulp * n) (nearest-scale c d q h)
round_from-scale (suc fuel) c d q ulp h =
    let less : ltb (c * q) (2 ^ 53 * (d * q)) ≡ ltb c (2 ^ 53 * d) =
      ap (λ x. ltb (c * q) x) (sym (mul_assoc (2 ^ 53) d q)) ∙ ltb_scale c (2 ^ 53 * d) q h in
    elim (Bool-cases (ltb c (2 ^ 53 * d))) [
      | inl e ↦ rw (round_from, less, e) (ap (λ n. ulp * n) (nearest-scale c d q h))
      | inr e ↦
          rw (round_from, less, e)
            (ap (λ x. round_from fuel (c * q) x (2 * ulp)) (sym (mul_assoc 2 d q))
              ∙ round_from-scale fuel c (2 * d) q (2 * ulp) h)
    ]

-- A number times q, over q, is rounded as the number is.
pub round_quotient-scale : (c q : ℕ) → 0 < q → round_quotient (c * q) q ≡ round_quotient c 1
unfolding round_quotient
round_quotient-scale c q h =
    ap (λ d. round_from exponents (c * q) d 1) (omega arith) ∙ round_from-scale exponents c 1 q 1 h

pub round_quotient_mono : (a b q : ℕ) → 0 < q → a ≤ b → round_quotient a q ≤ round_quotient b q
unfolding round_quotient
round_quotient_mono a b q h i = round_from_mono exponents a b q 1 h i

round_from-small : (fuel p d ulp : ℕ) → p < 2 ^ 53 * d → round_from fuel p d ulp ≡ ulp * nearest p d
unfolding round_from
round_from-small zero p d ulp h = refl
round_from-small (suc fuel) p d ulp h =
    let e : ltb p (2 ^ 53 * d) ≡ true = ground arith in rw (round_from, e) refl

-- Fuel enough for a quotient below 2 ^ (53 + fuel): more of it changes nothing.
round_from-enough :
    (fuel more p d ulp : ℕ)
    → p < 2 ^ 53 * (2 ^ fuel * d)
    → round_from (fuel + more) p d ulp ≡ round_from fuel p d ulp
unfolding round_from
round_from-enough zero more p d ulp h =
    let small : p < 2 ^ 53 * d = omega (arith, h, ap (λ x. x * d) (pow-zero 2)) in
    round_from-small (0 + more) p d ulp small
round_from-enough (suc fuel) more p d ulp h =
    let next : suc fuel + more ≡ suc (fuel + more) = omega arith in
    let power : 2 ^ suc fuel * d ≡ 2 ^ fuel * (2 * d) =
      ap (λ x. x * d) (pow-suc 2 fuel) ∙ mul_assoc (2 ^ fuel) 2 d in
    ap (λ f. round_from f p d ulp) next ∙ elim (Bool-cases (ltb p (2 ^ 53 * d))) [
      | inl e ↦ rw (round_from, e) refl
      | inr e ↦
          rw (round_from, e)
            (round_from-enough fuel more p (2 * d) (2 * ulp) (omega (arith, h, power)))
    ]

-- Every quotient below 2 ^ 2098 units, so below 2 ^ 1024, is rounded with fuel to spare.
pub round_quotient-enough :
    (more p q : ℕ)
    → p < 2 ^ 53 * (2 ^ exponents * q)
    → round_from (exponents + more) p q 1 ≡ round_quotient p q
unfolding round_quotient
round_quotient-enough more p q h = round_from-enough exponents more p q 1 h
