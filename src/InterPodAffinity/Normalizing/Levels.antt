-- ===== src/InterPodAffinity/Normalizing/Levels.antt =====
-- The extremes of the scores and one normalized score in `NormalizeScore` (pkg/interpodaffinity/scoring.go).
use cozystack_scheduler.Prelude.{
  ℕ, ◌+◌, ◌-◌, ◌^◌, ◌≤◌, ◌<◌, ◌≡◌, refl, ap, ◌∙◌, inl, inr, true, false, List, [], ◌∷◌, map, arith,
  if◌then◌else◌, eqb, Bool-cases, All,
}
use cozystack_scheduler.Words.{half_word, sub64, slt, flip_sign}
use cozystack_scheduler.Float64.{of_int64, mul, div, to_int64}
use cozystack_scheduler.Framework.{NodeScore, max_node_score}
use cozystack_scheduler.InterPodAffinity.Normalizing.{min_count, max_count, rescale}
use cozystack_scheduler.InterPodAffinity.Normalizing.Percent.{
  percent, percent_lem, percent_mono, percent-none, percent-all,
}

-- A signed value, moved up by 2 ^ 63.
abbrev pub level : NodeScore → ℕ
level s = flip_sign s.score

min_count-below : (scores : List NodeScore) (b : ℕ) → flip_sign (min_count scores b) ≤ flip_sign b
unfolding min_count
min_count-below [] b = omega arith
min_count-below (s ∷ scores) b =
    ground (arith, min_count-below scores (if slt s.score b then s.score else b))

pub min_count-least :
    (scores : List NodeScore) (b : ℕ) → All (λ s. flip_sign (min_count scores b) ≤ level s) scores
unfolding min_count
min_count-least [] b = tt
min_count-least (s ∷ scores) b =
    let c : ℕ = if slt s.score b then s.score else b in
    (ground (arith, min_count-below scores c), min_count-least scores c)

pub min_count-greatest :
    (k : ℕ) (scores : List NodeScore) (b : ℕ)
    → k ≤ flip_sign b
    → All (λ s. k ≤ level s) scores
    → k ≤ flip_sign (min_count scores b)
unfolding min_count
min_count-greatest k [] b h a = h
min_count-greatest k (s ∷ scores) b h a =
    min_count-greatest k scores (if slt s.score b then s.score else b) (ground (arith, a.0)) a.1

max_count-above : (scores : List NodeScore) (b : ℕ) → flip_sign b ≤ flip_sign (max_count scores b)
unfolding max_count
max_count-above [] b = omega arith
max_count-above (s ∷ scores) b =
    ground (arith, max_count-above scores (if slt b s.score then s.score else b))

pub max_count-greatest :
    (scores : List NodeScore) (b : ℕ) → All (λ s. level s ≤ flip_sign (max_count scores b)) scores
unfolding max_count
max_count-greatest [] b = tt
max_count-greatest (s ∷ scores) b =
    let c : ℕ = if slt b s.score then s.score else b in
    (ground (arith, max_count-above scores c), max_count-greatest scores c)

pub max_count-least :
    (k : ℕ) (scores : List NodeScore) (b : ℕ)
    → flip_sign b ≤ k
    → All (λ s. level s ≤ k) scores
    → flip_sign (max_count scores b) ≤ k
unfolding max_count
max_count-least k [] b h a = h
max_count-least k (s ∷ scores) b h a =
    max_count-least k scores (if slt b s.score then s.score else b) (ground (arith, a.0)) a.1

sub64_lem : (a b : ℕ) → flip_sign b ≤ flip_sign a → sub64 a b ≡ flip_sign a - flip_sign b
sub64_lem a b h = omega arith

-- The normalized score, for a difference of `whole` between the greatest and the least one.
unfoldable pub normalized : ℕ → ℕ → ℕ
normalized whole part = if eqb whole 0 then 0 else percent whole part

-- The expression of `NormalizeScore` for a score that lies `part` above the least one.
abbrev scaled : ℕ → ℕ → ℕ
scaled whole part = to_int64 (elim (slt 0 whole) [
  | true ↦ mul (of_int64 max_node_score) (div (of_int64 part) (of_int64 whole))
  | false ↦ record { negative = false; magnitude = 0 }
])

scaled-normalized :
    (whole part : ℕ) → whole < half_word → part ≤ whole → scaled whole part ≡ normalized whole part
unfolding normalized to_int64
scaled-normalized whole part h i = elim (Bool-cases (eqb whole 0)) [
  | inl z ↦
      let none_above : slt 0 whole ≡ false = ground arith in
      rw (scaled, none_above, normalized, z) (omega arith)
  | inr z ↦
      let above : slt 0 whole ≡ true = ground arith in
      rw (scaled, above, normalized, z) (percent_lem whole part h (omega (arith, h, i)))
]

pub normalized-none : (whole : ℕ) → normalized whole 0 ≡ 0
unfolding normalized
normalized-none whole = elim (Bool-cases (eqb whole 0)) [
  | inl z ↦ rw (normalized, z) refl
  | inr z ↦ rw (normalized, z) (percent-none whole (ground arith))
]

pub normalized-all : (whole : ℕ) → 0 < whole → normalized whole whole ≡ 100
unfolding normalized
normalized-all whole h =
    let z : eqb whole 0 ≡ false = ground arith in rw (normalized, z) (percent-all whole h)

pub normalized_mono : (whole a b : ℕ) → a ≤ b → normalized whole a ≤ normalized whole b
unfolding normalized
normalized_mono whole a b h = elim (Bool-cases (eqb whole 0)) [
  | inl z ↦ rw (normalized, z) (omega arith)
  | inr z ↦ rw (normalized, z) (percent_mono whole a b (ground arith) h)
]

pub normalized-bound : (whole part : ℕ) → part ≤ whole → normalized whole part ≤ 100
unfolding normalized
normalized-bound whole part h = elim (Bool-cases (eqb whole 0)) [
  | inl z ↦ rw (normalized, z) (omega arith)
  | inr z ↦
      rw (normalized, z)
        (omega
          (arith, percent_mono whole part whole (ground arith) h, percent-all whole (ground arith)))
]

module _ (lo hi : ℕ) where
  abbrev result : NodeScore → ℕ
  result s = normalized (flip_sign hi - flip_sign lo) (level s - flip_sign lo)

  abbrev pub rescored : NodeScore → NodeScore
  rescored s = record s { score = result s }

  abbrev pub IsBetween : NodeScore → Type 0
  IsBetween s = (flip_sign lo ≤ level s) × (level s ≤ flip_sign hi)

  rescale-rescored :
      (s : NodeScore)
      → IsBetween s
      → flip_sign hi < flip_sign lo + half_word
      → rescale lo (sub64 hi lo) s ≡ rescored s
  unfolding rescale
  rescale-rescored s b j =
      let d = sub64_lem hi lo (omega (arith, b.0, b.1)) in
      let e = sub64_lem s.score lo b.0 in
      let whole = flip_sign hi - flip_sign lo in
      let part = level s - flip_sign lo in
      let scores : scaled (sub64 hi lo) (sub64 s.score lo) ≡ result s =
        ap (λ w. scaled w (sub64 s.score lo)) d
        ∙ ap (scaled whole) e
        ∙ scaled-normalized whole part (omega (arith, j, b.0, b.1)) (omega (arith, b.0, b.1)) in
      ap (λ x. record { name = s.name; score = x }) scores

  pub map-rescale :
      (scores : List NodeScore)
      → All IsBetween scores
      → flip_sign hi < flip_sign lo + half_word
      → map (rescale lo (sub64 hi lo)) scores ≡ map rescored scores
  map-rescale [] b j = refl
  map-rescale (s ∷ scores) b j = rw (rescale-rescored s b.0 j, map-rescale scores b.1 j) refl

-- The scores are at least -2 ^ 62 and less than 2 ^ 62.
abbrev pub Fits : List NodeScore → Type 0
Fits = All (λ s. (2 ^ 62 ≤ flip_sign s.score) × (flip_sign s.score < half_word + 2 ^ 62))
