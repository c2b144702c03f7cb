-- ===== src/PodTopologySpread/Normalizing/Natural.antt =====
-- `NormalizeScore` (pkg/podtopologyspread/scoring.go) on one score, in the natural numbers.
use cozystack_scheduler.Prelude.{
  ℕ, ◌+◌, ◌-◌, ◌*◌, ◌/◌, ◌≤◌, ◌<◌, ◌≡◌, refl, inl, inr, String, false, List, [], ◌∷◌, map, eqb, ltb,
  string_eq, if◌then◌else◌, arith, Bool-cases, div-le-div, All, All-map,
}
use native.Mathlib.Nat.{div-le_of_le-mul}
use cozystack_scheduler.GoSet.{has}
use cozystack_scheduler.Words.{half_word, add64, sub64, mul64, quot64, slt, max_int64, quot64-small}
use cozystack_scheduler.Framework.{NodeScore}
use cozystack_scheduler.PodTopologySpread.Normalizing.{
  mark_ignored, min_score, max_score, rescale, invalid_score,
}

abbrev pub nmin : ℕ → ℕ → ℕ
nmin a b = if ltb b a then b else a

abbrev pub nmax : ℕ → ℕ → ℕ
nmax a b = if ltb a b then b else a

-- The least and the greatest score of the nodes that are not ignored.
unfoldable pub least : List String → List NodeScore → ℕ
least ignored [] = max_int64
least ignored (s ∷ scores) =
    let rest = least ignored scores in if has ignored s.name then rest else nmin s.score rest

unfoldable pub greatest : List String → List NodeScore → ℕ
greatest ignored [] = 0
greatest ignored (s ∷ scores) =
    let rest = greatest ignored scores in if has ignored s.name then rest else nmax s.score rest

-- A hundred times the score fits an int64.
abbrev pub Fits : List NodeScore → Type 0
Fits = All (λ s. 100 * s.score < half_word)

nmin_lem :
    (a b c : ℕ)
    → a < half_word
    → b < half_word
    → nmin (if slt a b then a else b) c ≡ nmin b (nmin a c)
nmin_lem a b c h k = ground arith

nmax_lem :
    (a b c : ℕ)
    → a < half_word
    → b < half_word
    → nmax (if slt b a then a else b) c ≡ nmax b (nmax a c)
nmax_lem a b c h k = ground arith

pub min_score-least :
    (ignored : List String) (scores : List NodeScore) (bound : ℕ)
    → bound < half_word
    → Fits scores
    → min_score ignored scores bound ≡ nmin bound (least ignored scores)
unfolding min_score least
min_score-least ignored [] bound h f = ground arith
min_score-least ignored (s ∷ scores) bound h f = elim (Bool-cases (has ignored s.name)) [
  | inl e ↦ rw (e) (min_score-least ignored scores bound h f.1)
  | inr e ↦
      rw
        (
          e,
          min_score-least ignored scores (if slt s.score bound then s.score else bound)
              (ground (arith, f.0)) f.1,
        )
        (nmin_lem s.score bound (least ignored scores) (omega (arith, f.0)) h)
]

pub max_score-greatest :
    (ignored : List String) (scores : List NodeScore) (bound : ℕ)
    → bound < half_word
    → Fits scores
    → max_score ignored scores bound ≡ nmax bound (greatest ignored scores)
unfolding max_score greatest
max_score-greatest ignored [] bound h f = ground arith
max_score-greatest ignored (s ∷ scores) bound h f = elim (Bool-cases (has ignored s.name)) [
  | inl e ↦ rw (e) (max_score-greatest ignored scores bound h f.1)
  | inr e ↦
      rw
        (
          e,
          max_score-greatest ignored scores (if slt bound s.score then s.score else bound)
              (ground (arith, f.0)) f.1,
        )
        (nmax_lem s.score bound (greatest ignored scores) (omega (arith, f.0)) h)
]

quotient_lem :
    (least greatest n : ℕ)
    → least ≤ n
    → n ≤ greatest
    → 0 < greatest
    → 100 * greatest < half_word
    → quot64 (mul64 100 (sub64 (add64 greatest least) n)) greatest
      ≡ 100 * (greatest + least - n) / greatest
quotient_lem least greatest n h i j k =
    let p : mul64 100 (sub64 (add64 greatest least) n) ≡ 100 * (greatest + least - n) =
      omega arith in
    rw p (quot64-small (100 * (greatest + least - n)) greatest (omega arith) (omega arith))

module _ (ignored : List String) where
  pub greatest-fits :
      (scores : List NodeScore) → Fits scores → 100 * greatest ignored scores < half_word
  unfolding greatest
  greatest-fits [] f = omega arith
  greatest-fits (s ∷ scores) f = ground (arith, greatest-fits scores f.1, f.0)

  pub least-small : (scores : List NodeScore) → Fits scores → least ignored scores < half_word
  unfolding least
  least-small [] f = omega arith
  least-small (s ∷ scores) f = ground (arith, least-small scores f.1, f.0)

  -- The score of a kept node lies between two numbers.
  abbrev pub IsBetween : ℕ → ℕ → NodeScore → Type 0
  IsBetween lo hi s = has ignored s.name ≡ false → (lo ≤ s.score) × (s.score ≤ hi)

  pub kept-IsBetween :
      (scores : List NodeScore)
      → All (IsBetween (least ignored scores) (greatest ignored scores)) scores
  unfolding least greatest
  kept-IsBetween [] = tt
  kept-IsBetween (s ∷ scores) = (
    (λ h. ground arith),
    All-map (λ e b h. let (p, q) = b h in (ground arith, ground arith)) scores
        (kept-IsBetween scores),
  )

  -- The normalized score of a node, with subtraction and division of natural numbers.
  unfoldable pub normalized : ℕ → ℕ → NodeScore → ℕ
  normalized lo hi s =
      if has ignored s.name then 0 else if eqb hi 0 then 100 else 100 * (hi + lo - s.score) / hi

  abbrev pub rescored : ℕ → ℕ → NodeScore → NodeScore
  rescored lo hi s = record s { score = normalized lo hi s }

  rescale-normalized :
      (lo hi : ℕ) (s : NodeScore)
      → 100 * hi < half_word
      → 100 * s.score < half_word
      → IsBetween lo hi s
      → rescale lo hi (mark_ignored ignored s) ≡ rescored lo hi s
  unfolding normalized
  rescale-normalized lo hi s h f b = elim (Bool-cases (has ignored s.name)) [
    | inl e ↦ rw (mark_ignored, e) refl
    | inr e ↦
        let valid : eqb s.score invalid_score ≡ false = ground arith in
        elim (Bool-cases (eqb hi 0)) [
          | inl z ↦ rw (mark_ignored, e, rescale, valid, z) refl
          | inr z ↦
              let q = quotient_lem lo hi s.score (b e).0 (b e).1 (ground arith) h in
              rw (mark_ignored, e, rescale, valid, z, q) refl
        ]
  ]

  pub map-rescale :
      (lo hi : ℕ) (scores : List NodeScore)
      → 100 * hi < half_word
      → Fits scores
      → All (IsBetween lo hi) scores
      → map (rescale lo hi) (map (mark_ignored ignored) scores) ≡ map (rescored lo hi) scores
  map-rescale lo hi [] h f b = refl
  map-rescale lo hi (s ∷ scores) h f b =
      rw (rescale-normalized lo hi s h f.0 b.0, map-rescale lo hi scores h f.1 b.1) refl

  pub normalized-bound : (lo hi : ℕ) (s : NodeScore) → IsBetween lo hi s → normalized lo hi s ≤ 100
  unfolding normalized
  normalized-bound lo hi s b = elim (Bool-cases (has ignored s.name)) [
    | inl e ↦ rw e (omega arith)
    | inr e ↦ elim (Bool-cases (eqb hi 0)) [
      | inl z ↦ rw (e, z) (omega arith)
      | inr z ↦ rw (e, z) (div-le_of_le-mul hi (omega (arith, (b e).0, (b e).1)))
    ]
  ]

  -- A lesser score is normalized to one that is at least as great.
  pub normalized-antitone :
      (lo hi : ℕ) (s t : NodeScore)
      → s.score ≤ t.score
      → has ignored s.name ≡ false
      → normalized lo hi t ≤ normalized lo hi s
  unfolding normalized
  normalized-antitone lo hi s t h e = elim (Bool-cases (eqb hi 0)) [
    | inl z ↦ ground arith
    | inr z ↦
        let q =
          div-le-div (100 * (hi + lo - t.score)) (100 * (hi + lo - s.score)) hi (ground arith)
            (omega (arith, h)) in
        ground arith
  ]
