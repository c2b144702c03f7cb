-- ===== src/InterPodAffinity/Normalizing/Ranks.antt =====
-- `NormalizeScore` (pkg/interpodaffinity/scoring.go): the range of the scores and their order.
use cozystack_scheduler.Prelude.{
  ℕ, ◌+◌, ◌-◌, ◌^◌, ◌≤◌, ◌<◌, ◌≡◌, refl, sym, ap, ◌∙◌, inl, inr, true, false, List, [], ◌∷◌, map,
  arith, any, Bool-cases, All, All-map, is_empty,
}
use mathlib.Core.Path.{subst}
use cozystack_scheduler.Words.{half_word, slt, sle, flip_sign, max_int64, min_int64}
use cozystack_scheduler.Framework.{NodeScore, Status, success, holds}
use cozystack_scheduler.Framework.Rescaling.{
  Rescaling, rescalings, rescalings-map, All-rescalings, All-every,
}
use cozystack_scheduler.InterPodAffinity.Scoring.{PreScoreState}
use cozystack_scheduler.InterPodAffinity.Normalizing.{min_count, max_count, normalize_score}
use cozystack_scheduler.InterPodAffinity.Normalizing.Levels.{
  level, min_count-least, min_count-greatest, max_count-greatest, max_count-least, normalized,
  normalized-none, normalized-all, normalized_mono, normalized-bound, rescored, IsBetween,
  map-rescale, Fits,
}

any-above :
    (lo x : ℕ) (scores : List NodeScore)
    → All (λ t. flip_sign lo ≤ level t) scores
    → any (λ t. slt t.score x) scores ≡ true
    → flip_sign lo < flip_sign x
any-above lo x [] a h = ground arith
any-above lo x (t ∷ scores) a h = elim (Bool-cases (slt t.score x)) [
  | inl e ↦ ground (arith, a.0)
  | inr e ↦ any-above lo x scores a.1 (ground arith)
]

-- One node's scores against those of all: at most 100, at most what a node gets whose score was not
-- less, 0 if its score was the least, and 100 if it was the greatest and another one less.
abbrev pub Ranks : List NodeScore → List Rescaling → Rescaling → Type 0
Ranks scores all p =
    (p.1.score ≤ 100)
    × (p.1.name ≡ p.0.name)
    × All (λ q. sle p.0.score q.0.score ≡ true → p.1.score ≤ q.1.score) all
    × (All (λ t. sle p.0.score t.score ≡ true) scores → p.1.score ≡ 0)
    × (All (λ t. sle t.score p.0.score ≡ true) scores
        → any (λ t. slt t.score p.0.score) scores ≡ true
        → p.1.score ≡ 100)

module _ (scores : List NodeScore) (f : Fits scores) where
  abbrev least : ℕ
  least = min_count scores max_int64

  abbrev greatest : ℕ
  greatest = max_count scores min_int64

  spread-fits : flip_sign greatest < flip_sign least + half_word
  spread-fits =
      let low =
        min_count-greatest (2 ^ 62) scores max_int64 (omega arith)
          (All-map (λ s b. b.0) scores f) in
      let high =
        max_count-least (half_word + 2 ^ 62 - 1) scores min_int64 (omega arith)
          (All-map (λ s b. omega (arith, b.1)) scores f) in
      omega (arith, low, high)

  scores-IsBetween : All (IsBetween least greatest) scores
  scores-IsBetween =
      both least greatest scores (min_count-least scores max_int64)
        (max_count-greatest scores min_int64)
    where
      both :
          (lo hi : ℕ) (ss : List NodeScore)
          → All (λ s. flip_sign lo ≤ level s) ss
          → All (λ s. level s ≤ flip_sign hi) ss
          → All (IsBetween lo hi) ss
      both lo hi [] a b = tt
      both lo hi (s ∷ ss) a b = ((a.0, b.0), both lo hi ss a.1 b.1)

  abbrev final : NodeScore → NodeScore
  final = rescored least greatest

  least_lem :
      (s : NodeScore)
      → IsBetween least greatest s
      → All (λ t. sle s.score t.score ≡ true) scores
      → (final s).score ≡ 0
  least_lem s b a =
      let low =
        min_count-greatest (level s) scores max_int64 (omega arith)
          (All-map (λ t h. ground arith) scores a) in
      ap (normalized (flip_sign greatest - flip_sign least)) (omega (arith, low))
      ∙ normalized-none _

  greatest_lem :
      (s : NodeScore)
      → IsBetween least greatest s
      → All (λ t. sle t.score s.score ≡ true) scores
      → any (λ t. slt t.score s.score) scores ≡ true
      → (final s).score ≡ 100
  greatest_lem s b a h =
      let high =
        max_count-least (level s) scores min_int64 (omega arith)
          (All-map (λ t h. ground arith) scores a) in
      let above = any-above least s.score scores (min_count-least scores max_int64) h in
      let whole = flip_sign greatest - flip_sign least in
      ap (normalized whole) (omega (arith, high, b.1))
      ∙ normalized-all whole (omega (arith, above, b.1))

  final-Ranks :
      (s : NodeScore)
      → IsBetween least greatest s
      → Ranks scores (map (λ t. (t, final t)) scores) (s, final s)
  final-Ranks s b =
      let whole = flip_sign greatest - flip_sign least in
      (
        normalized-bound whole (level s - flip_sign least) (omega (arith, b.0, b.1)),
        refl,
        All-rescalings (λ q. sle s.score q.0.score ≡ true → (final s).score ≤ q.1.score) final
            scores
            (All-every
              (λ t h.
                normalized_mono whole (level s - flip_sign least) (level t - flip_sign least)
                  (ground arith))
              scores),
        least_lem s b,
        greatest_lem s b,
      )

module _ {S : Type 0} (state : PreScoreState S) (scores : List NodeScore) where
  abbrev pub out : Status × List NodeScore
  out = normalize_score (holds state) scores

  -- Where the state has a score for some topology, and the scores are at least -2 ^ 62 and less
  -- than 2 ^ 62, NormalizeScore succeeds, and its scores lie from 0 to 100 in the order of the
  -- scores before, the least one at 0 and the greatest one, if it is not the least, at 100.
  pub normalize_score-Ranks :
      is_empty state.topology_score ≡ false
      → Fits scores
      → (out.0 ≡ success) × All (Ranks scores (rescalings scores out.1)) (rescalings scores out.1)
  unfolding normalize_score
  normalize_score-Ranks e f =
      let g = final scores f in
      let run : out.1 ≡ map g scores =
        rw (normalize_score, e)
          (map-rescale (least scores f) (greatest scores f) scores (scores-IsBetween scores f)
            (spread-fits scores f)) in
      let pairs : rescalings scores out.1 ≡ map (λ s. (s, g s)) scores =
        ap (rescalings scores) run ∙ rescalings-map g scores in
      let P = Ranks scores (map (λ s. (s, g s)) scores) in
      let ranks : All P (map (λ s. (s, g s)) scores) =
        All-rescalings P g scores
          (All-map (λ s b. final-Ranks scores f s b) scores (scores-IsBetween scores f)) in
      (refl, subst (λ ps. All (Ranks scores ps) ps) (sym pairs) ranks)
