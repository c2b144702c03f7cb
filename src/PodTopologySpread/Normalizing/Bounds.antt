-- ===== src/PodTopologySpread/Normalizing/Bounds.antt =====
-- `NormalizeScore` (pkg/podtopologyspread/scoring.go) in the natural numbers: its bounds and its order.
use cozystack_scheduler.Prelude.{
  ℕ, ◌≤◌, ◌<◌, ◌≡◌, refl, ◌∙◌, true, false, List, map, string_eq, arith, All, All-map,
}
use cozystack_scheduler.GoSet.{has}
use cozystack_scheduler.Words.{half_word, max_int64}
use cozystack_scheduler.Framework.{NodeScore, Status, success, holds}
use cozystack_scheduler.Framework.Rescaling.{
  Rescaling, rescalings, rescalings-map, All-rescalings, All-every,
}
use cozystack_scheduler.PodTopologySpread.Scoring.{PreScoreState}
use cozystack_scheduler.PodTopologySpread.Normalizing.{normalize_score}
use cozystack_scheduler.PodTopologySpread.Normalizing.Natural.{
  nmin, nmax, least, greatest, Fits, min_score-least, max_score-greatest, greatest-fits,
  least-small, IsBetween, kept-IsBetween, normalized, rescored, map-rescale, normalized-bound,
  normalized-antitone,
}

nmin_cap : (a : ℕ) → a < half_word → nmin max_int64 a ≡ a
nmin_cap a h = ground arith

nmax_zero : (a : ℕ) → nmax 0 a ≡ a
nmax_zero a = ground arith

module _ {S : Type 0} (state : PreScoreState S) (scores : List NodeScore) where
  abbrev pub out : Status × List NodeScore
  out = normalize_score (holds state) scores

  -- Where a hundred times each score fits an int64, NormalizeScore succeeds, keeps the names, and
  -- gives an ignored node 0, and any other node 100 where the greatest score of these nodes is 0, and
  -- else a hundred times the sum of the greatest and the least score less its own, divided by the
  -- greatest.
  pub normalize_score-normalized :
      Fits scores
      → out ≡ (
        success,
        map
            (rescored state.ignored_nodes
              (least state.ignored_nodes scores)
              (greatest state.ignored_nodes scores))
            scores,
      )
  unfolding normalize_score
  normalize_score-normalized f =
      let ignored = state.ignored_nodes in
      let lo =
        min_score-least ignored scores max_int64 (omega arith) f
        ∙ nmin_cap (least ignored scores) (least-small ignored scores f) in
      let hi =
        max_score-greatest ignored scores 0 (omega arith) f ∙ nmax_zero (greatest ignored scores) in
      rw
        (
          lo,
          hi,
          map-rescale ignored _ _ scores (greatest-fits ignored scores f) f
              (kept-IsBetween ignored scores),
        )
        refl

  -- One node's scores against those of all: at most 100, 0 if it is ignored, and, if it is not, at
  -- least what a node gets whose score was not less.
  abbrev pub Reverses : List Rescaling → Rescaling → Type 0
  Reverses all p =
      (p.1.score ≤ 100)
      × (p.1.name ≡ p.0.name)
      × (has state.ignored_nodes p.0.name ≡ true → p.1.score ≡ 0)
      × All
          (λ q.
            has state.ignored_nodes p.0.name ≡ false
            → p.0.score ≤ q.0.score
            → q.1.score ≤ p.1.score)
          all

  -- Where a hundred times each score fits an int64, the normalized scores are at most 100, those of
  -- the ignored nodes 0, and of two nodes the one whose score was not less gets no more than the
  -- other, if the other is not ignored.
  pub normalize_score-Reverses :
      Fits scores → All (Reverses (rescalings scores out.1)) (rescalings scores out.1)
  unfolding normalized
  normalize_score-Reverses f =
      let ignored = state.ignored_nodes in
      let lo = least ignored scores in
      let hi = greatest ignored scores in
      let g = rescored ignored lo hi in
      let P = Reverses (map (λ s. (s, g s)) scores) in
      rw (normalize_score-normalized f, rescalings-map g scores)
        (All-rescalings P g scores (
          All-map {P = IsBetween ignored lo hi}
            (λ s b. (
              normalized-bound ignored lo hi s b,
              refl,
              (λ e. rw (normalized, e) refl),
              All-rescalings
                  (λ q.
                    has ignored s.name ≡ false
                    → s.score ≤ q.0.score
                    → q.1.score ≤ normalized ignored lo hi s)
                  g scores (All-every (λ t e h. normalized-antitone ignored lo hi s t h e) scores),
            ))
            scores (kept-IsBetween ignored scores)))
