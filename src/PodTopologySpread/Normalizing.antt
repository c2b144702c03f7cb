-- ===== src/PodTopologySpread/Normalizing.antt =====
-- pkg/podtopologyspread/scoring.go: `NormalizeScore`.
pub mod Natural
pub mod Bounds
use cozystack_scheduler.Prelude.{
  ℕ, ◌+◌, Bool, String, List, [], ◌∷◌, map, eqb, string_eq, if◌then◌else◌,
}
use cozystack_scheduler.GoSet.{has}
use cozystack_scheduler.Result.{ok, err}
use cozystack_scheduler.Words.{add64, sub64, mul64, quot64, slt, minus_one, max_int64}
use cozystack_scheduler.Framework.{NodeScore, max_node_score, Status, success, error_status, Slot}
use cozystack_scheduler.PodTopologySpread.Scoring.{PreScoreState, get_pre_score_state}

abbrev pub invalid_score : ℕ
invalid_score = minus_one

-- The first loop: the marks of the ignored nodes, then the least and the greatest score of the others.
abbrev pub mark_ignored : List String → NodeScore → NodeScore
mark_ignored ignored s = if has ignored s.name then record s { score = invalid_score } else s

unfoldable pub min_score : List String → List NodeScore → ℕ → ℕ
min_score ignored [] least = least
min_score ignored (s ∷ scores) least =
    min_score ignored scores
      (if has ignored s.name then least else if slt s.score least then s.score else least)

unfoldable pub max_score : List String → List NodeScore → ℕ → ℕ
max_score ignored [] greatest = greatest
max_score ignored (s ∷ scores) greatest =
    max_score ignored scores
      (if has ignored s.name then greatest else if slt greatest s.score then s.score else greatest)

-- The body of the second loop.
abbrev pub rescale : ℕ → ℕ → NodeScore → NodeScore
rescale least greatest s =
    if eqb s.score invalid_score
    then record s { score = 0 }
    else if eqb greatest 0
    then record s { score = max_node_score }
    else record s {
      score = quot64 (mul64 max_node_score (sub64 (add64 greatest least) s.score)) greatest;
    }

-- The status, and the scores after the call.
unfoldable pub normalize_score :
    {S : Type 0} → Slot (PreScoreState S) → List NodeScore → Status × List NodeScore
normalize_score slot scores = elim (get_pre_score_state slot) [
  | err e ↦ (error_status e, scores)
  | ok s ↦
      let least = min_score s.ignored_nodes scores max_int64 in
      let greatest = max_score s.ignored_nodes scores 0 in
      (success, map (rescale least greatest) (map (mark_ignored s.ignored_nodes) scores))
]
