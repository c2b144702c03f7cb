-- ===== src/InterPodAffinity/Normalizing.antt =====
-- pkg/interpodaffinity/scoring.go: `NormalizeScore`.
pub mod Percent
pub mod Levels
pub mod Ranks
use cozystack_scheduler.Prelude.{ℕ, true, false, List, [], ◌∷◌, map, if◌then◌else◌, is_empty}
use cozystack_scheduler.Result.{ok, err}
use cozystack_scheduler.Words.{sub64, slt, max_int64, min_int64}
use cozystack_scheduler.Float64.{of_int64, mul, div, to_int64}
use cozystack_scheduler.Framework.{NodeScore, max_node_score, Status, success, error_status, Slot}
use cozystack_scheduler.InterPodAffinity.Scoring.{PreScoreState, get_pre_score_state}

-- The two results of the first loop.
unfoldable pub min_count : List NodeScore → ℕ → ℕ
min_count [] least = least
min_count (s ∷ scores) least = min_count scores (if slt s.score least then s.score else least)

unfoldable pub max_count : List NodeScore → ℕ → ℕ
max_count [] greatest = greatest
max_count (s ∷ scores) greatest =
    max_count scores (if slt greatest s.score then s.score else greatest)

-- The body of the second loop.
unfoldable pub rescale : ℕ → ℕ → NodeScore → NodeScore
rescale least max_min_diff s = record s {
  score = to_int64 (elim (slt 0 max_min_diff) [
    | true ↦
        mul (of_int64 max_node_score) (div (of_int64 (sub64 s.score least)) (of_int64 max_min_diff))
    | false ↦ record { negative = false; magnitude = 0 }
  ]);
}

-- The status, and the scores after the call.
unfoldable pub normalize_score :
    {S : Type 0} → Slot (PreScoreState S) → List NodeScore → Status × List NodeScore
normalize_score slot scores = elim (get_pre_score_state slot) [
  | err e ↦ (error_status e, scores)
  | ok s ↦
      let least = min_count scores max_int64 in
      let max_min_diff = sub64 (max_count scores min_int64) least in
      (
        success,
        if is_empty s.topology_score then scores else map (rescale least max_min_diff) scores,
      )
]
