-- ===== src/Examples/SpreadScores.antt =====
-- Scoring two zones for a pod that would rather spread over them.
use cozystack_scheduler.Prelude.{ℕ, ◌≡◌, refl, arith, none, some, List, [], ◌∷◌, All, map}
use mathlib.Core.List.{Perm}
use mathlib.Core.List.Perm
use cozystack_scheduler.GoMap.{lookup, insert}
use cozystack_scheduler.Result.{ok}
use cozystack_scheduler.Float64.{Float64}
use cozystack_scheduler.Api.{Labels, schedule_anyway, Pod}
use cozystack_scheduler.Merge.Types.{SchedulingClass}
use cozystack_scheduler.Merge.{
  merge_topology_spread_constraints, topology_spread_terms, with_class, get_scheduling_class,
  decode_class,
}
use cozystack_scheduler.Framework.{NodeInfo, NodeScore, Slot, absent, holds, success}
use cozystack_scheduler.Framework.Rescaling.{rescalings}
use cozystack_scheduler.PodTopologySpread.{PodTopologySpread}
use cozystack_scheduler.PodTopologySpread.State.{TopologyCount}
use cozystack_scheduler.PodTopologySpread.Scoring.{
  PreScoreState, pre_score, run_score, init_pre_score_state, seeded_state,
}
use cozystack_scheduler.PodTopologySpread.Scoring.Order.{pre_score-order}
use cozystack_scheduler.PodTopologySpread.Scoring.Safety.{run_score-pre_score}
use cozystack_scheduler.PodTopologySpread.Normalizing.{normalize_score, min_score, max_score}
use cozystack_scheduler.PodTopologySpread.Normalizing.Natural.{least, greatest, rescored}
use cozystack_scheduler.PodTopologySpread.Normalizing.Bounds.{
  normalize_score-normalized, Reverses, normalize_score-Reverses,
}
use cozystack_scheduler.Examples.{plain_spec, web}
use cozystack_scheduler.Examples.Spreading.{plugin, full_east, empty_west}

abbrev spread : Pod
spread = record web {
  annotations = [];
  spec = record plain_spec {
    topology_spread_constraints =
        record {
          max_skew = 1;
          topology_key = "zone";
          when_unsatisfiable = schedule_anyway;
          label_selector =
              some (record { match_labels = ("app", "web") ∷ []; match_expressions = [] });
          min_domains = none;
          node_affinity_policy = none;
          node_taints_policy = none;
          match_label_keys = [];
        }
        ∷ [];
  };
}

abbrev both : List (NodeInfo Labels)
both = full_east ∷ empty_west ∷ []

abbrev scoring : PodTopologySpread Labels Labels SchedulingClass SchedulingClass
scoring = record plugin { list = ok both }

-- Any function stands for the logarithm here.
abbrev log : Float64 → Float64
log x = x

abbrev swapped : List TopologyCount → List TopologyCount
swapped (s ∷ t ∷ ts) = t ∷ s ∷ ts
swapped ts = ts

swapped-Perm : (ts : List TopologyCount) → Perm (swapped ts) ts
swapped-Perm [] = Perm.refl []
swapped-Perm (t ∷ []) = Perm.refl (t ∷ [])
swapped-Perm (s ∷ t ∷ ts) = Perm.swap _ _ _

pre_score-order_example :
    pre_score scoring log swapped absent spread both
    ≡ pre_score scoring log (λ ts. ts) absent spread both
pre_score-order_example = pre_score-order scoring log swapped absent spread both swapped-Perm

abbrev written : Slot (PreScoreState Labels)
written = (pre_score scoring log swapped absent spread both).0

spread_succeeds : pre_score scoring log swapped absent spread both ≡ (written, success)
unfolding pre_score init_pre_score_state seeded_state lookup insert
    merge_topology_spread_constraints topology_spread_terms with_class get_scheduling_class
    decode_class
spread_succeeds = refl

run_score-pre_score_example :
    All (λ n. (k : ℕ) × (run_score scoring written spread n ≡ some (ok k))) both
run_score-pre_score_example =
    run_score-pre_score scoring spread log swapped absent written both spread_succeeds

abbrev zones : PreScoreState Labels
zones = record {
  constraints = [];
  ignored_nodes = "edge-1" ∷ [];
  topology_value_to_pod_counts = [];
  topology_normalizing_weight = [];
}

abbrev raw : List NodeScore
raw =
    record { name = "east-1"; score = 30 }
    ∷ record { name = "edge-1"; score = 0 }
    ∷ record { name = "west-1"; score = 10 }
    ∷ []

normalize_score-normalized_example :
    normalize_score (holds zones) raw ≡ (success, map (rescored ("edge-1" ∷ []) 10 30) raw)
unfolding least greatest
normalize_score-normalized_example =
    normalize_score-normalized zones raw (omega arith, (omega arith, (omega arith, tt)))

normalize_score-Reverses_example :
    All
      (Reverses zones raw (rescalings raw (normalize_score (holds zones) raw).1))
      (rescalings raw (normalize_score (holds zones) raw).1)
normalize_score-Reverses_example =
    normalize_score-Reverses zones raw (omega arith, (omega arith, (omega arith, tt)))

-- The least loaded zone gets the full score.
raw_test :
    (normalize_score (holds zones) raw).1
    ≡ record { name = "east-1"; score = 33 }
      ∷ record { name = "edge-1"; score = 0 }
      ∷ record { name = "west-1"; score = 100 }
      ∷ []
unfolding normalize_score min_score max_score
raw_test = refl
