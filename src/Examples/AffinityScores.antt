-- ===== src/Examples/AffinityScores.antt =====
-- Scoring two zones for pod `web`, next to a pod that would rather have its kind near.
use cozystack_scheduler.Prelude.{List, All, arith, ◌≡◌, refl, ◌⊎◌, false, [], ◌∷◌}
use cozystack_scheduler.GoMap.{lookup, insert}
use cozystack_scheduler.Result.{ok}
use cozystack_scheduler.Api.{Labels}
use cozystack_scheduler.Merge.Types.{SchedulingClass}
use cozystack_scheduler.Merge.{with_class, get_scheduling_class, decode_class}
use cozystack_scheduler.Merge.InterPod.{merge_inter_pod_affinity, inter_pod_affinity_terms}
use cozystack_scheduler.Framework.Rescaling.{rescalings}
use cozystack_scheduler.InterPodAffinity.Normalizing.{
  normalize_score, min_count, max_count, rescale,
}
use cozystack_scheduler.InterPodAffinity.Normalizing.Ranks.{Ranks, normalize_score-Ranks}
use cozystack_scheduler.Float64.{unit, of_int64, mul, div, to_int64}
use cozystack_scheduler.Float64.Rounding.{round_quotient, round_from}
use cozystack_scheduler.Words.{neg64}
use cozystack_scheduler.Framework.{NodeScore, PodInfo, NodeInfo, absent, holds, success, skip, pass}
use cozystack_scheduler.InterPodAffinity.{InterPodAffinity}
use cozystack_scheduler.InterPodAffinity.Plugin.{get_namespace_labels_snapshot}
use cozystack_scheduler.InterPodAffinity.Scoring.{
  Prepared, PreScoreState, prepare, pre_score, run_score,
}
use cozystack_scheduler.InterPodAffinity.Scoring.Sums.{pairwise_score, run_score-pairwise}
use cozystack_scheduler.Examples.{web}
use cozystack_scheduler.Examples.Affinity.{
  plugin, running, incoming, like_web, full_east, empty_west, reversed, reversed-IsSchedule,
}

abbrev fond : PodInfo Labels
fond = record running {
  preferred_affinity_terms = record { affinity_term = like_web; weight = 7 } ∷ [];
}

abbrev fond_east : NodeInfo Labels
fond_east = record full_east { pods = fond ∷ []; pods_with_affinity = fond ∷ [] }

abbrev scoring : InterPodAffinity Labels SchedulingClass SchedulingClass
scoring = record plugin { have_pods_with_affinity_list = ok (fond_east ∷ empty_west ∷ []) }

abbrev start : Prepared Labels
start = record {
  has_constraints = false;
  all_nodes = fond_east ∷ empty_west ∷ [];
  pod_info = incoming;
  namespace_labels = [];
}

web_prepared : prepare scoring web ≡ pass start
unfolding prepare merge_inter_pod_affinity inter_pod_affinity_terms with_class get_scheduling_class
    decode_class lookup insert get_namespace_labels_snapshot
web_prepared = refl

run_score-pairwise_example :
    ((pre_score scoring reversed absent web ≡ (absent, skip))
      × (pairwise_score scoring web full_east start ≡ 0))
    ⊎ ((s : PreScoreState Labels) × (pre_score scoring reversed absent web ≡ (holds s, success))
        × (run_score (holds s) full_east ≡ ok (pairwise_score scoring web full_east start)))
run_score-pairwise_example =
    run_score-pairwise scoring web full_east reversed absent start reversed-IsSchedule web_prepared

pairwise_test : pairwise_score scoring web full_east start ≡ 7
unfolding lookup
pairwise_test = refl

abbrev scored : PreScoreState Labels
scored = record {
  topology_score = ("zone", ("east", 7) ∷ []) ∷ [];
  pod_info = running;
  namespace_labels = [];
}

-- One node is worse than nothing.
abbrev raw : List NodeScore
raw =
    record { name = "east-1"; score = 7 }
    ∷ record { name = "west-1"; score = neg64 3 }
    ∷ record { name = "edge-1"; score = 0 }
    ∷ []

normalize_score-Ranks_example :
    ((normalize_score (holds scored) raw).0 ≡ success)
    × All
        (Ranks raw (rescalings raw (normalize_score (holds scored) raw).1))
        (rescalings raw (normalize_score (holds scored) raw).1)
normalize_score-Ranks_example =
    normalize_score-Ranks scored raw refl
      ((omega arith, omega arith), ((omega arith, omega arith), ((omega arith, omega arith), tt)))

raw_test :
    (normalize_score (holds scored) raw).1
    ≡ record { name = "east-1"; score = 100 }
      ∷ record { name = "west-1"; score = 0 }
      ∷ record { name = "edge-1"; score = 30 }
      ∷ []
unfolding normalize_score min_count max_count rescale of_int64 mul div to_int64 unit round_quotient
    round_from
raw_test = refl
