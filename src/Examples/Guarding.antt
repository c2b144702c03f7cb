-- ===== src/Examples/Guarding.antt =====
-- Pod `plain`, without terms or a class, which the anti-affinity of a running pod keeps away.
use cozystack_scheduler.Prelude.{◌≡◌, refl, [], ◌∷◌}
use cozystack_scheduler.GoMap.{lookup, insert}
use cozystack_scheduler.Result.{ok}
use cozystack_scheduler.Api.{Labels, Pod}
use cozystack_scheduler.Framework.{
  PodInfo, NodeInfo, success, unschedulable, holds, deleted, queue_skip,
}
use cozystack_scheduler.Merge.{with_class, get_scheduling_class, decode_class}
use cozystack_scheduler.Merge.InterPod.{merge_inter_pod_affinity}
use cozystack_scheduler.InterPodAffinity.{
  PreFilterState, err_reason_existing_anti_affinity_rules_not_match,
}
use cozystack_scheduler.InterPodAffinity.Counts.{pod_matches_all_affinity_terms}
use cozystack_scheduler.InterPodAffinity.Plugin.{state_of, run_filter, remove_pod}
use cozystack_scheduler.InterPodAffinity.Hints.{hint_terms, is_schedulable_after_pod_change}
use cozystack_scheduler.Examples.{plain_spec, web, east}
use cozystack_scheduler.Examples.Affinity.{plugin, running, like_web, full_east, in_order}

abbrev plain : Pod
plain = record web { annotations = [] }

abbrev guard : PodInfo Labels
guard = record running {
  pod = record web { name = "guard-0"; spec = record plain_spec { node_name = "east-1" } };
  required_anti_affinity_terms = like_web ∷ [];
}

abbrev guarded_east : NodeInfo Labels
guarded_east = record full_east { pods = guard ∷ []; pods_with_required_anti_affinity = guard ∷ [] }

abbrev guarded : PreFilterState Labels
guarded =
    state_of plugin in_order plain (record running { pod = plain }) (guarded_east ∷ [])
      (guarded_east ∷ [])

guard_refuses :
    run_filter plugin (holds guarded) guarded_east
    ≡ unschedulable err_reason_existing_anti_affinity_rules_not_match
unfolding run_filter state_of
guard_refuses = refl

gone_passes : run_filter plugin (remove_pod plugin (holds guarded) guard east).0 full_east ≡ success
unfolding run_filter remove_pod state_of
gone_passes = refl

-- The guard's deletion is what the pod waits for, and the hint says to skip the event.
guard_skipped : is_schedulable_after_pod_change plugin plain (deleted guard.pod) ≡ ok queue_skip
unfolding is_schedulable_after_pod_change hint_terms merge_inter_pod_affinity with_class
    get_scheduling_class decode_class lookup insert pod_matches_all_affinity_terms
guard_skipped = refl
