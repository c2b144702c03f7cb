-- ===== src/Examples/Hearing.antt =====
-- Events for pod `web`: a node that joins its zone, a pod that changes, a pod that keeps it away.
use cozystack_scheduler.Prelude.{
  ◌≡◌, refl, Bool, true, false, ◌&&◌, some, none, List, [], ◌∷◌, arith, ◌==◌, string_eq, nat_eq,
  length, eqb,
}
use cozystack_scheduler.GoMap.{lookup, insert, lookup_or}
use cozystack_scheduler.Merge.Types.{SchedulingClass}
use cozystack_scheduler.Merge.{
  merge_topology_spread_constraints, topology_spread_terms, with_class, get_scheduling_class,
  decode_class,
}
use cozystack_scheduler.Result.{ok}
use cozystack_scheduler.Api.{Labels, Node, Taint}
use cozystack_scheduler.Framework.{
  success, unschedulable, unschedulable_and_unresolvable, holds, updated, queue, queue_skip,
}
use cozystack_scheduler.PodTopologySpread.CriticalPaths.{update_all, update}
use cozystack_scheduler.PodTopologySpread.{PodTopologySpread}
use cozystack_scheduler.PodTopologySpread.State.{
  state_of, run_filter, filter_each, err_reason_node_label_not_match,
  err_reason_constraints_not_match,
}
use cozystack_scheduler.PodTopologySpread.Hints.{
  DeepEqual, is_schedulable_after_pod_change, is_schedulable_after_node_change,
}
use cozystack_scheduler.PodTopologySpread.Hints.Nodes.{is_schedulable_after_node_change-queue}
use cozystack_scheduler.PodTopologySpread.Hints.Nodes.Unchanged.{at_node}
use cozystack_scheduler.PodTopologySpread.Events.{
  events_to_register, pod_heard, node_heard, queues, events_to_register-heard,
}
use cozystack_scheduler.Examples.{web, west}
use cozystack_scheduler.Examples.Spreading.{plugin, by_zone, full_east, empty_west, web_constraints}

abbrev same_taint : Taint → Taint → Bool
same_taint a b = a.key == b.key && (a.value == b.value && a.effect == b.effect)

-- Taints and labels are compared entry by entry.
abbrev same_taints : List Taint → List Taint → Bool
same_taints [] [] = true
same_taints (a ∷ xs) (b ∷ ys) = same_taint a b && same_taints xs ys
same_taints xs ys = false

abbrev same_labels : Labels → Labels → Bool
same_labels [] [] = true
same_labels ((k, v) ∷ a) ((l, w) ∷ b) = (k == l && v == w) && same_labels a b
same_labels a b = false

same_taint-eq : (a b : Taint) → same_taint a b ≡ true → a ≡ b
same_taint-eq a b h =
    let k : a.key ≡ b.key = (string_eq.beq_iff a.key b.key).0 (ground arith) in
    let v : a.value ≡ b.value = (string_eq.beq_iff a.value b.value).0 (ground arith) in
    let e : a.effect ≡ b.effect = (string_eq.beq_iff a.effect b.effect).0 (ground arith) in cc

same_taints-eq : (xs ys : List Taint) → same_taints xs ys ≡ true → xs ≡ ys
same_taints-eq [] [] h = refl
same_taints-eq [] (b ∷ ys) h = cc
same_taints-eq (a ∷ xs) [] h = cc
same_taints-eq (a ∷ xs) (b ∷ ys) h =
    let one = same_taint-eq a b (ground arith) in
    let rest = same_taints-eq xs ys (ground arith) in cc

same_labels-eq : (a b : Labels) → same_labels a b ≡ true → a ≡ b
same_labels-eq [] [] h = refl
same_labels-eq [] (y ∷ b) h = cc
same_labels-eq (x ∷ a) [] h = cc
same_labels-eq ((k, v) ∷ a) ((l, w) ∷ b) h =
    let i : k ≡ l = (string_eq.beq_iff k l).0 (ground arith) in
    let j : v ≡ w = (string_eq.beq_iff v w).0 (ground arith) in
    let rest = same_labels-eq a b (ground arith) in cc

abbrev deep_equal : DeepEqual
deep_equal = record {
  same_labels = same_labels;
  same_tolerations = λ a b. eqb (length a) (length b);
  same_taints = same_taints;
}

-- The second node without its zone.
abbrev bare : Node
bare = record west { labels = [] }

passes_later :
    run_filter plugin
      (holds (state_of plugin web (by_zone ∷ []) (full_east ∷ empty_west ∷ [])))
      web
      empty_west
    ≡ some success
unfolding run_filter filter_each state_of lookup insert update_all
passes_later = refl

fails_first :
    run_filter plugin
      (holds (state_of plugin web (by_zone ∷ []) (full_east ∷ at_node empty_west bare ∷ [])))
      web
      (at_node empty_west bare)
    ≡ some (unschedulable_and_unresolvable err_reason_node_label_not_match)
unfolding run_filter filter_each state_of lookup insert update_all
fails_first = refl

fails_so : ¬ (
    run_filter plugin
      (holds (state_of plugin web (by_zone ∷ []) (full_east ∷ at_node empty_west bare ∷ [])))
      web
      (at_node empty_west bare)
    ≡ some success)
fails_so h = cc (h, fails_first)

is_schedulable_after_node_change-queue_example :
    is_schedulable_after_node_change plugin deep_equal web (updated bare west) ≡ ok queue
is_schedulable_after_node_change-queue_example =
    is_schedulable_after_node_change-queue plugin web empty_west deep_equal (by_zone ∷ [])
      (full_east ∷ []) [] (updated bare west) none web_constraints same_taints-eq refl passes_later
      fails_so

-- The pod's labels change, and the second node gets its zone.
events_to_register-heard_example :
    (pod_heard deep_equal
        (events_to_register plugin deep_equal true)
        web
        (updated web (record web { labels = [] }))
      ≡ queues (
          is_schedulable_after_pod_change plugin deep_equal web
            (updated web (record web { labels = [] }))))
    × (node_heard deep_equal (events_to_register plugin deep_equal true) web (updated bare west)
        ≡ queues (is_schedulable_after_node_change plugin deep_equal web (updated bare west)))
events_to_register-heard_example =
    events_to_register-heard plugin deep_equal web (by_zone ∷ [])
      (updated web (record web { labels = [] })) (updated bare west) same_labels-eq web_constraints

-- The pod's node affinity asks for a disk.
abbrev on_disks : PodTopologySpread Labels Labels SchedulingClass SchedulingClass
on_disks = record plugin { required_matches = λ pod node. lookup_or "" "disk" node.labels == "ssd" }

abbrev with_disk : Node
with_disk = record west { labels = ("zone", "west") ∷ ("disk", "ssd") ∷ [] }

-- While the empty zone counts, a second pod in the other one would make a skew of two.
disk_fails :
    run_filter on_disks
      (holds (state_of on_disks web (by_zone ∷ []) (full_east ∷ at_node empty_west with_disk ∷ [])))
      web
      full_east
    ≡ some (unschedulable err_reason_constraints_not_match)
unfolding run_filter filter_each state_of lookup insert update_all update
disk_fails = refl

-- The node loses its disk, and the zone no longer counts.
no_disk_passes :
    run_filter on_disks
      (holds (state_of on_disks web (by_zone ∷ []) (full_east ∷ empty_west ∷ [])))
      web
      full_east
    ≡ some success
unfolding run_filter filter_each state_of lookup insert update_all update
no_disk_passes = refl

-- The hint looks at the keys of the constraints and at taints only.
no_disk_skipped :
    is_schedulable_after_node_change on_disks deep_equal web (updated with_disk west)
    ≡ ok queue_skip
unfolding is_schedulable_after_node_change merge_topology_spread_constraints topology_spread_terms
    with_class get_scheduling_class decode_class lookup insert
no_disk_skipped = refl
