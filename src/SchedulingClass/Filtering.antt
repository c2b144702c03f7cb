-- ===== src/SchedulingClass/Filtering.antt =====
-- `PreFilter` and `Filter` of pkg/schedulingclass/plugin.go together, and `Clone`.
use cozystack_scheduler.Prelude.{
  ◌≡◌, refl, ◌↔◌, Bool, true, false, Option, none, some, [], ◌∷◌, arith, ◌==◌, string_eq,
  if◌then◌else◌, is_empty-eq_nil, all,
}
use cozystack_scheduler.Result.{ok, err}
use cozystack_scheduler.GoMap.{lookup_or}
use cozystack_scheduler.Api.{Labels, NodeSelector, Pod, Node}
use cozystack_scheduler.Merge.{node_affinity_of, required_of}
use cozystack_scheduler.Framework.{success, Slot, absent}
use cozystack_scheduler.SchedulingClass.{
  Args, Effective, class_of, pre_filter, Selectors, check_pod_required_node_affinity, missing_label,
  required_labels, run_filter,
}

-- The labels that the pod's class asks for; none where the pod has no class or it is not known.
abbrev pub class_labels : Args → Pod → Labels
class_labels args pod =
    if class_of args pod == "" then [] else lookup_or [] (class_of args pod) args.classes

-- The node reads as wanted at every key; a missing label reads as the empty text.
abbrev pub has_labels : Node → Labels → Bool
has_labels node = all (λ l. lookup_or "" l.0 node.labels == l.1)

module _ {Selector : Type 0} (sel : Selectors Selector) where
  abbrev pub affinity_matches : Option NodeSelector → Node → Bool
  affinity_matches none node = true
  affinity_matches (some s) node = elim (sel.new_node_selector s) [
    | err e ↦ false
    | ok selector ↦ sel.match selector node
  ]

  missing_label-none :
      (required : Labels) (node : Node)
      → (missing_label sel required node ≡ none) ↔ (has_labels node required ≡ true)
  unfolding missing_label
  missing_label-none [] node = (λ h. refl, λ h. refl)
  missing_label-none ((key, wanted) ∷ required) node =
      ground (arith, missing_label-none required node)

  missing_label-ne-success :
      (required : Labels) (node : Node) → missing_label sel required node ≡ some success → ⊥
  unfolding missing_label
  missing_label-ne-success [] node h = cc
  missing_label-ne-success ((key, wanted) ∷ required) node h =
      ground (arith, missing_label-ne-success required node)

  check-ne-success :
      (pod : Pod) (node : Node) → check_pod_required_node_affinity sel pod node ≡ some success → ⊥
  unfolding check_pod_required_node_affinity
  check-ne-success pod node h = ground arith

  check-success :
      (pod : Pod) (node : Node)
      → (check_pod_required_node_affinity sel pod node ≡ none)
        ↔ (affinity_matches (required_of (node_affinity_of pod.spec.affinity)) node ≡ true)
  unfolding check_pod_required_node_affinity
  check-success pod node = ground arith

  run_filter-success :
      (slot : Slot (Option Effective)) (pod : Pod) (node : Node)
      → (run_filter sel slot pod (some node) ≡ success) ↔ (
          (has_labels node (required_labels sel slot) ≡ true)
          × (affinity_matches (required_of (node_affinity_of pod.spec.affinity)) node ≡ true))
  unfolding run_filter
  run_filter-success slot pod node = ground (
    arith,
    missing_label-none (required_labels sel slot) node,
    check-success pod node,
    check-ne-success pod node,
    missing_label-ne-success (required_labels sel slot) node,
  )

  required_labels-pre_filter :
      (args : Args) (pod : Pod)
      → required_labels sel (pre_filter args absent pod).0 ≡ class_labels args pod
  unfolding pre_filter
  required_labels-pre_filter args pod =
      ground (arith, is_empty-eq_nil (lookup_or [] (class_of args pod) args.classes))

  -- From a cycle with nothing of this plugin, a pod passes a node exactly if at each key of the labels
  -- of the pod's class the node's value, read as the empty text where the node lacks the key, is the
  -- class's value, and the pod's required node affinity parses and matches the node.
  pub pre_filter-run_filter :
      (args : Args) (pod : Pod) (node : Node)
      → (run_filter sel (pre_filter args absent pod).0 pod (some node) ≡ success) ↔ (
          (has_labels node (class_labels args pod) ≡ true)
          × (affinity_matches (required_of (node_affinity_of pod.spec.affinity)) node ≡ true))
  pre_filter-run_filter args pod node =
      rw (← required_labels-pre_filter args pod)
        (run_filter-success (pre_filter args absent pod).0 pod node)
