-- ===== src/NodeAffinity/Filtering.antt =====
-- pkg/nodeaffinity/node_affinity.go: `PreFilter`, `Filter` and the queueing hint.
use cozystack_scheduler.Prelude.{
  Bool, true, not, ◌&&◌, Option, none, some, string_eq, if◌then◌else◌,
}
use cozystack_scheduler.Result.{Error, external, wrap_named, Result, ok, err}
use cozystack_scheduler.Api.{Pod, Node}
use cozystack_scheduler.Framework.{
  Status, success, skip, unschedulable_and_unresolvable, error_status, Slot, holds, read_slot,
  QueueingHint, queue, queue_skip,
}
use cozystack_scheduler.Merge.Types.{NodeAffinityTerms}
use cozystack_scheduler.Merge.{node_affinity_of, required_of, merge_node_affinity}
use cozystack_scheduler.NodeAffinity.{
  Plugin, err_reason_pod, err_reason_enforced, effective_pod, is_none, Eligible, PreFiltered,
  eligible_nodes, all_nodes,
}

abbrev pub get_pre_filter_state : {Required : Type 0} → Slot Required → Result Required
get_pre_filter_state =
    read_slot
      (wrap_named "reading from cycleState" "PreFilterCozystackNodeAffinity" (external "not found"))
      (external "invalid PreFilter state")

module _ {Selector Required Terms Object Raw : Type 0}
    (pl : Plugin Selector Required Terms Object Raw) where
  -- The plugin's own affinity allows the node.
  abbrev pub added_matches : Node → Bool
  added_matches node = elim pl.added_node_selector [
    | none ↦ true
    | some s ↦ pl.helpers.match_selector s node
  ]

  abbrev pub hint_update : Bool × Option Error → Result QueueingHint
  hint_update (was_matched, some e) = err e
  hint_update (was_matched, none) = ok (if was_matched then queue_skip else queue)

  abbrev pub hint_match : Required → Option Node → Bool × Option Error → Result QueueingHint
  hint_match required original (is_matched, some e) = err e
  hint_match required none (is_matched, none) = ok (if is_matched then queue else queue_skip)
  hint_match required (some original) (is_matched, none) =
      if is_matched
      then hint_update (pl.helpers.match_required required original)
      else ok queue_skip

  -- The plugin registers for nodes that are added, with no original, or updated.
  unfoldable pub is_schedulable_after_node_change : Pod → Option Node → Node → Result QueueingHint
  is_schedulable_after_node_change pod original modified =
      if not (added_matches modified)
      then ok queue_skip
      else elim (merge_node_affinity pl.merger pod) [
        | err e ↦ ok queue
        | ok merged ↦
            let required = pl.helpers.get_required_node_affinity (effective_pod pod merged) in
            hint_match required original (pl.helpers.match_required required modified)
      ]

  -- Nothing to check for the pod: no class, no requirement of its own or of the plugin.
  abbrev pub is_unconstrained : Pod → Option NodeAffinityTerms → Bool
  is_unconstrained pod merged =
      is_none merged
      && is_none (required_of (node_affinity_of pod.spec.affinity))
      && is_none pl.added_node_selector
      && is_none pod.spec.node_selector

  abbrev pub eligible_for : Pod → Option NodeAffinityTerms → Eligible × Status
  eligible_for pod none = eligible_nodes (required_of (node_affinity_of pod.spec.affinity))
  eligible_for pod (some merged) = (all_nodes, success)

  unfoldable pub pre_filter : Slot Required → Pod → PreFiltered Required
  pre_filter slot pod = elim (merge_node_affinity pl.merger pod) [
    | err e ↦ record { slot = slot; nodes = all_nodes; status = error_status e }
    | ok merged ↦
        if is_unconstrained pod merged
        then record { slot = slot; nodes = all_nodes; status = skip }
        else record {
          slot = holds (pl.helpers.get_required_node_affinity (effective_pod pod merged));
          nodes = (eligible_for pod merged).0;
          status = (eligible_for pod merged).1;
        }
  ]

  -- Without a state, the pod's own requirements count.
  abbrev pub filter_required : Slot Required → Pod → Required
  filter_required slot pod = elim (get_pre_filter_state slot) [
    | ok r ↦ r
    | err e ↦ pl.helpers.get_required_node_affinity pod
  ]

  unfoldable pub run_filter : Slot Required → Pod → Node → Status
  run_filter slot pod node =
      if not (added_matches node)
      then unschedulable_and_unresolvable err_reason_enforced
      else if not (pl.helpers.match_required (filter_required slot pod) node).0
      then unschedulable_and_unresolvable err_reason_pod
      else success
