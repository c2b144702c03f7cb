-- ===== src/InterPodAffinity/Plugin.antt =====
-- pkg/interpodaffinity: the extension points of filtering.go, with the helpers of plugin.go that
-- they call.
use cozystack_scheduler.Prelude.{
  ℕ, String, Bool, not, ◌&&◌, Option, none, some, List, [], string_eq, if◌then◌else◌, is_empty,
}
use cozystack_scheduler.GoSet.{insert_names}
use cozystack_scheduler.Result.{external, wrap, Result, ok, err, traverse}
use cozystack_scheduler.Words.{minus_one}
use cozystack_scheduler.Api.{Labels, Pod, Node}
use cozystack_scheduler.Merge.Types.{AffinityTerm, InterPodAffinityTerms}
use cozystack_scheduler.Merge.InterPod.{merge_inter_pod_affinity}
use cozystack_scheduler.Framework.{
  PodInfo, NodeInfo, Status, success, skip, unschedulable, unschedulable_and_unresolvable,
  error_status, Slot, holds, read_slot, Check, pass, stop, ◌>>=◌, or_status,
}
use cozystack_scheduler.InterPodAffinity.{
  PreFilterState, InterPodAffinity, err_reason_existing_anti_affinity_rules_not_match,
  err_reason_affinity_rules_not_match, err_reason_anti_affinity_rules_not_match, update_with_pod,
  get_existing_anti_affinity_counts, get_incoming_affinity_anti_affinity_counts,
  satisfy_existing_pods_anti_affinity, satisfy_pod_anti_affinity, satisfy_pod_affinity,
}

-- What the errors of `getPreFilterState` say; the lower error's text is left out.
unfoldable pub get_pre_filter_state :
    {S : Type 0} → Slot (PreFilterState S) → Result (PreFilterState S)
get_pre_filter_state =
    read_slot (external "error reading PreFilterCozystackInterPodAffinity from cycleState")
      (external "convert to interpodaffinity.state error")

module _ {S Object Raw : Type 0} (pl : InterPodAffinity S Object Raw) where
  unfoldable pub merge_affinity_term_namespaces_if_not_empty :
      AffinityTerm S → Result (AffinityTerm S)
  merge_affinity_term_namespaces_if_not_empty at =
      if pl.selector_empty at.namespace_selector
      then ok at
      else elim (pl.list_namespaces at.namespace_selector) [
        | ok ns ↦ ok (record at {
          namespaces = insert_names at.namespaces ns;
          namespace_selector = pl.nothing;
        })
        | err e ↦ err e
      ]

  -- An error means an empty set of labels.
  unfoldable pub get_namespace_labels_snapshot : String → Labels
  get_namespace_labels_snapshot ns = elim (pl.get_namespace ns) [ ok labels ↦ labels | err e ↦ [] ]

  -- `if merged != nil` in `PreFilter`
  unfoldable pub replace_required_terms : PodInfo S → Option (InterPodAffinityTerms S) → PodInfo S
  replace_required_terms info none = info
  replace_required_terms info (some merged) = record info {
    required_affinity_terms = merged.required_affinity_terms;
    required_anti_affinity_terms = merged.required_anti_affinity_terms;
  }

  -- The pod's terms, merged with its class's, with their namespaces listed.
  unfoldable pub incoming_pod_info : Pod → Check (PodInfo S)
  unfolding replace_required_terms merge_affinity_term_namespaces_if_not_empty
      merge_inter_pod_affinity
  incoming_pod_info pod = do
    info ← or_status (λ e. unschedulable_and_unresolvable "parsing pod") (pl.new_pod_info pod)
    merged ← or_status error_status (merge_inter_pod_affinity pl.parser pl.merger pod)
    let replaced = replace_required_terms info merged
    affinity ←
        or_status error_status
          (traverse merge_affinity_term_namespaces_if_not_empty replaced.required_affinity_terms)
    anti_affinity ←
        or_status error_status (
          traverse merge_affinity_term_namespaces_if_not_empty
            replaced.required_anti_affinity_terms)
    pass (record replaced {
      required_affinity_terms = affinity;
      required_anti_affinity_terms = anti_affinity;
    })

  -- The counts of one run: `claimed` orders the nodes as its workers claim them.
  unfoldable pub state_of :
      (List (NodeInfo S) → List (NodeInfo S))
      → Pod
      → PodInfo S
      → List (NodeInfo S)
      → List (NodeInfo S)
      → PreFilterState S
  unfolding get_namespace_labels_snapshot get_existing_anti_affinity_counts
      get_incoming_affinity_anti_affinity_counts
  state_of claimed pod info all_nodes nodes_with_required =
      let ns_labels = get_namespace_labels_snapshot pod.namespace in
      let incoming =
        get_incoming_affinity_anti_affinity_counts pl.matches info (claimed all_nodes) in
      record {
        existing_anti_affinity_counts =
            get_existing_anti_affinity_counts pl.matches pod ns_labels
              (claimed nodes_with_required);
        affinity_counts = incoming.0;
        anti_affinity_counts = incoming.1;
        pod_info = info;
        namespace_labels = ns_labels;
      }

  -- Nothing to check: no existing pod objects to this one, and it has no required terms.
  abbrev pub is_unconstrained : PreFilterState S → Bool
  is_unconstrained s =
      is_empty s.existing_anti_affinity_counts
      && (is_empty s.pod_info.required_affinity_terms
          && is_empty s.pod_info.required_anti_affinity_terms)

  unfoldable pub compute_state :
      (List (NodeInfo S) → List (NodeInfo S)) → Pod → Check (PreFilterState S)
  unfolding incoming_pod_info state_of
  compute_state claimed pod = do
    all_nodes ← or_status (λ e. error_status (wrap "failed to list NodeInfos" e)) pl.list
    nodes_with_required ←
        or_status (λ e. error_status (wrap "failed to list NodeInfos with pods with affinity" e))
          pl.have_pods_with_required_anti_affinity_list
    info ← incoming_pod_info pod
    let s = state_of claimed pod info all_nodes nodes_with_required
    if is_unconstrained s then stop skip else pass s

  -- The state is written only on success, and returned beside the status.
  unfoldable pub pre_filter :
      (List (NodeInfo S) → List (NodeInfo S))
      → Slot (PreFilterState S)
      → Pod
      → Slot (PreFilterState S) × Status
  unfolding compute_state
  pre_filter claimed slot pod = elim (compute_state claimed pod) [
    | pass s ↦ (holds s, success)
    | stop status ↦ (slot, status)
  ]

  -- `updateWithPod` on the state that the slot holds.
  unfoldable pub update_slot :
      Slot (PreFilterState S) → PodInfo S → Node → ℕ → Slot (PreFilterState S) × Status
  unfolding get_pre_filter_state update_with_pod
  update_slot slot info node multiplier = elim (get_pre_filter_state slot) [
    | ok s ↦ (holds (update_with_pod pl.matches s info node multiplier), success)
    | err e ↦ (slot, error_status e)
  ]

  unfoldable pub add_pod :
      Slot (PreFilterState S) → PodInfo S → Node → Slot (PreFilterState S) × Status
  unfolding update_slot
  add_pod slot info node = update_slot slot info node 1

  unfoldable pub remove_pod :
      Slot (PreFilterState S) → PodInfo S → Node → Slot (PreFilterState S) × Status
  unfolding update_slot
  remove_pod slot info node = update_slot slot info node minus_one

  -- The three checks of `Filter`, in turn.
  unfoldable pub check_state : PreFilterState S → Node → Status
  unfolding satisfy_pod_affinity satisfy_pod_anti_affinity satisfy_existing_pods_anti_affinity
  check_state state node =
      if not (satisfy_pod_affinity pl.matches state node)
      then unschedulable_and_unresolvable err_reason_affinity_rules_not_match
      else if not (satisfy_pod_anti_affinity pl.matches state node)
      then unschedulable err_reason_anti_affinity_rules_not_match
      else if not (satisfy_existing_pods_anti_affinity pl.matches state node)
      then unschedulable err_reason_existing_anti_affinity_rules_not_match
      else success

  unfoldable pub run_filter : Slot (PreFilterState S) → NodeInfo S → Status
  unfolding get_pre_filter_state check_state
  run_filter slot n = elim (get_pre_filter_state slot) [
    | ok state ↦ check_state state n.node
    | err e ↦ error_status e
  ]
