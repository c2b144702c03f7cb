-- ===== src/PodTopologySpread/State.antt =====
-- pkg/podtopologyspread/filtering.go: `preFilterState`, `PreFilter`, `AddPod`, `RemovePod`, `Filter`.
-- The three slices of the state have one entry for each constraint; where one lacks an entry that the
-- code indexes, Go panics, and the functions here return none.
pub mod Parallel
pub mod Totals
pub mod Reversal
pub mod Selected
pub mod Recount
use cozystack_scheduler.Prelude.{
  ℕ, zero, suc, String, Bool, not, ◌&&◌, ◌||◌, Option, none, some, List, [], ◌∷◌, map,
  if◌then◌else◌, is_empty, ◌==◌, string_eq, length,
}
use cozystack_scheduler.GoMap.{GoMap, lookup, insert, insert_all, lookup_or}
use cozystack_scheduler.Result.{external, Result, ok, err, wrap, wrap_named, map_error, ◌>>=◌}
use cozystack_scheduler.Words.{add64, sub64, slt, extend32, minus_one}
use cozystack_scheduler.Api.{Pod, Node, Labels}
use cozystack_scheduler.Framework.{
  PodInfo, NodeInfo, Status, success, skip, unschedulable, unschedulable_and_unresolvable,
  error_status, Slot, holds, read_slot,
}
use cozystack_scheduler.PodTopologySpread.{
  Constraint, PodTopologySpread, match_node_inclusion_policies,
  node_labels_match_spread_constraints, get_constraints, count_pods_match_selector,
}
use cozystack_scheduler.PodTopologySpread.CriticalPaths.{
  CriticalPaths, new_critical_paths, update, update_all,
}

-- `preFilterState`
pub record PreFilterState (S : Type 0) : Type 0 where
  pub constraints : List (Constraint S)
  pub critical_paths : List CriticalPaths
  pub tp_value_to_match_num : List (GoMap String ℕ)

abbrev pub empty_state : {S : Type 0} → PreFilterState S
empty_state = record { constraints = []; critical_paths = []; tp_value_to_match_num = [] }

abbrev pub err_reason_constraints_not_match : String
err_reason_constraints_not_match = "node(s) didn't match pod topology spread constraints"

abbrev pub err_reason_node_label_not_match : String
err_reason_node_label_not_match =
    "node(s) didn't match pod topology spread constraints (missing required label)"

-- `minMatchNum`, on the paths and the map of one constraint; the slices' lengths are ints.
abbrev pub min_match_num : CriticalPaths → GoMap String ℕ → ℕ → ℕ
min_match_num paths counts min_domains =
    if slt (length counts) (extend32 min_domains) then 0 else paths.first.match_num

-- m[v] += delta
abbrev pub bump : String → ℕ → GoMap String ℕ → GoMap String ℕ
bump v delta m = insert v (add64 (lookup_or 0 v m) delta) m

-- `topologyCount`
pub record TopologyCount : Type 0 where
  pub topology_value : String
  pub constraint_id : ℕ
  pub count : ℕ

-- `Clone` of a state; the constraints are shared.
unfoldable pub clone_state : {S : Type 0} → PreFilterState S → PreFilterState S
clone_state s = record s {
  tp_value_to_match_num = map (λ m. insert_all m []) s.tp_value_to_match_num;
}

module _ {S R Object Raw : Type 0} (pl : PodTopologySpread S R Object Raw) where
  -- With the feature on, a constraint's own policies; else, the node affinity for all of them.
  abbrev pub skips_constraint : Pod → Node → Constraint S → Bool
  skips_constraint pod node c =
      pl.enable_node_inclusion_policy_in_pod_topology_spread
      && not (match_node_inclusion_policies pl c pod node)

  abbrev pub skips_node : Pod → Node → Bool
  skips_node pod node =
      not pl.enable_node_inclusion_policy_in_pod_topology_spread
      && not (pl.required_matches pod node)

  -- The loop of `updateWithPod`.
  unfoldable pub update_each :
      Pod
      → Pod
      → Node
      → ℕ
      → List (Constraint S)
      → List CriticalPaths
      → List (GoMap String ℕ)
      → Option (List CriticalPaths × List (GoMap String ℕ))
  update_each updated preemptor node delta [] paths counts = some (paths, counts)
  update_each updated preemptor node delta (c ∷ cs) (p ∷ ps) (m ∷ ms) =
      let v = lookup_or "" c.topology_key node.labels in
      let m' = bump v delta m in
      let skipped =
        not (pl.selectors.matches c.selector updated.labels) || skips_constraint preemptor node c in
      elim (update_each updated preemptor node delta cs ps ms) [
        | none ↦ none
        | some (ps', ms') ↦ some (
            if skipped then (p ∷ ps', m ∷ ms') else (update p v (lookup_or 0 v m') ∷ ps', m' ∷ ms'))
      ]
  update_each updated preemptor node delta (c ∷ cs) ps ms = none

  unfoldable pub update_with_pod :
      PreFilterState S → Pod → Pod → Node → ℕ → Option (PreFilterState S)
  update_with_pod s updated preemptor node delta =
      if not (updated.namespace == preemptor.namespace)
        || not (node_labels_match_spread_constraints node.labels s.constraints)
        || skips_node preemptor node
      then some s
      else elim (update_each updated preemptor node delta s.constraints s.critical_paths
          s.tp_value_to_match_num) [
            | none ↦ none
            | some (ps, ms) ↦ some (record s { critical_paths = ps; tp_value_to_match_num = ms })
          ]

  -- The counts of one node, one for each constraint that does not skip it.
  abbrev pub tp_counts : Pod → NodeInfo S → ℕ → List (Constraint S) → List TopologyCount
  tp_counts pod info i [] = []
  tp_counts pod info i (c ∷ cs) =
      let rest = tp_counts pod info (suc i) cs in
      if skips_constraint pod info.node c
      then rest
      else record {
        topology_value = lookup_or "" c.topology_key info.node.labels;
        constraint_id = i;
        count = count_pods_match_selector pl.selectors info.pods c.selector pod.namespace;
      }
        ∷ rest

  -- `processNode`
  abbrev pub process_node : Pod → List (Constraint S) → NodeInfo S → List TopologyCount
  process_node pod constraints info =
      if skips_node pod info.node
        || not (node_labels_match_spread_constraints info.node.labels constraints)
      then []
      else tp_counts pod info 0 constraints

-- s.TpValueToMatchNum[id][value] += count; every id is the index of a constraint.
abbrev pub add_count : ℕ → String → ℕ → List (GoMap String ℕ) → List (GoMap String ℕ)
add_count id value count [] = []
add_count zero value count (m ∷ ms) = bump value count m ∷ ms
add_count (suc id) value count (m ∷ ms) = m ∷ add_count id value count ms

abbrev pub add_counts : List TopologyCount → List (GoMap String ℕ) → List (GoMap String ℕ)
add_counts [] ms = ms
add_counts (t ∷ ts) ms = add_counts ts (add_count t.constraint_id t.topology_value t.count ms)

module _ {S R Object Raw : Type 0} (pl : PodTopologySpread S R Object Raw) where
  -- Workers fill one slot for each node, which are then added in the nodes' order.
  abbrev pub add_nodes :
      Pod → List (Constraint S) → List (NodeInfo S) → List (GoMap String ℕ) → List (GoMap String ℕ)
  add_nodes pod constraints [] ms = ms
  add_nodes pod constraints (n ∷ ns) ms =
      add_nodes pod constraints ns (add_counts (process_node pl pod constraints n) ms)

  unfoldable pub state_of : Pod → List (Constraint S) → List (NodeInfo S) → PreFilterState S
  state_of pod constraints all_nodes =
      let counts = add_nodes pod constraints all_nodes (map (λ c. []) constraints) in
      record {
        constraints = constraints;
        critical_paths = map (update_all new_critical_paths) counts;
        tp_value_to_match_num = counts;
      }

  unfoldable pub cal_pre_filter_state : Pod → Result (PreFilterState S)
  cal_pre_filter_state pod = do
    constraints ← map_error (wrap "get constraints from pod") (get_constraints pl pod)
    (if is_empty constraints then ok empty_state else (do
      all_nodes ← map_error (wrap "listing NodeInfos") pl.list
      ok (state_of pod constraints all_nodes)))

  -- The status, and the slot after the call.
  unfoldable pub pre_filter : Slot (PreFilterState S) → Pod → Status × Slot (PreFilterState S)
  pre_filter slot pod = elim (cal_pre_filter_state pod) [
    | err e ↦ (error_status e, slot)
    | ok s ↦ if is_empty s.constraints then (skip, slot) else (success, holds s)
  ]

abbrev pub get_pre_filter_state : {S : Type 0} → Slot (PreFilterState S) → Result (PreFilterState S)
get_pre_filter_state =
    read_slot
      (wrap_named "reading from cycleState" "PreFilterCozystackPodTopologySpread"
        (external "not found"))
      (external "convert to podtopologyspread.preFilterState error")

module _ {S R Object Raw : Type 0} (pl : PodTopologySpread S R Object Raw) where
  -- `AddPod` and `RemovePod`: the status and the slot, or none where Go panics.
  abbrev pub update_slot :
      Slot (PreFilterState S)
      → Pod
      → PodInfo S
      → Node
      → ℕ
      → Option (Status × Slot (PreFilterState S))
  update_slot slot pod updated node delta = elim (get_pre_filter_state slot) [
    | err e ↦ some (error_status e, slot)
    | ok s ↦ elim (update_with_pod pl s updated.pod pod node delta) [
      | none ↦ none
      | some s' ↦ some (success, holds s')
    ]
  ]

  abbrev pub add_pod :
      Slot (PreFilterState S)
      → Pod
      → PodInfo S
      → NodeInfo S
      → Option (Status × Slot (PreFilterState S))
  add_pod slot pod added info = update_slot slot pod added info.node 1

  abbrev pub remove_pod :
      Slot (PreFilterState S)
      → Pod
      → PodInfo S
      → NodeInfo S
      → Option (Status × Slot (PreFilterState S))
  remove_pod slot pod removed info = update_slot slot pod removed info.node minus_one

  -- matchNum + selfMatchNum - minMatchNum > maxSkew
  abbrev pub exceeds_skew : Labels → Constraint S → CriticalPaths → GoMap String ℕ → String → Bool
  exceeds_skew pod_labels c paths counts tp_val =
      let self_match_num : ℕ = if pl.selectors.matches c.selector pod_labels then 1 else 0 in
      slt (extend32 c.max_skew) (
        sub64 (add64 (lookup_or 0 tp_val counts) self_match_num)
          (min_match_num paths counts c.min_domains))

  -- The loop of `Filter`.
  unfoldable pub filter_each :
      Labels
      → Node
      → List (Constraint S)
      → List CriticalPaths
      → List (GoMap String ℕ)
      → Option Status
  filter_each pod_labels node [] ps ms = some success
  filter_each pod_labels node (c ∷ cs) (p ∷ ps) (m ∷ ms) =
      let rest = filter_each pod_labels node cs ps ms in
      elim (lookup c.topology_key node.labels) [
        | none ↦ some (unschedulable_and_unresolvable err_reason_node_label_not_match)
        | some tp_val ↦
            if exceeds_skew pod_labels c p m tp_val
            then some (unschedulable err_reason_constraints_not_match)
            else rest
      ]
  filter_each pod_labels node (c ∷ cs) ps ms = elim (lookup c.topology_key node.labels) [
    | none ↦ some (unschedulable_and_unresolvable err_reason_node_label_not_match)
    | some tp_val ↦ none
  ]

  unfoldable pub run_filter : Slot (PreFilterState S) → Pod → NodeInfo S → Option Status
  run_filter slot pod info = elim (get_pre_filter_state slot) [
    | err e ↦ some (error_status e)
    | ok s ↦ filter_each pod.labels info.node s.constraints s.critical_paths s.tp_value_to_match_num
  ]
