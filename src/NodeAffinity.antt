-- ===== src/NodeAffinity.antt =====
-- pkg/nodeaffinity/node_affinity.go: the plugin that matches nodes against the node selector and node
-- affinity of a pod merged with those of its class. Here are its record and the node names.
pub mod Filtering
pub mod Names
pub mod Verdict
pub mod Hints
pub mod Scoring
pub mod Scores
pub mod Setup
pub mod Events
use cozystack_scheduler.Prelude.{
  ℕ, String, Bool, true, false, not, ◌&&◌, ◌||◌, Option, none, some, List, [], ◌∷◌, ◌==◌, string_eq,
  if◌then◌else◌, is_empty,
}
use cozystack_scheduler.GoSet.{insert_names, intersection, union}
use cozystack_scheduler.Result.{
  Error, external, wrap, wrap_named, Result, ok, err, map_error, ◌>>=◌,
}
use cozystack_scheduler.Words.{add64}
use cozystack_scheduler.Api.{
  Requirement, NodeSelectorTerm, NodeSelector, PreferredSchedulingTerm, NodeAffinity, Affinity,
  PodSpec, Pod, Node,
}
use cozystack_scheduler.Framework.{
  Status, success, skip, unschedulable_and_unresolvable, error_status, Slot, absent, holds, foreign,
  read_slot, QueueingHint, queue, queue_skip,
}
use cozystack_scheduler.Merge.Types.{NodeAffinityTerms, Merger}
use cozystack_scheduler.Merge.{node_affinity_of, required_of, preferred_of, merge_node_affinity}

-- k8s.io/component-helpers/scheduling/corev1/nodeaffinity, over its types of parsed selectors, of a
-- pod's required affinity, and of preferred terms. `match_required` gives both results of `Match`.
pub record Helpers (Selector Required Terms : Type 0) : Type 0 where
  pub new_node_selector : NodeSelector → Result Selector
  pub match_selector : Selector → Node → Bool
  pub get_required_node_affinity : Pod → Required
  pub match_required : Required → Node → Bool × Option Error
  pub new_preferred_scheduling_terms : List PreferredSchedulingTerm → Result Terms
  pub score : Terms → Node → ℕ

-- `NodeAffinity`
pub record Plugin (Selector Required Terms Object Raw : Type 0) : Type 0 where
  pub helpers : Helpers Selector Required Terms
  pub added_node_selector : Option Selector
  pub added_pref_sched_terms : Option Terms
  pub merger : Merger Object Raw

abbrev pub err_reason_pod : String
err_reason_pod = "node(s) didn't match Pod's node affinity/selector"

abbrev pub err_reason_enforced : String
err_reason_enforced = "node(s) didn't match scheduler-enforced node affinity"

abbrev pub err_reason_conflict : String
err_reason_conflict = "pod affinity terms conflict"

-- `metav1.ObjectNameField` and `v1.NodeSelectorOpIn`
abbrev pub object_name_field : String
object_name_field = "metadata.name"

abbrev pub op_in : String
op_in = "In"

-- The pod with nothing but the merged node selector and required node affinity.
abbrev pub merged_pod : NodeAffinityTerms → Pod
merged_pod merged = record {
  name = "";
  namespace = "";
  uid = "";
  labels = [];
  annotations = [];
  deleting = false;
  spec = record {
    node_name = "";
    node_selector = merged.node_selector;
    affinity = some (record {
      node_affinity = some (record { required = merged.required_node_affinity; preferred = none });
      pod_affinity = none;
      pod_anti_affinity = none;
    });
    tolerations = [];
    topology_spread_constraints = [];
  };
}

-- The pod whose requirements count: the merged one where there is a class.
abbrev pub effective_pod : Pod → Option NodeAffinityTerms → Pod
effective_pod pod none = pod
effective_pod pod (some merged) = merged_pod merged

abbrev pub is_none {ℓ} : {A : Type ℓ} → Option A → Bool
is_none none = true
is_none (some a) = false

-- The loop over the match fields of one term: the names that all its name requirements allow.
abbrev pub term_node_names : List Requirement → Option (List String) → Option (List String)
term_node_names [] names = names
term_node_names (r ∷ rs) names = term_node_names rs (
    if r.key == object_name_field && r.operator == op_in
    then some (elim names [
      | none ↦ insert_names [] r.values
      | some ns ↦ intersection ns (insert_names [] r.values)
    ])
    else names)

abbrev pub names_of : Option (List String) → List String
names_of none = []
names_of (some ns) = ns

-- The loop over the terms: none where a term names no node, so that all are eligible.
abbrev pub node_names : List NodeSelectorTerm → Option (List String) → Option (Option (List String))
node_names [] names = some names
node_names (t ∷ ts) names = elim (term_node_names t.match_fields none) [
  | none ↦ none
  | some ns ↦ node_names ts (some (union (names_of names) ns))
]

-- The nodes that PreFilter leaves: all, or those named.
pub data Eligible : Type 0 where
  all_nodes : Eligible
  named : List String → Eligible

-- After PreFilter: the state's slot, the nodes left, and the status.
pub record PreFiltered (Required : Type 0) : Type 0 where
  pub slot : Slot Required
  pub nodes : Eligible
  pub status : Status

-- What the loops make of the required terms.
abbrev pub eligible_of : Option (Option (List String)) → Eligible × Status
eligible_of none = (all_nodes, success)
eligible_of (some none) = (all_nodes, success)
eligible_of (some (some [])) = (all_nodes, unschedulable_and_unresolvable err_reason_conflict)
eligible_of (some (some (n ∷ ns))) = (named (n ∷ ns), success)

abbrev pub eligible_nodes : Option NodeSelector → Eligible × Status
eligible_nodes none = (all_nodes, success)
eligible_nodes (some required) =
    if is_empty required.node_selector_terms
    then (all_nodes, success)
    else eligible_of (node_names required.node_selector_terms none)
