-- ===== src/PodTopologySpread.antt =====
-- pkg/podtopologyspread/common.go, and from plugin.go the plugin's record and `getConstraints`.
pub mod CriticalPaths
pub mod Minimum
pub mod Tracking
pub mod Preemption
pub mod Verdict
pub mod Eviction
pub mod Domains
pub mod State
pub mod Filtering
pub mod Hints
pub mod Scoring
pub mod Normalizing
pub mod Setup
pub mod Events
use cozystack_scheduler.Prelude.{
  ℕ, String, Bool, true, false, not, ◌&&◌, ◌||◌, Option, none, some, List, [], ◌∷◌, if◌then◌else◌,
  is_empty, ◌==◌, string_eq, any, all,
}
use cozystack_scheduler.GoMap.{lookup, insert}
use cozystack_scheduler.Result.{Error, Result, ok, err, wrap, map_error, ◌>>=◌}
use cozystack_scheduler.Words.{add64}
use cozystack_scheduler.Api.{
  Labels, LabelSelector, TopologySpreadConstraint, UnsatisfiableConstraintAction, do_not_schedule,
  schedule_anyway, NodeInclusionPolicy, ignore, honor, Taint, Toleration, Pod, Node,
}
use cozystack_scheduler.Framework.{PodInfo, NodeInfo}
use cozystack_scheduler.Merge.Types.{Merger, TopologySpreadTerms}
use cozystack_scheduler.Merge.{merge_topology_spread_constraints}

-- `topologySpreadConstraint`
pub record Constraint (S : Type 0) : Type 0 where
  pub max_skew : ℕ
  pub topology_key : String
  pub selector : S
  pub min_domains : ℕ
  pub node_affinity_policy : NodeInclusionPolicy
  pub node_taints_policy : NodeInclusionPolicy

-- The label selectors of k8s.io/apimachinery, over the types of selectors and requirements.
pub record LabelSelectors (S R : Type 0) : Type 0 where
  pub as_selector : Option LabelSelector → Result S
  pub matches : S → Labels → Bool
  pub empty : S → Bool
  pub selector_from_set : Labels → S
  pub requirements : S → Option (List R)
  pub add : S → R → S

-- `PodTopologySpread`, with what it calls outside the repository: the snapshot's list of nodes, the
-- pod's default selector, the match of its required node affinity, the search for a taint.
pub record PodTopologySpread (S R Object Raw : Type 0) : Type 0 where
  pub system_defaulted : Bool
  pub default_constraints : List TopologySpreadConstraint
  pub enable_node_inclusion_policy_in_pod_topology_spread : Bool
  pub enable_match_label_keys_in_pod_topology_spread : Bool
  pub merger : Merger Object Raw
  pub selectors : LabelSelectors S R
  pub list : Result (List (NodeInfo S))
  pub default_selector : Pod → S
  pub required_matches : Pod → Node → Bool
  pub untolerated : List Taint → List Toleration → Bool

abbrev pub is_honor : NodeInclusionPolicy → Bool
is_honor honor = true
is_honor ignore = false

abbrev pub same_action : UnsatisfiableConstraintAction → UnsatisfiableConstraintAction → Bool
same_action do_not_schedule do_not_schedule = true
same_action schedule_anyway schedule_anyway = true
same_action a b = false

abbrev pub match_node_inclusion_policies :
    {S R Object Raw : Type 0} → PodTopologySpread S R Object Raw → Constraint S → Pod → Node → Bool
match_node_inclusion_policies pl tsc pod node =
    if is_honor tsc.node_affinity_policy && not (pl.required_matches pod node)
    then false
    else if is_honor tsc.node_taints_policy && pl.untolerated node.taints pod.spec.tolerations
    then false
    else true

abbrev pub node_labels_match_spread_constraints : {S : Type 0} → Labels → List (Constraint S) → Bool
node_labels_match_spread_constraints labels [] = true
node_labels_match_spread_constraints labels (c ∷ cs) =
    let rest = node_labels_match_spread_constraints labels cs in
    elim (lookup c.topology_key labels) [ none ↦ false | some v ↦ rest ]

abbrev pub add_requirements : {S R : Type 0} → LabelSelectors S R → S → List R → S
add_requirements sel s [] = s
add_requirements sel s (r ∷ rs) = add_requirements sel (sel.add s r) rs

abbrev pub merge_label_set_with_selector : {S R : Type 0} → LabelSelectors S R → Labels → S → S
merge_label_set_with_selector sel match_labels s = elim (sel.requirements s) [
  | none ↦ s
  | some rs ↦ add_requirements sel (sel.selector_from_set match_labels) rs
]

-- The pod's labels under the keys of `matchLabelKeys`.
abbrev pub labels_of_keys : List String → Labels → Labels → Labels
labels_of_keys [] pod_labels found = found
labels_of_keys (k ∷ keys) pod_labels found =
    labels_of_keys keys pod_labels
      (elim (lookup k pod_labels) [ none ↦ found | some v ↦ insert k v found ])

abbrev pub with_match_label_keys :
    {S R : Type 0} → LabelSelectors S R → Bool → List String → Labels → S → S
with_match_label_keys sel enabled keys pod_labels s =
    let found = labels_of_keys keys pod_labels [] in
    if enabled && not (is_empty keys) && not (is_empty found)
    then merge_label_set_with_selector sel found s
    else s

-- The policy of a field that is read only with the feature on.
abbrev pub policy_or : Bool → NodeInclusionPolicy → Option NodeInclusionPolicy → NodeInclusionPolicy
policy_or true d (some policy) = policy
policy_or enabled d policy = d

abbrev pub internal_constraint :
    {S R Object Raw : Type 0}
    → PodTopologySpread S R Object Raw
    → TopologySpreadConstraint
    → S
    → Constraint S
internal_constraint pl c selector = record {
  max_skew = c.max_skew;
  topology_key = c.topology_key;
  selector = selector;
  min_domains = elim c.min_domains [ none ↦ 1 | some n ↦ n ];
  node_affinity_policy =
      policy_or pl.enable_node_inclusion_policy_in_pod_topology_spread honor c.node_affinity_policy;
  node_taints_policy =
      policy_or pl.enable_node_inclusion_policy_in_pod_topology_spread ignore c.node_taints_policy;
}

abbrev pub constraint_selector :
    {S R Object Raw : Type 0}
    → PodTopologySpread S R Object Raw
    → TopologySpreadConstraint
    → Labels
    → S
    → S
constraint_selector pl c pod_labels selector =
    with_match_label_keys pl.selectors pl.enable_match_label_keys_in_pod_topology_spread
      c.match_label_keys pod_labels selector

-- The constraint with its parsed selector before the others, the first error first.
abbrev pub prepend_constraint :
    {S R Object Raw : Type 0}
    → PodTopologySpread S R Object Raw
    → TopologySpreadConstraint
    → Labels
    → Result S
    → Result (List (Constraint S))
    → Result (List (Constraint S))
prepend_constraint pl c pod_labels parsed rest = do
  selector ← parsed
  result ← rest
  ok (internal_constraint pl c (constraint_selector pl c pod_labels selector) ∷ result)

abbrev pub filter_topology_spread_constraints :
    {S R Object Raw : Type 0}
    → PodTopologySpread S R Object Raw
    → List TopologySpreadConstraint
    → Labels
    → UnsatisfiableConstraintAction
    → Result (List (Constraint S))
filter_topology_spread_constraints pl [] pod_labels action = ok []
filter_topology_spread_constraints pl (c ∷ cs) pod_labels action =
    let rest = filter_topology_spread_constraints pl cs pod_labels action in
    if same_action c.when_unsatisfiable action
    then prepend_constraint pl c pod_labels (pl.selectors.as_selector c.label_selector) rest
    else rest

abbrev pub with_selectors : {S : Type 0} → S → List (Constraint S) → List (Constraint S)
with_selectors s [] = []
with_selectors s (c ∷ cs) = record c { selector = s } ∷ with_selectors s cs

abbrev pub build_default_constraints :
    {S R Object Raw : Type 0}
    → PodTopologySpread S R Object Raw
    → Pod
    → UnsatisfiableConstraintAction
    → Result (List (Constraint S))
build_default_constraints pl p action = do
  constraints ← filter_topology_spread_constraints pl pl.default_constraints p.labels action
  let selector = pl.default_selector p
  ok (if pl.selectors.empty selector then [] else with_selectors selector constraints)

abbrev pub raw_constraints : Pod → Option TopologySpreadTerms → List TopologySpreadConstraint
raw_constraints pod none = pod.spec.topology_spread_constraints
raw_constraints pod (some merged) = merged.constraints

abbrev pub get_constraints :
    {S R Object Raw : Type 0}
    → PodTopologySpread S R Object Raw
    → Pod
    → Result (List (Constraint S))
get_constraints pl pod = do
  merged ← merge_topology_spread_constraints pl.merger pod
  let raw = raw_constraints pod merged
  (if is_empty raw
      then map_error (wrap "setting default hard topology spread constraints")
          (build_default_constraints pl pod do_not_schedule)
      else map_error (wrap "obtaining pod's hard topology spread constraints")
          (filter_topology_spread_constraints pl raw pod.labels do_not_schedule))

-- Count the pods that are not terminating, of the namespace, and selected.
abbrev pub count_pods_selected :
    {S R : Type 0} → LabelSelectors S R → List (PodInfo S) → S → String → ℕ → ℕ
count_pods_selected sel [] selector ns count = count
count_pods_selected sel (p ∷ ps) selector ns count = count_pods_selected sel ps selector ns (
    if p.pod.deleting || not (p.pod.namespace == ns)
    then count
    else if sel.matches selector p.pod.labels
    then add64 count 1
    else count)

abbrev pub count_pods_match_selector :
    {S R : Type 0} → LabelSelectors S R → List (PodInfo S) → S → String → ℕ
count_pods_match_selector sel pods selector ns =
    if sel.empty selector then 0 else count_pods_selected sel pods selector ns 0

abbrev pub pod_labels_match_spread_constraints :
    {S R : Type 0} → LabelSelectors S R → List (Constraint S) → Labels → Bool
pod_labels_match_spread_constraints sel cs labels = any (λ c. sel.matches c.selector labels) cs
