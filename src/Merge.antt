-- ===== src/Merge.antt =====
-- pkg/merge/merger.go: the constraints of a SchedulingClass merged with those of a pod. A deep copy
-- is the value itself, since nothing here writes through a pointer afterwards.
pub mod Types
pub mod InterPod
pub mod Filling
pub mod Lineage
pub mod Selectors
pub mod NodeTerms
pub mod Shared
use cozystack_scheduler.Prelude.{
  String, Option, none, some, List, [], ◌∷◌, ◌++◌, ◌==◌, string_eq, if◌then◌else◌,
}
use cozystack_scheduler.Result.{wrap_named, Result, ok, err, ◌>>=◌, map_error}
use cozystack_scheduler.GoMap.{lookup, lookup_or, insert, insert_all}
use cozystack_scheduler.Api.{
  Labels, LabelSelector, PodAffinityTerm, WeightedPodAffinityTerm, NodeSelectorTerm, NodeSelector,
  PreferredSchedulingTerm, NodeAffinity, Affinity, TopologySpreadConstraint, Pod,
}
use Types.{
  scheduling_class_annotation, SchedulingClass, NodeAffinityTerms, TopologySpreadTerms, ClassStore,
  Merger,
}

module _ {Object Raw : Type 0} where
  unfoldable pub decode_class : ClassStore Object Raw → String → Result SchedulingClass
  decode_class l name = do
    obj ← map_error (wrap_named "getting SchedulingClass" name) (l.get name)
    raw ← map_error (wrap_named "marshaling SchedulingClass" name) (l.marshal obj)
    map_error (wrap_named "unmarshaling SchedulingClass" name) (l.unmarshal raw)

  unfoldable pub get_scheduling_class : Merger Object Raw → Pod → Result (Option SchedulingClass)
  unfolding lookup decode_class
  get_scheduling_class m pod =
      let name = lookup_or "" scheduling_class_annotation pod.annotations in
      if name == "" then ok none else (do sc ← decode_class m.lister name; ok (some sc))

  -- The opening of every merge: with no class named, the result is nil.
  unfoldable pub with_class {ℓ} :
      {A : Type ℓ} → Merger Object Raw → Pod → (SchedulingClass → Result A) → Result (Option A)
  with_class m pod f = do
    found ← get_scheduling_class m pod
    elim found [ none ↦ ok none | some sc ↦ (do a ← f sc; ok (some a)) ]

-- The loop of `lineageLabelSelector`: `none` is its early return of nil.
unfoldable pub collect_labels : Labels → List String → Labels → Option Labels
collect_labels labels [] collected = some collected
collect_labels labels (key ∷ keys) collected = elim (lookup key labels) [
  | none ↦ none
  | some val ↦ collect_labels labels keys (insert key val collected)
]

unfoldable pub lineage_label_selector : Pod → List String → Option LabelSelector
unfolding collect_labels
lineage_label_selector pod [] = none
lineage_label_selector pod (key ∷ keys) = elim (collect_labels pod.labels (key ∷ keys) []) [
  | none ↦ none
  | some match_labels ↦ some (record { match_labels = match_labels; match_expressions = [] })
]

-- `if x.LabelSelector == nil && defaultSelector != nil`
unfoldable pub or_default : Option LabelSelector → Option LabelSelector → Option LabelSelector
or_default none default = default
or_default (some s) default = some s

unfoldable pub default_affinity_term_selectors :
    List PodAffinityTerm → Option LabelSelector → List PodAffinityTerm
unfolding or_default
default_affinity_term_selectors [] default = []
default_affinity_term_selectors (t ∷ terms) default =
    record t { label_selector = or_default t.label_selector default }
    ∷ default_affinity_term_selectors terms default

unfoldable pub default_weighted_affinity_term_selectors :
    List WeightedPodAffinityTerm → Option LabelSelector → List WeightedPodAffinityTerm
unfolding or_default
default_weighted_affinity_term_selectors [] default = []
default_weighted_affinity_term_selectors (w ∷ terms) default =
    let t = w.pod_affinity_term in
    record w {
      pod_affinity_term = record t { label_selector = or_default t.label_selector default };
    }
    ∷ default_weighted_affinity_term_selectors terms default

-- `mergeNodeSelectors`: the inner loop, over the terms of `b`, and the outer one.
unfoldable pub cross_term : NodeSelectorTerm → List NodeSelectorTerm → List NodeSelectorTerm
cross_term s [] = []
cross_term s (t ∷ ts) =
    record {
      match_expressions = s.match_expressions ++ t.match_expressions;
      match_fields = s.match_fields ++ t.match_fields;
    }
    ∷ cross_term s ts

unfoldable pub cross_terms : List NodeSelectorTerm → List NodeSelectorTerm → List NodeSelectorTerm
unfolding cross_term
cross_terms [] ts = []
cross_terms (s ∷ ss) ts = cross_term s ts ++ cross_terms ss ts

unfoldable pub merge_node_selectors :
    Option NodeSelector → Option NodeSelector → Option NodeSelector
unfolding cross_terms
merge_node_selectors none b = b
merge_node_selectors (some a) none = some a
merge_node_selectors (some a) (some b) =
    some (record { node_selector_terms = cross_terms a.node_selector_terms b.node_selector_terms })

abbrev pub entries {ℓ} : {A : Type ℓ} → Option (List A) → List A
entries none = []
entries (some xs) = xs

abbrev pub node_affinity_of : Option Affinity → Option NodeAffinity
node_affinity_of none = none
node_affinity_of (some a) = a.node_affinity

abbrev pub required_of : Option NodeAffinity → Option NodeSelector
required_of none = none
required_of (some a) = a.required

abbrev pub preferred_of : Option NodeAffinity → List PreferredSchedulingTerm
preferred_of none = []
preferred_of (some a) = entries a.preferred

-- The part of `MergeNodeAffinity` below the lookup of the class.
unfoldable pub node_affinity_terms : Pod → SchedulingClass → NodeAffinityTerms
unfolding merge_node_selectors insert_all
node_affinity_terms pod sc =
    let own = node_affinity_of pod.spec.affinity in
    record {
      node_selector =
          some (insert_all sc.spec.node_selector (insert_all (entries pod.spec.node_selector) []));
      required_node_affinity =
          merge_node_selectors (required_of own) (required_of sc.spec.node_affinity);
      preferred_node_affinity = preferred_of own ++ preferred_of sc.spec.node_affinity;
    }

-- The loop that fills the nil selectors of the class's constraints.
unfoldable pub default_constraint_selectors :
    List TopologySpreadConstraint → Option LabelSelector → List TopologySpreadConstraint
unfolding or_default
default_constraint_selectors [] default = []
default_constraint_selectors (c ∷ cs) default =
    record c { label_selector = or_default c.label_selector default }
    ∷ default_constraint_selectors cs default

unfoldable pub topology_spread_terms : List String → Pod → SchedulingClass → TopologySpreadTerms
unfolding default_constraint_selectors lineage_label_selector
topology_spread_terms keys pod sc =
    let default = lineage_label_selector pod keys in
    record {
      constraints =
          pod.spec.topology_spread_constraints
          ++ default_constraint_selectors sc.spec.topology_spread_constraints default;
    }

module _ {Object Raw : Type 0} (m : Merger Object Raw) (pod : Pod) where
  unfoldable pub merge_node_affinity : Result (Option NodeAffinityTerms)
  unfolding with_class node_affinity_terms
  merge_node_affinity = with_class m pod λ sc. ok (node_affinity_terms pod sc)

  unfoldable pub merge_topology_spread_constraints : Result (Option TopologySpreadTerms)
  unfolding with_class topology_spread_terms
  merge_topology_spread_constraints =
      with_class m pod λ sc. ok (topology_spread_terms m.label_selector_keys pod sc)
