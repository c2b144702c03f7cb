-- ===== src/Merge/Lineage.antt =====
-- `lineageLabelSelector` of pkg/merge/merger.go, and the class constraints that it completes.
use cozystack_scheduler.Prelude.{
  ◌≡◌, refl, ap, inl, inr, String, Bool, true, false, ◌||◌, Option, none, some, List, [], ◌∷◌, ◌++◌,
  map, ◌==◌, string_eq, if◌then◌else◌, arith, any, is_empty, Option-cases,
}
use cozystack_scheduler.GoMap.{lookup, insert}
use cozystack_scheduler.GoMap.Laws.{lookup-insert}
use cozystack_scheduler.Result.{Result, ok, err, Result-cases}
use cozystack_scheduler.Api.{Labels, LabelSelector, Pod}
use cozystack_scheduler.Merge.{
  collect_labels, lineage_label_selector, topology_spread_terms, with_class, get_scheduling_class,
  merge_topology_spread_constraints,
}
use cozystack_scheduler.Merge.Types.{SchedulingClass, TopologySpreadTerms, Merger}
use cozystack_scheduler.Merge.Filling.{filled_constraint, default_constraint_selectors-map}

abbrev pub lacks_key : Labels → String → Bool
lacks_key labels key = elim (lookup key labels) [ none ↦ true | some v ↦ false ]

-- What the collected labels hold at each key, or why there are none.
abbrev Collected : Labels → List String → Labels → Option Labels → Type 0
Collected labels keys before none = any (lacks_key labels) keys ≡ true
Collected labels keys before (some out) =
    (any (lacks_key labels) keys ≡ false)
    × ((j : String)
        → lookup j out ≡ (if any (λ k. k == j) keys then lookup j labels else lookup j before))

collect_step :
    (labels : Labels) (key val : String) (keys : List String) (before : Labels) (r : Option Labels)
    → lookup key labels ≡ some val
    → Collected labels keys (insert key val before) r
    → Collected labels (key ∷ keys) before r
collect_step labels key val keys before none found h = ground arith
collect_step labels key val keys before (some out) found h = (
  ground arith,
  λ j. ground (arith, h.1 j, lookup-insert key j val before, string_eq.beq_iff key j),
)

collect_labels-Collected :
    (labels : Labels) (keys : List String) (before : Labels)
    → Collected labels keys before (collect_labels labels keys before)
unfolding collect_labels
collect_labels-Collected labels [] before = (refl, λ j. refl)
collect_labels-Collected labels (key ∷ keys) before = elim (Option-cases (lookup key labels)) [
  | inl missing ↦ rw (missing, collect_labels) (ground arith)
  | inr (val, found) ↦
      rw (found, collect_labels)
        (collect_step labels key val keys before _ found
          (collect_labels-Collected labels keys (insert key val before)))
]

-- When there is a selector, and what it selects.
abbrev pub SelectsLineage : Pod → List String → Option LabelSelector → Type 0
SelectsLineage pod keys none = (is_empty keys || any (lacks_key pod.labels) keys) ≡ true
SelectsLineage pod keys (some s) =
    (is_empty keys ≡ false)
    × (any (lacks_key pod.labels) keys ≡ false)
    × (s.match_expressions ≡ [])
    × ((j : String)
        → lookup j s.match_labels ≡ (if any (λ k. k == j) keys then lookup j pod.labels else none))

of_collected : Option Labels → Option LabelSelector
of_collected none = none
of_collected (some match_labels) =
    some (record { match_labels = match_labels; match_expressions = [] })

Collected-SelectsLineage :
    (pod : Pod) (key : String) (keys : List String) (r : Option Labels)
    → Collected pod.labels (key ∷ keys) [] r
    → SelectsLineage pod (key ∷ keys) (of_collected r)
unfolding of_collected lookup
Collected-SelectsLineage pod key keys none h = h
Collected-SelectsLineage pod key keys (some out) h = (refl, h.0, refl, h.1)

of_collected_lem :
    (pod : Pod) (key : String) (keys : List String)
    → lineage_label_selector pod (key ∷ keys)
      ≡ of_collected (collect_labels pod.labels (key ∷ keys) [])
unfolding lineage_label_selector of_collected
of_collected_lem pod key keys = ground arith

-- The lineage selector is nil exactly if no key is configured or the pod lacks a configured key;
-- otherwise it requires the pod's own value at each configured key, and nothing else.
pub lineage_label_selector-SelectsLineage :
    (pod : Pod) (keys : List String) → SelectsLineage pod keys (lineage_label_selector pod keys)
unfolding lineage_label_selector
lineage_label_selector-SelectsLineage pod [] = refl
lineage_label_selector-SelectsLineage pod (key ∷ keys) =
    rw (of_collected_lem pod key keys) (
      Collected-SelectsLineage pod key keys _ (collect_labels-Collected pod.labels (key ∷ keys) []))

-- What becomes of the class's constraints, by the lookup of the class.
abbrev pub SpreadTermsOf :
    Pod
    → List String
    → Result (Option SchedulingClass)
    → Result (Option TopologySpreadTerms)
    → Type 0
SpreadTermsOf pod keys (err e) r = r ≡ err e
SpreadTermsOf pod keys (ok none) r = r ≡ ok none
SpreadTermsOf pod keys (ok (some sc)) r =
    (default : Option LabelSelector) × (terms : TopologySpreadTerms) × SelectsLineage pod keys
      default
    × (r ≡ ok (some terms))
    × (terms.constraints
        ≡ pod.spec.topology_spread_constraints
          ++ map (filled_constraint default) sc.spec.topology_spread_constraints)

-- MergeTopologySpreadConstraints passes on the error of the lookup of the class, and returns nil
-- where the pod has no class. For a class it returns the pod's own constraints, then those of the
-- class, in which the lineage selector (nil, or the pod's own value at each configured key) takes the
-- place of each nil selector, and a selector that is set stays.
pub merge_topology_spread_constraints_lem :
    {Object Raw : Type 0} (m : Merger Object Raw) (pod : Pod)
    → SpreadTermsOf pod m.label_selector_keys
        (get_scheduling_class m pod)
        (merge_topology_spread_constraints m pod)
unfolding merge_topology_spread_constraints with_class topology_spread_terms
merge_topology_spread_constraints_lem m pod = elim (Result-cases (get_scheduling_class m pod)) [
  | inr (e, h) ↦ rw h refl
  | inl (none, h) ↦ rw h refl
  | inl (some sc, h) ↦
      let default = lineage_label_selector pod m.label_selector_keys in
      rw h (
        default,
        topology_spread_terms m.label_selector_keys pod sc,
        lineage_label_selector-SelectsLineage pod m.label_selector_keys,
        refl,
        ap (λ cs. pod.spec.topology_spread_constraints ++ cs)
            (default_constraint_selectors-map default sc.spec.topology_spread_constraints),
      )
]
