-- ===== src/NodeAffinity/Verdict.antt =====
-- `Filter` after `PreFilter` (pkg/nodeaffinity/node_affinity.go), with and without a class of the pod.
use cozystack_scheduler.Prelude.{
  ◌≡◌, refl, sym, ◌↔◌, ap, ◌∙◌, String, Bool, true, ◌&&◌, Option, none, some, [], arith, inl, inr,
  Bool-cases, string_eq,
}
use cozystack_scheduler.GoMap.{lookup, insert_all, HasDistinctKeys}
use cozystack_scheduler.GoMap.Laws.{or_else, lookup-insert_all}
use cozystack_scheduler.Result.{ok}
use cozystack_scheduler.Api.{NodeSelector, Pod, Node}
use cozystack_scheduler.Framework.{success, absent, holds}
use cozystack_scheduler.Merge.Types.{SchedulingClass, NodeAffinityTerms}
use cozystack_scheduler.Merge.{
  entries, node_affinity_of, required_of, get_scheduling_class, with_class, node_affinity_terms,
  merge_node_affinity,
}
use cozystack_scheduler.Merge.Selectors.{
  NodeMatcher, MatchesByTerms, optional_matches, HasNoBlankTerm, merge_node_selectors-and,
}
use cozystack_scheduler.Merge.NodeTerms.{class_labels}
use cozystack_scheduler.NodeAffinity.{Plugin, merged_pod, effective_pod}
use cozystack_scheduler.NodeAffinity.Filtering.{
  added_matches, pre_filter, run_filter, is_unconstrained,
}

abbrev pub class_required : Option SchedulingClass → Option NodeSelector
class_required none = none
class_required (some sc) = required_of sc.spec.node_affinity

-- The node has the label that each key asks for.
abbrev pub HasLabels : Node → (String → Option String) → Type 0
HasLabels node wanted = (key v : String) → wanted key ≡ some v → lookup key node.labels ≡ some v

-- What the merge makes of the class that was found.
abbrev pub merged_terms : Pod → Option SchedulingClass → Option NodeAffinityTerms
merged_terms pod none = none
merged_terms pod (some sc) = some (node_affinity_terms pod sc)

module _ {Selector Required Terms Object Raw : Type 0}
    (pl : Plugin Selector Required Terms Object Raw) (n : Node) where
  abbrev pub Passes : Pod → Type 0
  Passes pod = run_filter pl (pre_filter pl absent pod).slot pod n ≡ success

  abbrev pub Matched : Pod → Option NodeAffinityTerms → Type 0
  Matched pod merged =
      (pl.helpers.match_required (pl.helpers.get_required_node_affinity (effective_pod pod merged))
        n).0
      ≡ true

  run_filter-holds :
      (pod : Pod) (r : Required)
      → (run_filter pl (holds r) pod n ≡ success)
        ↔ ((added_matches pl n ≡ true) × ((pl.helpers.match_required r n).0 ≡ true))
  unfolding run_filter
  run_filter-holds pod r = ground arith

  run_filter-absent :
      (pod : Pod)
      → run_filter pl absent pod n
        ≡ run_filter pl (holds (pl.helpers.get_required_node_affinity pod)) pod n
  unfolding run_filter
  run_filter-absent pod = refl

  pub merge_lem :
      (pod : Pod) (found : Option SchedulingClass)
      → get_scheduling_class pl.merger pod ≡ ok found
      → merge_node_affinity pl.merger pod ≡ ok (merged_terms pod found)
  unfolding merge_node_affinity
  merge_lem pod none e = rw (e, with_class) refl
  merge_lem pod (some sc) e = rw (e, with_class) refl

  pub Passes-Matched :
      (pod : Pod) (merged : Option NodeAffinityTerms)
      → merge_node_affinity pl.merger pod ≡ ok merged
      → Passes pod ↔ ((added_matches pl n ≡ true) × Matched pod merged)
  unfolding pre_filter
  Passes-Matched pod none e = elim (Bool-cases (is_unconstrained pl pod none)) [
    | inl u ↦ rw (e, pre_filter, u) (rw run_filter-absent (run_filter-holds pod _))
    | inr u ↦ rw (e, pre_filter, u) (run_filter-holds pod _)
  ]
  Passes-Matched pod (some merged) e = rw (e, pre_filter) (run_filter-holds pod _)

module _ {Selector Required Terms Object Raw : Type 0}
    (pl : Plugin Selector Required Terms Object Raw) (m : NodeMatcher) (n : Node) where
  -- A pod's required affinity: every label of its node selector, and its node selector terms.
  abbrev pub MeansBoth : Type 0
  MeansBoth =
      (pod : Pod)
      → ((pl.helpers.match_required (pl.helpers.get_required_node_affinity pod) n).0 ≡ true) ↔ (
          HasLabels n (λ key. lookup key (entries pod.spec.node_selector))
          × (optional_matches m n (required_of (node_affinity_of pod.spec.affinity)) ≡ true))

HasLabels-congr :
    (n : Node) (f g : String → Option String)
    → ((key : String) → f key ≡ g key)
    → HasLabels n f
    → HasLabels n g
HasLabels-congr n f g e h key v w = h key v (e key ∙ w)

or_else-none : (o : Option String) → or_else o none ≡ o
or_else-none o = ground arith

-- The value that a key asks for: the class's, or else the pod's.
abbrev pub wanted_label : Pod → Option SchedulingClass → String → Option String
wanted_label pod found key =
    or_else (lookup key (class_labels found)) (lookup key (entries pod.spec.node_selector))

lookup-merged :
    (pod : Pod) (sc : SchedulingClass)
    → HasDistinctKeys (entries pod.spec.node_selector)
    → HasDistinctKeys sc.spec.node_selector
    → (key : String)
    → lookup key (entries (node_affinity_terms pod sc).node_selector)
      ≡ wanted_label pod (some sc) key
unfolding node_affinity_terms lookup
lookup-merged pod sc h k key =
    rw
      (
        lookup-insert_all key sc.spec.node_selector (insert_all (entries pod.spec.node_selector) [])
            k,
        lookup-insert_all key (entries pod.spec.node_selector) [] h,
      )
      (ap (or_else (lookup key sc.spec.node_selector)) (or_else-none _))

lookup-own :
    (pod : Pod) (key : String)
    → lookup key (entries pod.spec.node_selector) ≡ wanted_label pod none key
unfolding lookup
lookup-own pod key = refl

and_iff : (a b : Bool) → ((a && b) ≡ true) ↔ ((a ≡ true) × (b ≡ true))
and_iff a b = ground arith

module _ (m : NodeMatcher) (n : Node) where
  -- All that a node must have for the pod and the class that was found.
  abbrev pub Suits : Pod → Option SchedulingClass → Type 0
  Suits pod found =
      HasLabels n (wanted_label pod found)
      × (optional_matches m n (required_of (node_affinity_of pod.spec.affinity)) ≡ true)
      × (optional_matches m n (class_required found) ≡ true)

module _ {Selector Required Terms Object Raw : Type 0}
    (pl : Plugin Selector Required Terms Object Raw) (m : NodeMatcher) (n : Node)
    (meaning : (s : NodeSelector) → MatchesByTerms m n s) (both : MeansBoth pl m n) where
  Matched-Suits :
      (pod : Pod) (found : Option SchedulingClass)
      → HasDistinctKeys (entries pod.spec.node_selector)
      → HasDistinctKeys (class_labels found)
      → HasNoBlankTerm (required_of (node_affinity_of pod.spec.affinity))
      → HasNoBlankTerm (class_required found)
      → Matched pl n pod (merged_terms pod found) ↔ Suits m n pod found
  Matched-Suits pod none h k a b = (
    λ t. let r = (both pod).0 t in (HasLabels-congr n _ _ (lookup-own pod) r.0, r.1, refl),
    λ s. (both pod).1 (HasLabels-congr n _ _ (λ key. sym (lookup-own pod key)) s.0, s.1),
  )
  Matched-Suits pod (some sc) h k a b =
      let terms = node_affinity_terms pod sc in
      let own = required_of (node_affinity_of pod.spec.affinity) in
      let theirs = required_of sc.spec.node_affinity in
      let selectors : optional_matches m n terms.required_node_affinity
          ≡ (optional_matches m n own && optional_matches m n theirs) =
        unfold node_affinity_terms in merge_node_selectors-and m n own theirs meaning a b in
      (
        λ t.
            let r = (both (merged_pod terms)).0 t in
            let s = (and_iff _ _).0 (sym selectors ∙ r.1) in
            (HasLabels-congr n _ _ (lookup-merged pod sc h k) r.0, s.0, s.1),
        λ s. (both (merged_pod terms)).1 (
          HasLabels-congr n _ _ (λ key. sym (lookup-merged pod sc h k key)) s.0,
          selectors ∙ (and_iff _ _).1 (s.1, s.2),
        ),
      )

  -- Where selectors and required affinities mean what Kubernetes documents, keys are distinct and no
  -- term is blank, Filter on PreFilter's state passes a node exactly if the plugin's own affinity
  -- allows it and it suits the pod and its class: the labels of both, where the class's value wins,
  -- and the required terms of each.
  pub run_filter-Suits :
      (pod : Pod) (found : Option SchedulingClass)
      → get_scheduling_class pl.merger pod ≡ ok found
      → HasDistinctKeys (entries pod.spec.node_selector)
      → HasDistinctKeys (class_labels found)
      → HasNoBlankTerm (required_of (node_affinity_of pod.spec.affinity))
      → HasNoBlankTerm (class_required found)
      → (run_filter pl (pre_filter pl absent pod).slot pod n ≡ success)
        ↔ ((added_matches pl n ≡ true) × Suits m n pod found)
  run_filter-Suits pod found e h k a b =
      let p = Passes-Matched pl n pod (merged_terms pod found) (merge_lem pl n pod found e) in
      let q = Matched-Suits pod found h k a b in
      (λ t. let r = p.0 t in (r.0, q.0 r.1), λ s. p.1 (s.0, q.1 s.1))
