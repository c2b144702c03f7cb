-- ===== src/NodeAffinity/Names.antt =====
-- The node names of `PreFilter` (pkg/nodeaffinity/node_affinity.go) against the meaning of node
-- selectors and against `Filter`.
use cozystack_scheduler.Prelude.{
  ◌≡◌, refl, ◌⊎◌, inl, inr, String, Bool, true, ◌&&◌, ◌||◌, Option, none, some, List, [], ◌∷◌,
  arith, ◌==◌, string_eq, all, any, is_empty, Bool-cases, Option-cases,
}
use cozystack_scheduler.GoSet.{has, insert_names, union, has-insert_names, has-intersection}
use cozystack_scheduler.Result.{ok}
use cozystack_scheduler.Api.{Requirement, NodeSelectorTerm, NodeSelector, Pod, Node}
use cozystack_scheduler.Framework.{Status, success, skip, Slot, absent, holds}
use cozystack_scheduler.Merge.Types.{NodeAffinityTerms}
use cozystack_scheduler.Merge.{node_affinity_of, required_of, merge_node_affinity}
use cozystack_scheduler.Merge.Selectors.{
  NodeMatcher, term_matches, MatchesByTerms, optional_matches,
}
use cozystack_scheduler.NodeAffinity.{
  Plugin, object_name_field, op_in, term_node_names, names_of, node_names, Eligible, all_nodes,
  named, eligible_of, eligible_nodes, effective_pod,
}
use cozystack_scheduler.NodeAffinity.Filtering.{
  eligible_for, pre_filter, run_filter, is_unconstrained,
}

-- The requirement that the loops look for.
abbrev pub is_name_requirement : Requirement → Bool
is_name_requirement r = r.key == object_name_field && r.operator == op_in

-- Kubernetes' meaning of a requirement on the name of a node.
abbrev pub ReadsNames : NodeMatcher → Node → Type 0
ReadsNames m n =
    (r : Requirement) → is_name_requirement r ≡ true → m.field_matches r n ≡ has r.values n.name

-- A set that is not nil has the name.
abbrev pub Allows : Option (List String) → String → Type 0
Allows none name = Unit
Allows (some ns) name = has ns name ≡ true

abbrev pub Admits : Eligible → String → Type 0
Admits all_nodes name = Unit
Admits (named ns) name = has ns name ≡ true

module _ (m : NodeMatcher) (n : Node) (reads : ReadsNames m n) where
  has-values : (names : List String) → has (insert_names [] names) n.name ≡ has names n.name
  has-values names = ground (arith, has-insert_names [] names n.name)

  term_node_names-Allows :
      (rs : List Requirement) (names : Option (List String))
      → all (λ r. m.field_matches r n) rs ≡ true
      → Allows names n.name
      → Allows (term_node_names rs names) n.name
  term_node_names-Allows [] names h a = a
  term_node_names-Allows (r ∷ rs) names h a =
      let rest : all (λ r. m.field_matches r n) rs ≡ true = ground arith in
      elim (Bool-cases (is_name_requirement r)) [
        | inr e ↦ rw e (term_node_names-Allows rs names rest a)
        | inl e ↦ elim (Option-cases names) [
          | inl f ↦
              rw (e, f)
                (term_node_names-Allows rs _ rest (ground (arith, reads r e, has-values r.values)))
          | inr (ns, f) ↦
              let old : has ns n.name ≡ true = rw f at a in
              rw (e, f)
                (term_node_names-Allows rs _ rest (
                  ground (
                    arith,
                    reads r e,
                    has-values r.values,
                    has-intersection ns (insert_names [] r.values) n.name,
                  )))
        ]
      ]

  abbrev Collects : Option (Option (List String)) → Type 0
  Collects none = Unit
  Collects (some names) = has (names_of names) n.name ≡ true

  term-Allows :
      (t : NodeSelectorTerm) (ns : List String)
      → term_node_names t.match_fields none ≡ some ns
      → term_matches m n t ≡ true
      → has ns n.name ≡ true
  term-Allows t ns e h =
      let fields : all (λ r. m.field_matches r n) t.match_fields ≡ true = ground arith in
      let a = term_node_names-Allows t.match_fields none fields tt in rw e at a

  has-union : (s t : List String) → has (union s t) n.name ≡ (has s n.name || has t n.name)
  has-union s t = has-insert_names s t n.name

  node_names-Collects :
      (ts : List NodeSelectorTerm) (names : Option (List String))
      → (any (term_matches m n) ts || has (names_of names) n.name) ≡ true
      → Collects (node_names ts names)
  node_names-Collects [] names h = ground arith
  node_names-Collects (t ∷ ts) names h = elim (Option-cases (term_node_names t.match_fields none)) [
    | inl e ↦ rw (Collects, e) tt
    | inr (ns, e) ↦
        rw (Collects, e)
          (node_names-Collects ts (some (union (names_of names) ns))
            (ground (arith, term-Allows t ns e, has-union (names_of names) ns)))
  ]

  -- What the loops leave admits the node, and is no conflict.
  abbrev Keeps : Eligible × Status → Type 0
  Keeps (nodes, status) = Admits nodes n.name × (status ≡ success)

  eligible_of-Keeps : (r : Option (Option (List String))) → Collects r → Keeps (eligible_of r)
  eligible_of-Keeps none c = (tt, refl)
  eligible_of-Keeps (some none) c = (tt, refl)
  eligible_of-Keeps (some (some [])) c = cc
  eligible_of-Keeps (some (some (x ∷ xs))) c = (c, refl)

  eligible_nodes-Keeps :
      (required : Option NodeSelector)
      → ((s : NodeSelector) → MatchesByTerms m n s)
      → optional_matches m n required ≡ true
      → Keeps (eligible_nodes required)
  eligible_nodes-Keeps none meaning h = (tt, refl)
  eligible_nodes-Keeps (some required) meaning h =
      elim (Bool-cases (is_empty required.node_selector_terms)) [
        | inl e ↦ rw e (tt, refl)
        | inr e ↦ rw e (
            eligible_of-Keeps _ (
              node_names-Collects required.node_selector_terms none
                (ground (arith, meaning required))))
      ]

  module _ {Selector Required Terms Object Raw : Type 0}
      (pl : Plugin Selector Required Terms Object Raw) where
    -- What a match of a pod's required affinity says of its node selector terms.
    abbrev pub RequiresTerms : Type 0
    RequiresTerms =
        (pod : Pod)
        → (pl.helpers.match_required (pl.helpers.get_required_node_affinity pod) n).0 ≡ true
        → optional_matches m n (required_of (node_affinity_of pod.spec.affinity)) ≡ true

    filter_required-success :
        (slot : Slot Required) (pod : Pod) (r : Required)
        → run_filter pl (holds r) pod n ≡ success
        → (pl.helpers.match_required r n).0 ≡ true
    unfolding run_filter
    filter_required-success slot pod r h = ground arith

    eligible_for-Keeps :
        (pod : Pod) (merged : Option NodeAffinityTerms)
        → ((s : NodeSelector) → MatchesByTerms m n s)
        → RequiresTerms
        → (pl.helpers.match_required
            (pl.helpers.get_required_node_affinity (effective_pod pod merged))
            n).0
          ≡ true
        → Keeps (eligible_for pl pod merged)
    eligible_for-Keeps pod none meaning requires h =
        eligible_nodes-Keeps (required_of (node_affinity_of pod.spec.affinity)) meaning
          (requires pod h)
    eligible_for-Keeps pod (some merged) meaning requires h = (tt, refl)

    -- Where the merge gives no error, and matches, selectors and requirements on names mean what
    -- Kubernetes documents: a node that Filter passes on PreFilter's state is among the nodes that
    -- PreFilter leaves, and PreFilter's status is success or Skip.
    pub pre_filter-keeps :
        (pod : Pod) (merged : Option NodeAffinityTerms)
        → ((s : NodeSelector) → MatchesByTerms m n s)
        → RequiresTerms
        → merge_node_affinity pl.merger pod ≡ ok merged
        → run_filter pl (pre_filter pl absent pod).slot pod n ≡ success
        → Admits (pre_filter pl absent pod).nodes n.name
          × (((pre_filter pl absent pod).status ≡ success)
              ⊎ ((pre_filter pl absent pod).status ≡ skip))
    unfolding pre_filter
    pre_filter-keeps pod merged meaning requires found h =
        elim (Bool-cases (is_unconstrained pl pod merged)) [
          | inl e ↦ rw (found, pre_filter, e) (tt, inr refl)
          | inr e ↦
              let r = pl.helpers.get_required_node_affinity (effective_pod pod merged) in
              let passed : run_filter pl (holds r) pod n ≡ success =
                rw (found, pre_filter, e) at h in
              let keeps =
                eligible_for-Keeps pod merged meaning requires
                  (filter_required-success (holds r) pod r passed) in
              rw (found, pre_filter, e) (keeps.0, inl keeps.1)
        ]
