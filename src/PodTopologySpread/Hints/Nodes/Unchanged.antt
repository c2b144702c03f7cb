-- ===== src/PodTopologySpread/Hints/Nodes/Unchanged.antt =====
-- The counts of a node (pkg/podtopologyspread/filtering.go) whose constraints' keys, taints and affinity stay.
use cozystack_scheduler.Prelude.{
  ℕ, suc, ◌≡◌, refl, sym, ap, ◌∙◌, inl, inr, String, true, false, some, List, [], ◌∷◌, ◌++◌, arith,
  string_eq, All, Bool-cases, Option-cases,
}
use cozystack_scheduler.GoMap.{GoMap, lookup, lookup_or}
use cozystack_scheduler.Api.{Labels, Pod, Node}
use cozystack_scheduler.Framework.{NodeInfo, success}
use cozystack_scheduler.PodTopologySpread.{
  Constraint, PodTopologySpread, match_node_inclusion_policies,
  node_labels_match_spread_constraints,
}
use cozystack_scheduler.PodTopologySpread.CriticalPaths.{CriticalPaths}
use cozystack_scheduler.PodTopologySpread.State.{
  add_counts, add_nodes, exceeds_skew, filter_each, process_node, skips_constraint, skips_node,
  tp_counts,
}
use cozystack_scheduler.PodTopologySpread.Hints.{check_topology_key_labels_changed}

-- The same label, or none, under the key of each constraint.
abbrev pub SameKeys : {S : Type 0} → List (Constraint S) → Labels → Labels → Type 0
SameKeys cs a b = All (λ c. lookup c.topology_key a ≡ lookup c.topology_key b) cs

-- Both nodes have all the keys, and no value changed.
pub unchanged-SameKeys :
    {S : Type 0} (cs : List (Constraint S)) (a b : Labels)
    → node_labels_match_spread_constraints a cs ≡ true
    → node_labels_match_spread_constraints b cs ≡ true
    → check_topology_key_labels_changed a b cs ≡ false
    → SameKeys cs a b
unchanged-SameKeys [] a b h k u = tt
unchanged-SameKeys (c ∷ cs) a b h k u = elim (Option-cases (lookup c.topology_key a)) [
  | inl e ↦ cc (rw (node_labels_match_spread_constraints, e) at h)
  | inr (v, e) ↦ elim (Option-cases (lookup c.topology_key b)) [
    | inl f ↦ cc (rw (node_labels_match_spread_constraints, f) at k)
    | inr (w, f) ↦
        let same : v ≡ w = ground (arith, string_eq.beq_iff v w) in
        (
          e ∙ ap some same ∙ sym f,
          unchanged-SameKeys cs a b (ground arith) (ground arith) (ground arith),
        )
  ]
]

-- The event's node with the pods that run there.
abbrev pub at_node : {S : Type 0} → NodeInfo S → Node → NodeInfo S
at_node info node = record info { node = node }

module _ {S R Object Raw : Type 0} (pl : PodTopologySpread S R Object Raw) (pod : Pod)
    (info : NodeInfo S) where
  -- A node without all the keys has no counts.
  pub process_node-unmatched :
      (cs : List (Constraint S)) (node : Node)
      → node_labels_match_spread_constraints node.labels cs ≡ false
      → process_node pl pod cs (at_node info node) ≡ []
  process_node-unmatched cs node h = elim (Bool-cases (skips_node pl pod node)) [
    | inl e ↦ rw (process_node, e) refl
    | inr e ↦ rw (process_node, e, h) refl
  ]

  module _ (old new : Node) (taints : old.taints ≡ new.taints)
      (affinity : pl.required_matches pod old ≡ pl.required_matches pod new) where
    same_skips : (c : Constraint S) → skips_constraint pl pod old c ≡ skips_constraint pl pod new c
    same_skips c = rw (skips_constraint, match_node_inclusion_policies, affinity, taints) refl

    same_counts :
        (i : ℕ) (cs : List (Constraint S))
        → SameKeys cs old.labels new.labels
        → tp_counts pl pod (at_node info old) i cs ≡ tp_counts pl pod (at_node info new) i cs
    same_counts i [] s = refl
    same_counts i (c ∷ cs) (e, s) =
        let rest = same_counts (suc i) cs s in rw (tp_counts, same_skips c, lookup_or, e, rest) refl

    pub same_process :
        (cs : List (Constraint S))
        → node_labels_match_spread_constraints old.labels cs ≡ true
        → node_labels_match_spread_constraints new.labels cs ≡ true
        → SameKeys cs old.labels new.labels
        → process_node pl pod cs (at_node info old) ≡ process_node pl pod cs (at_node info new)
    same_process cs h k s = rw (process_node, skips_node, h, k, affinity, same_counts 0 cs s) refl

    pub same_filter :
        (cs : List (Constraint S)) (ps : List CriticalPaths) (ms : List (GoMap String ℕ))
        → SameKeys cs old.labels new.labels
        → filter_each pl pod.labels old cs ps ms ≡ filter_each pl pod.labels new cs ps ms
    unfolding filter_each
    same_filter [] ps ms s = refl
    same_filter (c ∷ cs) [] ms (e, s) = rw (filter_each, e) refl
    same_filter (c ∷ cs) (p ∷ ps) [] (e, s) = rw (filter_each, e) refl
    same_filter (c ∷ cs) (p ∷ ps) (m ∷ ms) (e, s) =
        elim (Option-cases (lookup c.topology_key new.labels)) [
          | inl f ↦ rw (filter_each, e, f) refl
          | inr (v, f) ↦ rw (filter_each, e, f, same_filter cs ps ms s) refl
        ]

  -- Filter passes only a node with all the keys.
  pub passes-matched :
      (node : Node) (cs : List (Constraint S)) (ps : List CriticalPaths)
      (ms : List (GoMap String ℕ))
      → filter_each pl pod.labels node cs ps ms ≡ some success
      → node_labels_match_spread_constraints node.labels cs ≡ true
  unfolding filter_each
  passes-matched node [] ps ms h = refl
  passes-matched node (c ∷ cs) [] ms h = elim (Option-cases (lookup c.topology_key node.labels)) [
    | inl e ↦ cc (rw (filter_each, e) at h)
    | inr (v, e) ↦ cc (rw (filter_each, e) at h)
  ]
  passes-matched node (c ∷ cs) (p ∷ ps) [] h =
      elim (Option-cases (lookup c.topology_key node.labels)) [
        | inl e ↦ cc (rw (filter_each, e) at h)
        | inr (v, e) ↦ cc (rw (filter_each, e) at h)
      ]
  passes-matched node (c ∷ cs) (p ∷ ps) (m ∷ ms) h =
      elim (Option-cases (lookup c.topology_key node.labels)) [
        | inl e ↦ cc (rw (filter_each, e) at h)
        | inr (v, e) ↦ elim (Bool-cases (exceeds_skew pl pod.labels c p m v)) [
          | inl w ↦ cc (rw (filter_each, e, w) at h)
          | inr w ↦
              rw (node_labels_match_spread_constraints, e)
                (passes-matched node cs ps ms (rw (filter_each, e, w) at h))
        ]
      ]

  -- One more node.
  pub add_nodes-drop :
      (cs : List (Constraint S)) (n : NodeInfo S) (xs ys : List (NodeInfo S))
      (ms : List (GoMap String ℕ))
      → process_node pl pod cs n ≡ []
      → add_nodes pl pod cs (xs ++ n ∷ ys) ms ≡ add_nodes pl pod cs (xs ++ ys) ms
  add_nodes-drop cs n [] ys ms h = ap (λ ts. add_nodes pl pod cs ys (add_counts ts ms)) h
  add_nodes-drop cs n (x ∷ xs) ys ms h = add_nodes-drop cs n xs ys _ h

  pub add_nodes-swap :
      (cs : List (Constraint S)) (n n' : NodeInfo S) (xs ys : List (NodeInfo S))
      (ms : List (GoMap String ℕ))
      → process_node pl pod cs n ≡ process_node pl pod cs n'
      → add_nodes pl pod cs (xs ++ n ∷ ys) ms ≡ add_nodes pl pod cs (xs ++ n' ∷ ys) ms
  add_nodes-swap cs n n' [] ys ms h = ap (λ ts. add_nodes pl pod cs ys (add_counts ts ms)) h
  add_nodes-swap cs n n' (x ∷ xs) ys ms h = add_nodes-swap cs n n' xs ys _ h
