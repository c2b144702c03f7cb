-- ===== src/PodTopologySpread/Hints/Nodes.antt =====
-- The node hint of pkg/podtopologyspread/plugin.go against `calPreFilterState` and `Filter` of
-- filtering.go: the nodes before an event and after it.
pub mod Unchanged
use cozystack_scheduler.Prelude.{
  ◌≡◌, refl, sym, ◌∙◌, ◌⊎◌, inl, inr, true, false, not, Option, none, some, List, [], ◌∷◌, ◌++◌,
  map, Bool-cases,
}
use mathlib.Core.Path.{subst}
use cozystack_scheduler.Result.{ok}
use cozystack_scheduler.Api.{Pod, Node, Taint}
use cozystack_scheduler.Framework.{
  NodeInfo, success, holds, Event, created, deleted, updated, queue,
}
use cozystack_scheduler.PodTopologySpread.{
  Constraint, PodTopologySpread, get_constraints, node_labels_match_spread_constraints,
}
use cozystack_scheduler.PodTopologySpread.State.{process_node, run_filter, state_of}
use cozystack_scheduler.PodTopologySpread.Hints.{
  DeepEqual, check_topology_key_labels_changed, is_schedulable_after_node_change, node_change_hint,
}
use cozystack_scheduler.PodTopologySpread.Hints.Nodes.Unchanged.{
  SameKeys, unchanged-SameKeys, at_node, process_node-unmatched, same_process, same_filter,
  passes-matched, add_nodes-drop, add_nodes-swap,
}

module _ {S R Object Raw : Type 0} (pl : PodTopologySpread S R Object Raw) (pod : Pod)
    (info : NodeInfo S) (eq : DeepEqual) (cs : List (Constraint S))
    (xs ys : List (NodeInfo S)) where
  -- The nodes before the event, and after it.
  abbrev pub nodes_before : Event Node → List (NodeInfo S)
  nodes_before (created new) = xs ++ ys
  nodes_before (deleted old) = xs ++ at_node info old ∷ ys
  nodes_before (updated old new) = xs ++ at_node info old ∷ ys

  abbrev pub nodes_after : Event Node → List (NodeInfo S)
  nodes_after (created new) = xs ++ at_node info new ∷ ys
  nodes_after (deleted old) = xs ++ ys
  nodes_after (updated old new) = xs ++ at_node info new ∷ ys

  -- Filter passes the node on the state that calPreFilterState computes.
  abbrev pub Passes : List (NodeInfo S) → NodeInfo S → Type 0
  Passes nodes i = run_filter pl (holds (state_of pl pod cs nodes)) pod i ≡ some success

  -- Some other node, or the node of the event, is there and passes.
  abbrev pub PassedBefore : Event Node → Option (NodeInfo S) → Type 0
  PassedBefore event (some i) = Passes (nodes_before event) i
  PassedBefore (created new) none = ⊥
  PassedBefore (deleted old) none = Passes (nodes_before (deleted old)) (at_node info old)
  PassedBefore (updated old new) none = Passes (nodes_before (updated old new)) (at_node info old)

  abbrev pub PassesAfter : Event Node → Option (NodeInfo S) → Type 0
  PassesAfter event (some i) = Passes (nodes_after event) i
  PassesAfter (created new) none = Passes (nodes_after (created new)) (at_node info new)
  PassesAfter (deleted old) none = ⊥
  PassesAfter (updated old new) none = Passes (nodes_after (updated old new)) (at_node info new)

  -- An update leaves the pod's node affinity for the node as it was.
  abbrev pub KeepsAffinity : Event Node → Type 0
  KeepsAffinity (created new) = Unit
  KeepsAffinity (deleted old) = Unit
  KeepsAffinity (updated old new) = pl.required_matches pod old ≡ pl.required_matches pod new

  Unaffected : Event Node → Type 0
  Unaffected event =
      (target : Option (NodeInfo S)) → PassesAfter event target → PassedBefore event target

  dropped-state :
      (node : Node)
      → node_labels_match_spread_constraints node.labels cs ≡ false
      → state_of pl pod cs (xs ++ at_node info node ∷ ys) ≡ state_of pl pod cs (xs ++ ys)
  unfolding state_of
  dropped-state node h =
      let same =
        add_nodes-drop pl pod info cs (at_node info node) xs ys (map (λ c. []) cs)
          (process_node-unmatched pl pod info cs node h) in
      rw (state_of, same) refl

  swapped-state :
      (old new : Node)
      → process_node pl pod cs (at_node info old) ≡ process_node pl pod cs (at_node info new)
      → state_of pl pod cs (xs ++ at_node info old ∷ ys)
        ≡ state_of pl pod cs (xs ++ at_node info new ∷ ys)
  unfolding state_of
  swapped-state old new h =
      let same =
        add_nodes-swap pl pod info cs (at_node info old) (at_node info new) xs ys (map (λ c. []) cs)
          h in
      rw (state_of, same) refl

  Passes-matched :
      (nodes : List (NodeInfo S)) (node : Node)
      → Passes nodes (at_node info node)
      → node_labels_match_spread_constraints node.labels cs ≡ true
  unfolding run_filter state_of
  Passes-matched nodes node h = passes-matched pl pod info node cs _ _ h

  created-Unaffected :
      (new : Node)
      → node_labels_match_spread_constraints new.labels cs ≡ false
      → Unaffected (created new)
  unfolding Unaffected
  created-Unaffected new h none p = cc (Passes-matched _ new p, h)
  created-Unaffected new h (some i) p =
      subst (λ s. run_filter pl (holds s) pod i ≡ some success) (dropped-state new h) p

  deleted-Unaffected :
      (old : Node)
      → node_labels_match_spread_constraints old.labels cs ≡ false
      → Unaffected (deleted old)
  unfolding Unaffected
  deleted-Unaffected old h none p = elim p [ ]
  deleted-Unaffected old h (some i) p =
      subst (λ s. run_filter pl (holds s) pod i ≡ some success) (sym (dropped-state old h)) p

  unmatched-Unaffected :
      (old new : Node)
      → node_labels_match_spread_constraints old.labels cs ≡ false
      → node_labels_match_spread_constraints new.labels cs ≡ false
      → Unaffected (updated old new)
  unfolding Unaffected
  unmatched-Unaffected old new h k none p = cc (Passes-matched _ new p, k)
  unmatched-Unaffected old new h k (some i) p =
      subst (λ s. run_filter pl (holds s) pod i ≡ some success)
        (dropped-state new k ∙ sym (dropped-state old h)) p

  same-run :
      (old new : Node)
      → old.taints ≡ new.taints
      → pl.required_matches pod old ≡ pl.required_matches pod new
      → (nodes : List (NodeInfo S)) → SameKeys cs old.labels new.labels
      → run_filter pl (holds (state_of pl pod cs nodes)) pod (at_node info old)
        ≡ run_filter pl (holds (state_of pl pod cs nodes)) pod (at_node info new)
  unfolding run_filter state_of
  same-run old new t a nodes s = same_filter pl pod info old new t a cs _ _ s

  matched-Unaffected :
      (old new : Node)
      → old.taints ≡ new.taints
      → pl.required_matches pod old ≡ pl.required_matches pod new
      → node_labels_match_spread_constraints old.labels cs ≡ true
      → node_labels_match_spread_constraints new.labels cs ≡ true
      → SameKeys cs old.labels new.labels
      → Unaffected (updated old new)
  unfolding Unaffected
  matched-Unaffected old new t a h k s none p =
      let before =
        subst (λ s. run_filter pl (holds s) pod (at_node info new) ≡ some success)
          (sym (swapped-state old new (same_process pl pod info old new t a cs h k s))) p in
      same-run old new t a (xs ++ at_node info old ∷ ys) s ∙ before
  matched-Unaffected old new t a h k s (some i) p =
      subst (λ s. run_filter pl (holds s) pod i ≡ some success)
        (sym (swapped-state old new (same_process pl pod info old new t a cs h k s))) p

  -- Equal only at equal taints.
  abbrev pub ExactTaints : Type 0
  ExactTaints = (a b : List Taint) → eq.same_taints a b ≡ true → a ≡ b

  updated-cases :
      (old new : Node)
      → ExactTaints
      → pl.required_matches pod old ≡ pl.required_matches pod new
      → node_labels_match_spread_constraints old.labels cs ≡ true
      → node_labels_match_spread_constraints new.labels cs ≡ true
      → (node_change_hint pl eq cs (updated old new) ≡ queue) ⊎ Unaffected (updated old new)
  updated-cases old new exact a h k =
      elim (Bool-cases (check_topology_key_labels_changed old.labels new.labels cs)) [
        | inl c ↦ inl (rw (node_change_hint, h, k, c) refl)
        | inr c ↦ elim (Bool-cases (eq.same_taints old.taints new.taints)) [
          | inl t ↦ inr (
              matched-Unaffected old new (exact old.taints new.taints t) a h k
                (unchanged-SameKeys cs old.labels new.labels h k c))
          | inr t ↦ inl (rw (node_change_hint, h, k, c, t) refl)
        ]
      ]

  -- The hint queues the pod, or the event makes no node pass.
  node_change-cases :
      (event : Event Node)
      → ExactTaints
      → KeepsAffinity event
      → (node_change_hint pl eq cs event ≡ queue) ⊎ Unaffected event
  node_change-cases (created new) exact a =
      elim (Bool-cases (node_labels_match_spread_constraints new.labels cs)) [
        | inl h ↦ inl (rw (node_change_hint, h) refl)
        | inr h ↦ inr (created-Unaffected new h)
      ]
  node_change-cases (deleted old) exact a =
      elim (Bool-cases (node_labels_match_spread_constraints old.labels cs)) [
        | inl h ↦ inl (rw (node_change_hint, h) refl)
        | inr h ↦ inr (deleted-Unaffected old h)
      ]
  node_change-cases (updated old new) exact a =
      elim (Bool-cases (node_labels_match_spread_constraints old.labels cs)) [
        | inl h ↦ elim (Bool-cases (node_labels_match_spread_constraints new.labels cs)) [
          | inl k ↦ updated-cases old new exact a h k
          | inr k ↦ inl (rw (node_change_hint, h, k) refl)
        ]
        | inr h ↦ elim (Bool-cases (node_labels_match_spread_constraints new.labels cs)) [
          | inl k ↦ inl (rw (node_change_hint, h, k) refl)
          | inr k ↦ inr (unmatched-Unaffected old new h k)
        ]
      ]

  -- A node is added, deleted or updated: where DeepEqual tells taints apart and an update leaves
  -- the pod's node affinity for the node as it was, a node that Filter passes after the event, on
  -- the state that calPreFilterState then computes, and did not pass before makes the hint queue
  -- the pod.
  pub is_schedulable_after_node_change-queue :
      (event : Event Node) (target : Option (NodeInfo S))
      → get_constraints pl pod ≡ ok cs
      → ExactTaints
      → KeepsAffinity event
      → PassesAfter event target
      → ¬ (PassedBefore event target)
      → is_schedulable_after_node_change pl eq pod event ≡ ok queue
  unfolding is_schedulable_after_node_change Unaffected
  is_schedulable_after_node_change-queue event target found exact a after before =
      elim (node_change-cases event exact a) [
        | inl e ↦ rw (is_schedulable_after_node_change, found, e) refl
        | inr same ↦ absurd (before (same target after))
      ]
