-- ===== src/InterPodAffinity/Filtering.antt =====
-- `Filter` after `PreFilter` (pkg/interpodaffinity/filtering.go), as a verdict on the snapshot.
use mathlib.Core.Logic.{∥∥₁_elim}
use mathlib.Core.List.{Perm, Permᴰ}
use cozystack_scheduler.Prelude.{
  sum_over, ℕ, ◌<◌, ◌≡◌, refl, ap, ◌∙◌, Bool, true, false, not, ◌&&◌, ◌||◌, some, List, [], ◌∷◌,
  arith, is_empty, all, any, if◌then◌else◌,
}
use cozystack_scheduler.Words.{half_word}
use cozystack_scheduler.Api.{Labels, Pod, Node}
use cozystack_scheduler.Merge.Types.{AffinityTerm}
use cozystack_scheduler.Framework.{
  PodInfo, NodeInfo, Status, success, unschedulable, unschedulable_and_unresolvable, holds,
}
use cozystack_scheduler.InterPodAffinity.Counts.{
  TopologyPair, TermCounts, pod_matches_all_affinity_terms,
}
use cozystack_scheduler.InterPodAffinity.{
  PreFilterState, InterPodAffinity, err_reason_existing_anti_affinity_rules_not_match,
  err_reason_affinity_rules_not_match, err_reason_anti_affinity_rules_not_match, label_conflicts,
  term_conflicts, satisfy_existing_pods_anti_affinity, satisfy_pod_anti_affinity,
  satisfy_pod_affinity, pods_exist,
}
use cozystack_scheduler.InterPodAffinity.Plugin.{
  state_of, check_state, run_filter, is_unconstrained,
}
use cozystack_scheduler.InterPodAffinity.Recount.{existing_hits, incoming_hits, incoming_anti_hits}
use cozystack_scheduler.InterPodAffinity.Upkeep.{IsSchedule, ns_labels, state_of-Sums}
use cozystack_scheduler.InterPodAffinity.Verdict.{
  Holds, label_hit, term_hit, has_topology, counts_on, label_conflicts-Holds, term_conflicts-Holds,
  pods_exist-Holds, is_empty-incoming,
}

any-permᴰ {ℓ} : {A : Type ℓ} (f : A → Bool) {xs ys : List A} → Permᴰ xs ys → any f xs ≡ any f ys
any-permᴰ f Permᴰ.nil = refl
any-permᴰ f (Permᴰ.cons e h) = ground (arith, ap f e, any-permᴰ f h)
any-permᴰ f (Permᴰ.swap e e') = ground (arith, ap f e, ap f e')
any-permᴰ f (Permᴰ.trans h k) = any-permᴰ f h ∙ any-permᴰ f k

Bool-set : IsSet Bool
Bool-set = hlevel

any-perm {ℓ} : {A : Type ℓ} (f : A → Bool) (xs ys : List A) → Perm xs ys → any f xs ≡ any f ys
any-perm f xs ys h = ∥∥₁_elim h (Bool-set _ _) (any-permᴰ f)

module _ {S : Type 0} (matches : AffinityTerm S → Pod → Labels → Bool) where
  no_label_conflicts :
      (counts : TermCounts) (labels : Labels)
      → is_empty counts ≡ true
      → label_conflicts matches counts labels ≡ false
  unfolding label_conflicts
  no_label_conflicts [] [] h = refl
  no_label_conflicts [] (l ∷ labels) h = no_label_conflicts [] labels h
  no_label_conflicts (c ∷ counts) labels h = cc

  no_term_conflicts :
      (counts : TermCounts) (terms : List (AffinityTerm S)) (node : Node)
      → is_empty counts ≡ true
      → term_conflicts matches counts terms node ≡ false
  unfolding term_conflicts
  no_term_conflicts [] [] node h = refl
  no_term_conflicts [] (t ∷ terms) node h = ground (arith, no_term_conflicts [] terms node h)
  no_term_conflicts (c ∷ counts) terms node h = cc

module _ {S Object Raw : Type 0} (pl : InterPodAffinity S Object Raw) (info : PodInfo S)
    (all_nodes req : List (NodeInfo S)) where
  -- Existing anti-affinity terms that match the pod, by the pair of their node.
  abbrev pub existing_at : TopologyPair → ℕ
  existing_at q = sum_over (existing_hits pl.matches q info.pod (ns_labels pl info)) req

  -- Pods that match all affinity terms of the pod, and those that match an anti-affinity term.
  abbrev pub matching_at : TopologyPair → ℕ
  matching_at q = sum_over (incoming_hits pl.matches q info) all_nodes

  abbrev pub hated_at : TopologyPair → ℕ
  hated_at q = sum_over (incoming_anti_hits pl.matches q info) all_nodes

  -- The node has all topologies; in each runs a matching pod, or nowhere does one and the pod
  -- matches its own terms.
  abbrev pub affinity_holds : Node → Bool
  affinity_holds node =
      all (has_topology node) info.required_affinity_terms
      && (all (term_hit matching_at node) info.required_affinity_terms
          || (not (any (counts_on pl.matches info) all_nodes)
              && pod_matches_all_affinity_terms pl.matches info.required_affinity_terms info.pod))

  abbrev pub verdict : Node → Status
  verdict node =
      if not (affinity_holds node)
      then unschedulable_and_unresolvable err_reason_affinity_rules_not_match
      else if any (term_hit hated_at node) info.required_anti_affinity_terms
      then unschedulable err_reason_anti_affinity_rules_not_match
      else if label_hit existing_at node.labels
      then unschedulable err_reason_existing_anti_affinity_rules_not_match
      else success

  -- The numbers of the cluster stay below the sign bit of an int64.
  abbrev pub Fits : Type 0
  Fits =
      (q : TopologyPair)
      → (existing_at q < half_word) × (matching_at q < half_word) × (hated_at q < half_word)

  module _ (claimed : List (NodeInfo S) → List (NodeInfo S)) (fair : IsSchedule claimed)
      (fits : Fits) (node : Node) where
    abbrev computed : PreFilterState S
    computed = state_of pl claimed info.pod info all_nodes req

    existing-Holds : Holds computed.existing_anti_affinity_counts existing_at
    existing-Holds q = ((state_of-Sums pl info claimed all_nodes req fair q).0, (fits q).0)

    affinity-Holds : Holds computed.affinity_counts matching_at
    affinity-Holds q = ((state_of-Sums pl info claimed all_nodes req fair q).1, (fits q).1)

    anti_affinity-Holds : Holds computed.anti_affinity_counts hated_at
    anti_affinity-Holds q = ((state_of-Sums pl info claimed all_nodes req fair q).2, (fits q).2)

    existing_lem :
        satisfy_existing_pods_anti_affinity pl.matches computed node
        ≡ not (label_hit existing_at node.labels)
    unfolding satisfy_existing_pods_anti_affinity
    existing_lem = ground (
      arith,
      no_label_conflicts pl.matches computed.existing_anti_affinity_counts node.labels,
      label_conflicts-Holds pl.matches computed.existing_anti_affinity_counts existing_at
          node.labels existing-Holds,
    )

    anti_affinity_lem :
        satisfy_pod_anti_affinity pl.matches computed node
        ≡ not (any (term_hit hated_at node) info.required_anti_affinity_terms)
    unfolding satisfy_pod_anti_affinity state_of
    anti_affinity_lem = ground (
      arith,
      no_term_conflicts pl.matches computed.anti_affinity_counts info.required_anti_affinity_terms
          node,
      term_conflicts-Holds pl.matches computed.anti_affinity_counts hated_at anti_affinity-Holds
          node info.required_anti_affinity_terms,
    )

    affinity_lem : satisfy_pod_affinity pl.matches computed node ≡ affinity_holds node
    unfolding satisfy_pod_affinity state_of
    affinity_lem =
        let e =
          pods_exist-Holds pl.matches computed.affinity_counts matching_at affinity-Holds node
            info.required_affinity_terms true in
        ground (
          arith,
          e,
          is_empty-incoming pl.matches info (claimed all_nodes),
          any-perm (counts_on pl.matches info) (claimed all_nodes) all_nodes (fair all_nodes),
        )

    check_state-verdict : check_state pl computed node ≡ verdict node
    unfolding check_state
    check_state-verdict = ground (arith, affinity_lem, anti_affinity_lem, existing_lem)

  -- With fair workers and numbers that fit, `Filter` on the state that `PreFilter` computes gives
  -- the verdict of the snapshot: the pod's affinity first, then its anti-affinity, then the
  -- anti-affinity of the pods that run.
  pub run_filter-verdict :
      (claimed : List (NodeInfo S) → List (NodeInfo S))
      → IsSchedule claimed
      → Fits
      → (n : NodeInfo S)
      → run_filter pl (holds (state_of pl claimed info.pod info all_nodes req)) n ≡ verdict n.node
  unfolding run_filter
  run_filter-verdict claimed fair fits n = check_state-verdict claimed fair fits n.node

module _ {S : Type 0} (matches : AffinityTerm S → Pod → Labels → Bool) (counts : TermCounts)
    (node : Node) where
  pods_exist-nil :
      (terms : List (AffinityTerm S))
      → is_empty terms ≡ true
      → pods_exist matches counts terms node true ≡ some true
  unfolding pods_exist
  pods_exist-nil [] h = refl
  pods_exist-nil (t ∷ terms) h = cc

  term_conflicts-nil :
      (terms : List (AffinityTerm S))
      → is_empty terms ≡ true
      → term_conflicts matches counts terms node ≡ false
  unfolding term_conflicts
  term_conflicts-nil [] h = refl
  term_conflicts-nil (t ∷ terms) h = cc

pub is_unconstrained-success :
    {S Object Raw : Type 0} (pl : InterPodAffinity S Object Raw) (s : PreFilterState S)
    (node : Node)
    → is_unconstrained pl s ≡ true
    → check_state pl s node ≡ success
unfolding check_state
is_unconstrained-success pl s node h = ground (
  arith,
  pods_exist-nil pl.matches s.affinity_counts node s.pod_info.required_affinity_terms,
  term_conflicts-nil pl.matches s.anti_affinity_counts node s.pod_info.required_anti_affinity_terms,
)
