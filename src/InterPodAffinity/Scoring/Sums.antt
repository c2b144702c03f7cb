-- ===== src/InterPodAffinity/Scoring/Sums.antt =====
-- `Score` after `PreScore` (pkg/interpodaffinity/scoring.go) as a sum over the nodes and their pods.
use cozystack_scheduler.Prelude.{
  ℕ, ◌+◌, ◌%◌, ◌≡◌, refl, sym, ap, ◌∙◌, ◌⊎◌, inl, inr, true, List, [], ◌∷◌, arith, string_eq,
  if◌then◌else◌, Bool-cases, is_empty, is_empty-eq_nil, sum_over, sum_over-zero, sum_over-perm,
}
use mathlib.Core.Path.{subst}
use cozystack_scheduler.Result.{ok}
use cozystack_scheduler.Words.{word, slt, extend32, minus_one32}
use cozystack_scheduler.Api.{Labels, Pod, Node}
use cozystack_scheduler.Merge.Types.{WeightedAffinityTerm}
use cozystack_scheduler.Framework.{PodInfo, NodeInfo, Slot, holds, success, skip, pass}
use cozystack_scheduler.InterPodAffinity.{InterPodAffinity}
use cozystack_scheduler.InterPodAffinity.Upkeep.{IsSchedule}
use cozystack_scheduler.InterPodAffinity.Scoring.{
  ScoreMap, PreScoreState, process_terms, Prepared, process_existing_pod, process_existing_pods,
  process_node, append_nodes, claims_none, prepare, pre_score, scored_state, run_score,
}
use cozystack_scheduler.InterPodAffinity.Scoring.Totals.{
  IsScoreMap, total, Adds, Adds-nothing, Adds-both, append-Adds, score_topologies-total,
}
use cozystack_scheduler.InterPodAffinity.Scoring.Terms.{
  term_score, terms_score, process_terms-Adds, hard_score, process_hard_terms-Adds, term_score-bare,
}

module _ {S Object Raw : Type 0} (pl : InterPodAffinity S Object Raw) (n : Node)
    (incoming : Pod) where
  -- What an existing pod adds to the score of `n`: the preferences of the incoming pod for it, and
  -- its own for the incoming pod.
  abbrev pub pod_score : PodInfo S → Labels → Node → PodInfo S → ℕ
  pod_score info ns_labels node existing =
      terms_score pl.matches n info.preferred_affinity_terms existing.pod [] node 1
      + terms_score pl.matches n info.preferred_anti_affinity_terms existing.pod [] node minus_one32
      + (if slt 0 (extend32 pl.hard_pod_affinity_weight)
          then hard_score pl.matches n existing.required_affinity_terms pl.hard_pod_affinity_weight
              incoming ns_labels node
          else 0)
      + terms_score pl.matches n existing.preferred_affinity_terms incoming ns_labels node 1
      + terms_score pl.matches n existing.preferred_anti_affinity_terms incoming ns_labels node
          minus_one32

  pod_score-bare :
      (info : PodInfo S) (ns_labels : Labels) (node : Node) (existing : PodInfo S)
      → node.labels ≡ []
      → pod_score info ns_labels node existing ≡ 0
  pod_score-bare info ns_labels node existing e =
      let bare : (terms : List (WeightedAffinityTerm S))
          → (pod : Pod) → (ns : Labels) → (mult : ℕ)
          → terms_score pl.matches n terms pod ns node mult ≡ 0 =
        λ terms pod ns mult.
          sum_over-zero _ terms
            (λ t. term_score-bare pl.matches n t.affinity_term t.weight pod ns node mult e) in
      let hard =
        sum_over-zero
          (λ t. term_score pl.matches n t pl.hard_pod_affinity_weight incoming ns_labels node 1)
          existing.required_affinity_terms
          (λ t.
            term_score-bare pl.matches n t pl.hard_pod_affinity_weight incoming ns_labels node 1
              e) in
      ground (
        arith,
        hard,
        bare info.preferred_affinity_terms existing.pod [] 1,
        bare info.preferred_anti_affinity_terms existing.pod [] minus_one32,
        bare existing.preferred_affinity_terms incoming ns_labels 1,
        bare existing.preferred_anti_affinity_terms incoming ns_labels minus_one32,
      )

  process_existing_pod-Adds :
      (info : PodInfo S) (ns_labels : Labels) (existing : PodInfo S) (node : Node) (m : ScoreMap)
      → Adds n m
          (process_existing_pod pl info ns_labels existing node incoming m)
          (pod_score info ns_labels node existing)
  unfolding process_existing_pod
  process_existing_pod-Adds info ns_labels existing node m =
      elim (Bool-cases (is_empty node.labels)) [
        | inl e ↦
            let bare =
              pod_score-bare info ns_labels node existing (is_empty-eq_nil node.labels e) in
            let same : Adds n m (process_existing_pod pl info ns_labels existing node incoming m)
                0 =
              rw (process_existing_pod, e) (Adds-nothing n m) in
            subst (Adds n m _) (sym bare) same
        | inr e ↦
            let own =
              Adds-both n
                (process_terms-Adds pl.matches n info.preferred_affinity_terms existing.pod [] node
                  1 m)
                (process_terms-Adds pl.matches n info.preferred_anti_affinity_terms existing.pod []
                  node minus_one32 _) in
            elim (Bool-cases (slt 0 (extend32 pl.hard_pod_affinity_weight))) [
              | inl h ↦
                  rw (process_existing_pod, e, h)
                    (finish _ (
                      Adds-both n own (
                        process_hard_terms-Adds pl.matches n existing.required_affinity_terms
                          pl.hard_pod_affinity_weight incoming ns_labels node _)))
              | inr h ↦
                  rw (process_existing_pod, e, h) (finish _ (Adds-both n own (Adds-nothing n _)))
            ]
      ]
    where
      -- The existing pod's preferences, after the rest.
      finish :
          {x : ℕ} (m' : ScoreMap)
          → Adds n m m' x
          → Adds n m
              (process_terms pl.matches existing.preferred_anti_affinity_terms incoming ns_labels
                node minus_one32
                (process_terms pl.matches existing.preferred_affinity_terms incoming ns_labels node
                  1 m'))
              (x
                + terms_score pl.matches n existing.preferred_affinity_terms incoming ns_labels node
                    1
                + terms_score pl.matches n existing.preferred_anti_affinity_terms incoming ns_labels
                    node minus_one32)
      finish m' a =
          Adds-both n
            (Adds-both n a (
              process_terms-Adds pl.matches n existing.preferred_affinity_terms incoming ns_labels
                node 1 m'))
            (process_terms-Adds pl.matches n existing.preferred_anti_affinity_terms incoming
              ns_labels node minus_one32 _)

  process_existing_pods-Adds :
      (info : PodInfo S) (ns_labels : Labels) (pods : List (PodInfo S)) (node : Node) (m : ScoreMap)
      → Adds n m
          (process_existing_pods pl info ns_labels pods node incoming m)
          (sum_over (pod_score info ns_labels node) pods)
  unfolding process_existing_pods
  process_existing_pods-Adds info ns_labels [] node m = Adds-nothing n m
  process_existing_pods-Adds info ns_labels (p ∷ pods) node m =
      Adds-both n (process_existing_pod-Adds info ns_labels p node m)
        (process_existing_pods-Adds info ns_labels pods node _)

  -- What the pods of a node add to the score of `n`: all of them where the incoming pod has
  -- preferred terms, and else only those with affinity.
  abbrev pub node_score : Prepared S → NodeInfo S → ℕ
  node_score prepared info =
      sum_over (pod_score prepared.pod_info prepared.namespace_labels info.node)
        (if prepared.has_constraints then info.pods else info.pods_with_affinity)

  process_node-Adds :
      (prepared : Prepared S) (info : NodeInfo S)
      → Adds n [] (process_node pl prepared incoming info) (node_score prepared info)
  process_node-Adds prepared info =
      process_existing_pods-Adds prepared.pod_info prepared.namespace_labels
        (if prepared.has_constraints then info.pods else info.pods_with_affinity) info.node []

  append_nodes-Adds :
      (prepared : Prepared S) (nodes : List (NodeInfo S)) (m : ScoreMap)
      → IsScoreMap m
      → total n (append_nodes pl prepared incoming nodes m) % word
        ≡ (total n m + sum_over (node_score prepared) nodes) % word
  unfolding append_nodes total
  append_nodes-Adds prepared [] m h = omega arith
  append_nodes-Adds prepared (info ∷ nodes) m h =
      let one = process_node-Adds prepared info in
      let step = append-Adds n m (process_node pl prepared incoming info) (one.keeps tt) in
      omega (arith, append_nodes-Adds prepared nodes _ (step.keeps h), step.adds, one.adds)

  claims_none-zero :
      (prepared : Prepared S) (nodes : List (NodeInfo S))
      → claims_none pl prepared incoming nodes ≡ true
      → sum_over (node_score prepared) nodes % word ≡ 0
  unfolding claims_none total
  claims_none-zero prepared [] h = omega arith
  claims_none-zero prepared (info ∷ nodes) h =
      let one = process_node-Adds prepared info in
      let empty : process_node pl prepared incoming info ≡ [] = is_empty-eq_nil _ (ground arith) in
      omega (arith, claims_none-zero prepared nodes (ground arith), one.adds, ap (total n) empty)

module _ {S Object Raw : Type 0} (pl : InterPodAffinity S Object Raw) (pod : Pod)
    (info : NodeInfo S) where
  -- The sum over the nodes that PreScore goes through, as an int64.
  abbrev pub pairwise_score : Prepared S → ℕ
  pairwise_score prepared =
      sum_over (node_score pl info.node pod prepared) prepared.all_nodes % word

  -- Where PreScore has not returned early, then whatever the order in which its workers finish, it
  -- either skips the scoring, and the sum over the nodes that it went through is 0, or succeeds, and
  -- Score returns that sum: over the pods of the nodes, the weights of the terms between a pod and
  -- the incoming one that match, where the node shares the topology of the pod's, the terms of
  -- anti-affinity with a negative sign.
  pub run_score-pairwise :
      (claimed : List (NodeInfo S) → List (NodeInfo S)) (slot : Slot (PreScoreState S))
      (prepared : Prepared S)
      → IsSchedule claimed
      → prepare pl pod ≡ pass prepared
      → ((pre_score pl claimed slot pod ≡ (slot, skip)) × (pairwise_score prepared ≡ 0))
        ⊎ ((s : PreScoreState S) × (pre_score pl claimed slot pod ≡ (holds s, success))
            × (run_score (holds s) info ≡ ok (pairwise_score prepared)))
  unfolding pre_score run_score total
  run_score-pairwise claimed slot prepared fair e =
      let nodes = claimed prepared.all_nodes in
      let perm =
        sum_over-perm (node_score pl info.node pod prepared) nodes prepared.all_nodes
          (fair prepared.all_nodes) in
      elim (Bool-cases (claims_none pl prepared pod nodes)) [
        | inl h ↦ inl (
          rw (pre_score, e, h) refl,
          omega (arith, perm, claims_none-zero pl info.node pod prepared nodes h),
        )
        | inr h ↦ inr (
          scored_state pl prepared pod nodes,
          rw (pre_score, e, h) refl,
          ap ok (
              score_topologies-total info.node _ 0 (omega arith)
              ∙ omega (arith, perm, append_nodes-Adds pl info.node pod prepared nodes [] tt)),
        )
      ]
