-- ===== src/InterPodAffinity/Scoring.antt =====
-- pkg/interpodaffinity/scoring.go: `PreScore` and `Score`. As in filtering.go, `claimed` gives the
-- nodes in the order in which the workers claim the slots of their results; the shared lister is set.
pub mod Totals
pub mod Terms
pub mod Sums
use cozystack_scheduler.Prelude.{
  ℕ, String, Bool, true, false, not, ◌&&◌, ◌||◌, Option, none, some, List, [], ◌∷◌, string_eq,
  if◌then◌else◌, is_empty,
}
use cozystack_scheduler.GoMap.{GoMap, lookup, insert, lookup_or}
use cozystack_scheduler.Result.{Error, external, wrap, Result, ok, err, traverse}
use cozystack_scheduler.Result
use cozystack_scheduler.Words.{add64, slt, extend32, mul32, minus_one32}
use cozystack_scheduler.Api.{Labels, Pod, Node, Affinity, PodAffinity}
use cozystack_scheduler.Merge.Types.{AffinityTerm, WeightedAffinityTerm, InterPodAffinityTerms}
use cozystack_scheduler.Merge.InterPod.{merge_inter_pod_affinity}
use cozystack_scheduler.Framework.{
  PodInfo, NodeInfo, Status, success, skip, error_status, Slot, holds, read_slot, Check, pass, stop,
  ◌>>=◌, or_status,
}
use cozystack_scheduler.InterPodAffinity.{InterPodAffinity}
use cozystack_scheduler.InterPodAffinity.Plugin.{
  merge_affinity_term_namespaces_if_not_empty, get_namespace_labels_snapshot,
}

-- `scoreMap`
abbrev pub ScoreMap : Type 0
ScoreMap = GoMap String (GoMap String ℕ)

-- `preScoreState`
pub record PreScoreState (S : Type 0) : Type 0 where
  pub topology_score : ScoreMap
  pub pod_info : PodInfo S
  pub namespace_labels : Labels

-- scores[k] += v
abbrev pub add_score : String → ℕ → GoMap String ℕ → GoMap String ℕ
add_score k v scores = insert k (add64 (lookup_or 0 k scores) v) scores

-- The inner loop of `append`.
abbrev pub add_scores : GoMap String ℕ → GoMap String ℕ → GoMap String ℕ
add_scores [] scores = scores
add_scores ((k, v) ∷ other) scores = add_scores other (add_score k v scores)

unfoldable pub append : ScoreMap → ScoreMap → ScoreMap
append m [] = m
append m ((topology, o_scores) ∷ other) =
    append
      (elim (lookup topology m) [
        | none ↦ insert topology o_scores m
        | some scores ↦ insert topology (add_scores o_scores scores) m
      ])
      other

module _ {S : Type 0} (matches : AffinityTerm S → Pod → Labels → Bool) where
  unfoldable pub process_term : AffinityTerm S → ℕ → Pod → Labels → Node → ℕ → ScoreMap → ScoreMap
  process_term term weight pod ns_labels node multiplier m =
      if matches term pod ns_labels
      then elim (lookup term.topology_key node.labels) [
        | none ↦ m
        | some tp_value ↦
            insert term.topology_key
              (add_score tp_value (extend32 (mul32 weight multiplier))
                (lookup_or [] term.topology_key m))
              m
      ]
      else m

  unfoldable pub process_terms :
      List (WeightedAffinityTerm S) → Pod → Labels → Node → ℕ → ScoreMap → ScoreMap
  process_terms [] pod ns_labels node multiplier m = m
  process_terms (t ∷ terms) pod ns_labels node multiplier m =
      process_terms terms pod ns_labels node multiplier
        (process_term t.affinity_term t.weight pod ns_labels node multiplier m)

  -- The loop over the required terms of an existing pod.
  unfoldable pub process_hard_terms :
      List (AffinityTerm S) → ℕ → Pod → Labels → Node → ScoreMap → ScoreMap
  process_hard_terms [] weight pod ns_labels node m = m
  process_hard_terms (t ∷ terms) weight pod ns_labels node m =
      process_hard_terms terms weight pod ns_labels node
        (process_term t weight pod ns_labels node 1 m)

-- What `PreScore` has prepared when its workers start.
pub record Prepared (S : Type 0) : Type 0 where
  pub has_constraints : Bool
  pub all_nodes : List (NodeInfo S)
  pub pod_info : PodInfo S
  pub namespace_labels : Labels

module _ {S Object Raw : Type 0} (pl : InterPodAffinity S Object Raw) where
  unfoldable pub process_existing_pod :
      PodInfo S → Labels → PodInfo S → Node → Pod → ScoreMap → ScoreMap
  process_existing_pod pod_info ns_labels existing node incoming m =
      if is_empty node.labels
      then m
      else let own =
          process_terms pl.matches pod_info.preferred_anti_affinity_terms existing.pod [] node
            minus_one32
            (process_terms pl.matches pod_info.preferred_affinity_terms existing.pod [] node 1 m) in
        let hard =
          if slt 0 (extend32 pl.hard_pod_affinity_weight) && not (is_empty node.labels)
          then process_hard_terms pl.matches existing.required_affinity_terms
              pl.hard_pod_affinity_weight incoming ns_labels node own
          else own in
        process_terms pl.matches existing.preferred_anti_affinity_terms incoming ns_labels node
          minus_one32
          (process_terms pl.matches existing.preferred_affinity_terms incoming ns_labels node 1
            hard)

  unfoldable pub process_existing_pods :
      PodInfo S → Labels → List (PodInfo S) → Node → Pod → ScoreMap → ScoreMap
  process_existing_pods pod_info ns_labels [] node incoming m = m
  process_existing_pods pod_info ns_labels (p ∷ pods) node incoming m =
      process_existing_pods pod_info ns_labels pods node incoming
        (process_existing_pod pod_info ns_labels p node incoming m)

  abbrev pub pods_to_process : Bool → NodeInfo S → List (PodInfo S)
  pods_to_process has_constraints info =
      if has_constraints then info.pods else info.pods_with_affinity

  -- `processNode`
  abbrev pub process_node : Prepared S → Pod → NodeInfo S → ScoreMap
  process_node prepared pod info =
      process_existing_pods prepared.pod_info prepared.namespace_labels
        (pods_to_process prepared.has_constraints info) info.node pod []

  -- The claimed slots, appended in turn; a node with no scores claims none.
  unfoldable pub append_nodes : Prepared S → Pod → List (NodeInfo S) → ScoreMap → ScoreMap
  append_nodes prepared pod [] m = m
  append_nodes prepared pod (n ∷ claimed) m =
      append_nodes prepared pod claimed (append m (process_node prepared pod n))

  -- `index == -1`: no node claimed a slot.
  unfoldable pub claims_none : Prepared S → Pod → List (NodeInfo S) → Bool
  claims_none prepared pod [] = true
  claims_none prepared pod (n ∷ claimed) =
      is_empty (process_node prepared pod n) && claims_none prepared pod claimed

  abbrev pub preferred_count : Option PodAffinity → Bool
  preferred_count none = false
  preferred_count (some a) = not (is_empty a.preferred)

  abbrev pub own_constraints : Option Affinity → Bool
  own_constraints none = false
  own_constraints (some a) = preferred_count a.pod_affinity || preferred_count a.pod_anti_affinity

  abbrev pub has_constraints : Pod → Option (InterPodAffinityTerms S) → Bool
  has_constraints pod none = own_constraints pod.spec.affinity
  has_constraints pod (some merged) =
      own_constraints pod.spec.affinity
      || not (is_empty merged.preferred_affinity_terms)
      || not (is_empty merged.preferred_anti_affinity_terms)

  -- `if merged != nil` in `PreScore`
  abbrev pub replace_preferred_terms : PodInfo S → Option (InterPodAffinityTerms S) → PodInfo S
  replace_preferred_terms info none = info
  replace_preferred_terms info (some merged) = record info {
    preferred_affinity_terms = merged.preferred_affinity_terms;
    preferred_anti_affinity_terms = merged.preferred_anti_affinity_terms;
  }

  abbrev pub with_affinity_term :
      WeightedAffinityTerm S → Result (AffinityTerm S) → Result (WeightedAffinityTerm S)
  with_affinity_term t (ok at) = ok (record t { affinity_term = at })
  with_affinity_term t (err e) = err e

  abbrev pub merge_namespaces :
      List (WeightedAffinityTerm S) → Result (List (WeightedAffinityTerm S))
  merge_namespaces =
      traverse
        (λ t. with_affinity_term t (merge_affinity_term_namespaces_if_not_empty pl t.affinity_term))

  abbrev pub nodes_to_process : Bool → Check (List (NodeInfo S))
  nodes_to_process true =
      or_status (λ e. error_status (wrap "failed to get all nodes from shared lister" e)) pl.list
  nodes_to_process false =
      or_status (λ e. error_status (wrap "failed to get pods with affinity list" e))
        pl.have_pods_with_affinity_list

  abbrev pub not_ignored : Bool → Check Bool
  not_ignored constrained =
      if pl.ignore_preferred_terms_of_existing_pods && not constrained
      then stop skip
      else pass constrained

  -- `PreScore` up to its workers.
  unfoldable pub prepare : Pod → Check (Prepared S)
  prepare pod = do
    merged ← or_status error_status (merge_inter_pod_affinity pl.parser pl.merger pod)
    constrained ← not_ignored (has_constraints pod merged)
    all_nodes ← nodes_to_process constrained
    info ← or_status (λ e. error_status (wrap "failed to parse pod" e)) (pl.new_pod_info pod)
    let replaced = replace_preferred_terms info merged
    affinity ←
        or_status (λ e. error_status (wrap "updating PreferredAffinityTerms" e))
          (merge_namespaces replaced.preferred_affinity_terms)
    anti_affinity ←
        or_status (λ e. error_status (wrap "updating PreferredAntiAffinityTerms" e))
          (merge_namespaces replaced.preferred_anti_affinity_terms)
    pass (record {
      has_constraints = constrained;
      all_nodes = all_nodes;
      pod_info = record replaced {
        preferred_affinity_terms = affinity;
        preferred_anti_affinity_terms = anti_affinity;
      };
      namespace_labels = get_namespace_labels_snapshot pl pod.namespace;
    })

  abbrev pub scored_state : Prepared S → Pod → List (NodeInfo S) → PreScoreState S
  scored_state prepared pod claimed = record {
    topology_score = append_nodes prepared pod claimed [];
    pod_info = prepared.pod_info;
    namespace_labels = prepared.namespace_labels;
  }

  -- The slot after the call, and the status.
  unfoldable pub pre_score :
      (List (NodeInfo S) → List (NodeInfo S))
      → Slot (PreScoreState S)
      → Pod
      → Slot (PreScoreState S) × Status
  pre_score claimed slot pod = elim (prepare pod) [
    | stop status ↦ (slot, status)
    | pass prepared ↦
        if claims_none prepared pod (claimed prepared.all_nodes)
        then (slot, skip)
        else (holds (scored_state prepared pod (claimed prepared.all_nodes)), success)
  ]

-- What the errors of `getPreScoreState` say; the lower error's text is left out.
abbrev pub get_pre_score_state : {S : Type 0} → Slot (PreScoreState S) → Result (PreScoreState S)
get_pre_score_state =
    read_slot (external "failed to read PreScoreCozystackInterPodAffinity from cycleState")
      (external "convert to interpodaffinity.preScoreState error")

-- The loop of `Score`.
unfoldable pub score_topologies : ScoreMap → Node → ℕ → ℕ
score_topologies [] node score = score
score_topologies ((tp_key, tp_values) ∷ m) node score =
    score_topologies m node (elim (lookup tp_key node.labels) [
      | none ↦ score
      | some v ↦ add64 score (lookup_or 0 v tp_values)
    ])

-- The score, or the status of an error.
unfoldable pub run_score : {S : Type 0} → Slot (PreScoreState S) → NodeInfo S → Result ℕ
run_score slot info = elim (get_pre_score_state slot) [
  | err e ↦ err e
  | ok s ↦ ok (score_topologies s.topology_score info.node 0)
]
