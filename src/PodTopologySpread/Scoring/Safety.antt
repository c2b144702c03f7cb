-- ===== src/PodTopologySpread/Scoring/Safety.antt =====
-- `Score` after `PreScore` (pkg/podtopologyspread/scoring.go) and the counters that it dereferences.
use cozystack_scheduler.Prelude.{
  ℕ, ◌≡◌, refl, ap, ◌∙◌, sym, inl, inr, String, Bool, true, false, ◌||◌, some, List, [], ◌∷◌, map,
  string_eq, Bool-cases, Option-cases, arith, is_empty, All, All-map,
}
use cozystack_scheduler.GoMap.{GoMap, lookup}
use cozystack_scheduler.GoSet.{has}
use cozystack_scheduler.Result.{ok, Result-cases}
use cozystack_scheduler.Float64.{Float64, add, round_to_int64}
use cozystack_scheduler.Api.{Pod}
use cozystack_scheduler.Framework.{NodeInfo, Slot, holds, success}
use cozystack_scheduler.PodTopologySpread.{Constraint, PodTopologySpread, count_pods_match_selector}
use cozystack_scheduler.PodTopologySpread.State.{TopologyCount}
use cozystack_scheduler.PodTopologySpread.Scoring.{
  PreScoreState, is_hostname, seed_nodes, counters, seeded_state, pre_score, run_score, score_each,
  score_for_count, topology_count, init_pre_score_state, require_all_topologies, count_pods,
  all_adds, soft_constraints,
}
use cozystack_scheduler.PodTopologySpread.Scoring.Counters.{
  has_key, enough, node_value, covered, covered-atomic_adds, enough-map, enough-weights, settled,
  enough-seed_nodes, seed_nodes-settled,
}

module _ {S R Object Raw : Type 0} (pl : PodTopologySpread S R Object Raw) (pod : Pod) where
  topology_count-some :
      (n : NodeInfo S) (c : Constraint S) (m : GoMap String ℕ) (v : String)
      → lookup c.topology_key n.node.labels ≡ some v
      → (is_hostname c || has_key (node_value n.node c) m) ≡ true
      → (k : ℕ) × (topology_count pl pod n c m v ≡ some k)
  topology_count-some n c m v e h = elim (Bool-cases (is_hostname c)) [
    | inl f ↦ (
      count_pods_match_selector pl.selectors n.pods c.selector pod.namespace,
      rw (topology_count, f) refl,
    )
    | inr f ↦ elim (Option-cases (lookup v m)) [
      | inl g ↦ ground arith
      | inr (k, g) ↦ (k, rw (topology_count, f) g)
    ]
  ]

  score_each-some :
      (n : NodeInfo S) (cs : List (Constraint S)) (ms : List (GoMap String ℕ)) (ws : List Float64)
      (acc : Float64)
      → covered n.node cs ms ≡ true
      → enough cs ws ≡ true
      → (x : Float64) × (score_each pl pod n cs ms ws acc ≡ some x)
  unfolding score_each
  score_each-some n [] ms ws acc h w = (acc, refl)
  score_each-some n (c ∷ cs) [] ws acc h g = cc
  score_each-some n (c ∷ cs) (m ∷ ms) [] acc h g = cc
  score_each-some n (c ∷ cs) (m ∷ ms) (w ∷ ws) acc h g =
      elim (Option-cases (lookup c.topology_key n.node.labels)) [
        | inl e ↦
            let (x, r) = score_each-some n cs ms ws acc (ground arith) g in
            (x, rw (score_each, e) r)
        | inr (v, e) ↦
            let (k, f) = topology_count-some n c m v e (ground arith) in
            let (x, r) =
              score_each-some n cs ms ws (add acc (score_for_count k c.max_skew w)) (ground arith)
                g in
            (x, rw (score_each, e, f) r)
      ]

  run_score-some :
      (n : NodeInfo S) (s : PreScoreState S)
      → (has s.ignored_nodes n.node.name
          || covered n.node s.constraints s.topology_value_to_pod_counts)
        ≡ true
      → enough s.constraints s.topology_normalizing_weight ≡ true
      → (k : ℕ) × (run_score pl (holds s) pod n ≡ some (ok k))
  unfolding run_score
  run_score-some n s h g = elim (Bool-cases (has s.ignored_nodes n.node.name)) [
    | inl e ↦ (0, rw (run_score, e) refl)
    | inr e ↦
        let (x, r) =
          score_each-some n s.constraints s.topology_value_to_pod_counts
            s.topology_normalizing_weight (record { negative = false; magnitude = 0 })
            (ground arith) g in
        (round_to_int64 x, rw (run_score, e, r) refl)
  ]

  module _ (log : Float64 → Float64) where
    pre_score-holds :
        (order : List TopologyCount → List TopologyCount) (slot slot' : Slot (PreScoreState S))
        (filtered : List (NodeInfo S))
        → pre_score pl log order slot pod filtered ≡ (slot', success)
        → (nodes : List (NodeInfo S)) × (cs : List (Constraint S)) × (slot'
            ≡ holds (
                count_pods pl log order pod
                  (require_all_topologies pl log pod)
                  nodes
                  (seeded_state log (require_all_topologies pl log pod) cs filtered)))
    unfolding pre_score init_pre_score_state seeded_state
    pre_score-holds order slot slot' filtered h = elim (Result-cases pl.list) [
      | inr (e, l) ↦ ground arith
      | inl (nodes, l) ↦ elim (Result-cases (soft_constraints pl log pod)) [
        | inr (e, f) ↦ ground arith
        | inl (cs, f) ↦ elim (Bool-cases (is_empty nodes)) [
          | inl z ↦ ground arith
          | inr z ↦ elim (Bool-cases (is_empty cs)) [
            | inl y ↦ ground arith
            | inr y ↦
                let ra = require_all_topologies pl log pod in
                let state =
                  holds (count_pods pl log order pod ra nodes (seeded_state log ra cs filtered)) in
                let q : pre_score pl log order slot pod filtered ≡ (state, success) =
                  rw (pre_score, l, z, init_pre_score_state, f, y, seeded_state, y) refl in
                (nodes, cs, ap (λ p. p.0) (sym h ∙ q))
          ]
        ]
      ]
    ]

    seeded_state-some :
        (order : List TopologyCount → List TopologyCount) (ra : Bool) (nodes : List (NodeInfo S))
        (cs : List (Constraint S)) (filtered : List (NodeInfo S)) (n : NodeInfo S)
        → settled cs (seed_nodes ra cs filtered ([], map (λ c. ([], 0)) cs)) n ≡ true
        → (k : ℕ) × (run_score pl
              (holds (count_pods pl log order pod ra nodes (seeded_state log ra cs filtered)))
              pod
              n
            ≡ some (ok k))
    unfolding seeded_state
    seeded_state-some order ra nodes cs filtered n st =
        let ss =
          (seed_nodes ra cs filtered ([], map {B = GoMap String ℕ × ℕ} (λ c. ([], 0)) cs)).1 in
        run_score-some n _
          (rw
            (covered-atomic_adds n.node (order (all_adds pl log pod ra cs nodes)) cs
              (map counters ss))
            st)
          (enough-weights log _ cs ss (enough-seed_nodes ra cs filtered _ (enough-map cs)))

    -- Where PreScore succeeds, in whatever order its workers add, Score dereferences no nil pointer
    -- and returns a score for each of the filtered nodes.
    pub run_score-pre_score :
        (order : List TopologyCount → List TopologyCount) (slot slot' : Slot (PreScoreState S))
        (filtered : List (NodeInfo S))
        → pre_score pl log order slot pod filtered ≡ (slot', success)
        → All (λ n. (k : ℕ) × (run_score pl slot' pod n ≡ some (ok k))) filtered
    unfolding pre_score
    run_score-pre_score order slot slot' filtered h =
        let ra = require_all_topologies pl log pod in
        let (nodes, cs, e) = pre_score-holds order slot slot' filtered h in
        let seeds = map {B = GoMap String ℕ × ℕ} (λ c. ([], 0)) cs in
        rw e (
          All-map (seeded_state-some order ra nodes cs filtered) filtered
            (seed_nodes-settled ra cs filtered ([], seeds) (enough-map cs)))
