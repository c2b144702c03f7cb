-- ===== src/PodTopologySpread/Scoring.antt =====
-- pkg/podtopologyspread/scoring.go: `PreScore` and `Score`. The workers of `parallelizer.Until` add
-- to shared counters: `order` puts all their atomic additions in the order of one run. `log` is
-- `math.Log`. Cancelling the context is not modelled.
pub mod Order
pub mod Counters
pub mod Safety
use cozystack_scheduler.Prelude.{
  ℕ, zero, suc, ◌+◌, ◌-◌, ◌%◌, ◌^◌, String, Bool, true, false, not, ◌&&◌, ◌||◌, Option, none, some,
  List, [], ◌∷◌, ◌++◌, map, if◌then◌else◌, is_empty, ◌==◌, string_eq, length,
}
use cozystack_scheduler.GoMap.{GoMap, lookup, insert, lookup_or}
use cozystack_scheduler.GoSet.{has, insert_name}
use cozystack_scheduler.Result.{external, Result, ok, err, wrap, wrap_named, map_error, ◌>>=◌}
use cozystack_scheduler.Words.{add64, sub64, extend32}
use cozystack_scheduler.Float64.{Float64, of_int64, mul, add, round_to_int64}
use cozystack_scheduler.Api.{Pod, Node, Labels, schedule_anyway}
use cozystack_scheduler.Framework.{
  NodeInfo, Status, success, skip, error_status, Slot, holds, read_slot,
}
use cozystack_scheduler.Merge.Types.{TopologySpreadTerms}
use cozystack_scheduler.Merge.{merge_topology_spread_constraints}
use cozystack_scheduler.PodTopologySpread.{
  Constraint, PodTopologySpread, node_labels_match_spread_constraints,
  filter_topology_spread_constraints, build_default_constraints, raw_constraints,
  count_pods_match_selector,
}
use cozystack_scheduler.PodTopologySpread.State.{TopologyCount, skips_node, tp_counts}

-- `preScoreState`; a missing key of a map is a nil pointer.
pub record PreScoreState (S : Type 0) : Type 0 where
  pub constraints : List (Constraint S)
  pub ignored_nodes : List String
  pub topology_value_to_pod_counts : List (GoMap String ℕ)
  pub topology_normalizing_weight : List Float64

-- `v1.LabelHostname`
abbrev pub label_hostname : String
label_hostname = "kubernetes.io/hostname"

abbrev pub is_hostname : {S : Type 0} → Constraint S → Bool
is_hostname c = c.topology_key == label_hostname

abbrev pub topology_normalizing_weight : (Float64 → Float64) → ℕ → Float64
topology_normalizing_weight log size = log (of_int64 (add64 size 2))

-- On a platform that does not fuse the product and the sum, as amd64.
abbrev pub score_for_count : ℕ → ℕ → Float64 → Float64
score_for_count cnt max_skew tp_weight =
    add (mul (of_int64 cnt) tp_weight) (of_int64 (extend32 ((max_skew + (2 ^ 32 - 1)) % 2 ^ 32)))

-- The map and the `topoSize` of a constraint, with a zero counter for the value.
abbrev pub seed : String → GoMap String ℕ × ℕ → GoMap String ℕ × ℕ
seed value (m, size) = elim (lookup value m) [
  | none ↦ (insert value 0 m, add64 size 1)
  | some n ↦ (m, size)
]

abbrev pub seed_each :
    {S : Type 0}
    → Node
    → List (Constraint S)
    → List (GoMap String ℕ × ℕ)
    → List (GoMap String ℕ × ℕ)
seed_each node (c ∷ cs) (s ∷ ss) =
    let rest = seed_each node cs ss in
    if is_hostname c then s ∷ rest else seed (lookup_or "" c.topology_key node.labels) s ∷ rest
seed_each node cs ss = ss

-- The node lacks a topology key that it has to have.
abbrev pub lacks_key : {S : Type 0} → Bool → Node → List (Constraint S) → Bool
lacks_key require_all node cs =
    require_all && not (node_labels_match_spread_constraints node.labels cs)

-- The loop over the filtered nodes: the ignored ones, and the seeds of the others.
unfoldable pub seed_nodes :
    {S : Type 0}
    → Bool
    → List (Constraint S)
    → List (NodeInfo S)
    → List String × List (GoMap String ℕ × ℕ)
    → List String × List (GoMap String ℕ × ℕ)
seed_nodes require_all cs [] state = state
seed_nodes require_all cs (n ∷ nodes) (ignored, seeds) = seed_nodes require_all cs nodes (
    if lacks_key require_all n.node cs
    then (insert_name ignored n.node.name, seeds)
    else (ignored, seed_each n.node cs seeds))

-- The number of topologies of each constraint, as a weight.
abbrev pub weights :
    {S : Type 0}
    → (Float64 → Float64)
    → ℕ
    → List (Constraint S)
    → List (GoMap String ℕ × ℕ)
    → List Float64
weights log hosts (c ∷ cs) ((m, size) ∷ ss) =
    topology_normalizing_weight log (if is_hostname c then hosts else size)
    ∷ weights log hosts cs ss
weights log hosts cs ss = []

abbrev pub counters : GoMap String ℕ × ℕ → GoMap String ℕ
counters (m, size) = m

unfoldable pub seeded_state :
    {S : Type 0}
    → (Float64 → Float64)
    → Bool
    → List (Constraint S)
    → List (NodeInfo S)
    → PreScoreState S
seeded_state log require_all cs filtered =
    let (ignored, seeds) = seed_nodes require_all cs filtered ([], map (λ c. ([], 0)) cs) in
    record {
      constraints = cs;
      ignored_nodes = ignored;
      topology_value_to_pod_counts = map counters seeds;
      topology_normalizing_weight = weights log (sub64 (length filtered) (length ignored)) cs seeds;
    }

-- *m[value] += count, where that pointer is not nil
abbrev pub atomic_add : String → ℕ → GoMap String ℕ → GoMap String ℕ
atomic_add value count [] = []
atomic_add value count ((v, n) ∷ m) =
    let rest = atomic_add value count m in
    if v == value then (v, add64 n count) ∷ m else (v, n) ∷ rest

abbrev pub atomic_add_at : TopologyCount → ℕ → List (GoMap String ℕ) → List (GoMap String ℕ)
atomic_add_at t id [] = []
atomic_add_at t zero (m ∷ ms) = atomic_add t.topology_value t.count m ∷ ms
atomic_add_at t (suc id) (m ∷ ms) = m ∷ atomic_add_at t id ms

unfoldable pub atomic_adds : List TopologyCount → List (GoMap String ℕ) → List (GoMap String ℕ)
atomic_adds [] ms = ms
atomic_adds (t ∷ ts) ms = atomic_adds ts (atomic_add_at t t.constraint_id ms)

module _ {S R Object Raw : Type 0} (pl : PodTopologySpread S R Object Raw)
    (log : Float64 → Float64) where
  abbrev pub soft_constraints : Pod → Result (List (Constraint S))
  soft_constraints pod = do
    merged ← merge_topology_spread_constraints pl.merger pod
    let raw = raw_constraints pod merged
    (if is_empty raw
        then map_error (wrap "setting default soft topology spread constraints")
            (build_default_constraints pl pod schedule_anyway)
        else map_error (wrap "obtaining pod's soft topology spread constraints")
            (filter_topology_spread_constraints pl raw pod.labels schedule_anyway))

  unfoldable pub init_pre_score_state : Pod → List (NodeInfo S) → Bool → Result (PreScoreState S)
  init_pre_score_state pod filtered require_all = do
    constraints ← soft_constraints pod
    ok (
        if is_empty constraints
        then record {
          constraints = [];
          ignored_nodes = [];
          topology_value_to_pod_counts = [];
          topology_normalizing_weight = [];
        }
        else seeded_state log require_all constraints filtered)

  abbrev pub has_merged_constraints : Result (Option TopologySpreadTerms) → Bool
  has_merged_constraints (ok (some merged)) = not (is_empty merged.constraints)
  has_merged_constraints r = false

  abbrev pub require_all_topologies : Pod → Bool
  require_all_topologies pod =
      not (is_empty pod.spec.topology_spread_constraints)
      || has_merged_constraints (merge_topology_spread_constraints pl.merger pod)
      || not pl.system_defaulted

  -- `processAllNode`: its additions, of which `atomic_add` drops those to a nil counter.
  abbrev pub node_adds : Pod → Bool → List (Constraint S) → NodeInfo S → List TopologyCount
  node_adds pod require_all cs info =
      if skips_node pl pod info.node || lacks_key require_all info.node cs
      then []
      else tp_counts pl pod info 0 cs

  abbrev pub all_adds : Pod → Bool → List (Constraint S) → List (NodeInfo S) → List TopologyCount
  all_adds pod require_all cs [] = []
  all_adds pod require_all cs (n ∷ nodes) =
      node_adds pod require_all cs n ++ all_adds pod require_all cs nodes

  abbrev pub count_pods :
      (List TopologyCount → List TopologyCount)
      → Pod
      → Bool
      → List (NodeInfo S)
      → PreScoreState S
      → PreScoreState S
  count_pods order pod require_all all_nodes s = record s {
    topology_value_to_pod_counts =
        atomic_adds (order (all_adds pod require_all s.constraints all_nodes))
          s.topology_value_to_pod_counts;
  }

  -- The slot after the call, and the status.
  unfoldable pub pre_score :
      (List TopologyCount → List TopologyCount)
      → Slot (PreScoreState S)
      → Pod
      → List (NodeInfo S)
      → Slot (PreScoreState S) × Status
  pre_score order slot pod filtered =
      let require_all = require_all_topologies pod in
      elim pl.list [
        | err e ↦ (slot, error_status (wrap "getting all nodes" e))
        | ok all_nodes ↦
            if is_empty all_nodes
            then (slot, skip)
            else elim (init_pre_score_state pod filtered require_all) [
              | err e ↦ (slot, error_status (wrap "calculating preScoreState" e))
              | ok s ↦
                  if is_empty s.constraints
                  then (slot, skip)
                  else (holds (count_pods order pod require_all all_nodes s), success)
            ]
      ]

abbrev pub get_pre_score_state : {S : Type 0} → Slot (PreScoreState S) → Result (PreScoreState S)
get_pre_score_state =
    read_slot
      (wrap_named "error reading from cycleState" "PreScoreCozystackPodTopologySpread"
        (external "not found"))
      (external "convert to podtopologyspread.preScoreState error")

module _ {S R Object Raw : Type 0} (pl : PodTopologySpread S R Object Raw) where
  -- The count of a constraint for the node's value; none where the code dereferences nil.
  abbrev pub topology_count : Pod → NodeInfo S → Constraint S → GoMap String ℕ → String → Option ℕ
  topology_count pod info c m tp_val =
      if is_hostname c
      then some (count_pods_match_selector pl.selectors info.pods c.selector pod.namespace)
      else lookup tp_val m

  -- The loop of `Score`; none where Go panics.
  unfoldable pub score_each :
      Pod
      → NodeInfo S
      → List (Constraint S)
      → List (GoMap String ℕ)
      → List Float64
      → Float64
      → Option Float64
  score_each pod info [] ms ws score = some score
  score_each pod info (c ∷ cs) (m ∷ ms) (w ∷ ws) score =
      elim (lookup c.topology_key info.node.labels) [
        | none ↦ score_each pod info cs ms ws score
        | some tp_val ↦ elim (topology_count pod info c m tp_val) [
          | none ↦ none
          | some cnt ↦ score_each pod info cs ms ws (add score (score_for_count cnt c.max_skew w))
        ]
      ]
  score_each pod info (c ∷ cs) ms ws score = elim (lookup c.topology_key info.node.labels) [
    | none ↦ score_each pod info cs [] [] score
    | some tp_val ↦ none
  ]

  abbrev pub rounded : Option Float64 → Option (Result ℕ)
  rounded none = none
  rounded (some score) = some (ok (round_to_int64 score))

  -- The score, or the status of an error; none where Go panics.
  unfoldable pub run_score : Slot (PreScoreState S) → Pod → NodeInfo S → Option (Result ℕ)
  run_score slot pod info = elim (get_pre_score_state slot) [
    | err e ↦ some (err e)
    | ok s ↦
        if has s.ignored_nodes info.node.name
        then some (ok 0)
        else rounded (
            score_each pod info s.constraints s.topology_value_to_pod_counts
              s.topology_normalizing_weight (record { negative = false; magnitude = 0 }))
  ]
