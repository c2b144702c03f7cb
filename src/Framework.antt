-- ===== src/Framework.antt =====
-- What the plugins take from k8s.io/kubernetes/pkg/scheduler/framework (not in the repository): pods
-- and nodes with their parsed terms, statuses, and the slot of a plugin in a CycleState.
pub mod Rescaling
use cozystack_scheduler.Prelude.{ℕ, String, List, Bool, true, false, Option}
use cozystack_scheduler.Result.{Error, Result, ok, err}
use cozystack_scheduler.Api.{Pod, Node}
use cozystack_scheduler.Merge.Types.{AffinityTerm, WeightedAffinityTerm}

-- `framework.PodInfo`, over the type of label selectors.
pub record PodInfo (S : Type 0) : Type 0 where
  pub pod : Pod
  pub required_affinity_terms : List (AffinityTerm S)
  pub required_anti_affinity_terms : List (AffinityTerm S)
  pub preferred_affinity_terms : List (WeightedAffinityTerm S)
  pub preferred_anti_affinity_terms : List (WeightedAffinityTerm S)

-- `framework.NodeInfo` of a snapshot, where the node is set.
pub record NodeInfo (S : Type 0) : Type 0 where
  pub node : Node
  pub pods : List (PodInfo S)
  pub pods_with_affinity : List (PodInfo S)
  pub pods_with_required_anti_affinity : List (PodInfo S)

-- `*framework.Status`: nil is `success`, and `framework.AsStatus` makes `error_status`.
pub data Status : Type 0 where
  success : Status
  skip : Status
  unschedulable : String → Status
  unschedulable_and_unresolvable : String → Status
  error_status : Error → Status

-- What a CycleState holds under a plugin's key: nothing, a state of the plugin, or another value.
pub data Slot (A : Type 0) : Type 0 where
  absent : Slot A
  holds : A → Slot A
  foreign : Slot A

-- `cycleState.Read(key)` and the type assertion behind it, with the two errors of the caller.
abbrev pub read_slot : {A : Type 0} → Error → Error → Slot A → Result A
read_slot missing wrong absent = err missing
read_slot missing wrong (holds a) = ok a
read_slot missing wrong foreign = err wrong

-- A plugin's early return of a status.
pub data Check (A : Type 0) : Type 0 where
  pass : A → Check A
  stop : Status → Check A

infixl 5 ◌>>=◌
abbrev pub ◌>>=◌ : {A B : Type 0} → Check A → (A → Check B) → Check B
pass a >>= f = f a
stop s >>= f = stop s

-- `if err != nil { return framework.AsStatus(f(err)) }`
abbrev pub or_status : {A : Type 0} → (Error → Status) → Result A → Check A
or_status f (ok a) = pass a
or_status f (err e) = stop (f e)

-- `framework.QueueingHint`
pub data QueueingHint : Type 0 where
  queue queue_skip : QueueingHint

-- `util.As` on the old and the new object: at least one is set.
pub data Event (A : Type 0) : Type 0 where
  created : A → Event A
  deleted : A → Event A
  updated : A → A → Event A

abbrev pub queue_if : Bool → QueueingHint
queue_if true = queue
queue_if false = queue_skip

-- `framework.NodeScore`, with the score as an int64.
pub record NodeScore : Type 0 where
  pub name : String
  pub score : ℕ

-- `framework.MaxNodeScore`
abbrev pub max_node_score : ℕ
max_node_score = 100

-- The flags of `framework.ActionType` that the plugins name; a list of them stands for their `|`.
pub data EventAction : Type 0 where
  add delete update_pod_label update_pod_toleration update_node_label update_node_taint :
      EventAction

-- `framework.ClusterEventWithHint` on pods and on nodes. A list without `Delete` of nodes has a hint
-- for nodes that are added, with no original, or updated.
pub data ClusterEventWithHint : Type 0 where
  pod_events : List EventAction → (Pod → Event Pod → Result QueueingHint) → ClusterEventWithHint
  node_events : List EventAction → (Pod → Event Node → Result QueueingHint) → ClusterEventWithHint
  node_arrivals :
      List EventAction → (Pod → Option Node → Node → Result QueueingHint) → ClusterEventWithHint
