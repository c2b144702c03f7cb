-- ===== src/PodTopologySpread/Hints.antt =====
-- pkg/podtopologyspread/plugin.go: the queueing hints. An event has an old object, a new one, or both;
-- comparisons of whole values by `equality.Semantic.DeepEqual` are parameters.
pub mod Skipping
pub mod Nodes
use cozystack_scheduler.Prelude.{
  Bool, true, false, not, ◌&&◌, ◌||◌, List, if◌then◌else◌, ◌==◌, string_eq, any,
}
use cozystack_scheduler.GoMap.{lookup_or}
use cozystack_scheduler.Result.{Result, ok, ◌>>=◌}
use cozystack_scheduler.Api.{Labels, Pod, Node, Taint, Toleration}
use cozystack_scheduler.Framework.{
  QueueingHint, queue, queue_skip, queue_if, Event, created, deleted, updated,
}
use cozystack_scheduler.PodTopologySpread.{
  Constraint, PodTopologySpread, is_honor, get_constraints, node_labels_match_spread_constraints,
  pod_labels_match_spread_constraints,
}

-- `equality.Semantic.DeepEqual` at the types it is called at.
pub record DeepEqual : Type 0 where
  pub same_labels : Labels → Labels → Bool
  pub same_tolerations : List Toleration → List Toleration → Bool
  pub same_taints : List Taint → List Taint → Bool

abbrev pub involved_in_topology_spreading : Pod → Pod → Bool
involved_in_topology_spreading incoming with_spreading =
    incoming.uid == with_spreading.uid
    || (not (incoming.spec.node_name == "") && incoming.namespace == with_spreading.namespace)

abbrev pub has_constraint_with_node_taints_policy_honor : {S : Type 0} → List (Constraint S) → Bool
has_constraint_with_node_taints_policy_honor cs = any (λ c. is_honor c.node_taints_policy) cs

abbrev pub check_topology_key_labels_changed :
    {S : Type 0} → Labels → Labels → List (Constraint S) → Bool
check_topology_key_labels_changed original modified cs =
    any (λ c. not (lookup_or "" c.topology_key original == lookup_or "" c.topology_key modified)) cs

abbrev pub differ : Bool → Bool → Bool
differ true b = not b
differ false b = b

-- All pods of the event concern the spreading of `pod`.
abbrev pub event_involved : Pod → Event Pod → Bool
event_involved pod (created new) = involved_in_topology_spreading new pod
event_involved pod (deleted old) = involved_in_topology_spreading old pod
event_involved pod (updated old new) =
    involved_in_topology_spreading new pod && involved_in_topology_spreading old pod

module _ {S R Object Raw : Type 0} (pl : PodTopologySpread S R Object Raw) (eq : DeepEqual) where
  -- The hint behind the guard and the constraints.
  abbrev pub pod_change_hint : Pod → List (Constraint S) → Event Pod → QueueingHint
  pod_change_hint pod cs (created new) =
      queue_if (pod_labels_match_spread_constraints pl.selectors cs new.labels)
  pod_change_hint pod cs (deleted old) =
      queue_if (pod_labels_match_spread_constraints pl.selectors cs old.labels)
  pod_change_hint pod cs (updated old new) =
      if pod.uid == new.uid
        && not (eq.same_tolerations new.spec.tolerations old.spec.tolerations)
        && has_constraint_with_node_taints_policy_honor cs
      then queue
      else if eq.same_labels new.labels old.labels
      then queue_skip
      else queue_if (
          any
            (λ c.
              differ (pl.selectors.matches c.selector old.labels)
                (pl.selectors.matches c.selector new.labels))
            cs)

  -- An error makes the scheduler queue the pod again.
  unfoldable pub is_schedulable_after_pod_change : Pod → Event Pod → Result QueueingHint
  is_schedulable_after_pod_change pod event =
      if event_involved pod event
      then (do cs ← get_constraints pl pod; ok (pod_change_hint pod cs event))
      else ok queue_skip

  abbrev pub node_change_hint : List (Constraint S) → Event Node → QueueingHint
  node_change_hint cs (created new) = queue_if (node_labels_match_spread_constraints new.labels cs)
  node_change_hint cs (deleted old) = queue_if (node_labels_match_spread_constraints old.labels cs)
  node_change_hint cs (updated old new) =
      let modified_matching = node_labels_match_spread_constraints new.labels cs in
      if differ (node_labels_match_spread_constraints old.labels cs) modified_matching
      then queue
      else queue_if (
          modified_matching
          && (check_topology_key_labels_changed old.labels new.labels cs
              || not (eq.same_taints old.taints new.taints)))

  unfoldable pub is_schedulable_after_node_change : Pod → Event Node → Result QueueingHint
  is_schedulable_after_node_change pod event = do
    cs ← get_constraints pl pod
    ok (node_change_hint cs event)
