-- ===== src/PodTopologySpread/Events.antt =====
-- pkg/podtopologyspread/plugin.go: `EventsToRegister`, and what of the events its hints hear.
use cozystack_scheduler.Prelude.{
  ℕ, ◌≡◌, refl, Bool, true, false, ◌&&◌, ◌||◌, List, [], ◌∷◌, ◌++◌, if◌then◌else◌, any, arith, eqb,
  Bool-cases, inl, inr, ◌==◌, string_eq,
}
use cozystack_scheduler.Result.{Result, ok, err}
use cozystack_scheduler.Api.{Labels, Pod, Node}
use cozystack_scheduler.Framework.{
  EventAction, add, delete, update_pod_label, update_pod_toleration, update_node_label,
  update_node_taint, ClusterEventWithHint, pod_events, node_events, node_arrivals, Event, created,
  deleted, updated, QueueingHint, queue, queue_skip,
}
use cozystack_scheduler.PodTopologySpread.{
  Constraint, PodTopologySpread, get_constraints, node_labels_match_spread_constraints,
}
use cozystack_scheduler.GoMap.{lookup_or}
use cozystack_scheduler.PodTopologySpread.Hints.{
  DeepEqual, differ, check_topology_key_labels_changed, event_involved, pod_change_hint,
  node_change_hint, is_schedulable_after_pod_change, is_schedulable_after_node_change,
}

-- By `enableSchedulingQueueHint`, which only `EventsToRegister` reads.
abbrev pub pod_action_type : Bool → List EventAction
pod_action_type enabled =
    if enabled
    then add ∷ update_pod_label ∷ update_pod_toleration ∷ delete ∷ []
    else add ∷ update_pod_label ∷ delete ∷ []

abbrev pub events_to_register :
    {S R Object Raw : Type 0}
    → PodTopologySpread S R Object Raw
    → DeepEqual
    → Bool
    → List ClusterEventWithHint
events_to_register pl eq enabled =
    pod_events (pod_action_type enabled) (is_schedulable_after_pod_change pl eq)
    ∷ node_events (add ∷ delete ∷ update_node_label ∷ update_node_taint ∷ [])
        (is_schedulable_after_node_change pl eq)
    ∷ []

abbrev bit : EventAction → ℕ
bit add = 0
bit delete = 1
bit update_pod_label = 2
bit update_pod_toleration = 3
bit update_node_label = 4
bit update_node_taint = 5

-- The two sets of actions meet.
abbrev pub meets : List EventAction → List EventAction → Bool
meets registered actions = any (λ a. any (λ b. eqb (bit a) (bit b)) registered) actions

-- What an event does to the pod or the node.
abbrev pub pod_actions : DeepEqual → Event Pod → List EventAction
pod_actions eq (created new) = add ∷ []
pod_actions eq (deleted old) = delete ∷ []
pod_actions eq (updated old new) =
    (if eq.same_labels new.labels old.labels then [] else update_pod_label ∷ [])
    ++ (if eq.same_tolerations new.spec.tolerations old.spec.tolerations
        then []
        else update_pod_toleration ∷ [])

abbrev pub node_actions : DeepEqual → Event Node → List EventAction
node_actions eq (created new) = add ∷ []
node_actions eq (deleted old) = delete ∷ []
node_actions eq (updated old new) =
    (if eq.same_labels old.labels new.labels then [] else update_node_label ∷ [])
    ++ (if eq.same_taints old.taints new.taints then [] else update_node_taint ∷ [])

-- An error queues the pod.
abbrev pub queues : Result QueueingHint → Bool
queues (err e) = true
queues (ok queue) = true
queues (ok queue_skip) = false

-- An entry of the list has an action of the event, and its hint queues the pod.
abbrev pub pod_heard : DeepEqual → List ClusterEventWithHint → Pod → Event Pod → Bool
pod_heard eq [] pod event = false
pod_heard eq (pod_events actions hint ∷ events) pod event =
    (meets actions (pod_actions eq event) && queues (hint pod event))
    || pod_heard eq events pod event
pod_heard eq (node_events actions hint ∷ events) pod event = pod_heard eq events pod event
pod_heard eq (node_arrivals actions hint ∷ events) pod event = pod_heard eq events pod event

abbrev pub node_heard : DeepEqual → List ClusterEventWithHint → Pod → Event Node → Bool
node_heard eq [] pod event = false
node_heard eq (pod_events actions hint ∷ events) pod event = node_heard eq events pod event
node_heard eq (node_events actions hint ∷ events) pod event =
    (meets actions (node_actions eq event) && queues (hint pod event))
    || node_heard eq events pod event
node_heard eq (node_arrivals actions hint ∷ events) pod event = node_heard eq events pod event

and_true : (a b : Bool) → a ≡ true → ((a && b) || false) ≡ b
and_true a b h = ground arith

and_false : (a b : Bool) → b ≡ false → ((a && b) || false) ≡ b
and_false a b h = ground arith

same_labels-unchanged :
    {S : Type 0} (cs : List (Constraint S)) (a : Labels)
    → check_topology_key_labels_changed a a cs ≡ false
same_labels-unchanged [] a = refl
same_labels-unchanged (c ∷ cs) a =
    let value = lookup_or "" c.topology_key a in
    let self : value == value ≡ true = (string_eq.beq_iff value value).1 refl in
    rw (check_topology_key_labels_changed, self) (same_labels-unchanged cs a)

differ_self : (b : Bool) → differ b b ≡ false
differ_self true = refl
differ_self false = refl

module _ {S R Object Raw : Type 0} (pl : PodTopologySpread S R Object Raw) (eq : DeepEqual)
    (pod : Pod) (cs : List (Constraint S)) where
  unchanged_pod-skip :
      (old new : Pod)
      → eq.same_labels new.labels old.labels ≡ true
      → eq.same_tolerations new.spec.tolerations old.spec.tolerations ≡ true
      → get_constraints pl pod ≡ ok cs
      → queues (is_schedulable_after_pod_change pl eq pod (updated old new)) ≡ false
  unfolding is_schedulable_after_pod_change
  unchanged_pod-skip old new h k found = elim (Bool-cases (event_involved pod (updated old new))) [
    | inl e ↦
        let skipped : pod_change_hint pl eq pod cs (updated old new) ≡ queue_skip =
          rw (pod_change_hint, h, k) (ground arith) in
        rw (is_schedulable_after_pod_change, e, found, skipped) refl
    | inr e ↦ rw (is_schedulable_after_pod_change, e) refl
  ]

  unchanged_node-skip :
      (old new : Node)
      → old.labels ≡ new.labels
      → eq.same_taints old.taints new.taints ≡ true
      → get_constraints pl pod ≡ ok cs
      → queues (is_schedulable_after_node_change pl eq pod (updated old new)) ≡ false
  unfolding is_schedulable_after_node_change
  unchanged_node-skip old new h k found =
      let matching = node_labels_match_spread_constraints new.labels cs in
      let skipped : node_change_hint pl eq cs (updated old new) ≡ queue_skip =
        rw (node_change_hint, h, k, differ_self matching, same_labels-unchanged cs new.labels)
          (ground arith) in
      rw (is_schedulable_after_node_change, found, skipped) refl

  pod-heard :
      (event : Event Pod)
      → get_constraints pl pod ≡ ok cs
      → pod_heard eq (events_to_register pl eq true) pod event
        ≡ queues (is_schedulable_after_pod_change pl eq pod event)
  pod-heard (created new) found = and_true true _ refl
  pod-heard (deleted old) found = and_true true _ refl
  pod-heard (updated old new) found = elim (Bool-cases (eq.same_labels new.labels old.labels)) [
    | inr h ↦ rw (pod_heard, h) (and_true _ _ refl)
    | inl h ↦ elim (Bool-cases (eq.same_tolerations new.spec.tolerations old.spec.tolerations)) [
      | inr k ↦ rw (pod_heard, h, k) (and_true _ _ refl)
      | inl k ↦ and_false _ _ (unchanged_pod-skip old new h k found)
    ]
  ]

  node-heard :
      (event : Event Node) (enabled : Bool)
      → ((a b : Labels) → eq.same_labels a b ≡ true → a ≡ b)
      → get_constraints pl pod ≡ ok cs
      → node_heard eq (events_to_register pl eq enabled) pod event
        ≡ queues (is_schedulable_after_node_change pl eq pod event)
  node-heard (created new) enabled exact found = and_true true _ refl
  node-heard (deleted old) enabled exact found = and_true true _ refl
  node-heard (updated old new) enabled exact found =
      elim (Bool-cases (eq.same_labels old.labels new.labels)) [
        | inr h ↦ rw (node_heard, h) (and_true _ _ refl)
        | inl h ↦ elim (Bool-cases (eq.same_taints old.taints new.taints)) [
          | inr k ↦ rw (node_heard, h, k) (and_true _ _ refl)
          | inl k ↦
              and_false _ _ (unchanged_node-skip old new (exact old.labels new.labels h) k found)
        ]
      ]

  -- With the queueing hints on, where the pod's constraints are found and DeepEqual tells labels
  -- apart: the registered actions hide no event that a hint queues the pod for. An entry has an
  -- action of the event and its hint queues the pod, exactly if the hint for such events does: on
  -- pods that are added, deleted, or updated in labels or tolerations, and on nodes that are added,
  -- deleted, or updated in labels or taints.
  pub events_to_register-heard :
      (pod_event : Event Pod) (node_event : Event Node)
      → ((a b : Labels) → eq.same_labels a b ≡ true → a ≡ b)
      → get_constraints pl pod ≡ ok cs
      → (pod_heard eq (events_to_register pl eq true) pod pod_event
          ≡ queues (is_schedulable_after_pod_change pl eq pod pod_event))
        × (node_heard eq (events_to_register pl eq true) pod node_event
            ≡ queues (is_schedulable_after_node_change pl eq pod node_event))
  events_to_register-heard pod_event node_event exact found =
      (pod-heard pod_event found, node-heard node_event true exact found)
