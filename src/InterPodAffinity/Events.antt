-- ===== src/InterPodAffinity/Events.antt =====
-- pkg/interpodaffinity/plugin.go: `EventsToRegister`.
use cozystack_scheduler.Prelude.{Bool, List, [], ◌∷◌, if◌then◌else◌}
use cozystack_scheduler.Framework.{
  EventAction, add, delete, update_pod_label, update_node_label, update_node_taint,
  ClusterEventWithHint, pod_events, node_arrivals,
}
use cozystack_scheduler.InterPodAffinity.{InterPodAffinity}
use cozystack_scheduler.InterPodAffinity.Hints.{
  is_schedulable_after_pod_change, is_schedulable_after_node_change,
}

-- By `enableSchedulingQueueHint`, which only `EventsToRegister` reads.
abbrev pub node_action_type : Bool → List EventAction
node_action_type enabled =
    if enabled
    then add ∷ update_node_label ∷ []
    else add ∷ update_node_label ∷ update_node_taint ∷ []

abbrev pub events_to_register :
    {S Object Raw : Type 0} → InterPodAffinity S Object Raw → Bool → List ClusterEventWithHint
events_to_register pl enabled =
    pod_events (add ∷ update_pod_label ∷ delete ∷ []) (is_schedulable_after_pod_change pl)
    ∷ node_arrivals (node_action_type enabled) (is_schedulable_after_node_change pl)
    ∷ []
