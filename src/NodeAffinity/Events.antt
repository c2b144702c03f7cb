-- ===== src/NodeAffinity/Events.antt =====
-- pkg/nodeaffinity/node_affinity.go: `EventsToRegister`.
use cozystack_scheduler.Prelude.{Bool, List, [], ◌∷◌, if◌then◌else◌}
use cozystack_scheduler.Framework.{
  EventAction, add, update_node_label, update_node_taint, ClusterEventWithHint, node_arrivals,
}
use cozystack_scheduler.NodeAffinity.{Plugin}
use cozystack_scheduler.NodeAffinity.Filtering.{is_schedulable_after_node_change}

-- By `enableSchedulingQueueHint`, which only `EventsToRegister` reads.
abbrev pub node_action_type : Bool → List EventAction
node_action_type enabled =
    if enabled
    then add ∷ update_node_label ∷ []
    else add ∷ update_node_label ∷ update_node_taint ∷ []

abbrev pub events_to_register :
    {Selector Required Terms Object Raw : Type 0}
    → Plugin Selector Required Terms Object Raw
    → Bool
    → List ClusterEventWithHint
events_to_register pl enabled =
    node_arrivals (node_action_type enabled) (is_schedulable_after_node_change pl) ∷ []
