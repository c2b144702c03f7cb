-- ===== src/Examples/Affinity.antt =====
-- Pod `web`, which asks for its own kind in its zone, before a cluster of two nodes.
use cozystack_scheduler.Prelude.{◌≡◌, refl, arith, true, false, List, [], ◌∷◌, some, none, String}
use mathlib.Core.List.Perm
use cozystack_scheduler.Result.{ok}
use cozystack_scheduler.Api.{Labels, Pod, PodAffinityTerm}
use cozystack_scheduler.Merge.Types.{AffinityTerm, SchedulingClass}
use cozystack_scheduler.Framework.{
  PodInfo, NodeInfo, success, skip, absent, holds, deleted, queue_skip, pass,
}
use cozystack_scheduler.InterPodAffinity.{InterPodAffinity, PreFilterState}
use cozystack_scheduler.InterPodAffinity.Counts.{pod_matches_all_affinity_terms}
use cozystack_scheduler.InterPodAffinity.Counts.Laws.{
  affinity_hits, anti_affinity_hits, hits, hits_each,
}
use cozystack_scheduler.InterPodAffinity.Plugin.{
  state_of, add_pod, remove_pod, run_filter, incoming_pod_info, compute_state, pre_filter,
}
use cozystack_scheduler.InterPodAffinity.Recount.{incoming_hits, incoming_anti_hits}
use cozystack_scheduler.InterPodAffinity.Upkeep.{IsSchedule, SameCounts, state_of-schedule}
use cozystack_scheduler.InterPodAffinity.Gains.{Gains}
use cozystack_scheduler.InterPodAffinity.Updates.{add_pod-recount, remove_pod-recount}
use cozystack_scheduler.InterPodAffinity.Filtering.{Fits, run_filter-verdict}
use cozystack_scheduler.InterPodAffinity.Skipping.{pre_filter-skip}
use cozystack_scheduler.GoMap.{lookup, insert}
use cozystack_scheduler.Merge.{with_class, get_scheduling_class, decode_class}
use cozystack_scheduler.Merge.InterPod.{merge_inter_pod_affinity}
use cozystack_scheduler.InterPodAffinity.Hints.{hint_terms, is_schedulable_after_pod_change}
use cozystack_scheduler.Examples.{
  plain_spec, zone_term, web, east, west, merger, parser, term_matches_pod,
}

abbrev pub like_web : AffinityTerm Labels
like_web = record {
  namespaces = "shop" ∷ [];
  selector = ("app", "web") ∷ [];
  topology_key = "zone";
  namespace_selector = [];
}

abbrev pub info_with : List (AffinityTerm Labels) → List (AffinityTerm Labels) → PodInfo Labels
info_with affinity anti_affinity = record {
  pod = web;
  required_affinity_terms = affinity;
  required_anti_affinity_terms = anti_affinity;
  preferred_affinity_terms = [];
  preferred_anti_affinity_terms = [];
}

abbrev pub running : PodInfo Labels
running = info_with [] []

abbrev pub incoming : PodInfo Labels
incoming = info_with (like_web ∷ []) []

abbrev pub full_east : NodeInfo Labels
full_east = record {
  node = east;
  pods = running ∷ [];
  pods_with_affinity = [];
  pods_with_required_anti_affinity = [];
}

abbrev pub empty_west : NodeInfo Labels
empty_west = record {
  node = west;
  pods = [];
  pods_with_affinity = [];
  pods_with_required_anti_affinity = [];
}

abbrev pub nodes : List (NodeInfo Labels)
nodes = full_east ∷ empty_west ∷ []

abbrev pub plugin : InterPodAffinity Labels SchedulingClass SchedulingClass
plugin = record {
  hard_pod_affinity_weight = 1;
  ignore_preferred_terms_of_existing_pods = false;
  matches = term_matches_pod;
  new_pod_info = λ pod. ok incoming;
  list = ok nodes;
  have_pods_with_affinity_list = ok nodes;
  have_pods_with_required_anti_affinity_list = ok [];
  selector_empty = λ s. true;
  nothing = [];
  list_namespaces = λ s. ok [];
  get_namespace = λ ns. ok [];
  parser = parser;
  merger = merger;
}

abbrev pub in_order : List (NodeInfo Labels) → List (NodeInfo Labels)
in_order claimed = claimed

pub in_order-IsSchedule : IsSchedule in_order
in_order-IsSchedule claimed = Perm.refl claimed

nodes-Fits : Fits plugin incoming nodes []
unfolding incoming_hits incoming_anti_hits affinity_hits anti_affinity_hits hits hits_each
    pod_matches_all_affinity_terms lookup
nodes-Fits q = (omega arith, ground arith, omega arith)

-- A second pod of the kind may join the first in its zone.
run_filter-verdict_example :
    run_filter plugin (holds (state_of plugin in_order web incoming nodes [])) full_east ≡ success
unfolding lookup incoming_hits affinity_hits pod_matches_all_affinity_terms hits hits_each
run_filter-verdict_example =
    run_filter-verdict plugin incoming nodes [] in_order in_order-IsSchedule nodes-Fits full_east

-- A pod that keeps the others of its kind out of its zone.
abbrev loner : PodInfo Labels
loner = info_with [] (like_web ∷ [])

abbrev loner_west : NodeInfo Labels
loner_west = record empty_west { pods = loner ∷ []; pods_with_required_anti_affinity = loner ∷ [] }

-- It runs before the first pod of the east node.
abbrev loner_east : NodeInfo Labels
loner_east = record full_east {
  pods = loner ∷ running ∷ [];
  pods_with_required_anti_affinity = loner ∷ [];
}

west-Gains : Gains loner empty_west loner_west
west-Gains = record {
  same_node = refl;
  pods = Perm.refl _;
  pods_with_required_anti_affinity = Perm.refl _;
}

east-Gains : Gains loner full_east loner_east
east-Gains = record {
  same_node = refl;
  pods = Perm.refl _;
  pods_with_required_anti_affinity = Perm.refl _;
}

-- The west node had no pod with required anti-affinity, and was in no list of such nodes.
add_pod-recount_example :
    (s : PreFilterState Labels) × (add_pod plugin
        (holds (state_of plugin in_order web incoming nodes []))
        loner
        west
      ≡ (holds s, success))
    × SameCounts s
        (state_of plugin in_order web incoming (full_east ∷ loner_west ∷ []) (loner_west ∷ []))
add_pod-recount_example =
    add_pod-recount plugin incoming in_order in_order-IsSchedule loner empty_west loner_west
      west-Gains (full_east ∷ []) []

remove_pod-recount_example :
    (s : PreFilterState Labels) × (remove_pod plugin
        (holds
          (state_of plugin in_order web incoming (loner_east ∷ empty_west ∷ []) (loner_east ∷ [])))
        loner
        east
      ≡ (holds s, success))
    × SameCounts s (state_of plugin in_order web incoming nodes [])
remove_pod-recount_example =
    remove_pod-recount plugin incoming in_order in_order-IsSchedule loner full_east loner_east
      east-Gains [] (empty_west ∷ [])

abbrev pub reversed : List (NodeInfo Labels) → List (NodeInfo Labels)
reversed (a ∷ b ∷ []) = b ∷ a ∷ []
reversed claimed = claimed

pub reversed-IsSchedule : IsSchedule reversed
reversed-IsSchedule [] = Perm.refl []
reversed-IsSchedule (a ∷ []) = Perm.refl (a ∷ [])
reversed-IsSchedule (a ∷ b ∷ []) = Perm.swap _ _ _
reversed-IsSchedule (a ∷ b ∷ c ∷ claimed) = Perm.refl (a ∷ b ∷ c ∷ claimed)

state_of-schedule_example :
    SameCounts
      (state_of plugin in_order web incoming nodes [])
      (state_of plugin reversed web incoming nodes [])
state_of-schedule_example =
    state_of-schedule plugin incoming in_order reversed nodes [] in_order-IsSchedule
      reversed-IsSchedule

-- A cluster in which the plugin has nothing to check for a pod without a class.
abbrev idle : InterPodAffinity Labels SchedulingClass SchedulingClass
idle = record plugin { new_pod_info = λ pod. ok running }

abbrev classless : Pod
classless = record web { annotations = [] }

idle_info : incoming_pod_info idle classless ≡ pass running
unfolding incoming_pod_info merge_inter_pod_affinity with_class get_scheduling_class lookup
idle_info = refl

idle_skips : (pre_filter idle in_order absent classless).1 ≡ skip
unfolding pre_filter compute_state state_of lookup
idle_skips = rw (pre_filter, compute_state, idle_info) refl

pre_filter-skip_example :
    ((pre_filter idle in_order absent classless).0 ≡ absent)
    × ((all_nodes : List (NodeInfo Labels)) × (req : List (NodeInfo Labels)) × (info : PodInfo
          Labels)
        × (ok nodes ≡ ok all_nodes)
        × (ok [] ≡ ok req)
        × (incoming_pod_info idle classless ≡ pass info)
        × ((n : NodeInfo Labels)
            → run_filter idle (holds (state_of idle in_order classless info all_nodes req)) n
              ≡ success))
pre_filter-skip_example = pre_filter-skip idle in_order absent classless idle_skips

-- A pod of another kind on the east node.
abbrev db : PodInfo Labels
db = record running {
  pod = record web {
    name = "db-0";
    labels = ("app", "db") ∷ [];
    spec = record plain_spec { node_name = "east-1" };
  };
}

abbrev term_for : String → PodAffinityTerm
term_for app = record zone_term {
  label_selector = some (record { match_labels = ("app", app) ∷ []; match_expressions = [] });
}

-- A pod without a class that avoids two kinds of pods.
abbrev picky : Pod
picky = record web {
  annotations = [];
  spec = record plain_spec {
    affinity = some (record {
      node_affinity = none;
      pod_affinity = none;
      pod_anti_affinity =
          some (record { required = term_for "db" ∷ term_for "cache" ∷ []; preferred = [] });
    });
  };
}

-- The only pod in its way is deleted, and the hint says to skip the event.
picky_skipped : is_schedulable_after_pod_change plugin picky (deleted db.pod) ≡ ok queue_skip
unfolding is_schedulable_after_pod_change hint_terms merge_inter_pod_affinity with_class
    get_scheduling_class decode_class lookup insert pod_matches_all_affinity_terms
picky_skipped = refl
