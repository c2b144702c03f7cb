-- ===== src/Examples/Spreading.antt =====
-- Spreading pod `web` over the zones of two nodes, one of which runs a pod like it.
use cozystack_scheduler.Prelude.{
  ◌≡◌, refl, arith, true, false, some, [], ◌∷◌, inl, eqb, sum_over, length, none,
}
use cozystack_scheduler.GoMap.{lookup, insert}
use cozystack_scheduler.Result.{ok}
use cozystack_scheduler.Api.{Labels, honor, ignore, Pod}
use cozystack_scheduler.Merge.Types.{SchedulingClass}
use cozystack_scheduler.Framework.{PodInfo, NodeInfo, holds, success, created, queue_skip}
use cozystack_scheduler.PodTopologySpread.{Constraint, PodTopologySpread, get_constraints}
use cozystack_scheduler.PodTopologySpread.CriticalPaths.{new_critical_paths, update, update_all}
use cozystack_scheduler.PodTopologySpread.Minimum.{update_all-minimum}
use cozystack_scheduler.PodTopologySpread.State.{
  state_of, filter_each, run_filter, PreFilterState, update_each, update_with_pod,
}
use cozystack_scheduler.PodTopologySpread.Filtering.{Decides, run_filter-Decides}
use cozystack_scheduler.PodTopologySpread.Hints.{DeepEqual, is_schedulable_after_pod_change}
use cozystack_scheduler.PodTopologySpread.Hints.Skipping.{is_schedulable_after_pod_change-skip}
use cozystack_scheduler.Merge.{
  merge_topology_spread_constraints, topology_spread_terms, with_class, get_scheduling_class,
  decode_class,
}
use cozystack_scheduler.PodTopologySpread.State.Totals.{Counts, matching, state_of-Counts}
use cozystack_scheduler.Words.{minus_one}
use cozystack_scheduler.PodTopologySpread.State.Reversal.{
  IsWords, SameNumbers, update_with_pod-Reversal,
}
use cozystack_scheduler.PodTopologySpread.State.Selected.{with_pod}
use cozystack_scheduler.PodTopologySpread.State.Recount.{update_with_pod-recount}
use cozystack_scheduler.Examples.{plain_spec, web, east, west, merger, labels_match}

update_all-minimum_example :
    (update_all new_critical_paths (("east", 3) ∷ ("west", 1) ∷ ("north", 2) ∷ [])).first.match_num
    ≡ 1
unfolding lookup
update_all-minimum_example =
    update_all-minimum (("east", 3) ∷ ("west", 1) ∷ ("north", 2) ∷ [])
      ((refl, (refl, (refl, tt))), (omega arith, (omega arith, (omega arith, tt))))

-- Selectors are labels; no policy excludes a node.
abbrev pub plugin : PodTopologySpread Labels Labels SchedulingClass SchedulingClass
plugin = record {
  system_defaulted = false;
  default_constraints = [];
  enable_node_inclusion_policy_in_pod_topology_spread = true;
  enable_match_label_keys_in_pod_topology_spread = true;
  merger = merger;
  selectors = record {
    as_selector = λ s. ok (elim s [ none ↦ [] | some l ↦ l.match_labels ]);
    matches = labels_match;
    empty = λ s. false;
    selector_from_set = λ ls. ls;
    requirements = λ s. some [];
    add = λ s r. s;
  };
  list = ok [];
  default_selector = λ pod. [];
  required_matches = λ pod node. true;
  untolerated = λ taints tolerations. false;
}

abbrev pub web_info : PodInfo Labels
web_info = record {
  pod = web;
  required_affinity_terms = [];
  required_anti_affinity_terms = [];
  preferred_affinity_terms = [];
  preferred_anti_affinity_terms = [];
}

abbrev pub full_east : NodeInfo Labels
full_east = record {
  node = east;
  pods = web_info ∷ [];
  pods_with_affinity = [];
  pods_with_required_anti_affinity = [];
}

abbrev pub empty_west : NodeInfo Labels
empty_west = record {
  node = west;
  pods = [];
  pods_with_affinity = [];
  pods_with_required_anti_affinity = [];
}

abbrev pub by_zone : Constraint Labels
by_zone = record {
  max_skew = 1;
  topology_key = "zone";
  selector = ("app", "web") ∷ [];
  min_domains = 1;
  node_affinity_policy = honor;
  node_taints_policy = ignore;
}

-- A second pod in the zone of the first would make a skew of two.
run_filter-Decides_example :
    Decides
      (run_filter plugin
        (holds (state_of plugin web (by_zone ∷ []) (full_east ∷ empty_west ∷ [])))
        web
        full_east)
      false
unfolding lookup insert state_of
run_filter-Decides_example =
    run_filter-Decides plugin web (by_zone ∷ []) (full_east ∷ empty_west ∷ []) full_east
      ((omega arith, omega arith), tt) (((omega arith, (omega arith, tt)), omega arith), tt)

run_filter_test :
    run_filter plugin
      (holds (state_of plugin web (by_zone ∷ []) (full_east ∷ empty_west ∷ [])))
      web
      empty_west
    ≡ some success
unfolding run_filter filter_each state_of lookup insert update_all
run_filter_test = refl

-- A pod of another kind, which runs.
abbrev db : Pod
db = record web {
  name = "db-0";
  uid = "2";
  labels = ("app", "db") ∷ [];
  spec = record plain_spec { node_name = "east-1" };
}

abbrev by_size : DeepEqual
by_size = record {
  same_labels = λ a b. eqb (length a) (length b);
  same_tolerations = λ a b. eqb (length a) (length b);
  same_taints = λ a b. eqb (length a) (length b);
}

-- The constraint of the class, with the lineage selector of the pod.
pub web_constraints : get_constraints plugin web ≡ ok (by_zone ∷ [])
unfolding merge_topology_spread_constraints topology_spread_terms with_class get_scheduling_class
    decode_class lookup insert
web_constraints = refl

abbrev one_row : PreFilterState Labels
one_row = record {
  constraints = by_zone ∷ [];
  critical_paths = new_critical_paths ∷ [];
  tp_value_to_match_num = (("east", 1) ∷ []) ∷ [];
}

db_skipped : is_schedulable_after_pod_change plugin by_size web (created db) ≡ ok queue_skip
unfolding is_schedulable_after_pod_change lookup
db_skipped = rw web_constraints refl

is_schedulable_after_pod_change-skip_example :
    update_with_pod plugin one_row db web east 1 ≡ some one_row
is_schedulable_after_pod_change-skip_example =
    is_schedulable_after_pod_change-skip plugin by_size one_row (created db) db web east 1
      (inl refl) web_constraints (refl, refl) refl db_skipped

-- The zone of the one pod counts it.
state_of-Counts_example :
    Counts plugin web
      (λ c v. sum_over (matching plugin web (by_zone ∷ []) c v) (full_east ∷ empty_west ∷ []))
      (by_zone ∷ [])
      (state_of plugin web (by_zone ∷ []) (full_east ∷ empty_west ∷ [])).tp_value_to_match_num
state_of-Counts_example = state_of-Counts plugin web (by_zone ∷ []) (full_east ∷ empty_west ∷ [])

matching_test :
    sum_over (matching plugin web (by_zone ∷ []) by_zone "east") (full_east ∷ empty_west ∷ []) ≡ 1
unfolding lookup
matching_test = refl

east-IsWords : IsWords (("east", 1) ∷ [])
unfolding lookup
east-IsWords v = ground arith

update_with_pod-Reversal_example :
    (t u : PreFilterState Labels) × (update_with_pod plugin one_row web web east 1 ≡ some t)
    × (update_with_pod plugin t web web east minus_one ≡ some u)
    × (u.constraints ≡ by_zone ∷ [])
    × SameNumbers one_row.tp_value_to_match_num u.tp_value_to_match_num
update_with_pod-Reversal_example =
    update_with_pod-Reversal plugin one_row web web east (refl, refl) (east-IsWords, tt)

-- A second pod joins the zone of the first.
update_with_pod-recount_example :
    (t : PreFilterState Labels) × (update_with_pod plugin
        (state_of plugin web (by_zone ∷ []) (full_east ∷ empty_west ∷ []))
        web
        web
        east
        1
      ≡ some t)
    × Counts plugin web
        (λ c v.
          sum_over
            (matching plugin web (by_zone ∷ []) c v)
            (with_pod web_info full_east ∷ empty_west ∷ []))
        (by_zone ∷ [])
        t.tp_value_to_match_num
update_with_pod-recount_example =
    update_with_pod-recount plugin web (by_zone ∷ []) web_info full_east [] (empty_west ∷ []) refl
      (refl, tt)

-- A pod that is terminating is not counted, but taking it away subtracts it.
abbrev leaving : PodInfo Labels
leaving = record web_info { pod = record web { deleting = true } }

abbrev leaving_east : NodeInfo Labels
leaving_east = record full_east { pods = leaving ∷ [] }

leaving_subtracted :
    update_with_pod plugin
      (state_of plugin web (by_zone ∷ []) (leaving_east ∷ []))
      leaving.pod
      web
      east
      minus_one
    ≡ some (record {
      constraints = by_zone ∷ [];
      critical_paths = update_all new_critical_paths (("east", minus_one) ∷ []) ∷ [];
      tp_value_to_match_num = (("east", minus_one) ∷ []) ∷ [];
    })
unfolding update_with_pod update_each state_of lookup insert update_all update
leaving_subtracted = refl
