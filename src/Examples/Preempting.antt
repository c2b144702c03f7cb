-- ===== src/Examples/Preempting.antt =====
-- Pod `web` comes again: the pod of its zone is preempted.
use cozystack_scheduler.Prelude.{◌≡◌, refl, arith, true, false, some, [], ◌∷◌}
use cozystack_scheduler.GoMap.{lookup, insert, insert_all}
use cozystack_scheduler.Api.{Labels}
use cozystack_scheduler.Framework.{holds, success}
use cozystack_scheduler.PodTopologySpread.CriticalPaths.{update, update_all}
use cozystack_scheduler.PodTopologySpread.State.{
  PreFilterState, state_of, clone_state, run_filter, remove_pod, update_each, update_with_pod,
}
use cozystack_scheduler.PodTopologySpread.Filtering.{Decides}
use cozystack_scheduler.PodTopologySpread.Preemption.{Reaches, IsBounded, run_filter-Reaches}
use cozystack_scheduler.PodTopologySpread.Verdict.{run_filter-spreads}
use cozystack_scheduler.PodTopologySpread.Eviction.{Evicts, run_filter-Evicts}
use cozystack_scheduler.Examples.{web, east}
use cozystack_scheduler.Examples.Spreading.{plugin, by_zone, web_info, full_east, empty_west}

abbrev before : PreFilterState Labels
before = state_of plugin web (by_zone ∷ []) (full_east ∷ empty_west ∷ [])

-- Without the pod of the zone of the first node.
abbrev after : PreFilterState Labels
after = record {
  constraints = by_zone ∷ [];
  critical_paths =
      record {
        first = record { topology_value = "west"; match_num = 0 };
        second = record { topology_value = "east"; match_num = 0 };
      }
      ∷ [];
  tp_value_to_match_num = (("east", 0) ∷ ("west", 0) ∷ []) ∷ [];
}

preempted :
    remove_pod plugin (holds (clone_state before)) web web_info full_east
    ≡ some (success, holds after)
unfolding clone_state update_with_pod update_each state_of lookup insert insert_all update_all
    update
preempted = refl

abbrev reached : Reaches plugin web east before after
reached = Reaches.removed full_east web_info (Reaches.cloned Reaches.start) refl preempted

reached-IsBounded : IsBounded plugin web east reached
unfolding state_of lookup insert
reached-IsBounded = (((omega arith, (omega arith, tt)), tt), ((omega arith, (omega arith, tt)), tt))

-- Then the first node passes.
run_filter-Reaches_example : Decides (run_filter plugin (holds after) web full_east) true
unfolding lookup
run_filter-Reaches_example =
    run_filter-Reaches plugin web east (by_zone ∷ []) (full_east ∷ empty_west ∷ []) full_east after
      ((omega arith, omega arith), tt) reached reached-IsBounded (omega arith, tt)

-- Before, a second pod in its zone would make a skew of two.
run_filter-spreads_example : Decides (run_filter plugin (holds before) web full_east) false
unfolding lookup
run_filter-spreads_example =
    run_filter-spreads plugin web (by_zone ∷ []) (full_east ∷ empty_west ∷ []) full_east
      ((omega arith, omega arith), tt) (omega arith) (omega arith)

abbrev emptied : Evicts plugin web (by_zone ∷ []) [] (empty_west ∷ []) full_east [] after
emptied = Evicts.removed [] [] web_info (Evicts.cloned Evicts.start) preempted

-- By the pods that are left, the pod fits.
run_filter-Evicts_example : Decides (run_filter plugin (holds after) web full_east) true
unfolding lookup
run_filter-Evicts_example =
    run_filter-Evicts plugin web (by_zone ∷ []) [] (empty_west ∷ []) full_east [] after full_east
      emptied ((omega arith, omega arith), tt) (refl, tt) (tt, refl) (omega arith) (omega arith)
