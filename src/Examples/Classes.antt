-- ===== src/Examples/Classes.antt =====
-- The class plugin on pod `web`, with its class label under the key "tier".
use cozystack_scheduler.Prelude.{
  ◌≡◌, refl, ◌↔◌, true, false, some, [], ◌∷◌, ◌==◌, string_eq, any, not,
}
use cozystack_scheduler.Result.{ok}
use cozystack_scheduler.GoMap.{lookup}
use cozystack_scheduler.Api.{NodeSelector}
use cozystack_scheduler.Merge.{node_affinity_of, required_of}
use cozystack_scheduler.Framework.{success, absent}
use cozystack_scheduler.SchedulingClass.{Args, Selectors, pre_filter, run_filter}
use cozystack_scheduler.SchedulingClass.Filtering.{
  class_labels, has_labels, affinity_matches, pre_filter-run_filter,
}
use cozystack_scheduler.Examples.{web, east, west}

abbrev args : Args
args = record { class_label_key = "tier"; classes = ("gold", ("disk", "ssd") ∷ []) ∷ [] }

-- Every selector parses, and matches the nodes with labels.
abbrev any_selector : Selectors NodeSelector
any_selector = record {
  new_node_selector = λ s. ok s;
  match = λ s n. any (λ l. not (l.0 == "")) n.labels;
  label_reason = λ key value. key;
}

pre_filter-run_filter_example :
    (run_filter any_selector (pre_filter args absent web).0 web (some east) ≡ success) ↔ (
      (has_labels east (class_labels args web) ≡ true)
      × (affinity_matches any_selector (required_of (node_affinity_of web.spec.affinity)) east
          ≡ true))
pre_filter-run_filter_example = pre_filter-run_filter any_selector args web east

-- The node with the class's label passes, and the one without it does not.
east_passes : has_labels east (class_labels args web) ≡ true
unfolding lookup
east_passes = refl

west_fails : has_labels west (class_labels args web) ≡ false
unfolding lookup
west_fails = refl
