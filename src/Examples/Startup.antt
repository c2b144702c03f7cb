-- ===== src/Examples/Startup.antt =====
-- The merger that the plugins share, and a spreading plugin made without arguments.
use cozystack_scheduler.Prelude.{◌≡◌, refl, true, none, some, [], ◌∷◌, All}
use cozystack_scheduler.GoMap.{lookup}
use cozystack_scheduler.Result.{external, ok, err}
use cozystack_scheduler.Api.{Labels, Pod}
use cozystack_scheduler.Merge.{get_scheduling_class}
use cozystack_scheduler.Merge.Types.{SchedulingClass}
use cozystack_scheduler.Merge.Shared.{Call, MadeOf, shared_mergers, shared_mergers-first}
use cozystack_scheduler.PodTopologySpread.{PodTopologySpread, get_constraints}
use cozystack_scheduler.PodTopologySpread.Setup.{
  nil, new_plugin, system_default_constraints, new_plugin-get_constraints,
}
use cozystack_scheduler.Examples.{plain_spec, web, merger}
use cozystack_scheduler.Examples.Spreading.{plugin}

abbrev failing : Call SchedulingClass SchedulingClass
failing = record { lister = err (external "no configuration"); default_label_selector_keys = [] }

abbrev working : Call SchedulingClass SchedulingClass
working = record { lister = ok merger.lister; default_label_selector_keys = "app" ∷ [] }

-- A client that fails once fails every plugin.
shared_mergers-first_example :
    All
      (MadeOf failing.lister failing.default_label_selector_keys)
      (shared_mergers none (failing ∷ working ∷ working ∷ []))
shared_mergers-first_example = shared_mergers-first failing (working ∷ working ∷ [])

-- Without a class and without constraints.
abbrev plain : Pod
plain = record web {
  annotations = [];
  spec = record plain_spec { topology_spread_constraints = [] };
}

abbrev defaulted : PodTopologySpread Labels Labels SchedulingClass SchedulingClass
defaulted = record plugin {
  system_defaulted = true;
  default_constraints = system_default_constraints;
}

plain_classless : get_scheduling_class merger plain ≡ ok none
unfolding get_scheduling_class lookup
plain_classless = refl

made :
    new_plugin (some (λ m. record plugin { merger = m })) true (λ args. none) (ok merger) nil
    ≡ ok defaulted
unfolding new_plugin
made = refl

new_plugin-get_constraints_example : get_constraints defaulted plain ≡ ok []
new_plugin-get_constraints_example =
    new_plugin-get_constraints (λ m. record plugin { merger = m }) true (λ args. none) merger
      defaulted plain made refl plain_classless
