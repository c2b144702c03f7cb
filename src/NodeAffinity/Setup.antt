-- ===== src/NodeAffinity/Setup.antt =====
-- pkg/nodeaffinity/node_affinity.go: `New` and `getArgs`.
use cozystack_scheduler.Prelude.{Option, none, some, List, [], ◌∷◌, string_eq}
use cozystack_scheduler.Result.{Error, external, wrap, Result, ok, err, map_error, ◌>>=◌}
use cozystack_scheduler.Api.{NodeSelector, PreferredSchedulingTerm, NodeAffinity}
use cozystack_scheduler.Merge.Types.{Merger}
use cozystack_scheduler.Merge.{required_of, preferred_of}
use cozystack_scheduler.NodeAffinity.{Helpers, Plugin}

-- The plugin's arguments: nil, of another type, or an added affinity that may be nil.
pub data ArgsObject : Type 0 where
  nil other : ArgsObject
  node_affinity_args : Option NodeAffinity → ArgsObject

-- `getArgs`; `validate` is Kubernetes' validation, whose error stands beside the arguments.
abbrev pub get_args :
    (Option NodeAffinity → Option Error) → ArgsObject → Result (Option NodeAffinity)
get_args validate nil = ok none
get_args validate other = err (external "args are not of type NodeAffinityArgs")
get_args validate (node_affinity_args added) = elim (validate added) [
  | none ↦ ok added
  | some e ↦ err e
]

module _ {Selector Required Terms : Type 0} (helpers : Helpers Selector Required Terms) where
  abbrev pub added_selector : Option NodeSelector → Result (Option Selector)
  added_selector none = ok none
  added_selector (some ns) = do
    s ←
        map_error (wrap "parsing addedAffinity.requiredDuringSchedulingIgnoredDuringExecution")
          (helpers.new_node_selector ns)
    ok (some s)

  abbrev pub added_preferred : List PreferredSchedulingTerm → Result (Option Terms)
  added_preferred [] = ok none
  added_preferred (t ∷ terms) = do
    ts ←
        map_error (wrap "parsing addedAffinity.preferredDuringSchedulingIgnoredDuringExecution")
          (helpers.new_preferred_scheduling_terms (t ∷ terms))
    ok (some ts)

  -- `New`, with the result of `SharedMerger`.
  abbrev pub new_plugin :
      {Object Raw : Type 0}
      → (Option NodeAffinity → Option Error)
      → Result (Merger Object Raw)
      → ArgsObject
      → Result (Plugin Selector Required Terms Object Raw)
  new_plugin validate shared obj = do
    added ← get_args validate obj
    selector ← added_selector (required_of added)
    preferred ← added_preferred (preferred_of added)
    merger ← map_error (wrap "creating constraint merger") shared
    ok (record {
      helpers = helpers;
      added_node_selector = selector;
      added_pref_sched_terms = preferred;
      merger = merger;
    })
