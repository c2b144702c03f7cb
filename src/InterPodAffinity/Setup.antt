-- ===== src/InterPodAffinity/Setup.antt =====
-- pkg/interpodaffinity/plugin.go: `New` and `getArgs`.
use cozystack_scheduler.Prelude.{ℕ, Bool, Option, none, some, false}
use cozystack_scheduler.Result.{Error, external, wrap, Result, ok, err, map_error, ◌>>=◌}
use cozystack_scheduler.Merge.Types.{Merger}
use cozystack_scheduler.InterPodAffinity.{InterPodAffinity}

-- `config.InterPodAffinityArgs`
pub record Args : Type 0 where
  pub hard_pod_affinity_weight : ℕ
  pub ignore_preferred_terms_of_existing_pods : Bool

-- The plugin's arguments: nil, of another type, or of the right one.
pub data ArgsObject : Type 0 where
  nil other : ArgsObject
  inter_pod_affinity_args : Args → ArgsObject

abbrev pub get_args : ArgsObject → Result Args
get_args nil =
    ok (record { hard_pod_affinity_weight = 0; ignore_preferred_terms_of_existing_pods = false })
get_args other = err (external "want args to be of type InterPodAffinityArgs")
get_args (inter_pod_affinity_args args) = ok args

-- Kubernetes' validation of the arguments.
abbrev pub validated : {A : Type 0} → (A → Option Error) → A → Result A
validated validate args = elim (validate args) [ none ↦ ok args | some e ↦ err e ]

module _ {S Object Raw : Type 0} where
  -- `New`: `handle` makes a plugin of what the framework's handle offers, or is nil where the handle
  -- has no snapshot; `shared` is the result of `SharedMerger`.
  unfoldable pub new_plugin :
      Option (Merger Object Raw → InterPodAffinity S Object Raw)
      → (Args → Option Error)
      → Result (Merger Object Raw)
      → ArgsObject
      → Result (InterPodAffinity S Object Raw)
  new_plugin none validate shared obj = err (external "SnapshotSharedlister is nil")
  new_plugin (some handle) validate shared obj = do
    args ← get_args obj
    checked ← validated validate args
    merger ← map_error (wrap "creating constraint merger") shared
    ok (record (handle merger) {
      hard_pod_affinity_weight = checked.hard_pod_affinity_weight;
      ignore_preferred_terms_of_existing_pods = checked.ignore_preferred_terms_of_existing_pods;
    })
