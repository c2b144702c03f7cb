-- ===== src/PodTopologySpread/Setup.antt =====
-- pkg/podtopologyspread/plugin.go: `New` and `getArgs`.
use cozystack_scheduler.Prelude.{
  ◌≡◌, refl, ap, ◌∙◌, sym, inl, inr, Bool, true, false, Option, none, some, List, [], ◌∷◌,
  if◌then◌else◌, Option-cases, arith,
}
use cozystack_scheduler.Result.{Error, external, wrap, Result, ok, err, map_error, ◌>>=◌}
use cozystack_scheduler.Api.{TopologySpreadConstraint, schedule_anyway, Pod}
use cozystack_scheduler.Merge.Types.{Merger}
use cozystack_scheduler.Merge.{merge_topology_spread_constraints, get_scheduling_class, with_class}
use cozystack_scheduler.PodTopologySpread.{PodTopologySpread, get_constraints, raw_constraints}
use cozystack_scheduler.PodTopologySpread.Scoring.{label_hostname}

-- `v1.LabelTopologyZone`
abbrev pub system_default_constraints : List TopologySpreadConstraint
system_default_constraints =
    record {
      max_skew = 3;
      topology_key = label_hostname;
      when_unsatisfiable = schedule_anyway;
      label_selector = none;
      min_domains = none;
      node_affinity_policy = none;
      node_taints_policy = none;
      match_label_keys = [];
    }
    ∷ record {
      max_skew = 5;
      topology_key = "topology.kubernetes.io/zone";
      when_unsatisfiable = schedule_anyway;
      label_selector = none;
      min_domains = none;
      node_affinity_policy = none;
      node_taints_policy = none;
      match_label_keys = [];
    }
    ∷ []

-- `config.PodTopologySpreadArgs`; its defaulting is the system's or that of the list.
pub record Args : Type 0 where
  pub default_constraints : List TopologySpreadConstraint
  pub system_defaulting : Bool

-- The plugin's arguments: nil, of another type, or of the right one.
pub data ArgsObject : Type 0 where
  nil other : ArgsObject
  pod_topology_spread_args : Args → ArgsObject

abbrev pub get_args : ArgsObject → Result Args
get_args nil = ok (record { default_constraints = []; system_defaulting = true })
get_args other = err (external "want args to be of type PodTopologySpreadArgs")
get_args (pod_topology_spread_args args) = ok args

abbrev pub validated : {A : Type 0} → (A → Option Error) → A → Result A
validated validate args = elim (validate args) [ none ↦ ok args | some e ↦ err e ]

-- The defaults that the plugin keeps.
abbrev pub constraints_of : Args → List TopologySpreadConstraint
constraints_of args =
    if args.system_defaulting then system_default_constraints else args.default_constraints

-- The listers come from the informer factory, where there are defaults.
abbrev pub listers_set :
    Bool → List TopologySpreadConstraint → Result (List TopologySpreadConstraint)
listers_set has_factory [] = ok []
listers_set true (c ∷ cs) = ok (c ∷ cs)
listers_set false (c ∷ cs) = err (external "SharedInformerFactory is nil")

abbrev system_args : Args
system_args = record { default_constraints = []; system_defaulting = true }

abbrev no_result : (A : Type 0) → Result (List A)
no_result A = ok []

same_nil : {A : Type 0} (b : Bool) → ok (if b then [] else []) ≡ no_result A
same_nil true = refl
same_nil false = refl

module _ {S R Object Raw : Type 0} where
  -- `New`: `handle` makes a plugin of what the framework's handle and the features offer, or is nil
  -- where the handle has no snapshot; `shared` is the result of `SharedMerger`.
  unfoldable pub new_plugin :
      Option (Merger Object Raw → PodTopologySpread S R Object Raw)
      → Bool
      → (Args → Option Error)
      → Result (Merger Object Raw)
      → ArgsObject
      → Result (PodTopologySpread S R Object Raw)
  new_plugin none has_factory validate shared obj = err (external "SnapshotSharedlister is nil")
  new_plugin (some handle) has_factory validate shared obj = do
    args ← get_args obj
    checked ← validated validate args
    constraints ← listers_set has_factory (constraints_of checked)
    merger ← map_error (wrap "creating constraint merger") shared
    ok (record (handle merger) {
      merger = merger;
      default_constraints = constraints;
      system_defaulted = checked.system_defaulting;
    })

  abbrev of_plugin :
      {A : Type 0}
      → (PodTopologySpread S R Object Raw → A)
      → A
      → Result (PodTopologySpread S R Object Raw)
      → A
  of_plugin f d (ok pl) = f pl
  of_plugin f d (err e) = d

  new_plugin-nil :
      (handle : Merger Object Raw → PodTopologySpread S R Object Raw) (has_factory : Bool)
      (validate : Args → Option Error) (shared : Merger Object Raw)
      (pl : PodTopologySpread S R Object Raw)
      → new_plugin (some handle) has_factory validate (ok shared) nil ≡ ok pl
      → (pl.merger ≡ shared) × (pl.default_constraints ≡ system_default_constraints)
  unfolding new_plugin
  new_plugin-nil handle true validate shared pl e = elim (Option-cases (validate system_args)) [
    | inr (problem, v) ↦ ground arith
    | inl v ↦
        let made : new_plugin (some handle) true validate (ok shared) nil
            ≡ ok (record (handle shared) {
              merger = shared;
              default_constraints = system_default_constraints;
              system_defaulted = true;
            }) =
          rw (new_plugin, validated, v) refl in
        (
          ap (of_plugin (λ p. p.merger) shared) (sym e ∙ made),
          ap (of_plugin (λ p. p.default_constraints) []) (sym e ∙ made),
        )
  ]
  new_plugin-nil handle false validate shared pl e = elim (Option-cases (validate system_args)) [
    | inr (problem, v) ↦ ground arith
    | inl v ↦ ground arith
  ]

  -- A plugin that New makes without arguments has no hard constraints for a pod that has no
  -- constraints and names no class.
  pub new_plugin-get_constraints :
      (handle : Merger Object Raw → PodTopologySpread S R Object Raw) (has_factory : Bool)
      (validate : Args → Option Error) (shared : Merger Object Raw)
      (pl : PodTopologySpread S R Object Raw) (pod : Pod)
      → new_plugin (some handle) has_factory validate (ok shared) nil ≡ ok pl
      → pod.spec.topology_spread_constraints ≡ []
      → get_scheduling_class shared pod ≡ ok none
      → get_constraints pl pod ≡ ok []
  unfolding merge_topology_spread_constraints with_class
  new_plugin-get_constraints handle has_factory validate shared pl pod e none_own no_class =
      let (m, d) = new_plugin-nil handle has_factory validate shared pl e in
      let merged : merge_topology_spread_constraints pl.merger pod ≡ ok none =
        rw (m, merge_topology_spread_constraints, with_class, no_class) refl in
      rw (get_constraints, merged, raw_constraints, none_own, d) (same_nil _)
