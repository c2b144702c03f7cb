-- ===== src/NodeAffinity/Scoring.antt =====
-- pkg/nodeaffinity/node_affinity.go: `PreScore` and `Score`. `NormalizeScore` only calls Kubernetes.
use cozystack_scheduler.Prelude.{
  ℕ, ◌&&◌, Option, none, some, List, string_eq, if◌then◌else◌, is_empty,
}
use cozystack_scheduler.Result.{external, wrap_named, Result, ok, err, ◌>>=◌}
use cozystack_scheduler.Words.{add64}
use cozystack_scheduler.Api.{PreferredSchedulingTerm, NodeAffinity, Pod, Node}
use cozystack_scheduler.Framework.{Status, success, skip, error_status, Slot, holds, read_slot}
use cozystack_scheduler.Merge.Types.{NodeAffinityTerms}
use cozystack_scheduler.Merge.{node_affinity_of, merge_node_affinity}
use cozystack_scheduler.NodeAffinity.{Plugin, is_none}

abbrev pub get_pre_score_state : {Terms : Type 0} → Slot (Option Terms) → Result (Option Terms)
get_pre_score_state =
    read_slot
      (wrap_named "reading from cycleState" "PreScoreCozystackNodeAffinity" (external "not found"))
      (external "invalid PreScore state")

module _ {Selector Required Terms Object Raw : Type 0}
    (pl : Plugin Selector Required Terms Object Raw) where
  abbrev pub preferred_terms_of : Option (List PreferredSchedulingTerm) → Result (Option Terms)
  preferred_terms_of none = ok none
  preferred_terms_of (some terms) = do
    parsed ← pl.helpers.new_preferred_scheduling_terms terms
    ok (some parsed)

  abbrev pub preferred_field : Option NodeAffinity → Option (List PreferredSchedulingTerm)
  preferred_field none = none
  preferred_field (some a) = a.preferred

  abbrev pub get_pod_preferred_node_affinity : Pod → Result (Option Terms)
  get_pod_preferred_node_affinity pod =
      preferred_terms_of (preferred_field (node_affinity_of pod.spec.affinity))

  -- The merged terms where there are any, the pod's own otherwise.
  abbrev pub merged_preferred : Option NodeAffinityTerms → Option Terms → Result (Option Terms)
  merged_preferred none own = ok own
  merged_preferred (some merged) own =
      if is_empty merged.preferred_node_affinity
      then ok own
      else preferred_terms_of (some merged.preferred_node_affinity)

  abbrev pub preferred_node_affinity : Pod → Result (Option Terms)
  preferred_node_affinity pod = do
    own ← get_pod_preferred_node_affinity pod
    merged ← merge_node_affinity pl.merger pod
    merged_preferred merged own

  -- `preScoreState` is its one field, which may be nil.
  unfoldable pub pre_score : Slot (Option Terms) → Pod → Slot (Option Terms) × Status
  pre_score slot pod = elim (preferred_node_affinity pod) [
    | err e ↦ (slot, error_status e)
    | ok preferred ↦
        if is_none preferred && is_none pl.added_pref_sched_terms
        then (slot, skip)
        else (holds preferred, success)
  ]

  abbrev pub optional_score : Option Terms → Node → ℕ
  optional_score none node = 0
  optional_score (some terms) node = pl.helpers.score terms node

  -- Without a state, the pod's own terms count.
  abbrev pub score_state : Slot (Option Terms) → Pod → Result (Option Terms)
  score_state slot pod = elim (get_pre_score_state slot) [
    | ok preferred ↦ ok preferred
    | err e ↦ get_pod_preferred_node_affinity pod
  ]

  -- The score, or the status of an error.
  unfoldable pub run_score : Slot (Option Terms) → Pod → Node → Result ℕ
  run_score slot pod node = do
    preferred ← score_state slot pod
    ok (
        add64 (add64 0 (optional_score pl.added_pref_sched_terms node))
          (optional_score preferred node))
