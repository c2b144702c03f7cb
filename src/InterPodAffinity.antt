-- ===== src/InterPodAffinity.antt =====
-- pkg/interpodaffinity/filtering.go and the helpers of plugin.go that it calls. The workers of
-- `parallelizer.Until` claim the slots of their results by an atomic counter: `claimed` gives the
-- nodes in the order in which one run claims them. Cancelling the context is not modelled.
pub mod Counts
pub mod Plugin
pub mod Recount
pub mod Upkeep
pub mod Gains
pub mod Updates
pub mod Verdict
pub mod Filtering
pub mod Skipping
pub mod Hints
pub mod Scoring
pub mod Normalizing
pub mod Setup
pub mod Events
use cozystack_scheduler.Prelude.{
  ℕ, String, Bool, true, false, not, ◌&&◌, Option, none, some, List, [], ◌∷◌, ◌++◌, ◌==◌, string_eq,
  if◌then◌else◌, is_empty, any,
}
use cozystack_scheduler.Result.{Error, external, wrap, Result, ok, err, traverse}
use cozystack_scheduler.Result
use cozystack_scheduler.GoMap.{lookup}
use cozystack_scheduler.Words.{slt, minus_one}
use cozystack_scheduler.Api.{Labels, Pod, Node}
use cozystack_scheduler.Merge.Types.{AffinityTerm, InterPodAffinityTerms, TermParser, Merger}
use cozystack_scheduler.Merge.InterPod.{merge_inter_pod_affinity}
use cozystack_scheduler.Framework.{
  PodInfo, NodeInfo, Status, success, skip, unschedulable, unschedulable_and_unresolvable,
  error_status, Slot, absent, holds, foreign, read_slot, Check, pass, stop, ◌>>=◌, or_status,
}
use Counts.{
  TopologyPair, TermCounts, TopologyPairCount, count_at, merge_with_list, clone,
  update_with_affinity_terms, update_with_anti_affinity_terms, append_with_affinity_terms,
  append_with_anti_affinity_terms, pod_matches_all_affinity_terms,
}

-- `preFilterState`
pub record PreFilterState (S : Type 0) : Type 0 where
  pub existing_anti_affinity_counts : TermCounts
  pub affinity_counts : TermCounts
  pub anti_affinity_counts : TermCounts
  pub pod_info : PodInfo S
  pub namespace_labels : Labels

-- The plugin's arguments, and what it calls outside the repository, beside the merger.
pub record InterPodAffinity (S Object Raw : Type 0) : Type 0 where
  pub hard_pod_affinity_weight : ℕ
  pub ignore_preferred_terms_of_existing_pods : Bool
  pub matches : AffinityTerm S → Pod → Labels → Bool
  pub new_pod_info : Pod → Result (PodInfo S)
  pub list : Result (List (NodeInfo S))
  pub have_pods_with_affinity_list : Result (List (NodeInfo S))
  pub have_pods_with_required_anti_affinity_list : Result (List (NodeInfo S))
  pub selector_empty : S → Bool
  pub nothing : S
  pub list_namespaces : S → Result (List String)
  pub get_namespace : String → Result Labels
  pub parser : TermParser S
  pub merger : Merger Object Raw

abbrev pub err_reason_existing_anti_affinity_rules_not_match : String
err_reason_existing_anti_affinity_rules_not_match =
    "node(s) didn't satisfy existing pods anti-affinity rules"

abbrev pub err_reason_affinity_rules_not_match : String
err_reason_affinity_rules_not_match = "node(s) didn't match pod affinity rules"

abbrev pub err_reason_anti_affinity_rules_not_match : String
err_reason_anti_affinity_rules_not_match = "node(s) didn't match pod anti-affinity rules"

module _ {S : Type 0} where
  unfoldable pub clone_state : PreFilterState S → PreFilterState S
  unfolding clone
  clone_state s = record s {
    affinity_counts = clone s.affinity_counts;
    anti_affinity_counts = clone s.anti_affinity_counts;
    existing_anti_affinity_counts = clone s.existing_anti_affinity_counts;
  }

module _ {S : Type 0} (matches : AffinityTerm S → Pod → Labels → Bool) where
  unfoldable pub update_with_pod : PreFilterState S → PodInfo S → Node → ℕ → PreFilterState S
  unfolding update_with_affinity_terms update_with_anti_affinity_terms
  update_with_pod s p_info node multiplier = record s {
    existing_anti_affinity_counts =
        update_with_anti_affinity_terms matches p_info.required_anti_affinity_terms s.pod_info.pod
          s.namespace_labels node multiplier s.existing_anti_affinity_counts;
    affinity_counts =
        update_with_affinity_terms matches s.pod_info.required_affinity_terms p_info.pod node
          multiplier s.affinity_counts;
    anti_affinity_counts =
        update_with_anti_affinity_terms matches s.pod_info.required_anti_affinity_terms p_info.pod
          [] node multiplier s.anti_affinity_counts;
  }

  -- The body of `processNode` in `getExistingAntiAffinityCounts`.
  unfoldable pub existing_of_pods :
      List (PodInfo S) → Pod → Labels → Node → List TopologyPairCount → List TopologyPairCount
  unfolding append_with_anti_affinity_terms
  existing_of_pods [] pod ns_labels node counts = counts
  existing_of_pods (existing ∷ rest) pod ns_labels node counts =
      existing_of_pods rest pod ns_labels node (
        append_with_anti_affinity_terms matches existing.required_anti_affinity_terms pod ns_labels
          node 1 counts)

  -- The claimed slots, merged in turn; a node with no counts claims none.
  unfoldable pub merge_existing : List (NodeInfo S) → Pod → Labels → TermCounts → TermCounts
  unfolding existing_of_pods merge_with_list
  merge_existing [] pod ns_labels result = result
  merge_existing (n ∷ claimed) pod ns_labels result = merge_existing claimed pod ns_labels (
      merge_with_list result
        (existing_of_pods n.pods_with_required_anti_affinity pod ns_labels n.node []))

  unfoldable pub get_existing_anti_affinity_counts : Pod → Labels → List (NodeInfo S) → TermCounts
  unfolding merge_existing
  get_existing_anti_affinity_counts pod ns_labels claimed = merge_existing claimed pod ns_labels []

  -- The two lists that `processNode` of `getIncomingAffinityAntiAffinityCounts` fills.
  unfoldable pub affinity_of_pods :
      PodInfo S → List (PodInfo S) → Node → List TopologyPairCount → List TopologyPairCount
  unfolding append_with_affinity_terms
  affinity_of_pods pod_info [] node affinity = affinity
  affinity_of_pods pod_info (existing ∷ rest) node affinity = affinity_of_pods pod_info rest node (
      append_with_affinity_terms matches pod_info.required_affinity_terms existing.pod node 1
        affinity)

  unfoldable pub anti_affinity_of_pods :
      PodInfo S → List (PodInfo S) → Node → List TopologyPairCount → List TopologyPairCount
  unfolding append_with_anti_affinity_terms
  anti_affinity_of_pods pod_info [] node anti_affinity = anti_affinity
  anti_affinity_of_pods pod_info (existing ∷ rest) node anti_affinity =
      anti_affinity_of_pods pod_info rest node (
        append_with_anti_affinity_terms matches pod_info.required_anti_affinity_terms existing.pod
          [] node 1 anti_affinity)

  unfoldable pub merge_incoming :
      PodInfo S → List (NodeInfo S) → TermCounts × TermCounts → TermCounts × TermCounts
  unfolding affinity_of_pods anti_affinity_of_pods merge_with_list
  merge_incoming pod_info [] counts = counts
  merge_incoming pod_info (n ∷ claimed) (affinity, anti_affinity) =
      merge_incoming pod_info claimed (
        merge_with_list affinity (affinity_of_pods pod_info n.pods n.node []),
        merge_with_list anti_affinity (anti_affinity_of_pods pod_info n.pods n.node []),
      )

  unfoldable pub get_incoming_affinity_anti_affinity_counts :
      PodInfo S → List (NodeInfo S) → TermCounts × TermCounts
  unfolding merge_incoming
  get_incoming_affinity_anti_affinity_counts pod_info claimed =
      if is_empty pod_info.required_affinity_terms && is_empty pod_info.required_anti_affinity_terms
      then ([], [])
      else merge_incoming pod_info claimed ([], [])

  -- The loop over the node's labels.
  unfoldable pub label_conflicts : TermCounts → Labels → Bool
  unfolding lookup
  label_conflicts counts [] = false
  label_conflicts counts ((key, value) ∷ labels) =
      if slt 0 (count_at (record { key = key; value = value }) counts)
      then true
      else label_conflicts counts labels

  unfoldable pub satisfy_existing_pods_anti_affinity : PreFilterState S → Node → Bool
  unfolding label_conflicts
  satisfy_existing_pods_anti_affinity state node =
      if is_empty state.existing_anti_affinity_counts
      then true
      else not (label_conflicts state.existing_anti_affinity_counts node.labels)

  -- The loop over the pod's anti-affinity terms.
  unfoldable pub term_conflicts : TermCounts → List (AffinityTerm S) → Node → Bool
  unfolding lookup
  term_conflicts counts [] node = false
  term_conflicts counts (t ∷ terms) node =
      let rest = term_conflicts counts terms node in
      elim (lookup t.topology_key node.labels) [
        | none ↦ rest
        | some value ↦
            if slt 0 (count_at (record { key = t.topology_key; value = value }) counts)
            then true
            else rest
      ]

  unfoldable pub satisfy_pod_anti_affinity : PreFilterState S → Node → Bool
  unfolding term_conflicts
  satisfy_pod_anti_affinity state node =
      if is_empty state.anti_affinity_counts
      then true
      else not (
          term_conflicts state.anti_affinity_counts state.pod_info.required_anti_affinity_terms
            node)

  -- The loop of `satisfyPodAffinity` with its flag `podsExist`; `none` is the return of false.
  unfoldable pub pods_exist : TermCounts → List (AffinityTerm S) → Node → Bool → Option Bool
  unfolding lookup
  pods_exist counts [] node exist = some exist
  pods_exist counts (t ∷ terms) node exist = elim (lookup t.topology_key node.labels) [
    | none ↦ none
    | some value ↦
        pods_exist counts terms node
          (exist && slt 0 (count_at (record { key = t.topology_key; value = value }) counts))
  ]

  unfoldable pub satisfy_pod_affinity : PreFilterState S → Node → Bool
  unfolding pods_exist pod_matches_all_affinity_terms
  satisfy_pod_affinity state node =
      elim (pods_exist state.affinity_counts state.pod_info.required_affinity_terms node true) [
        | none ↦ false
        | some exist ↦
            if exist
            then true
            else is_empty state.affinity_counts
              && pod_matches_all_affinity_terms matches state.pod_info.required_affinity_terms
                  state.pod_info.pod
      ]
