-- ===== src/InterPodAffinity/Upkeep.antt =====
-- The counts of `PreFilter` of pkg/interpodaffinity/filtering.go, against the schedule of the workers.
use mathlib.Core.List.{Perm}
use cozystack_scheduler.Prelude.{sum_over, sum_over-perm, ◌%◌, ◌≡◌, sym, ◌∙◌, List}
use cozystack_scheduler.Words.{word}
use cozystack_scheduler.Api.{Labels, Pod}
use cozystack_scheduler.Framework.{PodInfo, NodeInfo}
use cozystack_scheduler.InterPodAffinity.Counts.{TopologyPair, count_at}
use cozystack_scheduler.InterPodAffinity.Recount.{
  existing_hits, incoming_hits, incoming_anti_hits, count_at-existing, count_at-incoming,
}
use cozystack_scheduler.InterPodAffinity.{PreFilterState, InterPodAffinity}
use cozystack_scheduler.InterPodAffinity.Plugin.{state_of, get_namespace_labels_snapshot}

-- The workers of a run claim each node once, in some order.
abbrev pub IsSchedule : {S : Type 0} → (List (NodeInfo S) → List (NodeInfo S)) → Type 0
IsSchedule {S} claimed = (nodes : List (NodeInfo S)) → Perm (claimed nodes) nodes

-- Two states count the same at every pair.
pub record SameCounts {S : Type 0} (s t : PreFilterState S) : Type 0 where
  pub existing :
      (q : TopologyPair)
      → count_at q s.existing_anti_affinity_counts ≡ count_at q t.existing_anti_affinity_counts
  pub affinity : (q : TopologyPair) → count_at q s.affinity_counts ≡ count_at q t.affinity_counts
  pub anti_affinity :
      (q : TopologyPair) → count_at q s.anti_affinity_counts ≡ count_at q t.anti_affinity_counts

module _ {S Object Raw : Type 0} (pl : InterPodAffinity S Object Raw) (info : PodInfo S) where
  abbrev pub pod : Pod
  pod = info.pod

  abbrev pub ns_labels : Labels
  ns_labels = get_namespace_labels_snapshot pl pod.namespace

  module _ (claimed : List (NodeInfo S) → List (NodeInfo S)) (all req : List (NodeInfo S)) where
    abbrev pub state : PreFilterState S
    state = state_of pl claimed pod info all req

    -- The counts of a state that `PreFilter` computes, as sums over the snapshot.
    abbrev pub Sums : TopologyPair → Type 0
    Sums q =
        (count_at q state.existing_anti_affinity_counts
          ≡ sum_over (existing_hits pl.matches q pod ns_labels) req % word)
        × (count_at q state.affinity_counts ≡ sum_over (incoming_hits pl.matches q info) all % word)
        × (count_at q state.anti_affinity_counts
            ≡ sum_over (incoming_anti_hits pl.matches q info) all % word)

    pub state_of-Sums : IsSchedule claimed → (q : TopologyPair) → Sums q
    unfolding state_of
    state_of-Sums fair q =
        let r = count_at-incoming pl.matches q info (claimed all) in
        (
          rw (← sum_over-perm (existing_hits pl.matches q pod ns_labels) _ req (fair req))
              (count_at-existing pl.matches q pod ns_labels (claimed req)),
          rw (← sum_over-perm (incoming_hits pl.matches q info) _ all (fair all)) r.0,
          rw (← sum_over-perm (incoming_anti_hits pl.matches q info) _ all (fair all)) r.1,
        )

  -- In any two orders in which workers claim each node once, `PreFilter` computes the same counts.
  pub state_of-schedule :
      (claimed claimed' : List (NodeInfo S) → List (NodeInfo S)) (all req : List (NodeInfo S))
      → IsSchedule claimed
      → IsSchedule claimed'
      → SameCounts
          (state_of pl claimed info.pod info all req)
          (state_of pl claimed' info.pod info all req)
  state_of-schedule claimed claimed' all req fair fair' =
      let a = state_of-Sums claimed all req fair in
      let b = state_of-Sums claimed' all req fair' in
      record {
        existing = λ q. (a q).0 ∙ sym (b q).0;
        affinity = λ q. (a q).1 ∙ sym (b q).1;
        anti_affinity = λ q. (a q).2 ∙ sym (b q).2;
      }
