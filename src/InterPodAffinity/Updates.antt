-- ===== src/InterPodAffinity/Updates.antt =====
-- `AddPod` and `RemovePod` of pkg/interpodaffinity/filtering.go, against counting again.
use cozystack_scheduler.Prelude.{
  sum_over-append, ℕ, ◌+◌, ◌*◌, ◌%◌, ◌<◌, ◌≡◌, refl, List, [], ◌∷◌, ◌++◌, arith,
}
use cozystack_scheduler.Words.{word, minus_one}
use cozystack_scheduler.Framework.{PodInfo, NodeInfo, success, holds}
use cozystack_scheduler.InterPodAffinity.Counts.{TopologyPair, count_at}
use cozystack_scheduler.InterPodAffinity.Counts.Laws.{
  affinity_hits, anti_affinity_hits, count_at-update_with_affinity_terms,
  count_at-update_with_anti_affinity_terms,
}
use cozystack_scheduler.InterPodAffinity.Recount.{existing_hits, incoming_hits, incoming_anti_hits}
use cozystack_scheduler.InterPodAffinity.{PreFilterState, InterPodAffinity, update_with_pod}
use cozystack_scheduler.InterPodAffinity.Plugin.{
  state_of, add_pod, remove_pod, update_slot, get_pre_filter_state,
}
use cozystack_scheduler.InterPodAffinity.Upkeep.{IsSchedule, SameCounts, ns_labels, state_of-Sums}
use cozystack_scheduler.InterPodAffinity.Gains.{
  Gains, with_required_anti_affinity, sum_over-with_required, existing_hits-Gains,
  incoming_hits-Gains,
}

module _ {S Object Raw : Type 0} (pl : InterPodAffinity S Object Raw) (info : PodInfo S) where
  -- The snapshots before and after one more pod runs on a node.
  module _ (claimed : List (NodeInfo S) → List (NodeInfo S)) (fair : IsSchedule claimed)
      (p : PodInfo S) (n n' : NodeInfo S) (gains : Gains p n n') (xs ys : List (NodeInfo S)) where
    abbrev before : PreFilterState S
    before =
        let all = xs ++ n ∷ ys in
        state_of pl claimed info.pod info all (with_required_anti_affinity all)

    abbrev after : PreFilterState S
    after =
        let all = xs ++ n' ∷ ys in
        state_of pl claimed info.pod info all (with_required_anti_affinity all)

    abbrev Grows : TopologyPair → Type 0
    Grows q =
        (count_at q after.existing_anti_affinity_counts
          ≡ (count_at q before.existing_anti_affinity_counts
              + anti_affinity_hits pl.matches q p.required_anti_affinity_terms info.pod
                  (ns_labels pl info) n.node)
            % word)
        × (count_at q after.affinity_counts
            ≡ (count_at q before.affinity_counts
                + affinity_hits pl.matches q info.required_affinity_terms p.pod n.node)
              % word)
        × (count_at q after.anti_affinity_counts
            ≡ (count_at q before.anti_affinity_counts
                + anti_affinity_hits pl.matches q info.required_anti_affinity_terms p.pod [] n.node)
              % word)

    after-Grows : (q : TopologyPair) → Grows q
    after-Grows q =
        let a =
          state_of-Sums pl info claimed (xs ++ n ∷ ys) (with_required_anti_affinity (xs ++ n ∷ ys))
            fair q in
        let b =
          state_of-Sums pl info claimed (xs ++ n' ∷ ys)
            (with_required_anti_affinity (xs ++ n' ∷ ys)) fair q in
        let i = incoming_hits-Gains pl info p n n' gains q in
        let f = existing_hits pl.matches q info.pod (ns_labels pl info) in
        let g = incoming_hits pl.matches q info in
        let h = incoming_anti_hits pl.matches q info in
        (
          omega (
            arith,
            a.0,
            b.0,
            existing_hits-Gains pl info p n n' gains q,
            sum_over-with_required pl info q (xs ++ n ∷ ys),
            sum_over-with_required pl info q (xs ++ n' ∷ ys),
            sum_over-append f xs (n ∷ ys),
            sum_over-append f xs (n' ∷ ys),
          ),
          omega
              (arith, a.1, b.1, i.0, sum_over-append g xs (n ∷ ys), sum_over-append g xs (n' ∷ ys)),
          omega
              (arith, a.2, b.2, i.1, sum_over-append h xs (n ∷ ys), sum_over-append h xs (n' ∷ ys)),
        )

    module _ (s : PreFilterState S) (v : ℕ) (q : TopologyPair) where
      abbrev InRange : Type 0
      InRange =
          (count_at q s.existing_anti_affinity_counts < word)
          × (count_at q s.affinity_counts < word)
          × (count_at q s.anti_affinity_counts < word)

      abbrev updated : PreFilterState S
      updated = update_with_pod pl.matches s p n.node v

      update_with_pod-counts :
          InRange
          → (count_at q updated.existing_anti_affinity_counts
              ≡ (count_at q s.existing_anti_affinity_counts
                  + anti_affinity_hits pl.matches q p.required_anti_affinity_terms s.pod_info.pod
                      s.namespace_labels n.node
                    * v)
                % word)
            × (count_at q updated.affinity_counts
                ≡ (count_at q s.affinity_counts
                    + affinity_hits pl.matches q s.pod_info.required_affinity_terms p.pod n.node
                      * v)
                  % word)
            × (count_at q updated.anti_affinity_counts
                ≡ (count_at q s.anti_affinity_counts
                    + anti_affinity_hits pl.matches q s.pod_info.required_anti_affinity_terms p.pod
                        [] n.node
                      * v)
                  % word)
      unfolding update_with_pod
      update_with_pod-counts h = (
        count_at-update_with_anti_affinity_terms pl.matches q n.node v
            p.required_anti_affinity_terms s.pod_info.pod s.namespace_labels _ h.0,
        count_at-update_with_affinity_terms pl.matches q n.node v s.pod_info.required_affinity_terms
            p.pod _ h.1,
        count_at-update_with_anti_affinity_terms pl.matches q n.node v
            s.pod_info.required_anti_affinity_terms p.pod [] _ h.2,
      )

    before-InRange : (q : TopologyPair) → InRange before 1 q
    before-InRange q =
        let a =
          state_of-Sums pl info claimed (xs ++ n ∷ ys) (with_required_anti_affinity (xs ++ n ∷ ys))
            fair q in
        (omega (arith, a.0), omega (arith, a.1), omega (arith, a.2))

    after-InRange : (q : TopologyPair) → InRange after minus_one q
    after-InRange q =
        let a = after-Grows q in (omega (arith, a.0), omega (arith, a.1), omega (arith, a.2))

    add_pod-SameCounts : SameCounts (update_with_pod pl.matches before p n.node 1) after
    unfolding state_of
    add_pod-SameCounts =
        let g = after-Grows in
        let u = λ (q : TopologyPair). update_with_pod-counts before 1 q (before-InRange q) in
        record {
          existing = λ q. omega (arith, (g q).0, (u q).0);
          affinity = λ q. omega (arith, (g q).1, (u q).1);
          anti_affinity = λ q. omega (arith, (g q).2, (u q).2);
        }

    remove_pod-SameCounts : SameCounts (update_with_pod pl.matches after p n.node minus_one) before
    unfolding state_of
    remove_pod-SameCounts =
        let g = after-Grows in
        let b = before-InRange in
        let u = λ (q : TopologyPair). update_with_pod-counts after minus_one q (after-InRange q) in
        record {
          existing = λ q. omega (arith, (g q).0, (u q).0, (b q).0);
          affinity = λ q. omega (arith, (g q).1, (u q).1, (b q).1);
          anti_affinity = λ q. omega (arith, (g q).2, (u q).2, (b q).2);
        }

    -- On a state that `PreFilter` computes, in any order in which workers claim each node once and
    -- over the snapshot's list of nodes with required anti-affinity, `AddPod` succeeds, and stores
    -- the counts that `PreFilter` would compute from the snapshot with the pod on the node.
    pub add_pod-recount :
        (s : PreFilterState S) × (add_pod pl (holds before) p n.node ≡ (holds s, success))
        × SameCounts s after
    unfolding add_pod update_slot get_pre_filter_state
    add_pod-recount = (_, refl, add_pod-SameCounts)

    -- On a state that `PreFilter` computes, in any order in which workers claim each node once and
    -- over the snapshot's list of nodes with required anti-affinity, `RemovePod` of a pod at any
    -- position of a node succeeds, and stores the counts that `PreFilter` would compute from the
    -- snapshot without that pod.
    pub remove_pod-recount :
        (s : PreFilterState S) × (remove_pod pl (holds after) p n.node ≡ (holds s, success))
        × SameCounts s before
    unfolding remove_pod update_slot get_pre_filter_state
    remove_pod-recount = (_, refl, remove_pod-SameCounts)
