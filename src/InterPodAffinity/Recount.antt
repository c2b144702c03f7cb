-- ===== src/InterPodAffinity/Recount.antt =====
-- The counts of pkg/interpodaffinity/filtering.go as sums over the cluster: what one run of the
-- workers computes, and how `AddPod` and `RemovePod` keep it up to date.
use cozystack_scheduler.Prelude.{
  sum_over, sum_over-zero, ℕ, ◌+◌, ◌%◌, ◌<◌, ◌≡◌, refl, Bool, true, List, [], ◌∷◌, arith, is_empty,
  ◌&&◌, Bool-cases, inl, inr,
}
use cozystack_scheduler.GoMap.{lookup}
use cozystack_scheduler.Words.{word}
use cozystack_scheduler.Api.{Labels, Pod, Node}
use cozystack_scheduler.Merge.Types.{AffinityTerm}
use cozystack_scheduler.Framework.{PodInfo, NodeInfo}
use cozystack_scheduler.InterPodAffinity.Counts.{
  TopologyPair, TermCounts, TopologyPairCount, count_at, merge_with_list,
  pod_matches_all_affinity_terms,
}
use cozystack_scheduler.InterPodAffinity.Counts.Laws.{
  tally, affinity_hits, anti_affinity_hits, count_at-merge_with_list,
  tally-append_with_affinity_terms, tally-append_with_anti_affinity_terms,
}
use cozystack_scheduler.InterPodAffinity.{
  existing_of_pods, merge_existing, get_existing_anti_affinity_counts, affinity_of_pods,
  anti_affinity_of_pods, merge_incoming, get_incoming_affinity_anti_affinity_counts,
}

module _ {S : Type 0} (matches : AffinityTerm S → Pod → Labels → Bool) (q : TopologyPair) where
  -- How many anti-affinity terms of the node's pods match the pod and have the pair on the node.
  unfoldable pub existing_hits : Pod → Labels → NodeInfo S → ℕ
  existing_hits pod ns_labels n =
      sum_over
        (λ p. anti_affinity_hits matches q p.required_anti_affinity_terms pod ns_labels n.node)
        n.pods_with_required_anti_affinity

  tally-existing_of_pods :
      (ps : List (PodInfo S)) (pod : Pod) (ns_labels : Labels) (node : Node)
      (counts : List TopologyPairCount)
      → tally q (existing_of_pods matches ps pod ns_labels node counts)
        ≡ tally q counts
          + sum_over
              (λ p. anti_affinity_hits matches q p.required_anti_affinity_terms pod ns_labels node)
              ps
  unfolding existing_of_pods
  tally-existing_of_pods [] pod ns_labels node counts = omega arith
  tally-existing_of_pods (p ∷ ps) pod ns_labels node counts =
      let e =
        tally-append_with_anti_affinity_terms matches q node 1 p.required_anti_affinity_terms pod
          ns_labels counts in
      omega (arith, tally-existing_of_pods ps pod ns_labels node _, e)

  count_at-merge_existing :
      (claimed : List (NodeInfo S)) (pod : Pod) (ns_labels : Labels) (m : TermCounts)
      → count_at q m < word
      → count_at q (merge_existing matches claimed pod ns_labels m)
        ≡ (count_at q m + sum_over (existing_hits pod ns_labels) claimed) % word
  unfolding merge_existing existing_hits tally
  count_at-merge_existing [] pod ns_labels m h = omega arith
  count_at-merge_existing (n ∷ claimed) pod ns_labels m h =
      let ts =
        existing_of_pods matches n.pods_with_required_anti_affinity pod ns_labels n.node [] in
      let e = count_at-merge_with_list q ts m h in
      let t = tally-existing_of_pods n.pods_with_required_anti_affinity pod ns_labels n.node [] in
      omega (arith, count_at-merge_existing claimed pod ns_labels (merge_with_list m ts), e, t)

  -- The count of existing anti-affinity at a pair is the number of matching terms in the cluster.
  pub count_at-existing :
      (pod : Pod) (ns_labels : Labels) (claimed : List (NodeInfo S))
      → count_at q (get_existing_anti_affinity_counts matches pod ns_labels claimed)
        ≡ sum_over (existing_hits pod ns_labels) claimed % word
  unfolding get_existing_anti_affinity_counts lookup
  count_at-existing pod ns_labels claimed =
      omega (arith, count_at-merge_existing claimed pod ns_labels [])

  pub no_anti_affinity_hits :
      (terms : List (AffinityTerm S)) (pod : Pod) (ns_labels : Labels) (node : Node)
      → is_empty terms ≡ true
      → anti_affinity_hits matches q terms pod ns_labels node ≡ 0
  unfolding anti_affinity_hits
  no_anti_affinity_hits [] pod ns_labels node h = refl
  no_anti_affinity_hits (t ∷ terms) pod ns_labels node h = cc

  module _ (info : PodInfo S) where
    -- How many of the pod's affinity terms count for the node, over the pods that match all.
    unfoldable pub incoming_hits : NodeInfo S → ℕ
    incoming_hits n =
        sum_over (λ p. affinity_hits matches q info.required_affinity_terms p.pod n.node) n.pods

    unfoldable pub incoming_anti_hits : NodeInfo S → ℕ
    incoming_anti_hits n =
        sum_over
          (λ p. anti_affinity_hits matches q info.required_anti_affinity_terms p.pod [] n.node)
          n.pods

    tally-affinity_of_pods :
        (ps : List (PodInfo S)) (node : Node) (counts : List TopologyPairCount)
        → tally q (affinity_of_pods matches info ps node counts)
          ≡ tally q counts
            + sum_over (λ p. affinity_hits matches q info.required_affinity_terms p.pod node) ps
    unfolding affinity_of_pods
    tally-affinity_of_pods [] node counts = omega arith
    tally-affinity_of_pods (p ∷ ps) node counts =
        let e =
          tally-append_with_affinity_terms matches q node 1 info.required_affinity_terms p.pod
            counts in
        omega (arith, tally-affinity_of_pods ps node _, e)

    tally-anti_affinity_of_pods :
        (ps : List (PodInfo S)) (node : Node) (counts : List TopologyPairCount)
        → tally q (anti_affinity_of_pods matches info ps node counts)
          ≡ tally q counts
            + sum_over
                (λ p. anti_affinity_hits matches q info.required_anti_affinity_terms p.pod [] node)
                ps
    unfolding anti_affinity_of_pods
    tally-anti_affinity_of_pods [] node counts = omega arith
    tally-anti_affinity_of_pods (p ∷ ps) node counts =
        let e =
          tally-append_with_anti_affinity_terms matches q node 1 info.required_anti_affinity_terms
            p.pod [] counts in
        omega (arith, tally-anti_affinity_of_pods ps node _, e)

    count_at-merge_incoming :
        (claimed : List (NodeInfo S)) (a b : TermCounts)
        → count_at q a < word
        → count_at q b < word
        → (count_at q (merge_incoming matches info claimed (a, b)).0
            ≡ (count_at q a + sum_over incoming_hits claimed) % word)
          × (count_at q (merge_incoming matches info claimed (a, b)).1
              ≡ (count_at q b + sum_over incoming_anti_hits claimed) % word)
    unfolding merge_incoming incoming_hits incoming_anti_hits tally
    count_at-merge_incoming [] a b h k = (omega arith, omega arith)
    count_at-merge_incoming (n ∷ claimed) a b h k =
        let ts = affinity_of_pods matches info n.pods n.node [] in
        let us = anti_affinity_of_pods matches info n.pods n.node [] in
        let e = count_at-merge_with_list q ts a h in
        let f = count_at-merge_with_list q us b k in
        let t = tally-affinity_of_pods n.pods n.node [] in
        let u = tally-anti_affinity_of_pods n.pods n.node [] in
        let ih = count_at-merge_incoming claimed (merge_with_list a ts) (merge_with_list b us) in
        let r = ih (omega (arith, e)) (omega (arith, f)) in
        (omega (arith, r.0, e, t), omega (arith, r.1, f, u))

    no_affinity_hits :
        (terms : List (AffinityTerm S)) (pod : Pod) (node : Node)
        → is_empty terms ≡ true
        → affinity_hits matches q terms pod node ≡ 0
    unfolding affinity_hits pod_matches_all_affinity_terms
    no_affinity_hits [] pod node h = refl
    no_affinity_hits (t ∷ terms) pod node h = cc

    no_incoming_hits :
        (claimed : List (NodeInfo S))
        → is_empty info.required_affinity_terms ≡ true
        → sum_over incoming_hits claimed ≡ 0
    unfolding incoming_hits
    no_incoming_hits claimed h = sum_over-zero incoming_hits claimed λ n.
        sum_over-zero _ n.pods λ p. no_affinity_hits info.required_affinity_terms p.pod n.node h

    no_incoming_anti_hits :
        (claimed : List (NodeInfo S))
        → is_empty info.required_anti_affinity_terms ≡ true
        → sum_over incoming_anti_hits claimed ≡ 0
    unfolding incoming_anti_hits
    no_incoming_anti_hits claimed h = sum_over-zero incoming_anti_hits claimed λ n.
        sum_over-zero _ n.pods
          λ p. no_anti_affinity_hits info.required_anti_affinity_terms p.pod [] n.node h

    -- The counts of the incoming pod's own terms are the numbers of pods that match them.
    pub count_at-incoming :
        (claimed : List (NodeInfo S))
        → let r = get_incoming_affinity_anti_affinity_counts matches info claimed in
          (count_at q r.0 ≡ sum_over incoming_hits claimed % word)
          × (count_at q r.1 ≡ sum_over incoming_anti_hits claimed % word)
    unfolding get_incoming_affinity_anti_affinity_counts lookup
    count_at-incoming claimed =
        elim (Bool-cases
          (is_empty info.required_affinity_terms && is_empty info.required_anti_affinity_terms)) [
            | inl none' ↦
                let h : is_empty info.required_affinity_terms ≡ true = ground arith in
                let k : is_empty info.required_anti_affinity_terms ≡ true = ground arith in
                rw none' (
                  omega (arith, no_incoming_hits claimed h),
                  omega (arith, no_incoming_anti_hits claimed k),
                )
            | inr some' ↦
                let r = count_at-merge_incoming claimed [] [] (omega arith) (omega arith) in
                rw some' (omega (arith, r.0), omega (arith, r.1))
          ]
