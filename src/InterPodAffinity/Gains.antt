-- ===== src/InterPodAffinity/Gains.antt =====
-- What one more pod on a node adds to what `PreFilter` of pkg/interpodaffinity/filtering.go counts.
use mathlib.Core.List.{Perm}
use cozystack_scheduler.Prelude.{
  sum_over, sum_over-perm, ◌+◌, ◌≡◌, refl, List, [], ◌∷◌, arith, is_empty, is_empty-eq_nil,
  if◌then◌else◌, Bool-cases, inl, inr,
}
use cozystack_scheduler.Framework.{PodInfo, NodeInfo}
use cozystack_scheduler.InterPodAffinity.Counts.{TopologyPair}
use cozystack_scheduler.InterPodAffinity.Counts.Laws.{affinity_hits, anti_affinity_hits}
use cozystack_scheduler.InterPodAffinity.Recount.{
  existing_hits, incoming_hits, incoming_anti_hits, no_anti_affinity_hits,
}
use cozystack_scheduler.InterPodAffinity.{InterPodAffinity}
use cozystack_scheduler.InterPodAffinity.Upkeep.{ns_labels}

-- The second entry of a node in a snapshot is the first with one more pod, at any position: its lists
-- hold the same pods and the new one, which is in the list of the pods with required anti-affinity
-- exactly if it has such terms.
pub record Gains {S : Type 0} (p : PodInfo S) (n n' : NodeInfo S) : Type 0 where
  pub same_node : n'.node ≡ n.node
  pub pods : Perm n'.pods (p ∷ n.pods)
  pub pods_with_required_anti_affinity : Perm n'.pods_with_required_anti_affinity (
      if is_empty p.required_anti_affinity_terms
      then n.pods_with_required_anti_affinity
      else p ∷ n.pods_with_required_anti_affinity)

-- `HavePodsWithRequiredAntiAffinityList` of a snapshot: its nodes that run such a pod.
abbrev pub with_required_anti_affinity : {S : Type 0} → List (NodeInfo S) → List (NodeInfo S)
with_required_anti_affinity [] = []
with_required_anti_affinity (n ∷ ns) =
    let rest = with_required_anti_affinity ns in
    if is_empty n.pods_with_required_anti_affinity then rest else n ∷ rest

module _ {S Object Raw : Type 0} (pl : InterPodAffinity S Object Raw) (info : PodInfo S) where
  -- The nodes that are left out of the list have no terms that count.
  pub sum_over-with_required :
      (q : TopologyPair) (ns : List (NodeInfo S))
      → sum_over
          (existing_hits pl.matches q info.pod (ns_labels pl info))
          (with_required_anti_affinity ns)
        ≡ sum_over (existing_hits pl.matches q info.pod (ns_labels pl info)) ns
  unfolding existing_hits
  sum_over-with_required q [] = refl
  sum_over-with_required q (n ∷ ns) =
      elim (Bool-cases (is_empty n.pods_with_required_anti_affinity)) [
        | inl e ↦
            let none_of : n.pods_with_required_anti_affinity ≡ [] = is_empty-eq_nil _ e in
            rw (e, none_of) (omega (arith, sum_over-with_required q ns))
        | inr e ↦ rw e (omega (arith, sum_over-with_required q ns))
      ]

  module _ (p : PodInfo S) (n n' : NodeInfo S) (gains : Gains p n n') (q : TopologyPair) where
    pub existing_hits-Gains :
        existing_hits pl.matches q info.pod (ns_labels pl info) n'
        ≡ existing_hits pl.matches q info.pod (ns_labels pl info) n
          + anti_affinity_hits pl.matches q p.required_anti_affinity_terms info.pod
              (ns_labels pl info)
              n.node
    unfolding existing_hits
    existing_hits-Gains =
        let hits = λ (o : PodInfo S).
          anti_affinity_hits pl.matches q o.required_anti_affinity_terms info.pod
            (ns_labels pl info) n.node in
        let perm = sum_over-perm hits _ _ gains.pods_with_required_anti_affinity in
        rw gains.same_node (elim (Bool-cases (is_empty p.required_anti_affinity_terms)) [
          | inl e ↦
              let same : sum_over hits n'.pods_with_required_anti_affinity
                  ≡ sum_over hits n.pods_with_required_anti_affinity =
                rw e at perm in
              omega (
                arith,
                same,
                no_anti_affinity_hits pl.matches q p.required_anti_affinity_terms info.pod
                    (ns_labels pl info) n.node e,
              )
          | inr e ↦
              let more : sum_over hits n'.pods_with_required_anti_affinity
                  ≡ sum_over hits (p ∷ n.pods_with_required_anti_affinity) =
                rw e at perm in
              omega (arith, more)
        ])

    pub incoming_hits-Gains :
        (incoming_hits pl.matches q info n'
          ≡ incoming_hits pl.matches q info n
            + affinity_hits pl.matches q info.required_affinity_terms p.pod n.node)
        × (incoming_anti_hits pl.matches q info n'
            ≡ incoming_anti_hits pl.matches q info n
              + anti_affinity_hits pl.matches q info.required_anti_affinity_terms p.pod [] n.node)
    unfolding incoming_hits incoming_anti_hits
    incoming_hits-Gains = rw gains.same_node (
      omega (arith, sum_over-perm _ _ _ gains.pods),
      omega (arith, sum_over-perm _ _ _ gains.pods),
    )
