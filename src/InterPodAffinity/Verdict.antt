-- ===== src/InterPodAffinity/Verdict.antt =====
-- `Filter` of pkg/interpodaffinity/filtering.go against a verdict read off the snapshot.
use cozystack_scheduler.Prelude.{
  ℕ, ◌%◌, ◌<◌, ◌≡◌, refl, String, Bool, true, false, not, ◌&&◌, none, some, List, [], ◌∷◌, arith,
  ltb, is_empty, all, any, if◌then◌else◌, Option-cases, inl, inr, string_eq,
}
use cozystack_scheduler.GoMap.{lookup}
use cozystack_scheduler.GoMap.Laws.{is_empty-insert}
use cozystack_scheduler.Words.{word, half_word, slt, add64}
use cozystack_scheduler.Api.{Labels, Pod, Node}
use cozystack_scheduler.Merge.Types.{AffinityTerm}
use cozystack_scheduler.Framework.{PodInfo, NodeInfo}
use cozystack_scheduler.InterPodAffinity.Counts.{
  TopologyPair, pair_eq, TermCounts, TopologyPairCount, count_at, add_at, merge_with_list, append,
  append_each, append_with_affinity_terms, pod_matches_all_affinity_terms,
}
use cozystack_scheduler.InterPodAffinity.{
  affinity_of_pods, anti_affinity_of_pods, merge_incoming,
  get_incoming_affinity_anti_affinity_counts, label_conflicts, term_conflicts, pods_exist,
}

-- A count at a pair, as a number of the cluster, with room below the sign bit.
abbrev pub Holds : TermCounts → (TopologyPair → ℕ) → Type 0
Holds counts number =
    (q : TopologyPair) → (count_at q counts ≡ number q % word) × (number q < half_word)

slt-mod : (x : ℕ) → x < half_word → slt 0 (x % word) ≡ ltb 0 x
slt-mod x h = ground arith

slt-Holds :
    (counts : TermCounts) (number : TopologyPair → ℕ)
    → Holds counts number
    → (q : TopologyPair) → slt 0 (count_at q counts) ≡ ltb 0 (number q)
slt-Holds counts number h q = rw (h q).0 (slt-mod (number q) (h q).1)

-- The pair of a label.
abbrev pub pair : String → String → TopologyPair
pair key value = record { key = key; value = value }

-- Some label of the node makes a pair with a positive number.
abbrev pub label_hit : (TopologyPair → ℕ) → Labels → Bool
label_hit number = any (λ l. ltb 0 (number (pair l.0 l.1)))

pub label_conflicts-Holds :
    {S : Type 0} (matches : AffinityTerm S → Pod → Labels → Bool) (counts : TermCounts)
    (number : TopologyPair → ℕ) (labels : Labels)
    → Holds counts number
    → label_conflicts matches counts labels ≡ label_hit number labels
unfolding label_conflicts
label_conflicts-Holds matches counts number [] h = refl
label_conflicts-Holds matches counts number ((key, value) ∷ labels) h = ground (
  arith,
  slt-Holds counts number h (pair key value),
  label_conflicts-Holds matches counts number labels h,
)

-- The node's label at a term's topology key makes a pair with a positive number.
abbrev pub term_hit : {S : Type 0} → (TopologyPair → ℕ) → Node → AffinityTerm S → Bool
term_hit number node t = elim (lookup t.topology_key node.labels) [
  | none ↦ false
  | some value ↦ ltb 0 (number (pair t.topology_key value))
]

abbrev pub has_topology : {S : Type 0} → Node → AffinityTerm S → Bool
has_topology node t = elim (lookup t.topology_key node.labels) [ none ↦ false | some value ↦ true ]

module _ {S : Type 0} (matches : AffinityTerm S → Pod → Labels → Bool) (counts : TermCounts)
    (number : TopologyPair → ℕ) (h : Holds counts number) (node : Node) where
  pub term_conflicts-Holds :
      (terms : List (AffinityTerm S))
      → term_conflicts matches counts terms node ≡ any (term_hit number node) terms
  unfolding term_conflicts
  term_conflicts-Holds [] = refl
  term_conflicts-Holds (t ∷ terms) = elim (Option-cases (lookup t.topology_key node.labels)) [
    | inl e ↦ ground (arith, term_conflicts-Holds terms)
    | inr (value, e) ↦
        ground
          (arith, slt-Holds counts number h (pair t.topology_key value), term_conflicts-Holds terms)
  ]

  pub pods_exist-Holds :
      (terms : List (AffinityTerm S)) (exist : Bool)
      → pods_exist matches counts terms node exist ≡ (
          if all (has_topology node) terms
          then some (exist && all (term_hit number node) terms)
          else none)
  unfolding pods_exist
  pods_exist-Holds [] exist = ground arith
  pods_exist-Holds (t ∷ terms) exist = elim (Option-cases (lookup t.topology_key node.labels)) [
    | inl e ↦ ground arith
    | inr (value, e) ↦
        let now = slt 0 (count_at (pair t.topology_key value) counts) in
        ground (
          arith,
          slt-Holds counts number h (pair t.topology_key value),
          pods_exist-Holds terms (exist && now),
        )
  ]

-- Whether any count is made at all.
is_empty-merge_with_list :
    (m : TermCounts) (ts : List TopologyPairCount)
    → is_empty (merge_with_list m ts) ≡ (is_empty m && is_empty ts)
unfolding merge_with_list
is_empty-merge_with_list m [] = ground arith
is_empty-merge_with_list m (t ∷ ts) = ground (
  arith,
  is_empty-merge_with_list (add_at t.topology_pair t.count m) ts,
  is_empty-insert t.topology_pair (add64 (count_at t.topology_pair m) t.count) m,
)

is_empty-append :
    {S : Type 0} (node : Node) (t : AffinityTerm S) (v : ℕ) (m : List TopologyPairCount)
    → is_empty (append node t.topology_key v m) ≡ (is_empty m && not (has_topology node t))
unfolding append
is_empty-append node t v [] = ground arith
is_empty-append node t v (x ∷ m) = ground arith

module _ {S : Type 0} (matches : AffinityTerm S → Pod → Labels → Bool) where
  is_empty-append_each :
      (terms : List (AffinityTerm S)) (node : Node) (v : ℕ) (m : List TopologyPairCount)
      → is_empty (append_each matches terms node v m)
        ≡ (is_empty m && not (any (has_topology node) terms))
  unfolding append_each
  is_empty-append_each [] node v m = ground arith
  is_empty-append_each (t ∷ terms) node v m = ground (
    arith,
    is_empty-append node t v m,
    is_empty-append_each terms node v (append node t.topology_key v m),
  )

  module _ (info : PodInfo S) where
    -- An existing pod of the node matches all affinity terms, and the node has a topology of one.
    abbrev pub counts_on : NodeInfo S → Bool
    counts_on n =
        any (λ p. pod_matches_all_affinity_terms matches info.required_affinity_terms p.pod) n.pods
        && any (has_topology n.node) info.required_affinity_terms

    is_empty-affinity_of_pods :
        (ps : List (PodInfo S)) (node : Node) (m : List TopologyPairCount)
        → is_empty (affinity_of_pods matches info ps node m) ≡ (
            is_empty m
            && not (
                any
                  (λ p. pod_matches_all_affinity_terms matches info.required_affinity_terms p.pod)
                  ps
                && any (has_topology node) info.required_affinity_terms))
    unfolding affinity_of_pods append_with_affinity_terms
    is_empty-affinity_of_pods [] node m = ground arith
    is_empty-affinity_of_pods (p ∷ ps) node m = ground (
      arith,
      is_empty-append_each info.required_affinity_terms node 1 m,
      is_empty-affinity_of_pods ps node
          (append_with_affinity_terms matches info.required_affinity_terms p.pod node 1 m),
    )

    is_empty-merge_incoming :
        (claimed : List (NodeInfo S)) (a b : TermCounts)
        → is_empty (merge_incoming matches info claimed (a, b)).0
          ≡ (is_empty a && not (any counts_on claimed))
    unfolding merge_incoming
    is_empty-merge_incoming [] a b = ground arith
    is_empty-merge_incoming (n ∷ claimed) a b =
        let ts = affinity_of_pods matches info n.pods n.node [] in
        ground (
          arith,
          is_empty-affinity_of_pods n.pods n.node [],
          is_empty-merge_with_list a ts,
          is_empty-merge_incoming claimed (merge_with_list a ts)
              (merge_with_list b (anti_affinity_of_pods matches info n.pods n.node [])),
        )

    no_pod_matches :
        (terms : List (AffinityTerm S)) (ps : List (PodInfo S))
        → is_empty terms ≡ true
        → any (λ p. pod_matches_all_affinity_terms matches terms p.pod) ps ≡ false
    unfolding pod_matches_all_affinity_terms
    no_pod_matches [] [] h = refl
    no_pod_matches [] (p ∷ ps) h = no_pod_matches [] ps h
    no_pod_matches (t ∷ terms) ps h = cc

    no_node_counts :
        (claimed : List (NodeInfo S))
        → is_empty info.required_affinity_terms ≡ true
        → any counts_on claimed ≡ false
    no_node_counts [] h = refl
    no_node_counts (n ∷ claimed) h =
        ground
          (arith, no_pod_matches info.required_affinity_terms n.pods h, no_node_counts claimed h)

    -- The affinity counts are empty exactly if no node counts.
    pub is_empty-incoming :
        (claimed : List (NodeInfo S))
        → is_empty (get_incoming_affinity_anti_affinity_counts matches info claimed).0
          ≡ not (any counts_on claimed)
    unfolding get_incoming_affinity_anti_affinity_counts
    is_empty-incoming claimed =
        ground (arith, no_node_counts claimed, is_empty-merge_incoming claimed [] [])
