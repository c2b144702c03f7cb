-- ===== src/InterPodAffinity/Counts/Laws.antt =====
-- What the operations on the counters do, by the count at a pair.
use cozystack_scheduler.Prelude.{
  ℕ, ◌+◌, ◌*◌, ◌%◌, ◌<◌, ◌≡◌, inl, inr, String, Bool, none, some, List, [], ◌∷◌, ◌++◌, arith, ◌==◌,
  string_eq, nat_eq, if◌then◌else◌, Bool-cases, Option-cases,
}
use cozystack_scheduler.GoMap.{lookup}
use cozystack_scheduler.GoMap.Laws.{lookup-insert, lookup-delete}
use cozystack_scheduler.Words.{word, add64}
use cozystack_scheduler.Api.{Labels, Pod, Node}
use cozystack_scheduler.Merge.Types.{AffinityTerm}
use cozystack_scheduler.InterPodAffinity.Counts.{
  TopologyPair, pair_eq, TermCounts, TopologyPairCount, count_at, add_at, merge_with_list,
  add_or_drop, update, append, pod_matches_all_affinity_terms, update_each,
  update_with_affinity_terms, update_with_anti_affinity_terms, append_each,
  append_with_affinity_terms, append_with_anti_affinity_terms,
}

-- 1 if the pairs are equal, 0 otherwise.
abbrev pub same_pair : TopologyPair → TopologyPair → ℕ
same_pair p q = if p == q then 1 else 0

pub count_at-add_at :
    (p q : TopologyPair) (v : ℕ) (m : TermCounts)
    → count_at q m < word
    → count_at q (add_at p v m) ≡ (count_at q m + same_pair p q * v) % word
count_at-add_at p q v m h =
    ground (arith, lookup-insert p q (add64 (count_at p m) v) m, pair_eq.beq_iff p q)

pub count_at-add_or_drop :
    (p q : TopologyPair) (v : ℕ) (m : TermCounts)
    → count_at q m < word
    → count_at q (add_or_drop p v m) ≡ (count_at q m + same_pair p q * v) % word
unfolding add_or_drop
count_at-add_or_drop p q v m h =
    ground (arith, count_at-add_at p q v m, lookup-delete p q (add_at p v m), pair_eq.beq_iff p q)

-- The sum of a list's counts at a pair.
unfoldable pub tally : TopologyPair → List TopologyPairCount → ℕ
tally q [] = 0
tally q (t ∷ ts) = same_pair t.topology_pair q * t.count + tally q ts

pub tally-append :
    (q : TopologyPair) (xs ys : List TopologyPairCount)
    → tally q (xs ++ ys) ≡ tally q xs + tally q ys
unfolding tally
tally-append q [] ys = omega arith
tally-append q (t ∷ xs) ys = omega (arith, tally-append q xs ys)

-- Merging a list adds its tally at each pair.
pub count_at-merge_with_list :
    (q : TopologyPair) (ts : List TopologyPairCount) (m : TermCounts)
    → count_at q m < word
    → count_at q (merge_with_list m ts) ≡ (count_at q m + tally q ts) % word
unfolding merge_with_list tally
count_at-merge_with_list q [] m h = omega arith
count_at-merge_with_list q (t ∷ ts) m h =
    let e = count_at-add_at t.topology_pair q t.count m h in
    omega (arith, count_at-merge_with_list q ts (add_at t.topology_pair t.count m))

-- Whether the node's label at the key makes the pair: 1 or 0.
unfoldable pub hits : TopologyPair → Node → String → ℕ
hits q node tk = elim (lookup tk node.labels) [
  | none ↦ 0
  | some tv ↦ same_pair (record { key = tk; value = tv }) q
]

pub count_at-update :
    (q : TopologyPair) (node : Node) (tk : String) (v : ℕ) (m : TermCounts)
    → count_at q m < word
    → count_at q (update node tk v m) ≡ (count_at q m + hits q node tk * v) % word
unfolding update hits
count_at-update q node tk v m h = elim (Option-cases (lookup tk node.labels)) [
  | inl e ↦ rw (e, update) (rw (e, hits) (omega arith))
  | inr (tv, e) ↦
      rw (e, update) (rw (e, hits) (count_at-add_or_drop (record { key = tk; value = tv }) q v m h))
]

pub tally-append_node :
    (q : TopologyPair) (node : Node) (tk : String) (v : ℕ) (m : List TopologyPairCount)
    → tally q (append node tk v m) ≡ tally q m + hits q node tk * v
unfolding append hits tally
tally-append_node q node tk v m = elim (Option-cases (lookup tk node.labels)) [
  | inl e ↦ rw (e, append) (rw (e, hits) (omega arith))
  | inr (tv, e) ↦ rw (e, append) (rw (e, hits) (rw tally-append (omega arith)))
]

module _ {S : Type 0} (matches : AffinityTerm S → Pod → Labels → Bool) where
  -- How many of the terms have the pair on the node.
  unfoldable pub hits_each : TopologyPair → List (AffinityTerm S) → Node → ℕ
  hits_each q [] node = 0
  hits_each q (t ∷ terms) node = hits q node t.topology_key + hits_each q terms node

  -- The same for a pod that matches all terms, and 0 for any other.
  unfoldable pub affinity_hits : TopologyPair → List (AffinityTerm S) → Pod → Node → ℕ
  affinity_hits q terms pod node =
      if pod_matches_all_affinity_terms matches terms pod then hits_each q terms node else 0

  -- How many of the terms match the pod and have the pair on the node.
  unfoldable pub anti_affinity_hits : TopologyPair → List (AffinityTerm S) → Pod → Labels → Node → ℕ
  anti_affinity_hits q [] pod ns_labels node = 0
  anti_affinity_hits q (t ∷ terms) pod ns_labels node =
      (if matches t pod ns_labels then hits q node t.topology_key else 0)
      + anti_affinity_hits q terms pod ns_labels node

  module _ (q : TopologyPair) (node : Node) (v : ℕ) where
    count_at-update_each :
        (terms : List (AffinityTerm S)) (m : TermCounts)
        → count_at q m < word
        → count_at q (update_each matches terms node v m)
          ≡ (count_at q m + hits_each q terms node * v) % word
    unfolding update_each hits_each
    count_at-update_each [] m h = omega arith
    count_at-update_each (t ∷ terms) m h =
        let e = count_at-update q node t.topology_key v m h in
        omega (arith, count_at-update_each terms (update node t.topology_key v m))

    pub count_at-update_with_affinity_terms :
        (terms : List (AffinityTerm S)) (pod : Pod) (m : TermCounts)
        → count_at q m < word
        → count_at q (update_with_affinity_terms matches terms pod node v m)
          ≡ (count_at q m + affinity_hits q terms pod node * v) % word
    unfolding update_with_affinity_terms affinity_hits
    count_at-update_with_affinity_terms terms pod m h =
        ground (arith, count_at-update_each terms m h)

    pub count_at-update_with_anti_affinity_terms :
        (terms : List (AffinityTerm S)) (pod : Pod) (ns_labels : Labels) (m : TermCounts)
        → count_at q m < word
        → count_at q (update_with_anti_affinity_terms matches terms pod ns_labels node v m)
          ≡ (count_at q m + anti_affinity_hits q terms pod ns_labels node * v) % word
    unfolding update_with_anti_affinity_terms anti_affinity_hits
    count_at-update_with_anti_affinity_terms [] pod ns_labels m h = omega arith
    count_at-update_with_anti_affinity_terms (t ∷ terms) pod ns_labels m h =
        elim (Bool-cases (matches t pod ns_labels)) [
          | inl yes' ↦
              let e = count_at-update q node t.topology_key v m h in
              rw yes' (
                omega (
                  arith,
                  count_at-update_with_anti_affinity_terms terms pod ns_labels
                      (update node t.topology_key v m),
                ))
          | inr no' ↦
              rw no'
                (omega (arith, count_at-update_with_anti_affinity_terms terms pod ns_labels m h))
        ]

    tally-append_each :
        (terms : List (AffinityTerm S)) (m : List TopologyPairCount)
        → tally q (append_each matches terms node v m) ≡ tally q m + hits_each q terms node * v
    unfolding append_each hits_each
    tally-append_each [] m = omega arith
    tally-append_each (t ∷ terms) m =
        let e = tally-append_node q node t.topology_key v m in
        omega (arith, tally-append_each terms (append node t.topology_key v m))

    pub tally-append_with_affinity_terms :
        (terms : List (AffinityTerm S)) (pod : Pod) (m : List TopologyPairCount)
        → tally q (append_with_affinity_terms matches terms pod node v m)
          ≡ tally q m + affinity_hits q terms pod node * v
    unfolding append_with_affinity_terms affinity_hits
    tally-append_with_affinity_terms terms pod m = ground (arith, tally-append_each terms m)

    pub tally-append_with_anti_affinity_terms :
        (terms : List (AffinityTerm S)) (pod : Pod) (ns_labels : Labels)
        (m : List TopologyPairCount)
        → tally q (append_with_anti_affinity_terms matches terms pod ns_labels node v m)
          ≡ tally q m + anti_affinity_hits q terms pod ns_labels node * v
    unfolding append_with_anti_affinity_terms anti_affinity_hits
    tally-append_with_anti_affinity_terms [] pod ns_labels m = omega arith
    tally-append_with_anti_affinity_terms (t ∷ terms) pod ns_labels m =
        elim (Bool-cases (matches t pod ns_labels)) [
          | inl yes' ↦
              let e = tally-append_node q node t.topology_key v m in
              rw yes' (
                omega (
                  arith,
                  tally-append_with_anti_affinity_terms terms pod ns_labels
                      (append node t.topology_key v m),
                ))
          | inr no' ↦
              rw no' (omega (arith, tally-append_with_anti_affinity_terms terms pod ns_labels m))
        ]
