-- ===== src/InterPodAffinity/Counts.antt =====
-- pkg/interpodaffinity/filtering.go: `topologyToMatchedTermCount` and its list form, with the loops
-- that fill them. `matches` is `AffinityTerm.Matches` of the framework.
pub mod Laws
use cozystack_scheduler.Prelude.{
  ℕ, ◌≡◌, ◌↔◌, String, Bool, true, false, ◌&&◌, Option, none, some, List, [], ◌∷◌, ◌++◌, arith, Eq,
  ◌==◌, string_eq, nat_eq, if◌then◌else◌, is_empty, all,
}
use cozystack_scheduler.GoMap.{GoMap, lookup, lookup_or, insert, delete}
use cozystack_scheduler.Words.{add64}
use cozystack_scheduler.Api.{Labels, Pod, Node}
use cozystack_scheduler.Merge.Types.{AffinityTerm}

pub record TopologyPair : Type 0 where
  pub key : String
  pub value : String

abbrev pub pair_beq : TopologyPair → TopologyPair → Bool
pair_beq p q = (p.key == q.key) && (p.value == q.value)

pub pair_beq_iff : (p q : TopologyPair) → (pair_beq p q ≡ true) ↔ (p ≡ q)
pair_beq_iff p q = ground (arith, string_eq.beq_iff p.key q.key, string_eq.beq_iff p.value q.value)

instance abbrev pub pair_eq : Eq TopologyPair
pair_eq = record { beq = pair_beq; beq_iff = pair_beq_iff }

-- `topologyToMatchedTermCount`
abbrev pub TermCounts : Type 0
TermCounts = GoMap TopologyPair ℕ

pub record TopologyPairCount : Type 0 where
  pub topology_pair : TopologyPair
  pub count : ℕ

-- `m[pair]`, zero where there is no entry
abbrev pub count_at : TopologyPair → TermCounts → ℕ
count_at = lookup_or 0

-- `m[pair] += value`
abbrev pub add_at : TopologyPair → ℕ → TermCounts → TermCounts
add_at pair value m = insert pair (add64 (count_at pair m) value) m

unfoldable pub merge : TermCounts → TermCounts → TermCounts
unfolding lookup insert
merge m [] = m
merge m ((pair, count) ∷ rest) = merge (add_at pair count m) rest

unfoldable pub merge_with_list : TermCounts → List TopologyPairCount → TermCounts
unfolding lookup insert
merge_with_list m [] = m
merge_with_list m (t ∷ rest) = merge_with_list (add_at t.topology_pair t.count m) rest

unfoldable pub clone : TermCounts → TermCounts
unfolding merge
clone m = merge [] m

-- The entry is deleted when it is down to zero.
unfoldable pub add_or_drop : TopologyPair → ℕ → TermCounts → TermCounts
unfolding lookup insert delete
add_or_drop pair value m =
    let m' = add_at pair value m in if count_at pair m' == 0 then delete pair m' else m'

unfoldable pub update : Node → String → ℕ → TermCounts → TermCounts
unfolding lookup add_or_drop
update node tk value m = elim (lookup tk node.labels) [
  | none ↦ m
  | some tv ↦ add_or_drop (record { key = tk; value = tv }) value m
]

-- `topologyToMatchedTermCountList.append`
unfoldable pub append : Node → String → ℕ → List TopologyPairCount → List TopologyPairCount
unfolding lookup
append node tk value m = elim (lookup tk node.labels) [
  | none ↦ m
  | some tv ↦ m ++ record { topology_pair = record { key = tk; value = tv }; count = value } ∷ []
]

module _ {S : Type 0} (matches : AffinityTerm S → Pod → Labels → Bool) where
  unfoldable pub pod_matches_all_affinity_terms : List (AffinityTerm S) → Pod → Bool
  pod_matches_all_affinity_terms [] pod = false
  pod_matches_all_affinity_terms (t ∷ terms) pod = all (λ t. matches t pod []) (t ∷ terms)

  -- The loop over the terms, once all of them match.
  unfoldable pub update_each : List (AffinityTerm S) → Node → ℕ → TermCounts → TermCounts
  unfolding update
  update_each [] node value m = m
  update_each (t ∷ terms) node value m =
      update_each terms node value (update node t.topology_key value m)

  unfoldable pub update_with_affinity_terms :
      List (AffinityTerm S) → Pod → Node → ℕ → TermCounts → TermCounts
  unfolding pod_matches_all_affinity_terms update_each
  update_with_affinity_terms terms pod node value m =
      if pod_matches_all_affinity_terms terms pod then update_each terms node value m else m

  unfoldable pub update_with_anti_affinity_terms :
      List (AffinityTerm S) → Pod → Labels → Node → ℕ → TermCounts → TermCounts
  unfolding update
  update_with_anti_affinity_terms [] pod ns_labels node value m = m
  update_with_anti_affinity_terms (t ∷ terms) pod ns_labels node value m =
      update_with_anti_affinity_terms terms pod ns_labels node value
        (if matches t pod ns_labels then update node t.topology_key value m else m)

  unfoldable pub append_each :
      List (AffinityTerm S) → Node → ℕ → List TopologyPairCount → List TopologyPairCount
  unfolding append
  append_each [] node value m = m
  append_each (t ∷ terms) node value m =
      append_each terms node value (append node t.topology_key value m)

  unfoldable pub append_with_affinity_terms :
      List (AffinityTerm S) → Pod → Node → ℕ → List TopologyPairCount → List TopologyPairCount
  unfolding pod_matches_all_affinity_terms append_each
  append_with_affinity_terms terms pod node value m =
      if pod_matches_all_affinity_terms terms pod then append_each terms node value m else m

  unfoldable pub append_with_anti_affinity_terms :
      List (AffinityTerm S)
      → Pod
      → Labels
      → Node
      → ℕ
      → List TopologyPairCount
      → List TopologyPairCount
  unfolding append
  append_with_anti_affinity_terms [] pod ns_labels node value m = m
  append_with_anti_affinity_terms (t ∷ terms) pod ns_labels node value m =
      append_with_anti_affinity_terms terms pod ns_labels node value
        (if matches t pod ns_labels then append node t.topology_key value m else m)
