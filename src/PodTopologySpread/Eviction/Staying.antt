-- ===== src/PodTopologySpread/Eviction/Staying.antt =====
-- The domains of a constraint (pkg/podtopologyspread/filtering.go) while the pods of a node change.
use cozystack_scheduler.Prelude.{
  ℕ, ◌%◌, ◌≤◌, ◌≡◌, refl, ◌∙◌, String, true, false, List, [], ◌∷◌, ◌++◌, arith, Bool-cases, inl,
  inr, ◌==◌, string_eq, All, All-map, length,
}
use cozystack_scheduler.GoMap.{GoMap, lookup_or}
use cozystack_scheduler.Words.{word}
use cozystack_scheduler.Api.{Pod}
use cozystack_scheduler.Framework.{PodInfo, NodeInfo}
use cozystack_scheduler.PodTopologySpread.{Constraint, PodTopologySpread}
use cozystack_scheduler.PodTopologySpread.CriticalPaths.{max_int32}
use cozystack_scheduler.PodTopologySpread.Minimum.{IsCountMap}
use cozystack_scheduler.PodTopologySpread.State.Totals.{Counts}
use cozystack_scheduler.PodTopologySpread.Tracking.Least.{IsSmallMap}
use cozystack_scheduler.PodTopologySpread.Domains.{add_domain, add_node_domain, counts_for, domains}
use cozystack_scheduler.PodTopologySpread.Verdict.Numbers.{entries-numbers}
use cozystack_scheduler.PodTopologySpread.Eviction.Counting.{holding}
use cozystack_scheduler.PodTopologySpread.Eviction.Updating.{has, Known}

add_domain-adds : (v : String) (ds : List String) → has v (add_domain v ds) ≡ true
add_domain-adds v [] = ground (arith, string_eq.beq_iff v v)
add_domain-adds v (d ∷ ds) = elim (Bool-cases (d == v)) [
  | inl e ↦ rw (e, e) refl
  | inr e ↦ ground (arith, add_domain-adds v ds)
]

add_domain-keeps :
    (v w : String) (ds : List String) → has w ds ≡ true → has w (add_domain v ds) ≡ true
add_domain-keeps v w [] h = cc
add_domain-keeps v w (d ∷ ds) h = ground (arith, add_domain-keeps v w ds)

module _ {S R Object Raw : Type 0} (pl : PodTopologySpread S R Object Raw) (pod : Pod)
    (constraints : List (Constraint S)) where
  domains-has :
      (c : Constraint S) (v : String) (ns : List (NodeInfo S)) (ds : List String)
      → has v ds ≡ true
      → has v (domains pl pod constraints c ns ds) ≡ true
  domains-has c v [] ds h = h
  domains-has c v (n ∷ ns) ds h = elim (Bool-cases (counts_for pl pod constraints c n)) [
    | inl e ↦ rw e (domains-has c v ns _ (add_domain-keeps _ v ds h))
    | inr e ↦ rw e (domains-has c v ns ds h)
  ]

  module _ (n : NodeInfo S) (ys : List (NodeInfo S)) where
    -- The domains do not depend on the pods.
    pub domains-holding :
        (c : Constraint S) (pods pods' : List (PodInfo S)) (xs : List (NodeInfo S))
        (ds : List String)
        → domains pl pod constraints c (xs ++ holding n pods ∷ ys) ds
          ≡ domains pl pod constraints c (xs ++ holding n pods' ∷ ys) ds
    domains-holding c pods pods' [] ds = refl
    domains-holding c pods pods' (x ∷ xs) ds = domains-holding c pods pods' xs _

    domains-counted :
        (c : Constraint S) (pods : List (PodInfo S)) (xs : List (NodeInfo S)) (ds : List String)
        → counts_for pl pod constraints c n ≡ true
        → has
            (lookup_or "" c.topology_key n.node.labels)
            (domains pl pod constraints c (xs ++ holding n pods ∷ ys) ds)
          ≡ true
    domains-counted c pods [] ds h =
        rw (domains, add_node_domain, h)
          (domains-has c (lookup_or "" c.topology_key n.node.labels) ys _ (add_domain-adds _ ds))
    domains-counted c pods (x ∷ xs) ds h = domains-counted c pods xs _ h

    -- The node's value is a domain of each constraint that it counts for.
    pub domains-Known :
        (p : PodInfo S) (delta : ℕ) (pods : List (PodInfo S)) (xs : List (NodeInfo S))
        (cs : List (Constraint S))
        → Known pl pod constraints n p delta
            (λ c. domains pl pod constraints c (xs ++ holding n pods ∷ ys) [])
            cs
    domains-Known p delta pods xs [] = tt
    domains-Known p delta pods xs (c ∷ cs) =
        ((λ h. domains-counted c pods xs [] h), domains-Known p delta pods xs cs)

  -- The same numbers, as int64.
  pub Counts-shift :
      (f g : Constraint S → String → ℕ) (cs : List (Constraint S)) (ms : List (GoMap String ℕ))
      → All (λ c. pl.selectors.empty c.selector ≡ false) cs
      → ((c : Constraint S) (v : String)
          → pl.selectors.empty c.selector ≡ false
          → f c v % word ≡ g c v % word)
      → Counts pl pod f cs ms
      → Counts pl pod g cs ms
  Counts-shift f g [] ms e h a = tt
  Counts-shift f g (c ∷ cs) [] e h a = elim a [ ]
  Counts-shift f g (c ∷ cs) (m ∷ ms) e h a =
      ((λ v. a.0 v ∙ h c v e.0), Counts-shift f g cs ms e.1 h a.1)

  pub Counts-IsSmallMap :
      (f : Constraint S → String → ℕ) (cs : List (Constraint S)) (ms : List (GoMap String ℕ))
      → length ms ≡ length cs
      → ((c : Constraint S) (v : String) → f c v ≤ max_int32)
      → Counts pl pod f cs ms
      → All IsCountMap ms
      → All IsSmallMap ms
  Counts-IsSmallMap f [] [] l h a d = tt
  Counts-IsSmallMap f [] (m ∷ ms) l h a d = cc
  Counts-IsSmallMap f (c ∷ cs) [] l h a d = elim a [ ]
  Counts-IsSmallMap f (c ∷ cs) (m ∷ ms) l h a d = (
    All-map (λ e same. small_entry e.1 (f c e.0) same (h c e.0)) m
        (entries-numbers (f c) m d.0.0 (λ v. omega (arith, a.0 v, h c v))),
    Counts-IsSmallMap f cs ms (omega (arith, l)) h a.1 d.1,
  )
    where
      small_entry : (k n : ℕ) → k ≡ n → n ≤ max_int32 → k ≤ max_int32
      small_entry k n e h = omega (arith, e, h)
