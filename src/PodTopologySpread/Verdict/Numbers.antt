-- ===== src/PodTopologySpread/Verdict/Numbers.antt =====
-- The counts of pods and of domains (pkg/podtopologyspread/common.go and filtering.go), and their least.
use cozystack_scheduler.Prelude.{
  ℕ, suc, ◌+◌, ◌≤◌, ◌≡◌, refl, sym, ap, ◌∙◌, inl, inr, String, Bool, none, some, List, [], ◌∷◌,
  arith, ◌==◌, string_eq, if◌then◌else◌, Bool-cases, All, All-map, length, ltb, sum_over,
}
use cozystack_scheduler.GoMap.{GoMap, lookup, lookup_or, HasDistinctKeys}
use cozystack_scheduler.Api.{Pod}
use cozystack_scheduler.Framework.{PodInfo, NodeInfo}
use cozystack_scheduler.PodTopologySpread.{Constraint, PodTopologySpread, LabelSelectors}
use cozystack_scheduler.PodTopologySpread.CriticalPaths.{max_int32}
use cozystack_scheduler.PodTopologySpread.Minimum.{smin, least}
use cozystack_scheduler.PodTopologySpread.State.{skips_constraint}
use cozystack_scheduler.PodTopologySpread.State.Selected.{counts_pod}
use cozystack_scheduler.PodTopologySpread.State.Totals.{matching, left_out}
use cozystack_scheduler.PodTopologySpread.Domains.{keys, add_domain, counts_for, domains}

-- The least number of the domains, and at most the bound.
abbrev pub lowest : ℕ → (String → ℕ) → List String → ℕ
lowest bound f [] = bound
lowest bound f (d ∷ ds) = lowest (if ltb (f d) bound then f d else bound) f ds

smin-ltb : (b n : ℕ) → b ≤ max_int32 → n ≤ max_int32 → smin b n ≡ (if ltb n b then n else b)
smin-ltb b n h k = ground arith

lesser-small : (b n : ℕ) → b ≤ max_int32 → n ≤ max_int32 → (if ltb n b then n else b) ≤ max_int32
lesser-small b n h k = ground arith

pub least-lowest :
    (f : String → ℕ) (m : GoMap String ℕ) (b : ℕ)
    → b ≤ max_int32
    → ((v : String) → f v ≤ max_int32)
    → All (λ e. e.1 ≡ f e.0) m
    → least b m ≡ lowest b f (keys m)
least-lowest f [] b h k a = refl
least-lowest f ((v, n) ∷ m) b h k (e, a) =
    let first : smin b n ≡ (if ltb (f v) b then f v else b) = rw e (smin-ltb b (f v) h (k v)) in
    ap (λ x. least x m) first
    ∙ least-lowest f m (if ltb (f v) b then f v else b) (lesser-small b (f v) h (k v)) k a

-- Every entry is found at its key.
entries-found : (m : GoMap String ℕ) → HasDistinctKeys m → All (λ e. lookup e.0 m ≡ some e.1) m
unfolding lookup
entries-found [] d = tt
entries-found ((v, n) ∷ m) (fresh, d) = (
  ground (arith, string_eq.beq_iff v v),
  All-map
      (λ e found. elim (Bool-cases (v == e.0)) [
        | inl same ↦
            let gone : lookup e.0 m ≡ none = rw (sym ((string_eq.beq_iff v e.0).0 same)) fresh in cc
        | inr other ↦ rw (lookup, other) found
      ])
      m (entries-found m d),
)

found_number : (m : GoMap String ℕ) (v : String) (n : ℕ) → lookup v m ≡ some n → n ≡ lookup_or 0 v m
found_number m v n h = rw (lookup_or, h) refl

pub entries-numbers :
    (f : String → ℕ) (m : GoMap String ℕ)
    → HasDistinctKeys m
    → ((v : String) → lookup_or 0 v m ≡ f v)
    → All (λ e. e.1 ≡ f e.0) m
entries-numbers f m d h =
    All-map (λ e found. found_number m e.0 e.1 found ∙ h e.0) m (entries-found m d)

module _ {S R : Type 0} (sel : LabelSelectors S R) where
  counted-bound :
      (ps : List (PodInfo S)) (s : S) (ns : String) → sum_over (counts_pod sel s ns) ps ≤ length ps
  counted-bound [] s ns = omega arith
  counted-bound (p ∷ ps) s ns = ground (arith, counted-bound ps s ns)

module _ {S R Object Raw : Type 0} (pl : PodTopologySpread S R Object Raw) (pod : Pod)
    (constraints : List (Constraint S)) where
  matching-bound :
      (c : Constraint S) (v : String) (n : NodeInfo S)
      → matching pl pod constraints c v n ≤ length n.pods
  matching-bound c v n =
      choice_bound (left_out pl pod constraints n) (skips_constraint pl pod n.node c) _ _ _ _
        (counted-bound pl.selectors n.pods c.selector pod.namespace)
    where
      choice_bound :
          (a b d e : Bool) (x k : ℕ)
          → x ≤ k
          → (if a then 0 else if b then 0 else if d then (if e then 0 else x) else 0) ≤ k
      choice_bound a b d e x k h = ground arith

  pub number-bound :
      (c : Constraint S) (v : String) (ns : List (NodeInfo S))
      → sum_over (matching pl pod constraints c v) ns ≤ sum_over (λ n. length n.pods) ns
  number-bound c v [] = omega arith
  number-bound c v (n ∷ ns) = omega (arith, matching-bound c v n, number-bound c v ns)

  add_domain-length : (v : String) (ds : List String) → length (add_domain v ds) ≤ suc (length ds)
  add_domain-length v [] = omega arith
  add_domain-length v (d ∷ ds) = ground (arith, add_domain-length v ds)

  pub domains-length :
      (c : Constraint S) (ns : List (NodeInfo S)) (ds : List String)
      → length (domains pl pod constraints c ns ds) ≤ length ds + length ns
  domains-length c [] ds = omega arith
  domains-length c (n ∷ ns) ds = elim (Bool-cases (counts_for pl pod constraints c n)) [
    | inl e ↦
        let more = add_domain-length (lookup_or "" c.topology_key n.node.labels) ds in
        rw e (omega (arith, more, domains-length c ns (add_domain _ ds)))
    | inr e ↦ rw e (omega (arith, domains-length c ns ds))
  ]
