-- ===== src/PodTopologySpread/Eviction/Updating.antt =====
-- `updateWithPod` of pkg/podtopologyspread/filtering.go: what it does to the numbers and to the keys.
use cozystack_scheduler.Prelude.{
  ℕ, ◌+◌, ◌*◌, ◌%◌, ◌≡◌, refl, ap, ◌∙◌, String, Bool, true, false, not, ◌&&◌, ◌||◌, some, List, [],
  ◌∷◌, arith, Bool-cases, inl, inr, ◌==◌, string_eq, if◌then◌else◌, All, any, length,
}
use mathlib.Core.Path.{subst}
use cozystack_scheduler.GoMap.{GoMap, lookup_or}
use cozystack_scheduler.Words.{word, add64}
use cozystack_scheduler.Api.{Pod}
use cozystack_scheduler.Framework.{PodInfo, NodeInfo}
use cozystack_scheduler.PodTopologySpread.{
  Constraint, PodTopologySpread, node_labels_match_spread_constraints,
}
use cozystack_scheduler.PodTopologySpread.CriticalPaths.{CriticalPaths, update}
use cozystack_scheduler.PodTopologySpread.Minimum.{IsCountMap}
use cozystack_scheduler.PodTopologySpread.State.{
  PreFilterState, bump, skips_constraint, skips_node, update_each, update_with_pod,
}
use cozystack_scheduler.PodTopologySpread.State.Totals.{Counts, left_out, lookup-bump}
use cozystack_scheduler.PodTopologySpread.Filtering.{bump-IsCountMap}
use cozystack_scheduler.PodTopologySpread.Domains.{add_domain, keys-insert, HasKeys, counts_for}
use cozystack_scheduler.PodTopologySpread.Eviction.Counting.{share}

abbrev pub has : String → List String → Bool
has v ds = any (λ d. d == v) ds

add_domain-has : (v : String) (ds : List String) → has v ds ≡ true → add_domain v ds ≡ ds
add_domain-has v [] h = cc
add_domain-has v (d ∷ ds) h = elim (Bool-cases (d == v)) [
  | inl e ↦ rw e refl
  | inr e ↦ rw e (ap (λ t. d ∷ t) (add_domain-has v ds (ground arith)))
]

number_lem :
    (b : Bool) (x k d s : ℕ)
    → x ≡ k % word
    → s ≡ (if b then 1 else 0)
    → (if b then add64 x d else x) ≡ (k + s * d) % word
number_lem true x k d s h e = rw e (omega (arith, h))
number_lem false x k d s h e = rw e (omega (arith, h))

kept_lem : (x k d s : ℕ) → x ≡ k % word → s ≡ 0 → x ≡ (k + s * d) % word
kept_lem x k d s h e = rw e (omega (arith, h))

-- The share of a pod, by the tests that decide it.
abbrev portion : Bool → Bool → Bool → Bool → Bool → ℕ
portion left skip same ns match =
    if left
    then 0
    else if skip
    then 0
    else if same
    then (if ns then (if match then 1 else 0) else 0)
    else 0

-- The share of a pod that the loop passes over, and of one that it counts.
none_lem :
    (left skip same ns match : Bool)
    → (not match || skip) ≡ true
    → portion left skip same ns match ≡ 0
none_lem left skip same ns match h = ground arith

one_lem :
    (left skip same ns match : Bool)
    → left ≡ false
    → ns ≡ true
    → (not match || skip) ≡ false
    → portion left skip same ns match ≡ (if same then 1 else 0)
one_lem left skip same ns match l e h = ground arith

counts_lem :
    (left skip match : Bool)
    → left ≡ false
    → (not match || skip) ≡ false
    → (not left && not skip) ≡ true
counts_lem left skip match l h = ground arith

module _ {S R Object Raw : Type 0} (pl : PodTopologySpread S R Object Raw) (pod : Pod)
    (constraints : List (Constraint S)) (n : NodeInfo S) (p : PodInfo S) (delta : ℕ) where
  -- The pod's share, `delta` times.
  abbrev pub shifted : (Constraint S → String → ℕ) → Constraint S → String → ℕ
  shifted f c v = f c v + share pl pod constraints n p c v * delta

  -- The key of the node's value is there, where the node counts.
  abbrev pub Known : (Constraint S → List String) → List (Constraint S) → Type 0
  Known g cs =
      All
        (λ c.
          counts_for pl pod constraints c n ≡ true
          → has (lookup_or "" c.topology_key n.node.labels) (g c) ≡ true)
        cs

  -- What the loop returned.
  abbrev Shifts :
      (Constraint S → String → ℕ)
      → (Constraint S → List String)
      → List (Constraint S)
      → List CriticalPaths
      → List (GoMap String ℕ)
      → Type 0
  Shifts f g cs ps ms =
      (ps' : List CriticalPaths) × (ms' : List (GoMap String ℕ)) × (update_each pl p.pod pod n.node
          delta cs ps ms
        ≡ some (ps', ms'))
      × Counts pl pod (shifted f) cs ms'
      × HasKeys pl pod g cs ms'
      × All IsCountMap ms'

  update_each-Shifts :
      (f : Constraint S → String → ℕ) (g : Constraint S → List String) (cs : List (Constraint S))
      (ps : List CriticalPaths) (ms : List (GoMap String ℕ))
      → left_out pl pod constraints n ≡ false
      → p.pod.namespace == pod.namespace ≡ true
      → length ps ≡ length cs
      → length ms ≡ length cs
      → Counts pl pod f cs ms
      → HasKeys pl pod g cs ms
      → All IsCountMap ms
      → Known g cs
      → Shifts f g cs ps ms
  unfolding update_each
  update_each-Shifts f g [] ps [] l e i j a b d k = (ps, [], refl, tt, tt, tt)
  update_each-Shifts f g [] ps (m ∷ ms) l e i j a b d k = cc
  update_each-Shifts f g (c ∷ cs) [] ms l e i j a b d k = cc
  update_each-Shifts f g (c ∷ cs) (x ∷ ps) [] l e i j a b d k = cc
  update_each-Shifts f g (c ∷ cs) (x ∷ ps) (m ∷ ms) l e i j a b d k =
      let (ps', ms', done, numbers, names, maps) =
        update_each-Shifts f g cs ps ms l e (omega (arith, i)) (omega (arith, j)) a.1 b.1 d.1 k.1 in
      let value = lookup_or "" c.topology_key n.node.labels in
      elim (Bool-cases
        (not (pl.selectors.matches c.selector p.pod.labels) || skips_constraint pl pod n.node c)) [
          | inl s ↦ (
            x ∷ ps',
            m ∷ ms',
            rw (update_each, done, s) refl,
            (
              (λ v. kept_lem _ (f c v) delta _ (a.0 v) (
                  none_lem (left_out pl pod constraints n) (skips_constraint pl pod n.node c)
                    (value == v) (p.pod.namespace == pod.namespace)
                    (pl.selectors.matches c.selector p.pod.labels) s)),
              numbers,
            ),
            (b.0, names),
            (d.0, maps),
          )
          | inr s ↦ (
            update x value (lookup_or 0 value (bump value delta m)) ∷ ps',
            bump value delta m ∷ ms',
            rw (update_each, done, s) refl,
            (
              (λ v.
                  lookup-bump v value delta m
                  ∙ number_lem (value == v) (lookup_or 0 v m) (f c v) delta _ (a.0 v) (
                      one_lem (left_out pl pod constraints n) (skips_constraint pl pod n.node c)
                        (value == v) (p.pod.namespace == pod.namespace)
                        (pl.selectors.matches c.selector p.pod.labels) l e s)),
              numbers,
            ),
            (
              keys-insert value _ m
                  ∙ ap (add_domain value) b.0
                  ∙ add_domain-has value (g c) (
                      k.0 (
                        counts_lem (left_out pl pod constraints n)
                          (skips_constraint pl pod n.node c)
                          (pl.selectors.matches c.selector p.pod.labels) l s)),
              names,
            ),
            (bump-IsCountMap value delta m d.0, maps),
          )
        ]

  -- A pod that no constraint counts has no share.
  passed_over :
      (c : Constraint S) (v : String)
      → (not (p.pod.namespace == pod.namespace) || left_out pl pod constraints n) ≡ true
      → share pl pod constraints n p c v ≡ 0
  passed_over c v h =
      passed_lem (left_out pl pod constraints n) (skips_constraint pl pod n.node c)
        (lookup_or "" c.topology_key n.node.labels == v) (p.pod.namespace == pod.namespace)
        (pl.selectors.matches c.selector p.pod.labels) h
    where
      passed_lem :
          (left skip same ns match : Bool)
          → (not ns || left) ≡ true
          → portion left skip same ns match ≡ 0
      passed_lem left skip same ns match h = ground arith

  kept-Counts :
      (f : Constraint S → String → ℕ) (cs : List (Constraint S)) (ms : List (GoMap String ℕ))
      → (not (p.pod.namespace == pod.namespace) || left_out pl pod constraints n) ≡ true
      → Counts pl pod f cs ms
      → Counts pl pod (shifted f) cs ms
  kept-Counts f [] ms h a = tt
  kept-Counts f (c ∷ cs) [] h a = elim a [ ]
  kept-Counts f (c ∷ cs) (m ∷ ms) h a =
      ((λ v. kept_lem _ (f c v) delta _ (a.0 v) (passed_over c v h)), kept-Counts f cs ms h a.1)

  guard_lem :
      (ns matched skipped : Bool)
      → (not ns || not matched || skipped) ≡ true
      → (not ns || (skipped || not matched)) ≡ true
  guard_lem ns matched skipped h = ground arith

  left_lem :
      (ns matched skipped : Bool)
      → (not ns || not matched || skipped) ≡ false
      → ((skipped || not matched) ≡ false) × (ns ≡ true)
  left_lem ns matched skipped h = ground arith

  abbrev pub state_with : List CriticalPaths → List (GoMap String ℕ) → PreFilterState S
  state_with ps ms = record {
    constraints = constraints;
    critical_paths = ps;
    tp_value_to_match_num = ms;
  }

  -- What a state holds for the constraints.
  abbrev pub Holds :
      (Constraint S → String → ℕ) → (Constraint S → List String) → List (GoMap String ℕ) → Type 0
  Holds f g ms =
      Counts pl pod f constraints ms × HasKeys pl pod g constraints ms × All IsCountMap ms

  -- An update of a state with one entry for each constraint: its numbers, its keys and its maps.
  pub update_with_pod-Holds :
      (ps : List CriticalPaths) (ms : List (GoMap String ℕ)) (u : PreFilterState S)
      (f : Constraint S → String → ℕ) (g : Constraint S → List String)
      → length ps ≡ length constraints
      → length ms ≡ length constraints
      → Holds f g ms
      → Known g constraints
      → update_with_pod pl (state_with ps ms) p.pod pod n.node delta ≡ some u
      → Holds (shifted f) g u.tp_value_to_match_num
  unfolding update_with_pod
  update_with_pod-Holds ps ms u f g i j (a, b, d) k h =
      let ns = p.pod.namespace == pod.namespace in
      let matched = node_labels_match_spread_constraints n.node.labels constraints in
      let skipped = skips_node pl pod n.node in
      elim (Bool-cases (not ns || not matched || skipped)) [
        | inl guard ↦
            let done : update_with_pod pl (state_with ps ms) p.pod pod n.node delta
                ≡ some (state_with ps ms) =
              rw guard refl in
            let here : state_with ps ms ≡ u = cc in
            let kept = kept-Counts f constraints ms (guard_lem ns matched skipped guard) a in
            subst (λ t. Holds (shifted f) g t.tp_value_to_match_num) here (kept, b, d)
        | inr guard ↦
            let (l, e) = left_lem ns matched skipped guard in
            let (ps', ms', each, x, y, z) =
              update_each-Shifts f g constraints ps ms l e i j a b d k in
            let done : update_with_pod pl (state_with ps ms) p.pod pod n.node delta
                ≡ some (state_with ps' ms') =
              rw guard (rw (update_with_pod, each) refl) in
            let here : state_with ps' ms' ≡ u = cc in
            subst (λ t. Holds (shifted f) g t.tp_value_to_match_num) here (x, y, z)
      ]
