-- ===== src/PodTopologySpread/State/Recount.antt =====
-- `AddPod` (pkg/podtopologyspread/filtering.go) on a state of `calPreFilterState`, against its recount.
use cozystack_scheduler.Prelude.{
  ℕ, ◌+◌, ◌%◌, ◌≡◌, refl, sym, ap, ◌∙◌, String, Bool, true, false, not, ◌||◌, some, List, [], ◌∷◌,
  ◌++◌, map, arith, Bool-cases, inl, inr, ◌==◌, string_eq, if◌then◌else◌, All, sum_over,
  sum_over-append,
}
use cozystack_scheduler.GoMap.{GoMap, lookup_or}
use cozystack_scheduler.Words.{word, add64}
use cozystack_scheduler.Api.{Pod}
use cozystack_scheduler.Framework.{PodInfo, NodeInfo}
use cozystack_scheduler.PodTopologySpread.{
  Constraint, PodTopologySpread, node_labels_match_spread_constraints,
}
use cozystack_scheduler.PodTopologySpread.CriticalPaths.{
  CriticalPaths, new_critical_paths, update, update_all,
}
use cozystack_scheduler.PodTopologySpread.State.{
  PreFilterState, bump, skips_constraint, skips_node, update_each, update_with_pod, state_of,
}
use cozystack_scheduler.PodTopologySpread.State.Totals.{
  lookup-bump, Counts, left_out, matching, Counts-congr, state_of-Counts,
}
use cozystack_scheduler.PodTopologySpread.State.Selected.{
  with_pod, counted_pods, counted-with_pod, counted-with_stranger,
}

grows_lem :
    (skip same selected : Bool) (a b : ℕ)
    → b % word ≡ (a + (if selected then 1 else 0)) % word
    → ((if skip then 0 else if same then a else 0)
          + (if not selected || skip then 0 else if same then 1 else 0))
        % word
      ≡ (if skip then 0 else if same then b else 0) % word
grows_lem skip same selected a b h = ground (arith, h)

module _ {S R Object Raw : Type 0} (pl : PodTopologySpread S R Object Raw) (pod : Pod)
    (constraints : List (Constraint S)) (p : PodInfo S) (n : NodeInfo S) where
  -- What `updateWithPod` adds at a value.
  abbrev extra : Constraint S → String → ℕ
  extra c v =
      if not (pl.selectors.matches c.selector p.pod.labels) || skips_constraint pl pod n.node c
      then 0
      else if lookup_or "" c.topology_key n.node.labels == v
      then 1
      else 0

  bump-extra :
      (c : Constraint S) (v : String) (k : ℕ) (m : GoMap String ℕ)
      → (not (pl.selectors.matches c.selector p.pod.labels) || skips_constraint pl pod n.node c)
        ≡ false
      → lookup_or 0 v m ≡ k % word
      → lookup_or 0 v (bump (lookup_or "" c.topology_key n.node.labels) 1 m)
        ≡ (k + extra c v) % word
  bump-extra c v k m e h =
      let value = lookup_or "" c.topology_key n.node.labels in
      let one : extra c v ≡ (if value == v then 1 else 0) = rw (extra, e) refl in
      lookup-bump v value 1 m ∙ add_lem (value == v) (lookup_or 0 v m) k (extra c v) h one
    where
      add_lem :
          (b : Bool) (a k x : ℕ)
          → a ≡ k % word
          → x ≡ (if b then 1 else 0)
          → (if b then add64 a 1 else a) ≡ (k + x) % word
      add_lem true a k x e f = omega (arith, e, f)
      add_lem false a k x e f = omega (arith, e, f)

  -- One more pod in the sum, as an int64.
  abbrev Grows : (Constraint S → String → ℕ) → (Constraint S → String → ℕ) → Constraint S → Type 0
  Grows f g c = (v : String) → (f c v + extra c v) % word ≡ g c v % word

  update_each-Counts :
      (f g : Constraint S → String → ℕ) (h : GoMap String ℕ → CriticalPaths)
      (cs : List (Constraint S)) (ms : List (GoMap String ℕ))
      → All (Grows f g) cs
      → Counts pl pod f cs ms
      → (ps' : List CriticalPaths) × (ms' : List (GoMap String ℕ)) × (update_each pl p.pod pod
            n.node 1 cs
            (map h ms)
            ms
          ≡ some (ps', ms'))
        × Counts pl pod g cs ms'
  unfolding update_each
  update_each-Counts f g h [] ms a b = (map h ms, ms, refl, tt)
  update_each-Counts f g h (c ∷ cs) [] a b = elim b [ ]
  update_each-Counts f g h (c ∷ cs) (m ∷ ms) a b =
      let (ps', ms', e, rest) = update_each-Counts f g h cs ms a.1 b.1 in
      let value = lookup_or "" c.topology_key n.node.labels in
      elim (Bool-cases
        (not (pl.selectors.matches c.selector p.pod.labels) || skips_constraint pl pod n.node c)) [
          | inl s ↦
              let nothing : (v : String) → extra c v ≡ 0 = λ v. rw (extra, s) refl in
              (
                h m ∷ ps',
                m ∷ ms',
                rw (update_each, e, s) refl,
                ((λ v. omega (arith, b.0 v, a.0 v, nothing v)), rest),
              )
          | inr s ↦ (
            update (h m) value (lookup_or 0 value (bump value 1 m)) ∷ ps',
            bump value 1 m ∷ ms',
            rw (update_each, e, s) refl,
            ((λ v. bump-extra c v (f c v) m s (b.0 v) ∙ a.0 v), rest),
          )
        ]

  -- What a constraint counts on the node with the pod.
  matching-Grows :
      (c : Constraint S) (v : String)
      → left_out pl pod constraints n ≡ false
      → p.pod.deleting ≡ false
      → p.pod.namespace == pod.namespace ≡ true
      → pl.selectors.empty c.selector ≡ false
      → (matching pl pod constraints c v n + extra c v) % word
        ≡ matching pl pod constraints c v (with_pod p n) % word
  matching-Grows c v l d e f =
      let skip = skips_constraint pl pod n.node c in
      let same = lookup_or "" c.topology_key n.node.labels == v in
      let before = counted_pods pl.selectors n.pods c.selector pod.namespace in
      let after = counted_pods pl.selectors (p ∷ n.pods) c.selector pod.namespace in
      let q : matching pl pod constraints c v n ≡ (if skip then 0 else if same then before else 0) =
        rw (matching, l) refl in
      let r : matching pl pod constraints c v (with_pod p n)
          ≡ (if skip then 0 else if same then after else 0) =
        rw (matching, l) refl in
      let more =
        ap (λ x. x % word)
          (counted-with_pod pl.selectors p n.pods c.selector pod.namespace d e f) in
      ap (λ x. (x + extra c v) % word) q
      ∙ grows_lem skip same (pl.selectors.matches c.selector p.pod.labels) before after more
      ∙ ap (λ x. x % word) (sym r)

  -- A pod that no constraint counts changes nothing.
  matching-same :
      (c : Constraint S) (v : String)
      → (not (p.pod.namespace == pod.namespace) || left_out pl pod constraints n) ≡ true
      → matching pl pod constraints c v n ≡ matching pl pod constraints c v (with_pod p n)
  matching-same c v h = elim (Bool-cases (left_out pl pod constraints n)) [
    | inl l ↦ rw (matching, l) refl
    | inr l ↦
        let stranger =
          counted-with_stranger pl.selectors p n.pods c.selector pod.namespace (ground arith) in
        let skip = skips_constraint pl pod n.node c in
        let same = lookup_or "" c.topology_key n.node.labels == v in
        rw (matching, l) (ap (λ k. if skip then 0 else if same then k else 0) (sym stranger))
  ]

  All-Grows :
      (xs ys : List (NodeInfo S)) (cs : List (Constraint S))
      → left_out pl pod constraints n ≡ false
      → p.pod.deleting ≡ false
      → p.pod.namespace == pod.namespace ≡ true
      → All (λ c. pl.selectors.empty c.selector ≡ false) cs
      → All
          (Grows
            (λ c v. sum_over (matching pl pod constraints c v) (xs ++ n ∷ ys))
            (λ c v. sum_over (matching pl pod constraints c v) (xs ++ with_pod p n ∷ ys)))
          cs
  All-Grows xs ys [] l d e f = tt
  All-Grows xs ys (c ∷ cs) l d e f = (
    (λ v.
        let count = matching pl pod constraints c v in
        omega (
          arith,
          sum_over-append count xs (n ∷ ys),
          sum_over-append count xs (with_pod p n ∷ ys),
          matching-Grows c v l d e f.0,
        )),
    All-Grows xs ys cs l d e f.1,
  )

  -- For a pod that is not terminating, and constraints whose selectors are not empty: on the state
  -- that calPreFilterState computes, AddPod does not index out of range, and leaves every number as
  -- it would be counted with the pod on the node.
  pub update_with_pod-recount :
      (xs ys : List (NodeInfo S))
      → p.pod.deleting ≡ false
      → All (λ c. pl.selectors.empty c.selector ≡ false) constraints
      → (t : PreFilterState S) × (update_with_pod pl
            (state_of pl pod constraints (xs ++ n ∷ ys))
            p.pod
            pod
            n.node
            1
          ≡ some t)
        × Counts pl pod
            (λ c v. sum_over (matching pl pod constraints c v) (xs ++ with_pod p n ∷ ys))
            constraints
            t.tp_value_to_match_num
  unfolding update_with_pod state_of
  update_with_pod-recount xs ys d f =
      let s = state_of pl pod constraints (xs ++ n ∷ ys) in
      let start = state_of-Counts pl pod constraints (xs ++ n ∷ ys) in
      let before : Constraint S → String → ℕ =
        λ c v. sum_over (matching pl pod constraints c v) (xs ++ n ∷ ys) in
      let after : Constraint S → String → ℕ =
        λ c v. sum_over (matching pl pod constraints c v) (xs ++ with_pod p n ∷ ys) in
      elim (Bool-cases (
        not (p.pod.namespace == pod.namespace)
        || not (node_labels_match_spread_constraints n.node.labels constraints)
        || skips_node pl pod n.node)) [
          | inl h ↦ (
            s,
            rw h refl,
            Counts-congr pl pod constraints before after constraints s.tp_value_to_match_num
                (λ c v.
                  let count = matching pl pod constraints c v in
                  omega (
                    arith,
                    sum_over-append count xs (n ∷ ys),
                    sum_over-append count xs (with_pod p n ∷ ys),
                    matching-same c v (ground arith),
                  ))
                start,
          )
          | inr h ↦
              let (ps', ms', e, counts) =
                update_each-Counts before after (update_all new_critical_paths) constraints
                  s.tp_value_to_match_num
                  (All-Grows xs ys constraints (ground arith) d (ground arith) f) start in
              (
                record s { critical_paths = ps'; tp_value_to_match_num = ms' },
                rw h (rw (update_with_pod, e) refl),
                counts,
              )
        ]
