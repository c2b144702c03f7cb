-- ===== src/PodTopologySpread/State/Reversal.antt =====
-- `AddPod` and then `RemovePod` (pkg/podtopologyspread/filtering.go) with the same pod and node.
use cozystack_scheduler.Prelude.{
  ℕ, ◌<◌, ◌≡◌, refl, ap, ◌∙◌, String, Bool, true, false, not, ◌||◌, some, List, [], ◌∷◌, arith,
  length, Bool-cases, inl, inr, ◌==◌, string_eq, if◌then◌else◌, All,
}
use cozystack_scheduler.GoMap.{GoMap, lookup_or}
use cozystack_scheduler.Words.{word, add64, minus_one}
use cozystack_scheduler.Api.{Pod, Node}
use cozystack_scheduler.PodTopologySpread.{
  Constraint, PodTopologySpread, node_labels_match_spread_constraints,
}
use cozystack_scheduler.PodTopologySpread.CriticalPaths.{CriticalPaths, update}
use cozystack_scheduler.PodTopologySpread.State.{
  PreFilterState, bump, skips_constraint, skips_node, update_each, update_with_pod,
}
use cozystack_scheduler.PodTopologySpread.State.Parallel.{IsParallel}
use cozystack_scheduler.PodTopologySpread.State.Totals.{lookup-bump}

-- The numbers are int64 patterns.
abbrev pub IsWords : GoMap String ℕ → Type 0
IsWords m = (v : String) → lookup_or 0 v m < word

-- The same number at every value of every map.
abbrev pub SameNumbers : List (GoMap String ℕ) → List (GoMap String ℕ) → Type 0
SameNumbers [] [] = Unit
SameNumbers (m ∷ ms) (n ∷ ns) =
    ((v : String) → lookup_or 0 v n ≡ lookup_or 0 v m) × SameNumbers ms ns
SameNumbers ms ns = ⊥

back_lem :
    (b : Bool) (x : ℕ)
    → x < word
    → (if b then add64 (if b then add64 x 1 else x) minus_one else (if b then add64 x 1 else x)) ≡ x
back_lem true x h = omega arith
back_lem false x h = refl

bump-back :
    (v w : String) (m : GoMap String ℕ)
    → IsWords m
    → lookup_or 0 w (bump v minus_one (bump v 1 m)) ≡ lookup_or 0 w m
bump-back v w m h =
    lookup-bump w v minus_one (bump v 1 m)
    ∙ ap (λ x. if v == w then add64 x minus_one else x) (lookup-bump w v 1 m)
    ∙ back_lem (v == w) (lookup_or 0 w m) (h w)

same-SameNumbers : (ms : List (GoMap String ℕ)) → SameNumbers ms ms
same-SameNumbers [] = tt
same-SameNumbers (m ∷ ms) = ((λ v. refl), same-SameNumbers ms)

module _ {S R Object Raw : Type 0} (pl : PodTopologySpread S R Object Raw) where
  -- The two runs of the loop, and the numbers after them.
  abbrev Returns :
      Pod → Pod → Node → List (Constraint S) → List CriticalPaths → List (GoMap String ℕ) → Type 0
  Returns p pod node cs ps ms =
      (ps' ps'' : List CriticalPaths) × (ms' ms'' : List (GoMap String ℕ)) × (update_each pl p pod
          node 1 cs ps ms
        ≡ some (ps', ms'))
      × (update_each pl p pod node minus_one cs ps' ms' ≡ some (ps'', ms''))
      × SameNumbers ms ms''

  update_each-Returns :
      (p pod : Pod) (node : Node) (cs : List (Constraint S)) (ps : List CriticalPaths)
      (ms : List (GoMap String ℕ))
      → length ps ≡ length cs
      → length ms ≡ length cs
      → All IsWords ms
      → Returns p pod node cs ps ms
  unfolding update_each
  update_each-Returns p pod node [] ps ms hp hm a =
      (ps, ps, ms, ms, refl, refl, same-SameNumbers ms)
  update_each-Returns p pod node (c ∷ cs) [] ms hp hm a = cc
  update_each-Returns p pod node (c ∷ cs) (x ∷ ps) [] hp hm a = cc
  update_each-Returns p pod node (c ∷ cs) (x ∷ ps) (m ∷ ms) hp hm a =
      let (ps', ps'', ms', ms'', e, e', same) =
        update_each-Returns p pod node cs ps ms (omega (arith, hp)) (omega (arith, hm)) a.1 in
      let v = lookup_or "" c.topology_key node.labels in
      elim (Bool-cases
        (not (pl.selectors.matches c.selector p.labels) || skips_constraint pl pod node c)) [
          | inl skipped ↦ (
            x ∷ ps',
            x ∷ ps'',
            m ∷ ms',
            m ∷ ms'',
            rw (update_each, e, skipped) refl,
            rw (update_each, e', skipped) refl,
            ((λ w. refl), same),
          )
          | inr counted ↦
              let m' = bump v 1 m in
              let m'' = bump v minus_one m' in
              let x' = update x v (lookup_or 0 v m') in
              (
                x' ∷ ps',
                update x' v (lookup_or 0 v m'') ∷ ps'',
                m' ∷ ms',
                m'' ∷ ms'',
                rw (update_each, e, counted) refl,
                rw (update_each, e', counted) refl,
                ((λ w. bump-back v w m a.0), same),
              )
        ]

  -- On a state with one entry for each constraint and int64 numbers, AddPod and then RemovePod of
  -- the same pod on the same node do not index out of range, keep the constraints, and leave every
  -- number as it was.
  pub update_with_pod-Reversal :
      (s : PreFilterState S) (p pod : Pod) (node : Node)
      → IsParallel s
      → All IsWords s.tp_value_to_match_num
      → (t u : PreFilterState S) × (update_with_pod pl s p pod node 1 ≡ some t)
        × (update_with_pod pl t p pod node minus_one ≡ some u)
        × (u.constraints ≡ s.constraints)
        × SameNumbers s.tp_value_to_match_num u.tp_value_to_match_num
  unfolding update_with_pod
  update_with_pod-Reversal s p pod node (hp, hm) a =
      let (ps', ps'', ms', ms'', e, e', same) =
        update_each-Returns p pod node s.constraints s.critical_paths s.tp_value_to_match_num hp hm
          a in
      elim (Bool-cases (
        not (p.namespace == pod.namespace)
        || not (node_labels_match_spread_constraints node.labels s.constraints)
        || skips_node pl pod node)) [
          | inl skipped ↦ (
            s,
            s,
            rw skipped refl,
            rw skipped refl,
            refl,
            same-SameNumbers s.tp_value_to_match_num,
          )
          | inr counted ↦ (
            record s { critical_paths = ps'; tp_value_to_match_num = ms' },
            record s { critical_paths = ps''; tp_value_to_match_num = ms'' },
            rw counted (rw (update_with_pod, e) refl),
            rw counted (rw (update_with_pod, e') refl),
            refl,
            same,
          )
        ]
