-- ===== src/PodTopologySpread/Preemption/Following.antt =====
-- The critical paths of all constraints (pkg/podtopologyspread/filtering.go) under updates on one node.
use cozystack_scheduler.Prelude.{
  ℕ, suc, ◌<◌, ◌≡◌, refl, sym, ap, String, not, ◌||◌, Option, none, some, List, [], ◌∷◌, map, arith,
  length, ◌==◌, string_eq, All, All-map, Bool-cases, Option-cases, inl, inr,
}
use mathlib.Core.Path.{subst}
use cozystack_scheduler.GoMap.{GoMap, insert_all, lookup_or}
use cozystack_scheduler.GoMap.Laws.{insert_all-same}
use cozystack_scheduler.Words.{half_word}
use cozystack_scheduler.Api.{Pod, Node}
use cozystack_scheduler.Framework.{PodInfo, success, holds}
use cozystack_scheduler.PodTopologySpread.{
  Constraint, PodTopologySpread, node_labels_match_spread_constraints,
}
use cozystack_scheduler.PodTopologySpread.CriticalPaths.{
  CriticalPaths, update, new_critical_paths, update_all,
}
use cozystack_scheduler.PodTopologySpread.Minimum.{IsCountMap}
use cozystack_scheduler.PodTopologySpread.State.{
  PreFilterState, bump, clone_state, skips_constraint, skips_node, update_each, update_with_pod,
  update_slot,
}
use cozystack_scheduler.PodTopologySpread.Filtering.{AreLeast, FitsInt}
use cozystack_scheduler.PodTopologySpread.Tracking.{
  Follows, Follows-least, update_all-Follows, bump-Follows,
}
use cozystack_scheduler.PodTopologySpread.Tracking.Least.{IsSmallMap}

module _ {S R Object Raw : Type 0} (pl : PodTopologySpread S R Object Raw) (pod : Pod)
    (node : Node) where
  -- For each constraint, the paths follow the map at the node's value.
  abbrev pub AllFollow : List (Constraint S) → List CriticalPaths → List (GoMap String ℕ) → Type 0
  AllFollow [] [] [] = Unit
  AllFollow (c ∷ cs) (p ∷ ps) (m ∷ ms) =
      Follows (lookup_or "" c.topology_key node.labels) p m × AllFollow cs ps ms
  AllFollow cs ps ms = ⊥

  -- What the loop returned, where its numbers fit an int32.
  abbrev Fills : List (Constraint S) → Option (List CriticalPaths × List (GoMap String ℕ)) → Type 0
  Fills cs r =
      (ps : List CriticalPaths) × (ms : List (GoMap String ℕ)) × (r ≡ some (ps, ms))
      × (All IsSmallMap ms → AllFollow cs ps ms)

  update_each-AllFollow :
      (p : Pod) (delta : ℕ) (cs : List (Constraint S)) (ps : List CriticalPaths)
      (ms : List (GoMap String ℕ))
      → AllFollow cs ps ms
      → Fills cs (update_each pl p pod node delta cs ps ms)
  unfolding update_each
  update_each-AllFollow p delta [] [] [] a = ([], [], refl, λ s. tt)
  update_each-AllFollow p delta [] [] (m ∷ ms) a = elim a [ ]
  update_each-AllFollow p delta [] (x ∷ ps) ms a = elim a [ ]
  update_each-AllFollow p delta (c ∷ cs) [] ms a = elim a [ ]
  update_each-AllFollow p delta (c ∷ cs) (x ∷ ps) [] a = elim a [ ]
  update_each-AllFollow p delta (c ∷ cs) (x ∷ ps) (m ∷ ms) a =
      let (ps', ms', e, rest) = update_each-AllFollow p delta cs ps ms a.1 in
      let v = lookup_or "" c.topology_key node.labels in
      elim (Bool-cases
        (not (pl.selectors.matches c.selector p.labels) || skips_constraint pl pod node c)) [
          | inl skipped ↦
              (x ∷ ps', m ∷ ms', rw (update_each, e, skipped) refl, λ s. (a.0, rest s.1))
          | inr counted ↦ (
            update x v (lookup_or 0 v (bump v delta m)) ∷ ps',
            bump v delta m ∷ ms',
            rw (update_each, e, counted) refl,
            λ s. (bump-Follows v delta x m s.0 a.0, rest s.1),
          )
        ]

  -- The state of a cycle, where the paths of each constraint follow its map.
  abbrev pub IsFollowed : PreFilterState S → Type 0
  IsFollowed s = AllFollow s.constraints s.critical_paths s.tp_value_to_match_num

  pub update_with_pod-IsFollowed :
      (s u : PreFilterState S) (p : Pod) (delta : ℕ)
      → IsFollowed s
      → update_with_pod pl s p pod node delta ≡ some u
      → All IsSmallMap u.tp_value_to_match_num
      → IsFollowed u × (u.constraints ≡ s.constraints)
  unfolding update_with_pod
  update_with_pod-IsFollowed s u p delta a h small =
      let (ps, ms, e, follow) =
        update_each-AllFollow p delta s.constraints s.critical_paths s.tp_value_to_match_num a in
      elim (Bool-cases (
        not (p.namespace == pod.namespace)
        || not (node_labels_match_spread_constraints node.labels s.constraints)
        || skips_node pl pod node)) [
          | inl skipped ↦
              let done : update_with_pod pl s p pod node delta ≡ some s = rw skipped refl in
              let same : s ≡ u = cc in (subst IsFollowed same a, sym (ap (λ t. t.constraints) same))
          | inr counted ↦
              let t = record s { critical_paths = ps; tp_value_to_match_num = ms } in
              let done : update_with_pod pl s p pod node delta ≡ some t =
                rw counted (rw (update_with_pod, e) refl) in
              let same : t ≡ u = cc in
              (
                subst IsFollowed same
                    (follow (subst (λ x. All IsSmallMap x.tp_value_to_match_num) (sym same) small)),
                sym (ap (λ t. t.constraints) same),
              )
        ]

  pub update_slot-updates :
      (s u : PreFilterState S) (p : PodInfo S) (delta : ℕ)
      → update_slot pl (holds s) pod p node delta ≡ some (success, holds u)
      → update_with_pod pl s p.pod pod node delta ≡ some u
  update_slot-updates s u p delta h =
      elim (Option-cases (update_with_pod pl s p.pod pod node delta)) [
        | inl e ↦
            let none_of : update_slot pl (holds s) pod p node delta ≡ none =
              rw (update_slot, e) refl in
            cc
        | inr (t, e) ↦
            let done : update_slot pl (holds s) pod p node delta ≡ some (success, holds t) =
              rw (update_slot, e) refl in
            cc
      ]

  AllFollow-copies :
      (cs : List (Constraint S)) (ps : List CriticalPaths) (ms : List (GoMap String ℕ))
      → AllFollow cs ps ms
      → map (λ m. insert_all m []) ms ≡ ms
  AllFollow-copies [] [] [] a = refl
  AllFollow-copies [] [] (m ∷ ms) a = elim a [ ]
  AllFollow-copies [] (x ∷ ps) ms a = elim a [ ]
  AllFollow-copies (c ∷ cs) [] ms a = elim a [ ]
  AllFollow-copies (c ∷ cs) (x ∷ ps) [] a = elim a [ ]
  AllFollow-copies (c ∷ cs) (p ∷ ps) (m ∷ ms) ((f, t, d, s), a) =
      rw (insert_all-same m d.0, AllFollow-copies cs ps ms a) refl

  -- A clone of such a state is the state.
  pub clone_state-same : (t : PreFilterState S) → IsFollowed t → clone_state t ≡ t
  unfolding clone_state
  clone_state-same t a =
      ap (λ ms. record t { tp_value_to_match_num = ms })
        (AllFollow-copies t.constraints t.critical_paths t.tp_value_to_match_num a)

  pub AllFollow-least :
      (cs : List (Constraint S)) (ps : List CriticalPaths) (ms : List (GoMap String ℕ))
      → AllFollow cs ps ms
      → AreLeast ps ms × (length ms ≡ length cs)
  AllFollow-least [] [] [] a = (tt, refl)
  AllFollow-least [] [] (m ∷ ms) a = elim a [ ]
  AllFollow-least [] (x ∷ ps) ms a = elim a [ ]
  AllFollow-least (c ∷ cs) [] ms a = elim a [ ]
  AllFollow-least (c ∷ cs) (x ∷ ps) [] a = elim a [ ]
  AllFollow-least (c ∷ cs) (p ∷ ps) (m ∷ ms) (f, a) =
      let (least, same) = AllFollow-least cs ps ms a in
      ((Follows-least _ p m f, least), ap suc same)

  pub start-AllFollow :
      (cs : List (Constraint S)) (ms : List (GoMap String ℕ))
      → length ms ≡ length cs
      → All IsCountMap ms
      → All IsSmallMap ms
      → AllFollow cs (map (update_all new_critical_paths) ms) ms
  start-AllFollow [] [] h c s = tt
  start-AllFollow [] (m ∷ ms) h c s = cc
  start-AllFollow (x ∷ cs) [] h c s = cc
  start-AllFollow (x ∷ cs) (m ∷ ms) h c s =
      (update_all-Follows _ m c.0 s.0, start-AllFollow cs ms (omega (arith, h)) c.1 s.1)

  pub AllFollow-FitsInt :
      (cs : List (Constraint S)) (ps : List CriticalPaths) (ms : List (GoMap String ℕ))
      → All (λ m. length m < half_word) ms
      → AllFollow cs ps ms
      → All FitsInt ms
  AllFollow-FitsInt [] [] [] h a = tt
  AllFollow-FitsInt [] [] (m ∷ ms) h a = elim a [ ]
  AllFollow-FitsInt [] (x ∷ ps) ms h a = elim a [ ]
  AllFollow-FitsInt (c ∷ cs) [] ms h a = elim a [ ]
  AllFollow-FitsInt (c ∷ cs) (x ∷ ps) [] h a = elim a [ ]
  AllFollow-FitsInt (c ∷ cs) (p ∷ ps) (m ∷ ms) (small, h) ((f, t, d, s), a) =
      ((All-map (λ e i. omega (arith, i)) m s, small), AllFollow-FitsInt cs ps ms h a)

  pub AllFollow-length :
      (cs : List (Constraint S)) (ps : List CriticalPaths) (ms : List (GoMap String ℕ))
      → AllFollow cs ps ms
      → (length ps ≡ length cs) × All IsCountMap ms
  AllFollow-length [] [] [] a = (refl, tt)
  AllFollow-length [] [] (m ∷ ms) a = elim a [ ]
  AllFollow-length [] (x ∷ ps) ms a = elim a [ ]
  AllFollow-length (c ∷ cs) [] ms a = elim a [ ]
  AllFollow-length (c ∷ cs) (x ∷ ps) [] a = elim a [ ]
  AllFollow-length (c ∷ cs) (p ∷ ps) (m ∷ ms) ((f, t, d, s), a) =
      let (same, counts) = AllFollow-length cs ps ms a in (ap suc same, (d, counts))
