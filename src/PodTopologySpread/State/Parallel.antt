-- ===== src/PodTopologySpread/State/Parallel.antt =====
-- The lengths of the state's slices (pkg/podtopologyspread/filtering.go) under `updateWithPod`.
use cozystack_scheduler.Prelude.{
  ℕ, suc, ◌≡◌, refl, ap, String, not, ◌||◌, Option, some, List, [], ◌∷◌, arith, length, Bool-cases,
  inl, inr, ◌==◌, string_eq,
}
use cozystack_scheduler.GoMap.{GoMap, lookup_or}
use cozystack_scheduler.Api.{Pod, Node}
use cozystack_scheduler.PodTopologySpread.{
  Constraint, PodTopologySpread, node_labels_match_spread_constraints,
}
use cozystack_scheduler.PodTopologySpread.CriticalPaths.{CriticalPaths, update}
use cozystack_scheduler.PodTopologySpread.State.{
  PreFilterState, bump, skips_constraint, skips_node, update_each, update_with_pod,
}

-- One entry of each slice for each constraint.
abbrev pub IsParallel : {S : Type 0} → PreFilterState S → Type 0
IsParallel s =
    (length s.critical_paths ≡ length s.constraints)
    × (length s.tp_value_to_match_num ≡ length s.constraints)

module _ {S R Object Raw : Type 0} (pl : PodTopologySpread S R Object Raw) where
  -- What the loop returned, for that many constraints.
  abbrev Fills : ℕ → Option (List CriticalPaths × List (GoMap String ℕ)) → Type 0
  Fills n r =
      (ps : List CriticalPaths) × (ms : List (GoMap String ℕ)) × (r ≡ some (ps, ms))
      × (length ps ≡ n)
      × (length ms ≡ n)

  update_each-Fills :
      (p pod : Pod) (node : Node) (delta : ℕ) (cs : List (Constraint S)) (ps : List CriticalPaths)
      (ms : List (GoMap String ℕ))
      → length ps ≡ length cs
      → length ms ≡ length cs
      → Fills (length cs) (update_each pl p pod node delta cs ps ms)
  unfolding update_each
  update_each-Fills p pod node delta [] ps ms hp hm = (ps, ms, refl, hp, hm)
  update_each-Fills p pod node delta (c ∷ cs) [] ms hp hm = cc
  update_each-Fills p pod node delta (c ∷ cs) (x ∷ ps) [] hp hm = cc
  update_each-Fills p pod node delta (c ∷ cs) (x ∷ ps) (m ∷ ms) hp hm =
      let (ps', ms', e, kp, km) =
        update_each-Fills p pod node delta cs ps ms (omega (arith, hp)) (omega (arith, hm)) in
      let v = lookup_or "" c.topology_key node.labels in
      elim (Bool-cases
        (not (pl.selectors.matches c.selector p.labels) || skips_constraint pl pod node c)) [
          | inl skipped ↦
              (x ∷ ps', m ∷ ms', rw (update_each, e, skipped) refl, ap suc kp, ap suc km)
          | inr counted ↦ (
            update x v (lookup_or 0 v (bump v delta m)) ∷ ps',
            bump v delta m ∷ ms',
            rw (update_each, e, counted) refl,
            ap suc kp,
            ap suc km,
          )
        ]

  -- An update with a pod does not index out of range on a state with one entry for each constraint,
  -- and leaves such a state, with the same constraints.
  pub update_with_pod-IsParallel :
      (s : PreFilterState S) (p pod : Pod) (node : Node) (delta : ℕ)
      → IsParallel s
      → (t : PreFilterState S) × (update_with_pod pl s p pod node delta ≡ some t)
        × (t.constraints ≡ s.constraints)
        × IsParallel t
  unfolding update_with_pod
  update_with_pod-IsParallel s p pod node delta (hp, hm) =
      let (ps, ms, e, kp, km) =
        update_each-Fills p pod node delta s.constraints s.critical_paths s.tp_value_to_match_num hp
          hm in
      elim (Bool-cases (
        not (p.namespace == pod.namespace)
        || not (node_labels_match_spread_constraints node.labels s.constraints)
        || skips_node pl pod node)) [
          | inl skipped ↦ (s, rw skipped refl, refl, (hp, hm))
          | inr counted ↦ (
            record s { critical_paths = ps; tp_value_to_match_num = ms },
            rw counted (rw (update_with_pod, e) refl),
            refl,
            (kp, km),
          )
        ]
