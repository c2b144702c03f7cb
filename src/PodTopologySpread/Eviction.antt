-- ===== src/PodTopologySpread/Eviction.antt =====
-- `AddPod`, `RemovePod` and `Filter` of pkg/podtopologyspread/filtering.go, by the pods of the nodes:
-- what the preemption of the scheduler asks for one node.
pub mod Counting
pub mod Updating
pub mod Staying
use cozystack_scheduler.Prelude.{
  ℕ, ◌+◌, ◌*◌, ◌%◌, ◌<◌, ◌≤◌, ◌≡◌, refl, sym, ap, ◌∙◌, String, false, some, List, [], ◌∷◌, ◌++◌,
  arith, All, length, length-append, sum_over, sum_over-append,
}
use mathlib.Core.Path.{subst}
use cozystack_scheduler.Words.{word, half_word, minus_one}
use cozystack_scheduler.Api.{Pod}
use cozystack_scheduler.Framework.{PodInfo, NodeInfo, success, holds}
use cozystack_scheduler.PodTopologySpread.{Constraint, PodTopologySpread}
use cozystack_scheduler.PodTopologySpread.CriticalPaths.{max_int32}
use cozystack_scheduler.PodTopologySpread.State.{
  PreFilterState, clone_state, add_pod, remove_pod, update_with_pod, state_of, filter_each,
  run_filter,
}
use cozystack_scheduler.PodTopologySpread.State.Totals.{Counts, state_of-Counts}
use cozystack_scheduler.PodTopologySpread.Filtering.{
  Decides, IsValid, filter_each-Decides, state_of-IsCountMap,
}
use cozystack_scheduler.PodTopologySpread.State.Parallel.{update_with_pod-IsParallel}
use cozystack_scheduler.PodTopologySpread.Preemption.Following.{
  IsFollowed, update_with_pod-IsFollowed, update_slot-updates, clone_state-same, AllFollow-least,
  AllFollow-length, start-AllFollow,
}
use cozystack_scheduler.PodTopologySpread.Domains.{
  domains, HasKeys, HasKeys-congr, state_of-HasKeys,
}
use cozystack_scheduler.PodTopologySpread.Verdict.Numbers.{number-bound}
use cozystack_scheduler.PodTopologySpread.Verdict.{
  number, spreads_all, IsSmall, counted-AllDomains, AllDomains-fits, AllDomains-spreads,
}
use cozystack_scheduler.PodTopologySpread.Eviction.Counting.{holding, share, sum-share}
use cozystack_scheduler.PodTopologySpread.Eviction.Updating.{shifted, update_with_pod-Holds}
use cozystack_scheduler.PodTopologySpread.Eviction.Staying.{
  domains-holding, domains-Known, Counts-shift, Counts-IsSmallMap,
}

module _ {S R Object Raw : Type 0} (pl : PodTopologySpread S R Object Raw) (pod : Pod)
    (constraints : List (Constraint S)) (xs ys : List (NodeInfo S)) (n : NodeInfo S) where
  -- The nodes, where one has the given pods.
  abbrev pub nodes_with : List (PodInfo S) → List (NodeInfo S)
  nodes_with pods = xs ++ holding n pods ∷ ys

  abbrev pub total : List (PodInfo S) → ℕ
  total pods = sum_over (λ m. length m.pods) (nodes_with pods)

  -- The node's pods, and the state, after AddPod and RemovePod, and on clones.
  pub data Evicts : List (PodInfo S) → PreFilterState S → Type 0 where
    start : Evicts n.pods (state_of pl pod constraints (nodes_with n.pods))
    cloned :
        {pods : List (PodInfo S)} {t : PreFilterState S}
        → Evicts pods t
        → Evicts pods (clone_state t)
    added :
        {pods : List (PodInfo S)} {t u : PreFilterState S} (p : PodInfo S)
        → Evicts pods t
        → add_pod pl (holds t) pod p (holding n (p ∷ pods)) ≡ some (success, holds u)
        → Evicts (p ∷ pods) u
    removed :
        {t u : PreFilterState S} (before later : List (PodInfo S)) (p : PodInfo S)
        → Evicts (before ++ p ∷ later) t
        → remove_pod pl (holds t) pod p (holding n (before ++ later)) ≡ some (success, holds u)
        → Evicts (before ++ later) u

  -- None of the pods that come or go is terminating.
  abbrev pub AreRunning : {pods : List (PodInfo S)} {t : PreFilterState S} → Evicts pods t → Type 0
  AreRunning start = Unit
  AreRunning (cloned r) = AreRunning r
  AreRunning (added p r e) = AreRunning r × (p.pod.deleting ≡ false)
  AreRunning (removed before later p r e) = AreRunning r × (p.pod.deleting ≡ false)

  -- There are never more than 2 ^ 31 - 1 pods.
  abbrev pub AreFew : {pods : List (PodInfo S)} {t : PreFilterState S} → Evicts pods t → Type 0
  AreFew start = total n.pods ≤ max_int32
  AreFew (cloned r) = AreFew r
  AreFew (added {pods} p r e) = AreFew r × (total (p ∷ pods) ≤ max_int32)
  AreFew (removed before later p r e) = AreFew r

  total-fewer :
      (before later : List (PodInfo S)) (p : PodInfo S)
      → total (before ++ later) ≤ total (before ++ p ∷ later)
  total-fewer before later p = omega (
    arith,
    sum_over-append (λ m. length m.pods) xs (holding n (before ++ later) ∷ ys),
    sum_over-append (λ m. length m.pods) xs (holding n (before ++ p ∷ later) ∷ ys),
    length-append before later,
    length-append before (p ∷ later),
  )

  AreFew-total :
      {pods : List (PodInfo S)} {t : PreFilterState S} (r : Evicts pods t)
      → AreFew r
      → total pods ≤ max_int32
  AreFew-total start h = h
  AreFew-total (cloned r) h = AreFew-total r h
  AreFew-total (added p r e) h = h.1
  AreFew-total (removed before later p r e) h =
      omega (arith, AreFew-total r h, total-fewer before later p)

  -- What a state holds for the node's pods.
  abbrev Good : List (PodInfo S) → PreFilterState S → Type 0
  Good pods t =
      IsFollowed pl pod n.node t
      × (t.constraints ≡ constraints)
      × Counts pl pod (number pl pod constraints (nodes_with pods)) constraints
          t.tp_value_to_match_num
      × HasKeys pl pod (λ c. domains pl pod constraints c (nodes_with pods) []) constraints
          t.tp_value_to_match_num

  small :
      (pods : List (PodInfo S))
      → total pods ≤ max_int32
      → IsSmall pl pod constraints (nodes_with pods)
  small pods few c v = omega (arith, few, number-bound pl pod constraints c v (nodes_with pods))

  start-Good :
      total n.pods ≤ max_int32 → Good n.pods (state_of pl pod constraints (nodes_with n.pods))
  unfolding state_of
  start-Good few =
      let (counts, len) = state_of-IsCountMap pl pod constraints (nodes_with n.pods) in
      let numbers = state_of-Counts pl pod constraints (nodes_with n.pods) in
      (
        start-AllFollow pl pod n.node constraints _ len counts (
            Counts-IsSmallMap pl pod constraints _ constraints _ len (small n.pods few) numbers
              counts),
        refl,
        numbers,
        state_of-HasKeys pl pod constraints (nodes_with n.pods),
      )

  step-Good :
      (pods pods' : List (PodInfo S)) (t u : PreFilterState S) (p : PodInfo S) (delta : ℕ)
      → Good pods t
      → All (λ c. pl.selectors.empty c.selector ≡ false) constraints
      → ((c : Constraint S) (v : String)
          → pl.selectors.empty c.selector ≡ false
          → shifted pl pod constraints n p delta (number pl pod constraints (nodes_with pods)) c v
              % word
            ≡ number pl pod constraints (nodes_with pods') c v % word)
      → total pods' ≤ max_int32
      → update_with_pod pl t p.pod pod n.node delta ≡ some u
      → Good pods' u
  step-Good pods pods' t u p delta (f, same, a, b) nonempty changes few h =
      let (paths, counts) =
        AllFollow-length pl pod n.node t.constraints t.critical_paths t.tp_value_to_match_num f in
      let (least, maps) =
        AllFollow-least pl pod n.node t.constraints t.critical_paths t.tp_value_to_match_num f in
      let after =
        subst
          (λ cs. update_with_pod pl (record t { constraints = cs }) p.pod pod n.node delta ≡ some u)
          same h in
      let (na, nb, nd) =
        update_with_pod-Holds pl pod constraints n p delta t.critical_paths t.tp_value_to_match_num
          u (number pl pod constraints (nodes_with pods))
          (λ c. domains pl pod constraints c (nodes_with pods) []) (paths ∙ ap length same)
          (maps ∙ ap length same) (a, b, counts)
          (domains-Known pl pod constraints n ys p delta pods xs constraints) after in
      let numbers = Counts-shift pl pod constraints _ _ constraints _ nonempty changes na in
      let names =
        HasKeys-congr pl pod constraints _ (λ c. domains pl pod constraints c (nodes_with pods') [])
          constraints _ (λ c. domains-holding pl pod constraints n ys c pods pods' xs []) nb in
      let (t', e, kept, len) =
        update_with_pod-IsParallel pl t p.pod pod n.node delta (paths, maps) in
      let here : t' ≡ u = cc in
      let parallel : length u.tp_value_to_match_num ≡ length constraints =
        subst (λ s. length s.tp_value_to_match_num ≡ length s.constraints) here len.1
        ∙ ap (λ s. length s.constraints) (sym here)
        ∙ ap length kept
        ∙ ap length same in
      let fit =
        Counts-IsSmallMap pl pod constraints _ constraints _ parallel (small pods' few) numbers
          nd in
      let (follow, still) = update_with_pod-IsFollowed pl pod n.node t u p.pod delta f h fit in
      (follow, still ∙ same, numbers, names)

  added_lem : (f g s : ℕ) → g % word ≡ (f + s) % word → (f + s * 1) % word ≡ g % word
  added_lem f g s h = omega (arith, h)

  removed_lem : (f g s : ℕ) → f % word ≡ (g + s) % word → (f + s * minus_one) % word ≡ g % word
  removed_lem f g s h = omega (arith, h)

  Evicts-Good :
      {pods : List (PodInfo S)} {t : PreFilterState S} (r : Evicts pods t)
      → All (λ c. pl.selectors.empty c.selector ≡ false) constraints
      → AreRunning r
      → AreFew r
      → Good pods t
  Evicts-Good start e a b = start-Good b
  Evicts-Good (cloned {pods} {t} r) e a b =
      let good = Evicts-Good r e a b in
      subst (Good pods) (sym (clone_state-same pl pod n.node t good.0)) good
  Evicts-Good (added {pods} {t} {u} p r h) e (a, d) (b, few) =
      step-Good pods (p ∷ pods) t u p 1 (Evicts-Good r e a b) e
        (λ c v s.
          added_lem _ _ (share pl pod constraints n p c v)
            (sum-share pl pod constraints n p [] pods xs ys c v d s))
        few (update_slot-updates pl pod n.node t u p 1 h)
  Evicts-Good (removed {t} {u} before later p r h) e (a, d) b =
      step-Good (before ++ p ∷ later) (before ++ later) t u p minus_one (Evicts-Good r e a b) e
        (λ c v s.
          removed_lem _ _ (share pl pod constraints n p c v)
            (sum-share pl pod constraints n p before later xs ys c v d s))
        (AreFew-total (removed before later p r h) b)
        (update_slot-updates pl pod n.node t u p minus_one h)

  -- From the state that calPreFilterState computes, through any sequence of AddPod and RemovePod
  -- with pods on one node, and of clones: where the constraints are valid and their selectors not
  -- empty, no pod that comes or goes is terminating, and there are at most 2 ^ 31 - 1 pods and fewer
  -- than 2 ^ 63 nodes, Filter does not index out of range, and it passes a node exactly if the node
  -- has the label of each constraint and the pod spreads in its domains as the nodes' pods are then.
  pub run_filter-Evicts :
      (pods : List (PodInfo S)) (t : PreFilterState S) (info : NodeInfo S) (r : Evicts pods t)
      → All IsValid constraints
      → All (λ c. pl.selectors.empty c.selector ≡ false) constraints
      → AreRunning r
      → AreFew r
      → length (xs ++ n ∷ ys) < half_word
      → Decides
          (run_filter pl (holds t) pod info)
          (spreads_all pl pod constraints (nodes_with pods) info.node constraints)
  unfolding run_filter
  run_filter-Evicts pods t info r valid nonempty running few nodes =
      let (f, same, a, b) = Evicts-Good r nonempty running few in
      let (paths, counts) =
        AllFollow-length pl pod n.node t.constraints t.critical_paths t.tp_value_to_match_num f in
      let (least, maps) =
        AllFollow-least pl pod n.node t.constraints t.critical_paths t.tp_value_to_match_num f in
      let fit = small pods (AreFew-total r few) in
      let found =
        counted-AllDomains pl pod constraints (nodes_with pods) constraints t.tp_value_to_match_num
          (maps ∙ ap length same) a b counts in
      let fits =
        AllDomains-fits pl pod constraints (nodes_with pods) constraints t.tp_value_to_match_num fit
          (omega (arith, nodes, length-append xs (n ∷ ys), length-append xs (holding n pods ∷ ys)))
          found in
      let verdict =
        filter_each-Decides pl pod.labels info.node constraints t.critical_paths
          t.tp_value_to_match_num (maps ∙ ap length same) least valid fits in
      let here =
        subst
          (Decides (
            filter_each pl pod.labels info.node constraints t.critical_paths
              t.tp_value_to_match_num))
          (AllDomains-spreads pl pod constraints (nodes_with pods) info.node constraints
            t.tp_value_to_match_num fit found)
          verdict in
      subst
        (λ cs.
          Decides (filter_each pl pod.labels info.node cs t.critical_paths t.tp_value_to_match_num)
            (spreads_all pl pod constraints (nodes_with pods) info.node constraints))
        (sym same) here
