-- ===== src/PodTopologySpread/Preemption.antt =====
-- `Filter` after `AddPod` and `RemovePod` on one node (pkg/podtopologyspread/filtering.go), as the
-- preemption of the scheduler calls them on a clone of the state.
pub mod Following
use cozystack_scheduler.Prelude.{◌<◌, ◌≡◌, refl, sym, ◌∙◌, not, some, List, length, All}
use mathlib.Core.Path.{subst}
use cozystack_scheduler.Words.{half_word, minus_one}
use cozystack_scheduler.Api.{Pod, Node}
use cozystack_scheduler.Framework.{PodInfo, NodeInfo, success, holds}
use cozystack_scheduler.PodTopologySpread.{Constraint, PodTopologySpread}
use cozystack_scheduler.PodTopologySpread.State.{
  PreFilterState, clone_state, add_pod, remove_pod, state_of, run_filter,
}
use cozystack_scheduler.PodTopologySpread.Filtering.{
  Decides, IsValid, fits_all, filter_each-Decides, state_of-IsCountMap,
}
use cozystack_scheduler.PodTopologySpread.Tracking.Least.{IsSmallMap}
use cozystack_scheduler.PodTopologySpread.Preemption.Following.{
  IsFollowed, update_with_pod-IsFollowed, update_slot-updates, clone_state-same, AllFollow-least,
  start-AllFollow, AllFollow-FitsInt,
}

module _ {S R Object Raw : Type 0} (pl : PodTopologySpread S R Object Raw) (pod : Pod)
    (node : Node) where
  -- The states that AddPod and RemovePod, with pods on the node, and clones reach from a state.
  pub data Reaches (s : PreFilterState S) : PreFilterState S → Type 0 where
    start : Reaches s s
    cloned : {t : PreFilterState S} → Reaches s t → Reaches s (clone_state t)
    added :
        {t u : PreFilterState S} (info : NodeInfo S) (p : PodInfo S)
        → Reaches s t
        → info.node ≡ node
        → add_pod pl (holds t) pod p info ≡ some (success, holds u)
        → Reaches s u
    removed :
        {t u : PreFilterState S} (info : NodeInfo S) (p : PodInfo S)
        → Reaches s t
        → info.node ≡ node
        → remove_pod pl (holds t) pod p info ≡ some (success, holds u)
        → Reaches s u

  -- The numbers of the states on the way fit an int32.
  abbrev pub IsBounded : {s t : PreFilterState S} → Reaches s t → Type 0
  IsBounded {s} start = All IsSmallMap s.tp_value_to_match_num
  IsBounded (cloned r) = IsBounded r
  IsBounded (added {t} {u} info p r e h) = IsBounded r × All IsSmallMap u.tp_value_to_match_num
  IsBounded (removed {t} {u} info p r e h) = IsBounded r × All IsSmallMap u.tp_value_to_match_num

  IsBounded-start :
      {s t : PreFilterState S} (r : Reaches s t)
      → IsBounded r
      → All IsSmallMap s.tp_value_to_match_num
  IsBounded-start start b = b
  IsBounded-start (cloned r) b = IsBounded-start r b
  IsBounded-start (added info p r e h) b = IsBounded-start r b.0
  IsBounded-start (removed info p r e h) b = IsBounded-start r b.0

  Reaches-IsFollowed :
      {s t : PreFilterState S} (r : Reaches s t)
      → IsBounded r
      → IsFollowed pl pod node s
      → IsFollowed pl pod node t × (t.constraints ≡ s.constraints)
  Reaches-IsFollowed start b a = (a, refl)
  Reaches-IsFollowed {s} (cloned {t} r) b a =
      let (f, same) = Reaches-IsFollowed r b a in
      subst (λ u. IsFollowed pl pod node u × (u.constraints ≡ s.constraints))
        (sym (clone_state-same pl pod node t f)) (f, same)
  Reaches-IsFollowed (added {t} {u} info p r e h) (b, small) a =
      let (f, same) = Reaches-IsFollowed r b a in
      let done = update_slot-updates pl pod node t u p 1 (rw e at h) in
      let (g, kept) = update_with_pod-IsFollowed pl pod node t u p.pod 1 f done small in
      (g, kept ∙ same)
  Reaches-IsFollowed (removed {t} {u} info p r e h) (b, small) a =
      let (f, same) = Reaches-IsFollowed r b a in
      let done = update_slot-updates pl pod node t u p minus_one (rw e at h) in
      let (g, kept) = update_with_pod-IsFollowed pl pod node t u p.pod minus_one f done small in
      (g, kept ∙ same)

  -- From the state that calPreFilterState computes from valid constraints, through any sequence of
  -- AddPod and RemovePod with pods on one node, and of clones, where the numbers on the way fit an
  -- int32 and the number of domains an int, Filter does not index out of range, and it passes a
  -- node exactly if the node has the label of every constraint and the pod there stays within
  -- every constraint's skew, by the numbers as they are then.
  pub run_filter-Reaches :
      (constraints : List (Constraint S)) (all_nodes : List (NodeInfo S)) (info : NodeInfo S)
      (t : PreFilterState S)
      → All IsValid constraints
      → (r : Reaches (state_of pl pod constraints all_nodes) t) → IsBounded r
      → All (λ m. length m < half_word) t.tp_value_to_match_num
      → Decides
          (run_filter pl (holds t) pod info)
          (fits_all pl pod.labels info.node constraints t.tp_value_to_match_num)
  unfolding run_filter state_of
  run_filter-Reaches constraints all_nodes info t valid r bounded few =
      let (counts, parallel) = state_of-IsCountMap pl pod constraints all_nodes in
      let first : IsFollowed pl pod node (state_of pl pod constraints all_nodes) =
        start-AllFollow pl pod node constraints _ parallel counts (IsBounded-start r bounded) in
      let (follow, same) = Reaches-IsFollowed r bounded first in
      let (least, len) =
        AllFollow-least pl pod node t.constraints t.critical_paths t.tp_value_to_match_num follow in
      let fits =
        AllFollow-FitsInt pl pod node t.constraints t.critical_paths t.tp_value_to_match_num few
          follow in
      subst
        (λ cs.
          Decides (run_filter pl (holds t) pod info)
            (fits_all pl pod.labels info.node cs t.tp_value_to_match_num))
        same
        (filter_each-Decides pl pod.labels info.node t.constraints t.critical_paths
          t.tp_value_to_match_num len least (subst (All IsValid) (sym same) valid) fits)
