-- ===== src/PodTopologySpread/Hints/Skipping.antt =====
-- The pod hint of pkg/podtopologyspread/plugin.go against `updateWithPod` of filtering.go.
use cozystack_scheduler.Prelude.{
  ℕ, ◌≡◌, refl, ◌⊎◌, inl, inr, String, Bool, true, false, some, List, [], ◌∷◌, arith, ◌==◌,
  string_eq, any, length, Bool-cases,
}
use cozystack_scheduler.GoMap.{GoMap}
use cozystack_scheduler.Result.{ok}
use cozystack_scheduler.Api.{Pod, Node}
use cozystack_scheduler.PodTopologySpread.{Constraint, PodTopologySpread, get_constraints}
use cozystack_scheduler.PodTopologySpread.CriticalPaths.{CriticalPaths}
use cozystack_scheduler.PodTopologySpread.State.{PreFilterState, update_each, update_with_pod}
use cozystack_scheduler.PodTopologySpread.State.Parallel.{IsParallel}
use cozystack_scheduler.Framework.{Event, created, deleted, queue_skip, queue_if}
use cozystack_scheduler.PodTopologySpread.Hints.{
  DeepEqual, event_involved, involved_in_topology_spreading, pod_change_hint,
  is_schedulable_after_pod_change,
}

-- A pod appears or goes.
abbrev pub Moves : Event Pod → Pod → Type 0
Moves event p = (event ≡ created p) ⊎ (event ≡ deleted p)

module _ {S R Object Raw : Type 0} (pl : PodTopologySpread S R Object Raw) (eq : DeepEqual) where
  update_each-skip :
      (p pod : Pod) (node : Node) (delta : ℕ) (cs : List (Constraint S)) (ps : List CriticalPaths)
      (ms : List (GoMap String ℕ))
      → length ps ≡ length cs
      → length ms ≡ length cs
      → any (λ c. pl.selectors.matches c.selector p.labels) cs ≡ false
      → update_each pl p pod node delta cs ps ms ≡ some (ps, ms)
  unfolding update_each
  update_each-skip p pod node delta [] ps ms hp hm h = refl
  update_each-skip p pod node delta (c ∷ cs) [] ms hp hm h = cc
  update_each-skip p pod node delta (c ∷ cs) (x ∷ ps) [] hp hm h = cc
  update_each-skip p pod node delta (c ∷ cs) (x ∷ ps) (m ∷ ms) hp hm h =
      let mine : pl.selectors.matches c.selector p.labels ≡ false = ground arith in
      let rest =
        update_each-skip p pod node delta cs ps ms (omega (arith, hp)) (omega (arith, hm))
          (ground arith) in
      rw (update_each, rest, mine) refl

  update_with_pod-skip :
      (s : PreFilterState S) (p pod : Pod) (node : Node) (delta : ℕ)
      → IsParallel s
      → any (λ c. pl.selectors.matches c.selector p.labels) s.constraints ≡ false
      → update_with_pod pl s p pod node delta ≡ some s
  unfolding update_with_pod
  update_with_pod-skip s p pod node delta par h = ground (
    arith,
    update_each-skip p pod node delta s.constraints s.critical_paths s.tp_value_to_match_num par.0
        par.1 h,
  )

  update_with_pod-namespace :
      (s : PreFilterState S) (p pod : Pod) (node : Node) (delta : ℕ)
      → p.namespace == pod.namespace ≡ false
      → update_with_pod pl s p pod node delta ≡ some s
  unfolding update_with_pod
  update_with_pod-namespace s p pod node delta h = rw h refl

  event_involved-Moves :
      (event : Event Pod) (p pod : Pod)
      → Moves event p
      → event_involved pod event ≡ involved_in_topology_spreading p pod
  event_involved-Moves event p pod (inl e) = rw e refl
  event_involved-Moves event p pod (inr e) = rw e refl

  pod_change_hint-Moves :
      (event : Event Pod) (p pod : Pod) (cs : List (Constraint S))
      → Moves event p
      → pod_change_hint pl eq pod cs event
        ≡ queue_if (any (λ c. pl.selectors.matches c.selector p.labels) cs)
  pod_change_hint-Moves event p pod cs (inl e) = rw e refl
  pod_change_hint-Moves event p pod cs (inr e) = rw e refl

  uninvolved-namespace :
      (p pod : Pod)
      → p.spec.node_name == "" ≡ false
      → involved_in_topology_spreading p pod ≡ false
      → p.namespace == pod.namespace ≡ false
  uninvolved-namespace p pod placed h = ground arith

  queue_if-skip : (b : Bool) → ok (queue_if b) ≡ ok queue_skip → b ≡ false
  queue_if-skip true h = ground arith
  queue_if-skip false h = refl

  involved-skip :
      (event : Event Pod) (p pod : Pod) (cs : List (Constraint S))
      → Moves event p
      → get_constraints pl pod ≡ ok cs
      → involved_in_topology_spreading p pod ≡ true
      → is_schedulable_after_pod_change pl eq pod event ≡ ok queue_skip
      → any (λ c. pl.selectors.matches c.selector p.labels) cs ≡ false
  unfolding is_schedulable_after_pod_change
  involved-skip event p pod cs moves found here h =
      let hint : is_schedulable_after_pod_change pl eq pod event
          ≡ ok (queue_if (any (λ c. pl.selectors.matches c.selector p.labels) cs)) =
        rw
          (
            is_schedulable_after_pod_change,
            event_involved-Moves event p pod moves,
            here,
            found,
            pod_change_hint-Moves event p pod cs moves,
          )
          refl in
      queue_if-skip _ (cc (hint, h))

  -- Where the hint says to skip the event that a running pod appeared or went, the event changes none
  -- of the counts of a state for the constraints of the pending pod.
  pub is_schedulable_after_pod_change-skip :
      (s : PreFilterState S) (event : Event Pod) (p pod : Pod) (node : Node) (delta : ℕ)
      → Moves event p
      → get_constraints pl pod ≡ ok s.constraints
      → IsParallel s
      → p.spec.node_name == "" ≡ false
      → is_schedulable_after_pod_change pl eq pod event ≡ ok queue_skip
      → update_with_pod pl s p pod node delta ≡ some s
  is_schedulable_after_pod_change-skip s event p pod node delta moves found par placed h =
      elim (Bool-cases (involved_in_topology_spreading p pod)) [
        | inl here ↦
            update_with_pod-skip s p pod node delta par
              (involved-skip event p pod s.constraints moves found here h)
        | inr away ↦
            update_with_pod-namespace s p pod node delta (uninvolved-namespace p pod placed away)
      ]
