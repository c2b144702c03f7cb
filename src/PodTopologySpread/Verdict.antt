-- ===== src/PodTopologySpread/Verdict.antt =====
-- `Filter` after `calPreFilterState` (pkg/podtopologyspread/filtering.go), by the pods of the nodes.
pub mod Numbers
use cozystack_scheduler.Prelude.{
  ℕ, suc, ◌+◌, ◌%◌, ◌<◌, ◌≤◌, ◌≡◌, refl, sym, ap, ◌∙◌, inl, inr, String, Bool, true, false, not,
  ◌&&◌, none, some, List, [], ◌∷◌, arith, string_eq, if◌then◌else◌, Option-cases, All, All-map,
  length, length-map, leb, ltb, sum_over,
}
use mathlib.Core.Path.{subst}
use cozystack_scheduler.GoMap.{GoMap, lookup, lookup_or}
use cozystack_scheduler.Words.{word, half_word}
use cozystack_scheduler.Api.{Pod, Node}
use cozystack_scheduler.Framework.{NodeInfo, holds}
use cozystack_scheduler.PodTopologySpread.{Constraint, PodTopologySpread}
use cozystack_scheduler.PodTopologySpread.CriticalPaths.{max_int32}
use cozystack_scheduler.PodTopologySpread.Minimum.{least, IsCountMap}
use cozystack_scheduler.PodTopologySpread.State.{state_of, run_filter}
use cozystack_scheduler.PodTopologySpread.State.Totals.{Counts, matching, state_of-Counts}
use cozystack_scheduler.PodTopologySpread.Domains.{keys, domains, HasKeys, state_of-HasKeys}
use cozystack_scheduler.PodTopologySpread.Filtering.{
  Decides, FitsInt, IsValid, within_skew, fits_all, global_minimum, run_filter-Decides,
  state_of-IsCountMap,
}
use cozystack_scheduler.PodTopologySpread.Verdict.Numbers.{
  lowest, least-lowest, entries-numbers, number-bound, domains-length,
}

module _ {S R Object Raw : Type 0} (pl : PodTopologySpread S R Object Raw) (pod : Pod)
    (constraints : List (Constraint S)) (nodes : List (NodeInfo S)) where
  -- The pods that count for a constraint in the domain of a value.
  abbrev pub number : Constraint S → String → ℕ
  number c v = sum_over (matching pl pod constraints c v) nodes

  -- The least number of a domain, 2 ^ 31 - 1 where there is none, or 0 where there are fewer domains
  -- than the constraint asks for.
  abbrev pub least_number : Constraint S → ℕ
  least_number c =
      if ltb (length (domains pl pod constraints c nodes [])) c.min_domains
      then 0
      else lowest max_int32 (number c) (domains pl pod constraints c nodes [])

  -- The pods in the node's domain, and the pod, exceed the least number by the skew at most.
  abbrev pub spreads : Constraint S → String → Bool
  spreads c v =
      leb (number c v + (if pl.selectors.matches c.selector pod.labels then 1 else 0))
        (c.max_skew + least_number c)

  -- The node has the label of each constraint, and the pod spreads in its domains.
  abbrev pub spreads_all : Node → List (Constraint S) → Bool
  spreads_all node [] = true
  spreads_all node (c ∷ cs) =
      (elim (lookup c.topology_key node.labels) [ none ↦ false | some v ↦ spreads c v ])
      && spreads_all node cs

  -- The number of each domain fits an int32.
  abbrev pub IsSmall : Type 0
  IsSmall = (c : Constraint S) → (v : String) → number c v ≤ max_int32

  abbrev AreDomains : Constraint S → GoMap String ℕ → Type 0
  AreDomains c m =
      ((v : String) → lookup_or 0 v m ≡ number c v % word)
      × (keys m ≡ domains pl pod constraints c nodes [])
      × IsCountMap m

  map-number :
      (c : Constraint S) (m : GoMap String ℕ) (v : String)
      → IsSmall
      → AreDomains c m
      → lookup_or 0 v m ≡ number c v
  map-number c m v h (n, k, d) = omega (arith, n v, h c v)

  map-least :
      (c : Constraint S) (m : GoMap String ℕ)
      → IsSmall
      → AreDomains c m
      → global_minimum c m ≡ least_number c
  map-least c m h a =
      let len : length m ≡ length (domains pl pod constraints c nodes []) =
        sym (length-map _ m) ∙ ap length a.1 in
      let low : least max_int32 m ≡ lowest max_int32 (number c) (keys m) =
        least-lowest (number c) m max_int32 (omega arith) (h c)
          (entries-numbers (number c) m a.2.0 (λ v. map-number c m v h a)) in
      let low' = low ∙ ap (lowest max_int32 (number c)) a.1 in
      ap (λ n. if ltb n c.min_domains then 0 else least max_int32 m) len
      ∙ ap
          (λ n. if ltb (length (domains pl pod constraints c nodes [])) c.min_domains then 0 else n)
          low'

  map-fits :
      (c : Constraint S) (m : GoMap String ℕ)
      → IsSmall
      → length nodes < half_word
      → AreDomains c m
      → FitsInt m
  map-fits c m h few a =
      let len : length m ≡ length (domains pl pod constraints c nodes []) =
        sym (length-map _ m) ∙ ap length a.1 in
      (
        All-map (λ e same. small_entry e.1 (number c e.0) same (h c e.0)) m
            (entries-numbers (number c) m a.2.0 (λ v. map-number c m v h a)),
        omega (arith, len, few, domains-length pl pod constraints c nodes []),
      )
    where
      small_entry : (k n : ℕ) → k ≡ n → n ≤ max_int32 → suc k < half_word
      small_entry k n e h = omega (arith, e, h)

  abbrev pub AllDomains : List (Constraint S) → List (GoMap String ℕ) → Type 0
  AllDomains [] [] = Unit
  AllDomains (c ∷ cs) (m ∷ ms) = AreDomains c m × AllDomains cs ms
  AllDomains cs ms = ⊥

  pub counted-AllDomains :
      (cs : List (Constraint S)) (ms : List (GoMap String ℕ))
      → length ms ≡ length cs
      → Counts pl pod number cs ms
      → HasKeys pl pod (λ c. domains pl pod constraints c nodes []) cs ms
      → All IsCountMap ms
      → AllDomains cs ms
  counted-AllDomains [] [] len a b c = tt
  counted-AllDomains [] (m ∷ ms) len a b c = cc
  counted-AllDomains (x ∷ cs) [] len a b c = cc
  counted-AllDomains (x ∷ cs) (m ∷ ms) len a b c =
      ((a.0, b.0, c.0), counted-AllDomains cs ms (omega (arith, len)) a.1 b.1 c.1)

  pub AllDomains-fits :
      (cs : List (Constraint S)) (ms : List (GoMap String ℕ))
      → IsSmall
      → length nodes < half_word
      → AllDomains cs ms
      → All FitsInt ms
  AllDomains-fits [] [] h few a = tt
  AllDomains-fits [] (m ∷ ms) h few a = elim a [ ]
  AllDomains-fits (c ∷ cs) [] h few a = elim a [ ]
  AllDomains-fits (c ∷ cs) (m ∷ ms) h few a =
      (map-fits c m h few a.0, AllDomains-fits cs ms h few a.1)

  pub AllDomains-spreads :
      (node : Node) (cs : List (Constraint S)) (ms : List (GoMap String ℕ))
      → IsSmall
      → AllDomains cs ms
      → fits_all pl pod.labels node cs ms ≡ spreads_all node cs
  AllDomains-spreads node [] [] h a = refl
  AllDomains-spreads node [] (m ∷ ms) h a = elim a [ ]
  AllDomains-spreads node (c ∷ cs) [] h a = elim a [ ]
  AllDomains-spreads node (c ∷ cs) (m ∷ ms) h a =
      let rest = AllDomains-spreads node cs ms h a.1 in
      elim (Option-cases (lookup c.topology_key node.labels)) [
        | inl e ↦ rw (fits_all, e) refl
        | inr (v, e) ↦
            let here : within_skew pl pod.labels c m v ≡ spreads c v =
              rw (map-number c m v h a.0, map-least c m h a.0) refl in
            rw (fits_all, e)
              (ap (λ b. b && fits_all pl pod.labels node cs ms) here
                ∙ ap (λ b. spreads c v && b) rest)
      ]

  -- Where the constraints are valid, and there are at most 2 ^ 31 - 1 pods and fewer than 2 ^ 63
  -- nodes: on the state that calPreFilterState computes, Filter does not index out of range, and it
  -- passes a node exactly if the node has the label of each constraint, and the number of its domain,
  -- with one more where the pod has what the selector asks for, exceeds the least number of a domain
  -- by the maximal skew at most. The number of a domain is that of the pods of the pod's namespace
  -- that are not terminating and that the selector matches, and 0 for an empty selector, on the
  -- nodes that count. The least number is 0 where there are fewer domains than the constraint asks for,
  -- and 2 ^ 31 - 1 where it asks for none and there is none.
  pub run_filter-spreads :
      (info : NodeInfo S)
      → All IsValid constraints
      → sum_over (λ n. length n.pods) nodes ≤ max_int32
      → length nodes < half_word
      → Decides
          (run_filter pl (holds (state_of pl pod constraints nodes)) pod info)
          (spreads_all info.node constraints)
  run_filter-spreads info valid few_pods few_nodes =
      let s = state_of pl pod constraints nodes in
      let small : IsSmall =
        λ c v. omega (arith, few_pods, number-bound pl pod constraints c v nodes) in
      let (counts, len) = state_of-IsCountMap pl pod constraints nodes in
      let found =
        counted-AllDomains constraints s.tp_value_to_match_num len
          (state_of-Counts pl pod constraints nodes) (state_of-HasKeys pl pod constraints nodes)
          counts in
      subst (Decides (run_filter pl (holds s) pod info))
        (AllDomains-spreads info.node constraints s.tp_value_to_match_num small found)
        (run_filter-Decides pl pod constraints nodes info valid
          (AllDomains-fits constraints s.tp_value_to_match_num small few_nodes found))
