-- ===== src/PodTopologySpread/Filtering.antt =====
-- `Filter` after `calPreFilterState` (pkg/podtopologyspread/filtering.go), as a bound on the skew.
use cozystack_scheduler.Prelude.{
  ℕ, zero, suc, ◌↔◌, length-map, ◌+◌, ◌^◌, ◌<◌, ◌≡◌, refl, ap, ◌∙◌, inl, inr, String, Bool, true,
  false, not, ◌&&◌, Option, none, some, List, [], ◌∷◌, map, arith, ◌==◌, string_eq, if◌then◌else◌,
  All, Bool-cases, Option-cases, length, ltb, leb,
}
use cozystack_scheduler.GoMap.{GoMap, lookup, insert, lookup_or}
use cozystack_scheduler.GoMap.Laws.{insert-HasDistinctKeys}
use cozystack_scheduler.Words.{word, half_word, add64, sub64, slt, extend32}
use cozystack_scheduler.Api.{Labels, Pod, Node}
use cozystack_scheduler.Framework.{
  NodeInfo, Status, success, unschedulable, unschedulable_and_unresolvable, holds,
}
use cozystack_scheduler.PodTopologySpread.{Constraint, PodTopologySpread}
use cozystack_scheduler.PodTopologySpread.CriticalPaths.{
  CriticalPaths, max_int32, new_critical_paths, update_all,
}
use cozystack_scheduler.PodTopologySpread.Minimum.{smin, least, IsCountMap, update_all-minimum}
use cozystack_scheduler.PodTopologySpread.State.{
  TopologyCount, bump, add_count, add_counts, add_nodes, process_node, state_of, exceeds_skew,
  min_match_num, filter_each, run_filter,
}

insert-All :
    (m : GoMap String ℕ) (v : String) (n : ℕ)
    → n < word
    → All (λ e. e.1 < word) m
    → All (λ e. e.1 < word) (insert v n m)
unfolding insert
insert-All [] v n h a = (h, tt)
insert-All ((w, k) ∷ m) v n h a = elim (Bool-cases (w == v)) [
  | inl e ↦ rw e (h, a.1)
  | inr e ↦ rw e (a.0, insert-All m v n h a.1)
]

add64-small : (a b : ℕ) → add64 a b < word
add64-small a b = omega arith

pub bump-IsCountMap :
    (v : String) (n : ℕ) (m : GoMap String ℕ) → IsCountMap m → IsCountMap (bump v n m)
bump-IsCountMap v n m (d, s) =
    (insert-HasDistinctKeys v _ m d, insert-All m v _ (add64-small _ n) s)

add_count-IsCountMap :
    (id : ℕ) (v : String) (n : ℕ) (ms : List (GoMap String ℕ))
    → All IsCountMap ms
    → All IsCountMap (add_count id v n ms)
add_count-IsCountMap id v n [] a = tt
add_count-IsCountMap zero v n (m ∷ ms) a = (bump-IsCountMap v n m a.0, a.1)
add_count-IsCountMap (suc id) v n (m ∷ ms) a = (a.0, add_count-IsCountMap id v n ms a.1)

skew_lem :
    (a b k : ℕ)
    → a < half_word
    → b < half_word
    → k < 2 ^ 31
    → slt (extend32 k) (sub64 a b) ≡ not (leb a (k + b))
skew_lem a b k h i j = ground arith

domains_lem : (n k : ℕ) → n < half_word → k < 2 ^ 31 → slt n (extend32 k) ≡ ltb n k
domains_lem n k h j = ground arith

add_counts-IsCountMap :
    (ts : List TopologyCount) (ms : List (GoMap String ℕ))
    → All IsCountMap ms
    → All IsCountMap (add_counts ts ms)
add_counts-IsCountMap [] ms a = a
add_counts-IsCountMap (t ∷ ts) ms a =
    add_counts-IsCountMap ts _ (add_count-IsCountMap t.constraint_id t.topology_value t.count ms a)

add_count-length :
    (id : ℕ) (v : String) (n : ℕ) (ms : List (GoMap String ℕ))
    → length (add_count id v n ms) ≡ length ms
add_count-length id v n [] = refl
add_count-length zero v n (m ∷ ms) = refl
add_count-length (suc id) v n (m ∷ ms) = ap suc (add_count-length id v n ms)

add_counts-length :
    (ts : List TopologyCount) (ms : List (GoMap String ℕ)) → length (add_counts ts ms) ≡ length ms
add_counts-length [] ms = refl
add_counts-length (t ∷ ts) ms =
    add_counts-length ts _ ∙ add_count-length t.constraint_id t.topology_value t.count ms

empty-IsCountMap :
    {S : Type 0} (cs : List (Constraint S))
    → All IsCountMap (map {A = Constraint S} {B = GoMap String ℕ} (λ c. []) cs)
empty-IsCountMap [] = tt
empty-IsCountMap (c ∷ cs) = ((tt, tt), empty-IsCountMap cs)

smin-small : (a b : ℕ) → a < half_word → b < half_word → smin a b < half_word
smin-small a b h k = ground arith

least-small :
    (m : GoMap String ℕ) (b : ℕ)
    → b < half_word
    → All (λ e. suc e.1 < half_word) m
    → least b m < half_word
least-small [] b h a = h
least-small ((v, n) ∷ m) b h a =
    least-small m (smin b n) (smin-small b n h (omega (arith, a.0))) a.1

lookup_or-small :
    (v : String) (m : GoMap String ℕ)
    → All (λ e. suc e.1 < half_word) m
    → suc (lookup_or 0 v m) < half_word
unfolding lookup
lookup_or-small v [] a = omega arith
lookup_or-small v ((w, n) ∷ m) a = ground (arith, lookup_or-small v m a.1)

self_lem :
    (a : ℕ) (b : Bool) → suc a < half_word → add64 a (if b then 1 else 0) ≡ a + (if b then 1 else 0)
self_lem a b h = ground arith

self-small : (a : ℕ) (b : Bool) → suc a < half_word → a + (if b then 1 else 0) < half_word
self-small a b h = ground arith

choice-small : (b : Bool) (a : ℕ) → a < half_word → (if b then 0 else a) < half_word
choice-small b a h = ground arith

minimum_lem :
    (b b' : Bool) (a a' : ℕ) → b ≡ b' → a ≡ a' → (if b then 0 else a) ≡ (if b' then 0 else a')
minimum_lem b b' a a' e f = ground arith

-- The numbers of a constraint's map, and of its entries, stay below the sign bit of an int.
abbrev pub FitsInt : GoMap String ℕ → Type 0
FitsInt m = All (λ e. suc e.1 < half_word) m × (length m < half_word)

-- The int32 fields of a constraint are not negative, as the API server demands.
abbrev pub IsValid : {S : Type 0} → Constraint S → Type 0
IsValid c = (c.max_skew < 2 ^ 31) × (c.min_domains < 2 ^ 31)

-- The least number of a domain, or 0 where there are fewer domains than the constraint asks for.
abbrev pub global_minimum : {S : Type 0} → Constraint S → GoMap String ℕ → ℕ
global_minimum c m = if ltb (length m) c.min_domains then 0 else least max_int32 m

-- The first path of each constraint has the least number of its map, and at most the greatest int32.
abbrev pub AreLeast : List CriticalPaths → List (GoMap String ℕ) → Type 0
AreLeast ps [] = Unit
AreLeast [] (m ∷ ms) = ⊥
AreLeast (p ∷ ps) (m ∷ ms) = (p.first.match_num ≡ least max_int32 m) × AreLeast ps ms

update_all-AreLeast :
    (ms : List (GoMap String ℕ))
    → All IsCountMap ms
    → AreLeast (map (update_all new_critical_paths) ms) ms
update_all-AreLeast [] a = tt
update_all-AreLeast (m ∷ ms) a = (update_all-minimum m a.0, update_all-AreLeast ms a.1)

-- What `Filter` returned: it did not panic, and it passed the node exactly if `b` is true.
abbrev pub Decides : Option Status → Bool → Type 0
Decides r b = (st : Status) × (r ≡ some st) × ((st ≡ success) ↔ (b ≡ true))

Decides-success : Decides (some success) true
Decides-success = (success, refl, ((λ h. refl), (λ h. refl)))

Decides-unschedulable : (reason : String) → Decides (some (unschedulable reason)) false
Decides-unschedulable reason = (unschedulable reason, refl, ((λ h. cc), (λ h. cc)))

Decides-unresolvable :
    (reason : String) → Decides (some (unschedulable_and_unresolvable reason)) false
Decides-unresolvable reason = (unschedulable_and_unresolvable reason, refl, ((λ h. cc), (λ h. cc)))

module _ {S R Object Raw : Type 0} (pl : PodTopologySpread S R Object Raw) where
  -- existing matching num + self match <= max skew + global minimum, over the natural numbers
  abbrev pub within_skew : Labels → Constraint S → GoMap String ℕ → String → Bool
  within_skew pod_labels c m v =
      leb (lookup_or 0 v m + (if pl.selectors.matches c.selector pod_labels then 1 else 0))
        (c.max_skew + global_minimum c m)

  -- The node has the label of each constraint, and none of their domains gets too full.
  abbrev pub fits_all : Labels → Node → List (Constraint S) → List (GoMap String ℕ) → Bool
  fits_all pod_labels node (c ∷ cs) (m ∷ ms) =
      (elim (lookup c.topology_key node.labels) [
        | none ↦ false
        | some v ↦ within_skew pod_labels c m v
      ])
      && fits_all pod_labels node cs ms
  fits_all pod_labels node cs ms = true

  exceeds_skew-within :
      (pod_labels : Labels) (c : Constraint S) (p : CriticalPaths) (m : GoMap String ℕ) (v : String)
      → IsValid c
      → p.first.match_num ≡ least max_int32 m
      → FitsInt m
      → exceeds_skew pl pod_labels c p m v ≡ not (within_skew pod_labels c m v)
  exceeds_skew-within pod_labels c p m v valid paths fits =
      let domains : slt (length m) (extend32 c.min_domains) ≡ ltb (length m) c.min_domains =
        domains_lem (length m) c.min_domains fits.1 valid.1 in
      let num : suc (lookup_or 0 v m) < half_word = lookup_or-small v m fits.0 in
      let low : least max_int32 m < half_word = least-small m max_int32 (omega arith) fits.0 in
      let minimum : min_match_num p m c.min_domains ≡ global_minimum c m =
        minimum_lem _ _ _ _ domains paths in
      let self = pl.selectors.matches c.selector pod_labels in
      rw (self_lem (lookup_or 0 v m) self num, minimum)
        (skew_lem _ _ c.max_skew (self-small _ self num)
          (choice-small (ltb (length m) c.min_domains) _ low) valid.0)

  pub filter_each-Decides :
      (pod_labels : Labels) (node : Node) (cs : List (Constraint S)) (ps : List CriticalPaths)
      (ms : List (GoMap String ℕ))
      → length ms ≡ length cs
      → AreLeast ps ms
      → All IsValid cs
      → All FitsInt ms
      → Decides (filter_each pl pod_labels node cs ps ms) (fits_all pod_labels node cs ms)
  unfolding filter_each
  filter_each-Decides pod_labels node [] ps ms len least valid fits = Decides-success
  filter_each-Decides pod_labels node (c ∷ cs) ps [] len least valid fits = cc
  filter_each-Decides pod_labels node (c ∷ cs) [] (m ∷ ms) len least valid fits = elim least [ ]
  filter_each-Decides pod_labels node (c ∷ cs) (p ∷ ps) (m ∷ ms) len least valid fits =
      let rest =
        filter_each-Decides pod_labels node cs ps ms (omega (arith, len)) least.1 valid.1 fits.1 in
      elim (Option-cases (lookup c.topology_key node.labels)) [
        | inl e ↦ rw (filter_each, e) (Decides-unresolvable _)
        | inr (v, e) ↦
            let skew = exceeds_skew-within pod_labels c p m v valid.0 least.0 fits.0 in
            elim (Bool-cases (within_skew pod_labels c m v)) [
              | inl w ↦ rw (filter_each, e, skew, w) rest
              | inr w ↦ rw (filter_each, e, skew, w) (Decides-unschedulable _)
            ]
      ]

  add_nodes-IsCountMap :
      (pod : Pod) (cs : List (Constraint S)) (ns : List (NodeInfo S)) (ms : List (GoMap String ℕ))
      → All IsCountMap ms
      → All IsCountMap (add_nodes pl pod cs ns ms)
  add_nodes-IsCountMap pod cs [] ms a = a
  add_nodes-IsCountMap pod cs (n ∷ ns) ms a =
      add_nodes-IsCountMap pod cs ns _ (add_counts-IsCountMap (process_node pl pod cs n) ms a)

  add_nodes-length :
      (pod : Pod) (cs : List (Constraint S)) (ns : List (NodeInfo S)) (ms : List (GoMap String ℕ))
      → length (add_nodes pl pod cs ns ms) ≡ length ms
  add_nodes-length pod cs [] ms = refl
  add_nodes-length pod cs (n ∷ ns) ms =
      add_nodes-length pod cs ns _ ∙ add_counts-length (process_node pl pod cs n) ms

  -- The maps of the state are maps of counts, one for each constraint.
  pub state_of-IsCountMap :
      (pod : Pod) (cs : List (Constraint S)) (ns : List (NodeInfo S))
      → All IsCountMap (state_of pl pod cs ns).tp_value_to_match_num
        × (length (state_of pl pod cs ns).tp_value_to_match_num ≡ length cs)
  unfolding state_of
  state_of-IsCountMap pod cs ns = (
    add_nodes-IsCountMap pod cs ns _ (empty-IsCountMap cs),
    add_nodes-length pod cs ns _ ∙ length-map _ cs,
  )

  -- On the state that `calPreFilterState` computes from constraints whose int32 fields are not
  -- negative, where the numbers are below 2 ^ 63 - 1 and there are fewer than 2 ^ 63 domains,
  -- `Filter` does not index out of range, and it passes a node exactly if the node has the label of
  -- every constraint and the pod there stays within every constraint's skew over the natural numbers.
  pub run_filter-Decides :
      (pod : Pod) (constraints : List (Constraint S)) (all_nodes : List (NodeInfo S))
      (info : NodeInfo S)
      → All IsValid constraints
      → All FitsInt (state_of pl pod constraints all_nodes).tp_value_to_match_num
      → Decides (run_filter pl (holds (state_of pl pod constraints all_nodes)) pod info) (
          fits_all pod.labels info.node constraints
            (state_of pl pod constraints all_nodes).tp_value_to_match_num)
  unfolding run_filter state_of
  run_filter-Decides pod constraints all_nodes info valid fits =
      filter_each-Decides pod.labels info.node constraints _ _
        (state_of-IsCountMap pod constraints all_nodes).1
        (update_all-AreLeast _ (state_of-IsCountMap pod constraints all_nodes).0) valid fits
