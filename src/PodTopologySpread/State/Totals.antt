-- ===== src/PodTopologySpread/State/Totals.antt =====
-- The numbers of `calPreFilterState` (pkg/podtopologyspread/filtering.go) as sums over the nodes.
use cozystack_scheduler.Prelude.{
  ℕ, suc, ◌+◌, ◌%◌, ◌≡◌, refl, sym, ap, ◌∙◌, inl, inr, String, Bool, true, false, not, ◌||◌, List,
  [], ◌∷◌, map, arith, ◌==◌, string_eq, if◌then◌else◌, Bool-cases, sum_over,
}
use mathlib.Core.Path.{subst}
use cozystack_scheduler.GoMap.{GoMap, lookup, lookup_or}
use cozystack_scheduler.GoMap.Laws.{lookup-insert}
use cozystack_scheduler.Words.{word, add64}
use cozystack_scheduler.Api.{Pod}
use cozystack_scheduler.Framework.{NodeInfo}
use cozystack_scheduler.PodTopologySpread.{
  Constraint, PodTopologySpread, node_labels_match_spread_constraints, count_pods_match_selector,
}
use cozystack_scheduler.PodTopologySpread.State.Selected.{counted_pods, count_pods-counted}
use cozystack_scheduler.PodTopologySpread.State.{
  bump, skips_constraint, skips_node, tp_counts, process_node, add_counts, add_nodes, state_of,
}

pub lookup-bump :
    (v w : String) (d : ℕ) (m : GoMap String ℕ)
    → lookup_or 0 v (bump w d m) ≡ (if w == v then add64 (lookup_or 0 v m) d else lookup_or 0 v m)
lookup-bump v w d m = elim (Bool-cases (w == v)) [
  | inl e ↦
      let same : w ≡ v = (string_eq.beq_iff w v).0 e in
      rw (lookup_or, lookup-insert w v (add64 (lookup_or 0 w m) d) m, e, same) refl
  | inr e ↦ rw (lookup_or, lookup-insert w v (add64 (lookup_or 0 w m) d) m, e) refl
]

add_lem :
    (b : Bool) (a k d n x : ℕ)
    → a ≡ k % word
    → d % word ≡ n % word
    → x ≡ (if b then n else 0)
    → (if b then add64 a d else a) ≡ (k + x) % word
add_lem true a k d n x e g f = omega (arith, e, g, f)
add_lem false a k d n x e g f = omega (arith, e, g, f)

module _ {S R Object Raw : Type 0} (pl : PodTopologySpread S R Object Raw) (pod : Pod) where
  -- The map of a constraint after one node.
  abbrev pub counted_node : NodeInfo S → Constraint S → GoMap String ℕ → GoMap String ℕ
  counted_node n c m =
      if skips_constraint pl pod n.node c
      then m
      else bump (lookup_or "" c.topology_key n.node.labels)
          (count_pods_match_selector pl.selectors n.pods c.selector pod.namespace) m

  tp_counts-later :
      (n : NodeInfo S) (i : ℕ) (cs : List (Constraint S)) (m : GoMap String ℕ)
      (ms : List (GoMap String ℕ))
      → add_counts (tp_counts pl pod n (suc i) cs) (m ∷ ms)
        ≡ m ∷ add_counts (tp_counts pl pod n i cs) ms
  tp_counts-later n i [] m ms = refl
  tp_counts-later n i (c ∷ cs) m ms = elim (Bool-cases (skips_constraint pl pod n.node c)) [
    | inl e ↦ rw (tp_counts, e) (tp_counts-later n (suc i) cs m ms)
    | inr e ↦ rw (tp_counts, e) (tp_counts-later n (suc i) cs m _)
  ]

  pub tp_counts-each :
      (n : NodeInfo S) (c : Constraint S) (cs : List (Constraint S)) (m : GoMap String ℕ)
      (ms : List (GoMap String ℕ))
      → add_counts (tp_counts pl pod n 0 (c ∷ cs)) (m ∷ ms)
        ≡ counted_node n c m ∷ add_counts (tp_counts pl pod n 0 cs) ms
  tp_counts-each n c cs m ms = elim (Bool-cases (skips_constraint pl pod n.node c)) [
    | inl e ↦ rw (tp_counts, e) (tp_counts-later n 0 cs m ms)
    | inr e ↦ rw (tp_counts, e) (tp_counts-later n 0 cs _ ms)
  ]

  -- The maps hold, for each constraint and each value, the given number as an int64.
  abbrev pub Counts :
      (Constraint S → String → ℕ) → List (Constraint S) → List (GoMap String ℕ) → Type 0
  Counts f [] ms = Unit
  Counts f (c ∷ cs) [] = ⊥
  Counts f (c ∷ cs) (m ∷ ms) = ((v : String) → lookup_or 0 v m ≡ f c v % word) × Counts f cs ms

  module _ (constraints : List (Constraint S)) where
    -- No constraint counts the node's pods.
    abbrev pub left_out : NodeInfo S → Bool
    left_out n =
        skips_node pl pod n.node
        || not (node_labels_match_spread_constraints n.node.labels constraints)

    -- The pods of a node that count for a constraint in the domain of a value: those of the pod's
    -- namespace that are not terminating and have what its selector asks for (none if that is
    -- empty), on a node of that value that has all the labels and that no policy excludes.
    abbrev pub matching : Constraint S → String → NodeInfo S → ℕ
    matching c v n =
        if left_out n
        then 0
        else if skips_constraint pl pod n.node c
        then 0
        else if lookup_or "" c.topology_key n.node.labels == v
        then counted_pods pl.selectors n.pods c.selector pod.namespace
        else 0

    counted_node-adds :
        (n : NodeInfo S) (c : Constraint S) (m : GoMap String ℕ) (v : String) (k : ℕ)
        → left_out n ≡ false
        → lookup_or 0 v m ≡ k % word
        → lookup_or 0 v (counted_node n c m) ≡ (k + matching c v n) % word
    counted_node-adds n c m v k h e = elim (Bool-cases (skips_constraint pl pod n.node c)) [
      | inl s ↦
          let nothing : matching c v n ≡ 0 = rw (matching, h, s) refl in
          let same : counted_node n c m ≡ m = rw (counted_node, s) refl in
          ap (lookup_or 0 v) same ∙ omega (arith, e, nothing)
      | inr s ↦
          let value = lookup_or "" c.topology_key n.node.labels in
          let count = count_pods_match_selector pl.selectors n.pods c.selector pod.namespace in
          let counted = counted_pods pl.selectors n.pods c.selector pod.namespace in
          let some_of : matching c v n ≡ (if value == v then counted else 0) =
            rw (matching, h, s) refl in
          let one : counted_node n c m ≡ bump value count m = rw (counted_node, s) refl in
          ap (lookup_or 0 v) one
          ∙ lookup-bump v value count m
          ∙ add_lem (value == v) (lookup_or 0 v m) k count counted (matching c v n) e
              (count_pods-counted pl.selectors n.pods c.selector pod.namespace) some_of
    ]

    add_counts-Counts :
        (f : Constraint S → String → ℕ) (n : NodeInfo S) (cs : List (Constraint S))
        (ms : List (GoMap String ℕ))
        → left_out n ≡ false
        → Counts f cs ms
        → Counts (λ c v. f c v + matching c v n) cs (add_counts (tp_counts pl pod n 0 cs) ms)
    add_counts-Counts f n [] ms h a = tt
    add_counts-Counts f n (c ∷ cs) [] h a = elim a [ ]
    add_counts-Counts f n (c ∷ cs) (m ∷ ms) h a =
        rw (tp_counts-each n c cs m ms)
          ((λ v. counted_node-adds n c m v (f c v) h (a.0 v)), add_counts-Counts f n cs ms h a.1)

    pub Counts-congr :
        (f g : Constraint S → String → ℕ) (cs : List (Constraint S)) (ms : List (GoMap String ℕ))
        → ((c : Constraint S) → (v : String) → f c v ≡ g c v)
        → Counts f cs ms
        → Counts g cs ms
    Counts-congr f g [] ms h a = tt
    Counts-congr f g (c ∷ cs) [] h a = elim a [ ]
    Counts-congr f g (c ∷ cs) (m ∷ ms) h a =
        ((λ v. a.0 v ∙ ap (λ x. x % word) (h c v)), Counts-congr f g cs ms h a.1)

    process_node-Counts :
        (f : Constraint S → String → ℕ) (n : NodeInfo S) (ms : List (GoMap String ℕ))
        → Counts f constraints ms
        → Counts
            (λ c v. f c v + matching c v n)
            constraints
            (add_counts (process_node pl pod constraints n) ms)
    process_node-Counts f n ms a = elim (Bool-cases (left_out n)) [
      | inl h ↦ rw (process_node, h) (Counts-congr f _ constraints ms (λ c v. omega arith) a)
      | inr h ↦
          let all_of : process_node pl pod constraints n ≡ tp_counts pl pod n 0 constraints =
            rw (process_node, h) refl in
          subst (λ ts. Counts (λ c v. f c v + matching c v n) constraints (add_counts ts ms))
            (sym all_of) (add_counts-Counts f n constraints ms h a)
    ]

    add_nodes-Counts :
        (nodes : List (NodeInfo S)) (f : Constraint S → String → ℕ) (ms : List (GoMap String ℕ))
        → Counts f constraints ms
        → Counts
            (λ c v. f c v + sum_over (matching c v) nodes)
            constraints
            (add_nodes pl pod constraints nodes ms)
    add_nodes-Counts [] f ms a = Counts-congr f _ constraints ms (λ c v. omega arith) a
    add_nodes-Counts (n ∷ nodes) f ms a =
        Counts-congr (λ c v. (f c v + matching c v n) + sum_over (matching c v) nodes) _ constraints
          _ (λ c v. omega arith)
          (add_nodes-Counts nodes (λ c v. f c v + matching c v n) _ (process_node-Counts f n ms a))

    start-Counts : (cs : List (Constraint S)) → Counts (λ c v. 0) cs (map (λ c. []) cs)
    unfolding lookup
    start-Counts [] = tt
    start-Counts (c ∷ cs) = ((λ v. omega arith), start-Counts cs)

    -- For each constraint and each value, the state holds, as an int64, the number of the pods that
    -- count: over the nodes of that value that have the label of each constraint and that no policy
    -- excludes, the pods of the pod's namespace that are not terminating and that the selector
    -- matches, and none where the selector is empty.
    pub state_of-Counts :
        (nodes : List (NodeInfo S))
        → Counts
            (λ c v. sum_over (matching c v) nodes)
            constraints
            (state_of pl pod constraints nodes).tp_value_to_match_num
    unfolding state_of
    state_of-Counts nodes =
        Counts-congr (λ c v. 0 + sum_over (matching c v) nodes) _ constraints _ (λ c v. omega arith)
          (add_nodes-Counts nodes (λ c v. 0) _ (start-Counts constraints))
