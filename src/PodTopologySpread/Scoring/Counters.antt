-- ===== src/PodTopologySpread/Scoring/Counters.antt =====
-- The counters that `PreScore` (pkg/podtopologyspread/scoring.go) seeds for the filtered nodes.
use cozystack_scheduler.Prelude.{
  ℕ, zero, suc, ◌≡◌, refl, ap, ◌∙◌, inl, inr, String, Bool, true, false, ◌&&◌, ◌||◌, none, some,
  List, [], ◌∷◌, map, ◌==◌, string_eq, if◌then◌else◌, Option-cases, arith, All,
}
use cozystack_scheduler.GoMap.{GoMap, lookup, insert, lookup_or}
use cozystack_scheduler.GoSet.{has, insert_name}
use cozystack_scheduler.Float64.{Float64}
use cozystack_scheduler.Api.{Node}
use cozystack_scheduler.Framework.{NodeInfo}
use cozystack_scheduler.PodTopologySpread.{Constraint}
use cozystack_scheduler.PodTopologySpread.State.{TopologyCount}
use cozystack_scheduler.PodTopologySpread.Scoring.{
  is_hostname, seed, seed_each, lacks_key, seed_nodes, weights, counters, atomic_add, atomic_add_at,
  atomic_adds,
}

abbrev pub has_key : String → GoMap String ℕ → Bool
has_key v m = elim (lookup v m) [ none ↦ false | some n ↦ true ]

-- A list with an entry for each one of another.
abbrev pub enough {ℓ κ} : {A : Type ℓ} {B : Type κ} → List A → List B → Bool
enough [] ys = true
enough (x ∷ xs) [] = false
enough (x ∷ xs) (y ∷ ys) = enough xs ys

abbrev pub node_value : {S : Type 0} → Node → Constraint S → String
node_value node c = lookup_or "" c.topology_key node.labels

-- A counter for each constraint that reads one on the node.
abbrev pub covered : {S : Type 0} → Node → List (Constraint S) → List (GoMap String ℕ) → Bool
covered node [] ms = true
covered node (c ∷ cs) [] = false
covered node (c ∷ cs) (m ∷ ms) =
    (is_hostname c || has_key (node_value node c) m) && covered node cs ms

has_key-insert :
    (v w : String) (n : ℕ) (m : GoMap String ℕ) → has_key v (insert w n m) ≡ (w == v || has_key v m)
unfolding lookup insert
has_key-insert v w n [] = ground arith
has_key-insert v w n ((k, i) ∷ m) = ground (
  arith,
  has_key-insert v w n m,
  string_eq.beq_iff k w,
  string_eq.beq_iff w v,
  string_eq.beq_iff k v,
)

has_key-atomic_add :
    (v w : String) (n : ℕ) (m : GoMap String ℕ) → has_key v (atomic_add w n m) ≡ has_key v m
unfolding lookup
has_key-atomic_add v w n [] = refl
has_key-atomic_add v w n ((k, i) ∷ m) = ground (arith, has_key-atomic_add v w n m)

module _ {S : Type 0} where
  covered-atomic_add_at :
      (node : Node) (t : TopologyCount) (id : ℕ) (cs : List (Constraint S))
      (ms : List (GoMap String ℕ))
      → covered node cs (atomic_add_at t id ms) ≡ covered node cs ms
  covered-atomic_add_at node t id [] ms = refl
  covered-atomic_add_at node t id (c ∷ cs) [] = refl
  covered-atomic_add_at node t zero (c ∷ cs) (m ∷ ms) =
      rw (has_key-atomic_add (node_value node c) t.topology_value t.count m) refl
  covered-atomic_add_at node t (suc id) (c ∷ cs) (m ∷ ms) =
      ap (λ b. (is_hostname c || has_key (node_value node c) m) && b)
        (covered-atomic_add_at node t id cs ms)

  pub covered-atomic_adds :
      (node : Node) (ts : List TopologyCount) (cs : List (Constraint S))
      (ms : List (GoMap String ℕ))
      → covered node cs (atomic_adds ts ms) ≡ covered node cs ms
  unfolding atomic_adds
  covered-atomic_adds node [] cs ms = refl
  covered-atomic_adds node (t ∷ ts) cs ms =
      covered-atomic_adds node ts cs _ ∙ covered-atomic_add_at node t t.constraint_id cs ms

seed-has_key :
    (v w : String) (s : GoMap String ℕ × ℕ)
    → has_key v (counters (seed w s)) ≡ (w == v || has_key v (counters s))
seed-has_key v w (m, size) = elim (Option-cases (lookup w m)) [
  | inl e ↦ rw (counters, e) (has_key-insert v w 0 m)
  | inr (n, e) ↦ ground (arith, string_eq.beq_iff w v)
]

module _ {S : Type 0} where
  -- What the seeding of one node does to the counters of another.
  covered-seed_each :
      (node other : Node) (cs : List (Constraint S)) (ss : List (GoMap String ℕ × ℕ))
      → covered node cs (map counters ss) ≡ true
      → covered node cs (map counters (seed_each other cs ss)) ≡ true
  covered-seed_each node other [] ss h = refl
  covered-seed_each node other (c ∷ cs) [] h = cc
  covered-seed_each node other (c ∷ cs) (s ∷ ss) h = ground (
    arith,
    covered-seed_each node other cs ss,
    seed-has_key (node_value node c) (node_value other c) s,
  )

  seed_each-covered :
      (node : Node) (cs : List (Constraint S)) (ss : List (GoMap String ℕ × ℕ))
      → enough cs ss ≡ true
      → covered node cs (map counters (seed_each node cs ss)) ≡ true
  seed_each-covered node [] ss h = refl
  seed_each-covered node (c ∷ cs) [] h = cc
  seed_each-covered node (c ∷ cs) (s ∷ ss) h = ground (
    arith,
    seed_each-covered node cs ss h,
    seed-has_key (node_value node c) (node_value node c) s,
    string_eq.beq_iff (node_value node c) (node_value node c),
  )

  enough-seed_each :
      (node : Node) (cs ds : List (Constraint S)) (ss : List (GoMap String ℕ × ℕ))
      → enough ds (seed_each node cs ss) ≡ enough ds ss
  enough-seed_each node cs [] ss = refl
  enough-seed_each node [] (d ∷ ds) ss = refl
  enough-seed_each node (c ∷ cs) (d ∷ ds) [] = refl
  enough-seed_each node (c ∷ cs) (d ∷ ds) (s ∷ ss) = ground (arith, enough-seed_each node cs ds ss)

  pub enough-map :
      (cs : List (Constraint S)) → enough cs (map {B = GoMap String ℕ × ℕ} (λ c. ([], 0)) cs) ≡ true
  enough-map [] = refl
  enough-map (c ∷ cs) = enough-map cs

  pub enough-weights :
      (log : Float64 → Float64) (hosts : ℕ) (cs : List (Constraint S))
      (ss : List (GoMap String ℕ × ℕ))
      → enough cs ss ≡ true
      → enough cs (weights log hosts cs ss) ≡ true
  enough-weights log hosts [] ss h = refl
  enough-weights log hosts (c ∷ cs) [] h = cc
  enough-weights log hosts (c ∷ cs) (s ∷ ss) h = enough-weights log hosts cs ss h

  -- The node is ignored, or has its counters.
  abbrev pub settled :
      List (Constraint S) → List String × List (GoMap String ℕ × ℕ) → NodeInfo S → Bool
  settled cs (ignored, ss) n = has ignored n.node.name || covered n.node cs (map counters ss)

  module _ (require_all : Bool) (cs : List (Constraint S)) where
    abbrev step :
        NodeInfo S
        → List String × List (GoMap String ℕ × ℕ)
        → List String × List (GoMap String ℕ × ℕ)
    step n (ignored, seeds) =
        if lacks_key require_all n.node cs
        then (insert_name ignored n.node.name, seeds)
        else (ignored, seed_each n.node cs seeds)

    settled-step :
        (n other : NodeInfo S) (st : List String × List (GoMap String ℕ × ℕ))
        → settled cs st n ≡ true
        → settled cs (step other st) n ≡ true
    settled-step n other (ignored, ss) h = ground (arith, covered-seed_each n.node other.node cs ss)

    step-settled :
        (n : NodeInfo S) (st : List String × List (GoMap String ℕ × ℕ))
        → enough cs st.1 ≡ true
        → settled cs (step n st) n ≡ true
    step-settled n (ignored, ss) h =
        ground (arith, seed_each-covered n.node cs ss h, string_eq.beq_iff n.node.name n.node.name)

    enough-step :
        (n : NodeInfo S) (st : List String × List (GoMap String ℕ × ℕ))
        → enough cs st.1 ≡ true
        → enough cs (step n st).1 ≡ true
    enough-step n (ignored, ss) h = ground (arith, enough-seed_each n.node cs cs ss)

    settled-seed_nodes :
        (n : NodeInfo S) (nodes : List (NodeInfo S)) (st : List String × List (GoMap String ℕ × ℕ))
        → settled cs st n ≡ true
        → settled cs (seed_nodes require_all cs nodes st) n ≡ true
    unfolding seed_nodes
    settled-seed_nodes n [] st h = h
    settled-seed_nodes n (m ∷ nodes) st h =
        settled-seed_nodes n nodes (step m st) (settled-step n m st h)

    pub enough-seed_nodes :
        (nodes : List (NodeInfo S)) (st : List String × List (GoMap String ℕ × ℕ))
        → enough cs st.1 ≡ true
        → enough cs (seed_nodes require_all cs nodes st).1 ≡ true
    unfolding seed_nodes
    enough-seed_nodes [] st h = h
    enough-seed_nodes (m ∷ nodes) st h = enough-seed_nodes nodes (step m st) (enough-step m st h)

    pub seed_nodes-settled :
        (nodes : List (NodeInfo S)) (st : List String × List (GoMap String ℕ × ℕ))
        → enough cs st.1 ≡ true
        → All (λ n. settled cs (seed_nodes require_all cs nodes st) n ≡ true) nodes
    unfolding seed_nodes
    seed_nodes-settled [] st h = tt
    seed_nodes-settled (n ∷ nodes) st h = (
      settled-seed_nodes n nodes (step n st) (step-settled n st h),
      seed_nodes-settled nodes (step n st) (enough-step n st h),
    )
