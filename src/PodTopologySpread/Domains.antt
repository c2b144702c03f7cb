-- ===== src/PodTopologySpread/Domains.antt =====
-- The topology domains of a constraint over the nodes, and the keys of the maps of
-- `calPreFilterState` (pkg/podtopologyspread/filtering.go).
use cozystack_scheduler.Prelude.{
  ℕ, ◌≡◌, refl, sym, ap, ◌∙◌, inl, inr, String, Bool, false, not, ◌&&◌, List, [], ◌∷◌, map, ◌==◌,
  string_eq, if◌then◌else◌, Bool-cases,
}
use mathlib.Core.Path.{subst}
use cozystack_scheduler.GoMap.{GoMap, insert, lookup_or}
use cozystack_scheduler.Api.{Pod}
use cozystack_scheduler.Framework.{NodeInfo}
use cozystack_scheduler.PodTopologySpread.{Constraint, PodTopologySpread}
use cozystack_scheduler.PodTopologySpread.State.{
  skips_constraint, tp_counts, process_node, add_counts, add_nodes, state_of,
}
use cozystack_scheduler.PodTopologySpread.State.Totals.{left_out, counted_node, tp_counts-each}

-- A value at the end of a list, unless the list has it.
abbrev pub add_domain : String → List String → List String
add_domain v [] = v ∷ []
add_domain v (d ∷ ds) = if d == v then d ∷ ds else d ∷ add_domain v ds

abbrev pub keys : GoMap String ℕ → List String
keys m = map (λ e. e.0) m

pub keys-insert :
    (v : String) (n : ℕ) (m : GoMap String ℕ) → keys (insert v n m) ≡ add_domain v (keys m)
unfolding insert
keys-insert v n [] = refl
keys-insert v n ((w, k) ∷ m) = elim (Bool-cases (w == v)) [
  | inl e ↦ rw (insert, e) (ap (λ x. x ∷ keys m) (sym ((string_eq.beq_iff w v).0 e)))
  | inr e ↦ rw (insert, e) (ap (λ ds. w ∷ ds) (keys-insert v n m))
]

module _ {S R Object Raw : Type 0} (pl : PodTopologySpread S R Object Raw) (pod : Pod) where
  -- The keys of each map.
  abbrev pub HasKeys :
      (Constraint S → List String) → List (Constraint S) → List (GoMap String ℕ) → Type 0
  HasKeys f [] ms = Unit
  HasKeys f (c ∷ cs) [] = ⊥
  HasKeys f (c ∷ cs) (m ∷ ms) = (keys m ≡ f c) × HasKeys f cs ms

  module _ (constraints : List (Constraint S)) where
    -- A node counts for a constraint: it has the label of each, and no policy excludes it.
    abbrev pub counts_for : Constraint S → NodeInfo S → Bool
    counts_for c n = not (left_out pl pod constraints n) && not (skips_constraint pl pod n.node c)

    abbrev pub add_node_domain : Constraint S → NodeInfo S → List String → List String
    add_node_domain c n ds =
        if counts_for c n then add_domain (lookup_or "" c.topology_key n.node.labels) ds else ds

    -- The values of the nodes that count for a constraint, each once.
    abbrev pub domains : Constraint S → List (NodeInfo S) → List String → List String
    domains c [] ds = ds
    domains c (n ∷ ns) ds = domains c ns (add_node_domain c n ds)

    keys-counted_node :
        (n : NodeInfo S) (c : Constraint S) (m : GoMap String ℕ) (ds : List String)
        → left_out pl pod constraints n ≡ false
        → keys m ≡ ds
        → keys (counted_node pl pod n c m) ≡ add_node_domain c n ds
    keys-counted_node n c m ds h e = elim (Bool-cases (skips_constraint pl pod n.node c)) [
      | inl s ↦ rw (counted_node, add_node_domain, h, s) e
      | inr s ↦
          rw (counted_node, add_node_domain, h, s)
            (keys-insert _ _ m ∙ ap (add_domain (lookup_or "" c.topology_key n.node.labels)) e)
    ]

    add_counts-HasKeys :
        (f : Constraint S → List String) (n : NodeInfo S) (cs : List (Constraint S))
        (ms : List (GoMap String ℕ))
        → left_out pl pod constraints n ≡ false
        → HasKeys f cs ms
        → HasKeys (λ c. add_node_domain c n (f c)) cs (add_counts (tp_counts pl pod n 0 cs) ms)
    add_counts-HasKeys f n [] ms h a = tt
    add_counts-HasKeys f n (c ∷ cs) [] h a = elim a [ ]
    add_counts-HasKeys f n (c ∷ cs) (m ∷ ms) h a =
        rw (tp_counts-each pl pod n c cs m ms)
          (keys-counted_node n c m (f c) h a.0, add_counts-HasKeys f n cs ms h a.1)

    pub HasKeys-congr :
        (f g : Constraint S → List String) (cs : List (Constraint S)) (ms : List (GoMap String ℕ))
        → ((c : Constraint S) → f c ≡ g c)
        → HasKeys f cs ms
        → HasKeys g cs ms
    HasKeys-congr f g [] ms h a = tt
    HasKeys-congr f g (c ∷ cs) [] h a = elim a [ ]
    HasKeys-congr f g (c ∷ cs) (m ∷ ms) h a = (a.0 ∙ h c, HasKeys-congr f g cs ms h a.1)

    process_node-HasKeys :
        (f : Constraint S → List String) (n : NodeInfo S) (ms : List (GoMap String ℕ))
        → HasKeys f constraints ms
        → HasKeys
            (λ c. add_node_domain c n (f c))
            constraints
            (add_counts (process_node pl pod constraints n) ms)
    process_node-HasKeys f n ms a = elim (Bool-cases (left_out pl pod constraints n)) [
      | inl h ↦ rw (process_node, h) (HasKeys-congr f _ constraints ms (λ c. refl) a)
      | inr h ↦
          let all_of : process_node pl pod constraints n ≡ tp_counts pl pod n 0 constraints =
            rw (process_node, h) refl in
          subst (λ ts. HasKeys (λ c. add_node_domain c n (f c)) constraints (add_counts ts ms))
            (sym all_of) (add_counts-HasKeys f n constraints ms h a)
    ]

    add_nodes-HasKeys :
        (nodes : List (NodeInfo S)) (f : Constraint S → List String) (ms : List (GoMap String ℕ))
        → HasKeys f constraints ms
        → HasKeys (λ c. domains c nodes (f c)) constraints (add_nodes pl pod constraints nodes ms)
    add_nodes-HasKeys [] f ms a = a
    add_nodes-HasKeys (n ∷ nodes) f ms a =
        add_nodes-HasKeys nodes (λ c. add_node_domain c n (f c)) _ (process_node-HasKeys f n ms a)

    start-HasKeys : (cs : List (Constraint S)) → HasKeys (λ c. []) cs (map (λ c. []) cs)
    start-HasKeys [] = tt
    start-HasKeys (c ∷ cs) = (refl, start-HasKeys cs)

    -- The keys of each map of the state are the domains of its constraint.
    pub state_of-HasKeys :
        (nodes : List (NodeInfo S))
        → HasKeys
            (λ c. domains c nodes [])
            constraints
            (state_of pl pod constraints nodes).tp_value_to_match_num
    unfolding state_of
    state_of-HasKeys nodes = add_nodes-HasKeys nodes (λ c. []) _ (start-HasKeys constraints)
