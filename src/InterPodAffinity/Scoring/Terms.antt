-- ===== src/InterPodAffinity/Scoring/Terms.antt =====
-- What a term adds to a node's score in `processTerm` and its callers (pkg/interpodaffinity/scoring.go).
use cozystack_scheduler.Prelude.{
  ℕ, ◌≡◌, refl, sym, ◌∙◌, inl, inr, String, Bool, false, ◌&&◌, none, some, List, [], ◌∷◌, arith,
  ◌==◌, string_eq, if◌then◌else◌, Bool-cases, Option-cases, sum_over,
}
use mathlib.Core.Path.{subst}
use cozystack_scheduler.GoMap.{lookup}
use cozystack_scheduler.Words.{extend32, mul32}
use cozystack_scheduler.Api.{Labels, Pod, Node}
use cozystack_scheduler.Merge.Types.{AffinityTerm, WeightedAffinityTerm}
use cozystack_scheduler.InterPodAffinity.Scoring.{
  ScoreMap, process_term, process_terms, process_hard_terms,
}
use cozystack_scheduler.InterPodAffinity.Scoring.Totals.{
  found, found-none, found-some, Adds, Adds-nothing, Adds-both, insert-Adds,
}

-- The two nodes have the same value of the label.
abbrev same_topology : String → Node → Node → Bool
same_topology key a b = elim (lookup key a.labels) [
  | none ↦ false
  | some v ↦ elim (lookup key b.labels) [ none ↦ false | some u ↦ v == u ]
]

module _ {S : Type 0} (matches : AffinityTerm S → Pod → Labels → Bool) (n : Node) where
  -- What a term adds to the score of `n`, on account of a pod that it selects on another node.
  abbrev pub term_score : AffinityTerm S → ℕ → Pod → Labels → Node → ℕ → ℕ
  term_score t weight pod ns_labels node multiplier =
      if matches t pod ns_labels && same_topology t.topology_key node n
      then extend32 (mul32 weight multiplier)
      else 0

  found-single :
      (key v : String) (w : ℕ) (node : Node)
      → lookup key node.labels ≡ some v
      → found n key ((v, w) ∷ []) ≡ (if same_topology key node n then w else 0)
  unfolding lookup
  found-single key v w node e = elim (Option-cases (lookup key n.labels)) [
    | inl f ↦
        let same : same_topology key node n ≡ false = rw (same_topology, e, f) refl in
        rw same (found-none n key ((v, w) ∷ []) f)
    | inr (u, f) ↦
        let same : same_topology key node n ≡ (v == u) = rw (same_topology, e, f) refl in
        rw same (found-some n key u ((v, w) ∷ []) f ∙ ground arith)
  ]

  process_term-Adds :
      (t : AffinityTerm S) (weight : ℕ) (pod : Pod) (ns_labels : Labels) (node : Node) (mult : ℕ)
      (m : ScoreMap)
      → Adds n m
          (process_term matches t weight pod ns_labels node mult m)
          (term_score t weight pod ns_labels node mult)
  unfolding process_term
  process_term-Adds t weight pod ns_labels node mult m =
      elim (Bool-cases (matches t pod ns_labels)) [
        | inr e ↦
            let none_of : term_score t weight pod ns_labels node mult ≡ 0 =
              rw (term_score, e) refl in
            let same : Adds n m (process_term matches t weight pod ns_labels node mult m) 0 =
              rw (process_term, e) (Adds-nothing n m) in
            subst (Adds n m _) (sym none_of) same
        | inl e ↦ elim (Option-cases (lookup t.topology_key node.labels)) [
          | inl f ↦
              let none_of : term_score t weight pod ns_labels node mult ≡ 0 =
                rw (term_score, e, same_topology, f) refl in
              let same : Adds n m (process_term matches t weight pod ns_labels node mult m) 0 =
                rw (process_term, e, f) (Adds-nothing n m) in
              subst (Adds n m _) (sym none_of) same
          | inr (v, f) ↦
              let w = extend32 (mul32 weight mult) in
              let q : found n t.topology_key ((v, w) ∷ [])
                  ≡ term_score t weight pod ns_labels node mult =
                found-single t.topology_key v w node f ∙ rw (term_score, e) refl in
              let step : Adds n m (process_term matches t weight pod ns_labels node mult m)
                  (found n t.topology_key ((v, w) ∷ [])) =
                rw (process_term, e, f) (insert-Adds n t.topology_key v w m) in
              subst (Adds n m _) q step
        ]
      ]

  abbrev pub terms_score : List (WeightedAffinityTerm S) → Pod → Labels → Node → ℕ → ℕ
  terms_score terms pod ns_labels node mult =
      sum_over (λ t. term_score t.affinity_term t.weight pod ns_labels node mult) terms

  pub process_terms-Adds :
      (terms : List (WeightedAffinityTerm S)) (pod : Pod) (ns_labels : Labels) (node : Node)
      (mult : ℕ) (m : ScoreMap)
      → Adds n m
          (process_terms matches terms pod ns_labels node mult m)
          (terms_score terms pod ns_labels node mult)
  unfolding process_terms
  process_terms-Adds [] pod ns_labels node mult m = Adds-nothing n m
  process_terms-Adds (t ∷ terms) pod ns_labels node mult m =
      Adds-both n (process_term-Adds t.affinity_term t.weight pod ns_labels node mult m)
        (process_terms-Adds terms pod ns_labels node mult _)

  abbrev pub hard_score : List (AffinityTerm S) → ℕ → Pod → Labels → Node → ℕ
  hard_score terms weight pod ns_labels node =
      sum_over (λ t. term_score t weight pod ns_labels node 1) terms

  pub process_hard_terms-Adds :
      (terms : List (AffinityTerm S)) (weight : ℕ) (pod : Pod) (ns_labels : Labels) (node : Node)
      (m : ScoreMap)
      → Adds n m
          (process_hard_terms matches terms weight pod ns_labels node m)
          (hard_score terms weight pod ns_labels node)
  unfolding process_hard_terms
  process_hard_terms-Adds [] weight pod ns_labels node m = Adds-nothing n m
  process_hard_terms-Adds (t ∷ terms) weight pod ns_labels node m =
      Adds-both n (process_term-Adds t weight pod ns_labels node 1 m)
        (process_hard_terms-Adds terms weight pod ns_labels node _)

  pub term_score-bare :
      (t : AffinityTerm S) (weight : ℕ) (pod : Pod) (ns_labels : Labels) (node : Node) (mult : ℕ)
      → node.labels ≡ []
      → term_score t weight pod ns_labels node mult ≡ 0
  unfolding lookup
  term_score-bare t weight pod ns_labels node mult e =
      rw (term_score, same_topology, e) (ground arith)
