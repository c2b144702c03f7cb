-- ===== src/Merge/Selectors.antt =====
-- `mergeNodeSelectors` of pkg/merge/merger.go against the meaning of node selectors.
use mathlib.Core.List.{append-nil}
use cozystack_scheduler.Prelude.{
  ◌≡◌, refl, sym, Bool, true, false, not, ◌&&◌, ◌||◌, Option, none, some, List, [], ◌∷◌, ◌++◌,
  arith, all, any, All, is_empty, all-append, any-append,
}
use cozystack_scheduler.Api.{Requirement, NodeSelectorTerm, NodeSelector, Node}
use cozystack_scheduler.Merge.{cross_term, cross_terms, merge_node_selectors}

-- k8s.io/component-helpers: how requirements, terms and selectors match nodes.
pub record NodeMatcher : Type 0 where
  pub expression_matches : Requirement → Node → Bool
  pub field_matches : Requirement → Node → Bool
  pub selector_matches : NodeSelector → Node → Bool

-- A term with no requirement at all.
abbrev pub is_blank : NodeSelectorTerm → Bool
is_blank t = is_empty t.match_expressions && is_empty t.match_fields

module _ (m : NodeMatcher) (n : Node) where
  abbrev pub requirements_match : NodeSelectorTerm → Bool
  requirements_match t =
      all (λ r. m.expression_matches r n) t.match_expressions
      && all (λ r. m.field_matches r n) t.match_fields

  -- The documented meaning of a term: its requirements are ANDed, and a blank one matches nothing.
  abbrev pub term_matches : NodeSelectorTerm → Bool
  term_matches t = not (is_blank t) && requirements_match t

  -- The documented meaning of a selector: its terms are ORed.
  abbrev pub MatchesByTerms : NodeSelector → Type 0
  MatchesByTerms s = m.selector_matches s n ≡ any term_matches s.node_selector_terms

  -- No selector restricts nothing.
  abbrev pub optional_matches : Option NodeSelector → Bool
  optional_matches none = true
  optional_matches (some s) = m.selector_matches s n

abbrev pub HasNoBlankTerm : Option NodeSelector → Type 0
HasNoBlankTerm none = Unit
HasNoBlankTerm (some s) = All (λ t. is_blank t ≡ false) s.node_selector_terms

and_false : (b : Bool) → false ≡ (b && false)
and_false b = ground arith

and_true : (b : Bool) → (b && true) ≡ b
and_true b = ground arith

and_distrib : (a b c : Bool) → (a && b || a && c) ≡ (a && (b || c))
and_distrib a b c = ground arith

and_distrib_right : (a b c : Bool) → (a && c || b && c) ≡ ((a || b) && c)
and_distrib_right a b c = ground arith

is_empty-append {ℓ} :
    {A : Type ℓ} (xs ys : List A) → is_empty (xs ++ ys) ≡ (is_empty xs && is_empty ys)
is_empty-append [] ys = refl
is_empty-append (x ∷ xs) ys = refl

abbrev pub single : NodeSelectorTerm → NodeSelector
single t = record { node_selector_terms = t ∷ [] }

abbrev both : NodeSelectorTerm → NodeSelectorTerm → NodeSelectorTerm
both s t = record {
  match_expressions = s.match_expressions ++ t.match_expressions;
  match_fields = s.match_fields ++ t.match_fields;
}

is_blank-both : (s t : NodeSelectorTerm) → is_blank (both s t) ≡ (is_blank s && is_blank t)
is_blank-both s t = ground (
  arith,
  is_empty-append s.match_expressions t.match_expressions,
  is_empty-append s.match_fields t.match_fields,
)

module _ (m : NodeMatcher) (n : Node) where
  requirements_match-both :
      (s t : NodeSelectorTerm)
      → requirements_match m n (both s t) ≡ (requirements_match m n s && requirements_match m n t)
  requirements_match-both s t = ground (
    arith,
    all-append (λ r. m.expression_matches r n) s.match_expressions t.match_expressions,
    all-append (λ r. m.field_matches r n) s.match_fields t.match_fields,
  )

  term_matches-both :
      (s t : NodeSelectorTerm)
      → is_blank s ≡ false
      → is_blank t ≡ false
      → term_matches m n (both s t) ≡ (term_matches m n s && term_matches m n t)
  term_matches-both s t hs ht = rw (is_blank-both s t, requirements_match-both s t, hs, ht)

  any-cross_term :
      (s : NodeSelectorTerm) (ts : List NodeSelectorTerm)
      → is_blank s ≡ false
      → All (λ t. is_blank t ≡ false) ts
      → any (term_matches m n) (cross_term s ts) ≡ (term_matches m n s && any (term_matches m n) ts)
  unfolding cross_term
  any-cross_term s [] h hs = and_false (term_matches m n s)
  any-cross_term s (t ∷ ts) h hs =
      rw (term_matches-both s t h hs.0, any-cross_term s ts h hs.1)
        (and_distrib (term_matches m n s) (term_matches m n t) (any (term_matches m n) ts))

  any-cross_terms :
      (ss ts : List NodeSelectorTerm)
      → All (λ t. is_blank t ≡ false) ss
      → All (λ t. is_blank t ≡ false) ts
      → any (term_matches m n) (cross_terms ss ts)
        ≡ (any (term_matches m n) ss && any (term_matches m n) ts)
  unfolding cross_terms
  any-cross_terms [] ts hs ht = refl
  any-cross_terms (s ∷ ss) ts hs ht =
      rw
        (
          any-append (term_matches m n) (cross_term s ts) (cross_terms ss ts),
          any-cross_term s ts hs.0 ht,
          any-cross_terms ss ts hs.1 ht,
        )
        (and_distrib_right (term_matches m n s) (any (term_matches m n) ss)
          (any (term_matches m n) ts))

  -- Merged node selectors match a node exactly if both do, where selectors mean what Kubernetes
  -- documents and no term of either is blank. An absent selector matches every node.
  pub merge_node_selectors-and :
      (a b : Option NodeSelector)
      → ((s : NodeSelector) → MatchesByTerms m n s)
      → HasNoBlankTerm a
      → HasNoBlankTerm b
      → optional_matches m n (merge_node_selectors a b)
        ≡ (optional_matches m n a && optional_matches m n b)
  unfolding merge_node_selectors
  merge_node_selectors-and none b meaning ha hb = refl
  merge_node_selectors-and (some a) none meaning ha hb = sym (and_true (m.selector_matches a n))
  merge_node_selectors-and (some a) (some b) meaning ha hb =
      rw (meaning a, meaning b, meaning)
        (any-cross_terms a.node_selector_terms b.node_selector_terms ha hb)

  cross_term-blank :
      (s : NodeSelectorTerm) (ts : List NodeSelectorTerm)
      → is_blank s ≡ true
      → any (term_matches m n) (cross_term s ts) ≡ any (term_matches m n) ts
  unfolding cross_term
  cross_term-blank s [] h = refl
  cross_term-blank s (t ∷ ts) h =
      rw (is_blank-both s t, requirements_match-both s t, cross_term-blank s ts h) (ground arith)

  -- A selector with one blank term matches no node, and merged with any other selector it matches
  -- whatever the other one does: the merge loses the constraint.
  pub merge_node_selectors-blank :
      (t : NodeSelectorTerm) (b : NodeSelector)
      → ((s : NodeSelector) → MatchesByTerms m n s)
      → is_blank t ≡ true
      → (m.selector_matches (single t) n ≡ false)
        × (optional_matches m n (merge_node_selectors (some (single t)) (some b))
            ≡ m.selector_matches b n)
  unfolding merge_node_selectors cross_terms
  merge_node_selectors-blank t b meaning blank = (
    rw meaning (rw blank refl),
    rw (meaning b, meaning)
        (rw (append-nil (cross_term t b.node_selector_terms))
          (cross_term-blank t b.node_selector_terms blank)),
  )
