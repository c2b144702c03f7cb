-- ===== src/Merge/Filling.antt =====
-- What filling the nil label selectors of a class means (pkg/merge/merger.go): a selector that is set
-- stays, and the default takes the place of nil.
use cozystack_scheduler.Prelude.{
  ◌≡◌, refl, inl, inr, Option, none, some, List, [], ◌∷◌, map, Option-cases,
}
use cozystack_scheduler.Api.{
  LabelSelector, TopologySpreadConstraint, PodAffinityTerm, WeightedPodAffinityTerm,
}
use cozystack_scheduler.Merge.{
  or_default, default_constraint_selectors, default_affinity_term_selectors,
  default_weighted_affinity_term_selectors,
}

module _ (default : Option LabelSelector) where
  abbrev pub filled_constraint : TopologySpreadConstraint → TopologySpreadConstraint
  filled_constraint c = elim c.label_selector [
    | none ↦ record c { label_selector = default }
    | some s ↦ c
  ]

  abbrev pub filled_term : PodAffinityTerm → PodAffinityTerm
  filled_term t = elim t.label_selector [
    | none ↦ record t { label_selector = default }
    | some s ↦ t
  ]

  abbrev pub filled_weighted : WeightedPodAffinityTerm → WeightedPodAffinityTerm
  filled_weighted w = record w { pod_affinity_term = filled_term w.pod_affinity_term }

  filled_constraint_lem :
      (c : TopologySpreadConstraint)
      → record c { label_selector = or_default c.label_selector default } ≡ filled_constraint c
  unfolding or_default
  filled_constraint_lem c = elim (Option-cases c.label_selector) [
    | inl e ↦ rw e refl
    | inr (s, e) ↦ rw e refl
  ]

  filled_term_lem :
      (t : PodAffinityTerm)
      → record t { label_selector = or_default t.label_selector default } ≡ filled_term t
  unfolding or_default
  filled_term_lem t = elim (Option-cases t.label_selector) [
    | inl e ↦ rw e refl
    | inr (s, e) ↦ rw e refl
  ]

  pub default_constraint_selectors-map :
      (cs : List TopologySpreadConstraint)
      → default_constraint_selectors cs default ≡ map filled_constraint cs
  unfolding default_constraint_selectors
  default_constraint_selectors-map [] = refl
  default_constraint_selectors-map (c ∷ cs) =
      rw (filled_constraint_lem c, default_constraint_selectors-map cs) refl

  pub default_affinity_term_selectors-map :
      (ts : List PodAffinityTerm) → default_affinity_term_selectors ts default ≡ map filled_term ts
  unfolding default_affinity_term_selectors
  default_affinity_term_selectors-map [] = refl
  default_affinity_term_selectors-map (t ∷ ts) =
      rw (filled_term_lem t, default_affinity_term_selectors-map ts) refl

  pub default_weighted_affinity_term_selectors-map :
      (ws : List WeightedPodAffinityTerm)
      → default_weighted_affinity_term_selectors ws default ≡ map filled_weighted ws
  unfolding default_weighted_affinity_term_selectors
  default_weighted_affinity_term_selectors-map [] = refl
  default_weighted_affinity_term_selectors-map (w ∷ ws) =
      rw (filled_term_lem w.pod_affinity_term, default_weighted_affinity_term_selectors-map ws) refl
