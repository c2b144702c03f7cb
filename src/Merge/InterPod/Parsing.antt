-- ===== src/Merge/InterPod/Parsing.antt =====
-- `MergeInterPodAffinity` of pkg/merge/merger.go, below the lookup of the class, against parsing the merged lists of terms.
use cozystack_scheduler.Prelude.{
  ◌≡◌, refl, ◌↔◌, sym, ◌∙◌, String, Option, none, some, List, [], ◌∷◌, ◌++◌, map, arith,
}
use cozystack_scheduler.Result.{
  wrap, Result, ok, ◌>>=◌, map_error, traverse, join_append, traverse-append,
}
use cozystack_scheduler.Api.{
  LabelSelector, PodAffinityTerm, WeightedPodAffinityTerm, PodAffinity, Pod,
}
use cozystack_scheduler.Merge.Types.{
  SchedulingClass, AffinityTerm, WeightedAffinityTerm, InterPodAffinityTerms, TermParser,
}
use cozystack_scheduler.Merge.{lineage_label_selector}
use cozystack_scheduler.Merge.Filling.{
  filled_term, filled_weighted, default_affinity_term_selectors-map,
  default_weighted_affinity_term_selectors-map,
}
use cozystack_scheduler.Merge.InterPod.{
  pod_affinity_of, pod_anti_affinity_of, to_weighted_affinity_terms, own_preferred, class_required,
  class_preferred, inter_pod_affinity_terms,
}

abbrev pub required_of : Option PodAffinity → List PodAffinityTerm
required_of none = []
required_of (some a) = a.required

abbrev pub preferred_of : Option PodAffinity → List WeightedPodAffinityTerm
preferred_of none = []
preferred_of (some a) = a.preferred

-- Eight groups of terms, each with the context of its error; the groups are appended in pairs.
abbrev Group : Type 0 → Type 0
Group S = Result (List (AffinityTerm S))

abbrev WeightedGroup : Type 0 → Type 0
WeightedGroup S = Result (List (WeightedAffinityTerm S))

module _ {S : Type 0} where
  gather :
      Group S
      → Group S
      → WeightedGroup S
      → WeightedGroup S
      → Group S
      → WeightedGroup S
      → Group S
      → WeightedGroup S
      → Result (InterPodAffinityTerms S)
  gather a b c d a' c' b' d' = do
    required ← map_error (wrap "parsing pod affinity terms") a
    anti_required ← map_error (wrap "parsing pod anti-affinity terms") b
    preferred ← map_error (wrap "parsing pod preferred affinity terms") c
    anti_preferred ← map_error (wrap "parsing pod preferred anti-affinity terms") d
    cr_required ← map_error (wrap "parsing CR affinity terms") a'
    cr_preferred ← map_error (wrap "parsing CR preferred affinity terms") c'
    cr_anti_required ← map_error (wrap "parsing CR anti-affinity terms") b'
    cr_anti_preferred ← map_error (wrap "parsing CR preferred anti-affinity terms") d'
    ok (record {
      required_affinity_terms = required ++ cr_required;
      required_anti_affinity_terms = anti_required ++ cr_anti_required;
      preferred_affinity_terms = preferred ++ cr_preferred;
      preferred_anti_affinity_terms = anti_preferred ++ cr_anti_preferred;
    })

  module _ (a b : Group S) (c d : WeightedGroup S) (a' : Group S) (c' : WeightedGroup S)
      (b' : Group S) (d' : WeightedGroup S) (r : InterPodAffinityTerms S) where
    abbrev AllJoin : Type 0
    AllJoin =
        (join_append a a' ≡ ok r.required_affinity_terms)
        × (join_append b b' ≡ ok r.required_anti_affinity_terms)
        × (join_append c c' ≡ ok r.preferred_affinity_terms)
        × (join_append d d' ≡ ok r.preferred_anti_affinity_terms)

    gather-AllJoin : gather a b c d a' c' b' d' ≡ ok r → AllJoin
    unfolding gather
    gather-AllJoin h = ground arith

    AllJoin-gather : AllJoin → gather a b c d a' c' b' d' ≡ ok r
    unfolding gather
    AllJoin-gather h = ground arith

module _ {S : Type 0} (fw : TermParser S)
    (parse_term : Pod → PodAffinityTerm → Result (AffinityTerm S))
    -- GetAffinityTerms parses each term in turn, and stops at the first error.
    (parses : (pod : Pod) (ts : List PodAffinityTerm)
      → fw.get_affinity_terms pod ts ≡ traverse (parse_term pod) ts) where
  abbrev parse_weighted : Pod → WeightedPodAffinityTerm → Result (WeightedAffinityTerm S)
  parse_weighted pod w = do
    t ← parse_term pod w.pod_affinity_term
    ok (record { affinity_term = t; weight = w.weight })

  -- Weighted terms keep their order and their weights.
  pub to_weighted_affinity_terms_lem :
      (pod : Pod) (ws : List WeightedPodAffinityTerm)
      → to_weighted_affinity_terms fw pod ws ≡ traverse (parse_weighted pod) ws
  unfolding to_weighted_affinity_terms
  to_weighted_affinity_terms_lem pod [] = refl
  to_weighted_affinity_terms_lem pod (w ∷ ws) =
      rw (parses pod (w.pod_affinity_term ∷ []), to_weighted_affinity_terms_lem pod ws)
        (ground arith)

  class_required_lem :
      (pod : Pod) (context : String) (default : Option LabelSelector) (a : Option PodAffinity)
      → class_required fw pod context default a
        ≡ map_error
            (wrap context)
            (traverse (parse_term pod) (map (filled_term default) (required_of a)))
  unfolding class_required
  class_required_lem pod context default none = refl
  class_required_lem pod context default (some a) =
      rw (parses, default_affinity_term_selectors-map) refl

  own_preferred_lem :
      (pod : Pod) (context : String) (a : Option PodAffinity)
      → own_preferred fw pod context a
        ≡ map_error (wrap context) (traverse (parse_weighted pod) (preferred_of a))
  unfolding own_preferred
  own_preferred_lem pod context none = refl
  own_preferred_lem pod context (some a) = rw to_weighted_affinity_terms_lem refl

  class_preferred_lem :
      (pod : Pod) (context : String) (default : Option LabelSelector) (a : Option PodAffinity)
      → class_preferred fw pod context default a
        ≡ map_error
            (wrap context)
            (traverse (parse_weighted pod) (map (filled_weighted default) (preferred_of a)))
  unfolding class_preferred
  class_preferred_lem pod context default none = refl
  class_preferred_lem pod context default (some a) =
      rw (to_weighted_affinity_terms_lem, default_weighted_affinity_term_selectors-map) refl

  -- The API terms of the pod and of its class, where the default takes the place of each nil
  -- selector of the class.
  abbrev pub merged_required :
      List PodAffinityTerm → Option PodAffinity → Option LabelSelector → List PodAffinityTerm
  merged_required own a default = own ++ map (filled_term default) (required_of a)

  abbrev pub merged_preferred :
      Option PodAffinity → Option PodAffinity → Option LabelSelector → List WeightedPodAffinityTerm
  merged_preferred own a default =
      preferred_of own ++ map (filled_weighted default) (preferred_of a)

  -- The four groups are what parsing the merged lists gives.
  pub record Parses (default : Option LabelSelector) (pod : Pod) (sc : SchedulingClass)
      (r : InterPodAffinityTerms S) : Type 0 where
    pub required :
        traverse (parse_term pod) (
          merged_required
            (fw.get_pod_affinity_terms pod.spec.affinity)
            sc.spec.pod_affinity
            default)
        ≡ ok r.required_affinity_terms
    pub anti_required :
        traverse (parse_term pod) (
          merged_required
            (fw.get_pod_anti_affinity_terms pod.spec.affinity)
            sc.spec.pod_anti_affinity
            default)
        ≡ ok r.required_anti_affinity_terms
    pub preferred :
        traverse
          (parse_weighted pod)
          (merged_preferred (pod_affinity_of pod.spec.affinity) sc.spec.pod_affinity default)
        ≡ ok r.preferred_affinity_terms
    pub anti_preferred :
        traverse (parse_weighted pod) (
          merged_preferred
            (pod_anti_affinity_of pod.spec.affinity)
            sc.spec.pod_anti_affinity
            default)
        ≡ ok r.preferred_anti_affinity_terms

  gather_lem :
      (keys : List String) (pod : Pod) (sc : SchedulingClass)
      → inter_pod_affinity_terms fw keys pod sc
        ≡ gather
            (traverse (parse_term pod) (fw.get_pod_affinity_terms pod.spec.affinity))
            (traverse (parse_term pod) (fw.get_pod_anti_affinity_terms pod.spec.affinity))
            (traverse (parse_weighted pod) (preferred_of (pod_affinity_of pod.spec.affinity)))
            (traverse (parse_weighted pod) (preferred_of (pod_anti_affinity_of pod.spec.affinity)))
            (traverse (parse_term pod) (
              map
                (filled_term (lineage_label_selector pod keys))
                (required_of sc.spec.pod_affinity)))
            (traverse (parse_weighted pod) (
              map
                (filled_weighted (lineage_label_selector pod keys))
                (preferred_of sc.spec.pod_affinity)))
            (traverse (parse_term pod) (
              map
                (filled_term (lineage_label_selector pod keys))
                (required_of sc.spec.pod_anti_affinity)))
            (traverse (parse_weighted pod) (
              map
                (filled_weighted (lineage_label_selector pod keys))
                (preferred_of sc.spec.pod_anti_affinity)))
  unfolding inter_pod_affinity_terms gather
  gather_lem keys pod sc = simp (parses, own_preferred_lem, class_required_lem, class_preferred_lem)

  -- Below the lookup of the class, the merge succeeds exactly if every group parses.
  pub inter_pod_affinity_terms_lem :
      (keys : List String) (pod : Pod) (sc : SchedulingClass) (r : InterPodAffinityTerms S)
      → (inter_pod_affinity_terms fw keys pod sc ≡ ok r)
        ↔ Parses (lineage_label_selector pod keys) pod sc r
  inter_pod_affinity_terms_lem keys pod sc r = rw gather_lem (
    λ h.
        let j = gather-AllJoin _ _ _ _ _ _ _ _ r h in
        record {
          required = traverse-append (parse_term pod) _ _ ∙ j.0;
          anti_required = traverse-append (parse_term pod) _ _ ∙ j.1;
          preferred = traverse-append (parse_weighted pod) _ _ ∙ j.2;
          anti_preferred = traverse-append (parse_weighted pod) _ _ ∙ j.3;
        },
    λ p. AllJoin-gather _ _ _ _ _ _ _ _ r (
      sym (traverse-append (parse_term pod) _ _) ∙ p.required,
      sym (traverse-append (parse_term pod) _ _) ∙ p.anti_required,
      sym (traverse-append (parse_weighted pod) _ _) ∙ p.preferred,
      sym (traverse-append (parse_weighted pod) _ _) ∙ p.anti_preferred,
    ),
  )
