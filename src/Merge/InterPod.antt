-- ===== src/Merge/InterPod.antt =====
-- pkg/merge/merger.go: `MergeInterPodAffinity` and `toWeightedAffinityTerms`.
pub mod Parsing
pub mod Outcome
use cozystack_scheduler.Prelude.{String, Option, none, some, List, [], ◌∷◌, ◌++◌}
use cozystack_scheduler.Result.{wrap, Result, ok, ◌>>=◌, map_error}
use cozystack_scheduler.Api.{LabelSelector, WeightedPodAffinityTerm, PodAffinity, Affinity, Pod}
use cozystack_scheduler.Merge.Types.{
  SchedulingClass, AffinityTerm, WeightedAffinityTerm, InterPodAffinityTerms, TermParser, Merger,
}
use cozystack_scheduler.Merge.{
  with_class, lineage_label_selector, default_affinity_term_selectors,
  default_weighted_affinity_term_selectors,
}

abbrev pub pod_affinity_of : Option Affinity → Option PodAffinity
pod_affinity_of none = none
pod_affinity_of (some a) = a.pod_affinity

abbrev pub pod_anti_affinity_of : Option Affinity → Option PodAffinity
pod_anti_affinity_of none = none
pod_anti_affinity_of (some a) = a.pod_anti_affinity

module _ {S : Type 0} (fw : TermParser S) where
  -- `if len(parsed) > 0` with the term's weight.
  unfoldable pub weigh :
      WeightedPodAffinityTerm → List (AffinityTerm S) → List (WeightedAffinityTerm S)
  weigh w [] = []
  weigh w (t ∷ ts) = record { affinity_term = t; weight = w.weight } ∷ []

  unfoldable pub to_weighted_affinity_terms :
      Pod → List WeightedPodAffinityTerm → Result (List (WeightedAffinityTerm S))
  unfolding weigh
  to_weighted_affinity_terms pod [] = ok []
  to_weighted_affinity_terms pod (w ∷ terms) = do
    parsed ← fw.get_affinity_terms pod (w.pod_affinity_term ∷ [])
    rest ← to_weighted_affinity_terms pod terms
    ok (weigh w parsed ++ rest)

  -- The preferred terms of an affinity that may be nil.
  unfoldable pub own_preferred :
      Pod → String → Option PodAffinity → Result (List (WeightedAffinityTerm S))
  unfolding to_weighted_affinity_terms
  own_preferred pod context none = ok []
  own_preferred pod context (some a) =
      map_error (wrap context) (to_weighted_affinity_terms pod a.preferred)

  -- The required terms of the class's affinity, with its nil selectors filled.
  unfoldable pub class_required :
      Pod → String → Option LabelSelector → Option PodAffinity → Result (List (AffinityTerm S))
  unfolding default_affinity_term_selectors
  class_required pod context default none = ok []
  class_required pod context default (some a) =
      map_error (wrap context)
        (fw.get_affinity_terms pod (default_affinity_term_selectors a.required default))

  unfoldable pub class_preferred :
      Pod
      → String
      → Option LabelSelector
      → Option PodAffinity
      → Result (List (WeightedAffinityTerm S))
  unfolding to_weighted_affinity_terms default_weighted_affinity_term_selectors
  class_preferred pod context default none = ok []
  class_preferred pod context default (some a) = map_error (wrap context) (
      to_weighted_affinity_terms pod (default_weighted_affinity_term_selectors a.preferred default))

  -- `MergeInterPodAffinity` below the lookup of the class: the pod's four groups of terms, then
  -- the class's, in the order of the code, so that the first error is the one returned.
  unfoldable pub inter_pod_affinity_terms :
      List String → Pod → SchedulingClass → Result (InterPodAffinityTerms S)
  unfolding own_preferred class_required class_preferred lineage_label_selector
  inter_pod_affinity_terms keys pod sc = do
    let affinity = pod.spec.affinity
    required ←
        map_error (wrap "parsing pod affinity terms")
          (fw.get_affinity_terms pod (fw.get_pod_affinity_terms affinity))
    anti_required ←
        map_error (wrap "parsing pod anti-affinity terms")
          (fw.get_affinity_terms pod (fw.get_pod_anti_affinity_terms affinity))
    preferred ← own_preferred pod "parsing pod preferred affinity terms" (pod_affinity_of affinity)
    anti_preferred ←
        own_preferred pod "parsing pod preferred anti-affinity terms"
          (pod_anti_affinity_of affinity)
    let default = lineage_label_selector pod keys
    cr_required ← class_required pod "parsing CR affinity terms" default sc.spec.pod_affinity
    cr_preferred ←
        class_preferred pod "parsing CR preferred affinity terms" default sc.spec.pod_affinity
    cr_anti_required ←
        class_required pod "parsing CR anti-affinity terms" default sc.spec.pod_anti_affinity
    cr_anti_preferred ←
        class_preferred pod "parsing CR preferred anti-affinity terms" default
          sc.spec.pod_anti_affinity
    ok (record {
      required_affinity_terms = required ++ cr_required;
      required_anti_affinity_terms = anti_required ++ cr_anti_required;
      preferred_affinity_terms = preferred ++ cr_preferred;
      preferred_anti_affinity_terms = anti_preferred ++ cr_anti_preferred;
    })

  unfoldable pub merge_inter_pod_affinity :
      {Object Raw : Type 0} → Merger Object Raw → Pod → Result (Option (InterPodAffinityTerms S))
  unfolding with_class inter_pod_affinity_terms
  merge_inter_pod_affinity m pod =
      with_class m pod (inter_pod_affinity_terms m.label_selector_keys pod)
