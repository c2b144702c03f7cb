-- ===== src/Merge/InterPod/Outcome.antt =====
-- `MergeInterPodAffinity` of pkg/merge/merger.go, by the lookup of the pod's class.
use cozystack_scheduler.Prelude.{◌≡◌, refl, ◌≢◌, ◌↔◌, inl, inr, String, Option, none, some, List}
use cozystack_scheduler.Result.{Result, ok, err, ◌>>=◌, traverse, Result-cases}
use cozystack_scheduler.Api.{LabelSelector, PodAffinityTerm, Pod}
use cozystack_scheduler.Merge.Types.{
  SchedulingClass, AffinityTerm, InterPodAffinityTerms, TermParser, Merger,
}
use cozystack_scheduler.Merge.{with_class, get_scheduling_class, lineage_label_selector}
use cozystack_scheduler.Merge.Lineage.{SelectsLineage, lineage_label_selector-SelectsLineage}
use cozystack_scheduler.Merge.InterPod.{inter_pod_affinity_terms, merge_inter_pod_affinity}
use cozystack_scheduler.Merge.InterPod.Parsing.{Parses, inter_pod_affinity_terms_lem}

-- The last step, once the class is found.
abbrev some_of : {A : Type 0} → Result A → Result (Option A)
some_of r = do a ← r; ok (some a)

some_of-some : {A : Type 0} (r : Result A) (a : A) → (some_of r ≡ ok (some a)) ↔ (r ≡ ok a)
some_of-some (ok b) a = (λ h. cc, λ h. cc)
some_of-some (err e) a = (λ h. cc, λ h. cc)

some_of-none : {A : Type 0} (r : Result A) → some_of r ≢ ok none
some_of-none (ok b) h = cc
some_of-none (err e) h = cc

module _ {S : Type 0} (fw : TermParser S)
    (parse_term : Pod → PodAffinityTerm → Result (AffinityTerm S))
    -- GetAffinityTerms parses each term in turn, and stops at the first error.
    (parses : (pod : Pod) (ts : List PodAffinityTerm)
      → fw.get_affinity_terms pod ts ≡ traverse (parse_term pod) ts) where
  -- What becomes of the terms, by the lookup of the class.
  abbrev pub InterPodTermsOf :
      Pod
      → List String
      → Result (Option SchedulingClass)
      → Result (Option (InterPodAffinityTerms S))
      → Type 0
  InterPodTermsOf pod keys (err e) r = r ≡ err e
  InterPodTermsOf pod keys (ok none) r = r ≡ ok none
  InterPodTermsOf pod keys (ok (some sc)) r =
      (default : Option LabelSelector) × SelectsLineage pod keys default
      × (r ≢ ok none)
      × ((terms : InterPodAffinityTerms S)
          → (r ≡ ok (some terms)) ↔ Parses fw parse_term parses default pod sc terms)

  -- With a parser that works term by term, MergeInterPodAffinity passes on the error of the lookup of
  -- the class, and returns nil where the pod has no class. For a class it never returns nil without
  -- an error: it succeeds exactly if the four lists of API terms parse, and returns what they parse
  -- to. Each list is the pod's own, then the class's, in which the lineage selector (nil, or the
  -- pod's own value at each configured key) takes the place of each nil selector, and a selector
  -- that is set stays.
  pub merge_inter_pod_affinity_lem :
      {Object Raw : Type 0} (m : Merger Object Raw) (pod : Pod)
      → InterPodTermsOf pod m.label_selector_keys
          (get_scheduling_class m pod)
          (merge_inter_pod_affinity fw m pod)
  unfolding merge_inter_pod_affinity with_class
  merge_inter_pod_affinity_lem m pod = elim (Result-cases (get_scheduling_class m pod)) [
    | inr (e, h) ↦ rw h refl
    | inl (none, h) ↦ rw h refl
    | inl (some sc, h) ↦
        let keys = m.label_selector_keys in
        let r = inter_pod_affinity_terms fw keys pod sc in
        rw h (
          lineage_label_selector pod keys,
          lineage_label_selector-SelectsLineage pod keys,
          some_of-none r,
          λ terms.
              let a = some_of-some r terms in
              let b = inter_pod_affinity_terms_lem fw parse_term parses keys pod sc terms in
              (λ q. b.0 (a.0 q), λ q. a.1 (b.1 q)),
        )
  ]
