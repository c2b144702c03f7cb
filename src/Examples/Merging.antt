-- ===== src/Examples/Merging.antt =====
-- The merge of class `gold` into pod `web`.
use cozystack_scheduler.Prelude.{◌≡◌, refl, String, false, ◌&&◌, some, List, [], ◌∷◌, string_eq}
use cozystack_scheduler.GoMap.{lookup, insert}
use cozystack_scheduler.Result.{ok}
use cozystack_scheduler.Api.{NodeSelectorTerm, NodeSelector}
use cozystack_scheduler.Merge.{
  merge_node_selectors, lineage_label_selector, merge_topology_spread_constraints,
  get_scheduling_class, merge_node_affinity,
}
use cozystack_scheduler.Merge.Selectors.{
  optional_matches, single, merge_node_selectors-and, merge_node_selectors-blank,
}
use cozystack_scheduler.Merge.Types.{InterPodAffinityTerms}
use cozystack_scheduler.Merge.Lineage.{
  SelectsLineage, SpreadTermsOf, lineage_label_selector-SelectsLineage,
  merge_topology_spread_constraints_lem,
}
use cozystack_scheduler.Merge.NodeTerms.{
  Finds, NodeTermsOf, get_scheduling_class-Finds, merge_node_affinity_lem,
}
use cozystack_scheduler.Merge.InterPod.{inter_pod_affinity_terms, merge_inter_pod_affinity}
use cozystack_scheduler.Merge.InterPod.Outcome.{InterPodTermsOf, merge_inter_pod_affinity_lem}
use cozystack_scheduler.Examples.{
  terms_matcher, web, east, needs, selector_of, gold, merger, parse_term, parser,
}

abbrev in_east : NodeSelector
in_east = selector_of (needs "zone" "east" ∷ needs "zone" "north" ∷ [])

abbrev on_ssd : NodeSelector
on_ssd = selector_of (needs "disk" "ssd" ∷ [])

abbrev blank : NodeSelectorTerm
blank = record { match_expressions = []; match_fields = [] }

merge_node_selectors-and_example :
    optional_matches terms_matcher east (merge_node_selectors (some in_east) (some on_ssd)) ≡ (
      optional_matches terms_matcher east (some in_east)
      && optional_matches terms_matcher east (some on_ssd))
merge_node_selectors-and_example =
    merge_node_selectors-and terms_matcher east (some in_east) (some on_ssd) (λ s. refl)
      (refl, (refl, tt)) (refl, tt)

merge_node_selectors-blank_example :
    (terms_matcher.selector_matches (single blank) east ≡ false)
    × (optional_matches terms_matcher east
          (merge_node_selectors (some (single blank)) (some on_ssd))
        ≡ terms_matcher.selector_matches on_ssd east)
merge_node_selectors-blank_example =
    merge_node_selectors-blank terms_matcher east blank on_ssd (λ s. refl) refl

lineage_label_selector-SelectsLineage_example :
    SelectsLineage web ("app" ∷ []) (lineage_label_selector web ("app" ∷ []))
lineage_label_selector-SelectsLineage_example =
    lineage_label_selector-SelectsLineage web ("app" ∷ [])

merge_topology_spread_constraints_lem_example :
    SpreadTermsOf web
      ("app" ∷ [])
      (get_scheduling_class merger web)
      (merge_topology_spread_constraints merger web)
merge_topology_spread_constraints_lem_example = merge_topology_spread_constraints_lem merger web

get_scheduling_class-Finds_example : Finds merger web (get_scheduling_class merger web)
get_scheduling_class-Finds_example = get_scheduling_class-Finds merger web

found_gold : get_scheduling_class merger web ≡ ok (some gold)
unfolding get_scheduling_class lookup
found_gold = refl

merge_node_affinity_lem_example : NodeTermsOf web (some gold) (merge_node_affinity merger web)
unfolding lookup
merge_node_affinity_lem_example =
    merge_node_affinity_lem merger web (some gold) found_gold tt (refl, tt)

-- The class's only term, with the lineage selector of the pod.
abbrev merged_terms : InterPodAffinityTerms (List (String × String))
merged_terms = record {
  required_affinity_terms =
      record {
        namespaces = "shop" ∷ [];
        selector = ("app", "web") ∷ [];
        topology_key = "zone";
        namespace_selector = [];
      }
      ∷ [];
  required_anti_affinity_terms = [];
  preferred_affinity_terms = [];
  preferred_anti_affinity_terms = [];
}

merge_inter_pod_affinity_lem_example :
    InterPodTermsOf parser parse_term
      (λ pod ts. refl)
      web
      ("app" ∷ [])
      (get_scheduling_class merger web)
      (merge_inter_pod_affinity parser merger web)
merge_inter_pod_affinity_lem_example =
    merge_inter_pod_affinity_lem parser parse_term (λ pod ts. refl) merger web

-- For the class, the merge returns these terms.
merged_terms_test : inter_pod_affinity_terms parser ("app" ∷ []) web gold ≡ ok merged_terms
unfolding inter_pod_affinity_terms lookup insert
merged_terms_test = refl
