-- ===== src/Merge/Types.antt =====
-- pkg/merge/merge.go and pkg/apis/v1alpha1/types.go: the merged terms, the SchedulingClass resource,
-- and what the merger calls outside the repository.
use cozystack_scheduler.Prelude.{ℕ, String, Option, List}
use cozystack_scheduler.Result.{Result}
use cozystack_scheduler.Api.{
  Labels, PodAffinityTerm, PodAffinity, NodeSelector, NodeAffinity, Affinity,
  PreferredSchedulingTerm, TopologySpreadConstraint, Pod,
}

-- `SchedulingClassAnnotation`
abbrev pub scheduling_class_annotation : String
scheduling_class_annotation = "scheduler.cozystack.io/scheduling-class"

pub record SchedulingClassSpec : Type 0 where
  pub node_selector : Labels
  pub node_affinity : Option NodeAffinity
  pub pod_affinity : Option PodAffinity
  pub pod_anti_affinity : Option PodAffinity
  pub topology_spread_constraints : List TopologySpreadConstraint

pub record SchedulingClass : Type 0 where
  pub name : String
  pub spec : SchedulingClassSpec

-- `framework.AffinityTerm` and `framework.WeightedAffinityTerm`, over the type of label selectors.
pub record AffinityTerm (S : Type 0) : Type 0 where
  pub namespaces : List String
  pub selector : S
  pub topology_key : String
  pub namespace_selector : S

pub record WeightedAffinityTerm (S : Type 0) : Type 0 where
  pub affinity_term : AffinityTerm S
  pub weight : ℕ

pub record InterPodAffinityTerms (S : Type 0) : Type 0 where
  pub required_affinity_terms : List (AffinityTerm S)
  pub required_anti_affinity_terms : List (AffinityTerm S)
  pub preferred_affinity_terms : List (WeightedAffinityTerm S)
  pub preferred_anti_affinity_terms : List (WeightedAffinityTerm S)

pub record NodeAffinityTerms : Type 0 where
  pub node_selector : Option Labels
  pub required_node_affinity : Option NodeSelector
  pub preferred_node_affinity : List PreferredSchedulingTerm

pub record TopologySpreadTerms : Type 0 where
  pub constraints : List TopologySpreadConstraint

-- The functions of the scheduler framework that parse affinity terms.
pub record TermParser (S : Type 0) : Type 0 where
  pub get_affinity_terms : Pod → List PodAffinityTerm → Result (List (AffinityTerm S))
  pub get_pod_affinity_terms : Option Affinity → List PodAffinityTerm
  pub get_pod_anti_affinity_terms : Option Affinity → List PodAffinityTerm

-- The informer's lister and the JSON codec: an object of the cluster, and its encoding.
pub record ClassStore (Object Raw : Type 0) : Type 0 where
  pub get : String → Result Object
  pub marshal : Object → Result Raw
  pub unmarshal : Raw → Result SchedulingClass

-- `merger`
pub record Merger (Object Raw : Type 0) : Type 0 where
  pub lister : ClassStore Object Raw
  pub label_selector_keys : List String
