-- ===== src/Api.antt =====
-- The Kubernetes API objects (k8s.io/api, not in the repository), with the fields that pkg/ reads.
-- A pointer is an `Option`; a slice or map whose nil the code tells apart is one too.
use cozystack_scheduler.Prelude.{ℕ, String, Bool, Option, List}
use cozystack_scheduler.GoMap.{GoMap}

abbrev pub Labels : Type 0
Labels = GoMap String String

-- One record serves label and node selector requirements: both have these fields.
pub record Requirement : Type 0 where
  pub key : String
  pub operator : String
  pub values : List String

pub record LabelSelector : Type 0 where
  pub match_labels : Labels
  pub match_expressions : List Requirement

pub record PodAffinityTerm : Type 0 where
  pub label_selector : Option LabelSelector
  pub namespaces : List String
  pub topology_key : String
  pub namespace_selector : Option LabelSelector
  pub match_label_keys : List String
  pub mismatch_label_keys : List String

-- `weight` is the bit pattern of an int32.
pub record WeightedPodAffinityTerm : Type 0 where
  pub weight : ℕ
  pub pod_affinity_term : PodAffinityTerm

-- `v1.PodAffinity` and `v1.PodAntiAffinity` have the same fields.
pub record PodAffinity : Type 0 where
  pub required : List PodAffinityTerm
  pub preferred : List WeightedPodAffinityTerm

pub record NodeSelectorTerm : Type 0 where
  pub match_expressions : List Requirement
  pub match_fields : List Requirement

pub record NodeSelector : Type 0 where
  pub node_selector_terms : List NodeSelectorTerm

pub record PreferredSchedulingTerm : Type 0 where
  pub weight : ℕ
  pub preference : NodeSelectorTerm

pub record NodeAffinity : Type 0 where
  pub required : Option NodeSelector
  pub preferred : Option (List PreferredSchedulingTerm)

pub record Affinity : Type 0 where
  pub node_affinity : Option NodeAffinity
  pub pod_affinity : Option PodAffinity
  pub pod_anti_affinity : Option PodAffinity

pub data UnsatisfiableConstraintAction : Type 0 where
  do_not_schedule schedule_anyway : UnsatisfiableConstraintAction

pub data NodeInclusionPolicy : Type 0 where
  ignore honor : NodeInclusionPolicy

-- `max_skew` and `min_domains` are bit patterns of an int32.
pub record TopologySpreadConstraint : Type 0 where
  pub max_skew : ℕ
  pub topology_key : String
  pub when_unsatisfiable : UnsatisfiableConstraintAction
  pub label_selector : Option LabelSelector
  pub min_domains : Option ℕ
  pub node_affinity_policy : Option NodeInclusionPolicy
  pub node_taints_policy : Option NodeInclusionPolicy
  pub match_label_keys : List String

pub record Taint : Type 0 where
  pub key : String
  pub value : String
  pub effect : String

pub record Toleration : Type 0 where
  pub key : String
  pub operator : String
  pub value : String
  pub effect : String

pub record PodSpec : Type 0 where
  pub node_name : String
  pub node_selector : Option Labels
  pub affinity : Option Affinity
  pub tolerations : List Toleration
  pub topology_spread_constraints : List TopologySpreadConstraint

-- `deleting` says that the pod has a deletion timestamp.
pub record Pod : Type 0 where
  pub name : String
  pub namespace : String
  pub uid : String
  pub labels : Labels
  pub annotations : Labels
  pub deleting : Bool
  pub spec : PodSpec

pub record Node : Type 0 where
  pub name : String
  pub labels : Labels
  pub taints : List Taint
