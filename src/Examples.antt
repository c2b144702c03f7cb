-- ===== src/Examples.antt =====
-- A small cluster: the data that the tests of the other modules share.
mod Affinity
mod Merging
mod Spreading
mod Preempting
mod Hearing
mod Guarding
mod Nodes
mod SpreadScores
mod AffinityScores
mod Startup
mod Classes
use cozystack_scheduler.Merge.Selectors.{NodeMatcher, is_blank}
use cozystack_scheduler.Api.{Requirement}
use cozystack_scheduler.Prelude.{
  not, String, Bool, true, false, ◌&&◌, Option, none, some, List, [], ◌∷◌, ◌==◌, string_eq,
  if◌then◌else◌, all, any,
}
use cozystack_scheduler.GoMap.{lookup, lookup_or}
use cozystack_scheduler.Result.{external, Result, ok, err, traverse}
use cozystack_scheduler.Api.{
  Labels, PodAffinityTerm, PodAffinity, NodeSelectorTerm, NodeSelector, NodeAffinity,
  TopologySpreadConstraint, do_not_schedule, PodSpec, Pod, Node,
}
use cozystack_scheduler.Merge.Types.{
  scheduling_class_annotation, SchedulingClass, AffinityTerm, TermParser, Merger,
}
use cozystack_scheduler.Merge.InterPod.{pod_affinity_of, pod_anti_affinity_of}
use cozystack_scheduler.Merge.InterPod.Parsing.{required_of}

abbrev pub plain_spec : PodSpec
plain_spec = record {
  node_name = "";
  node_selector = none;
  affinity = none;
  tolerations = [];
  topology_spread_constraints = [];
}

abbrev pub web : Pod
web = record {
  name = "web-0";
  namespace = "shop";
  uid = "1";
  labels = ("app", "web") ∷ ("tier", "gold") ∷ [];
  annotations = (scheduling_class_annotation, "gold") ∷ [];
  deleting = false;
  spec = plain_spec;
}

abbrev pub east : Node
east = record { name = "east-1"; labels = ("zone", "east") ∷ ("disk", "ssd") ∷ []; taints = [] }

abbrev pub west : Node
west = record { name = "west-1"; labels = ("zone", "west") ∷ []; taints = [] }

-- A term about the zone, which names no pods of its own.
abbrev pub zone_term : PodAffinityTerm
zone_term = record {
  label_selector = none;
  namespaces = [];
  topology_key = "zone";
  namespace_selector = none;
  match_label_keys = [];
  mismatch_label_keys = [];
}

abbrev pub zone_spread : TopologySpreadConstraint
zone_spread = record {
  max_skew = 1;
  topology_key = "zone";
  when_unsatisfiable = do_not_schedule;
  label_selector = none;
  min_domains = none;
  node_affinity_policy = none;
  node_taints_policy = none;
  match_label_keys = [];
}

abbrev pub needs : String → String → NodeSelectorTerm
needs key value = record {
  match_expressions = record { key = key; operator = "In"; values = value ∷ [] } ∷ [];
  match_fields = [];
}

abbrev pub selector_of : List NodeSelectorTerm → NodeSelector
selector_of terms = record { node_selector_terms = terms }

abbrev pub gold : SchedulingClass
gold = record {
  name = "gold";
  spec = record {
    node_selector = ("disk", "ssd") ∷ [];
    node_affinity = some (record {
      required = some (selector_of (needs "zone" "east" ∷ []));
      preferred = some (record { weight = 7; preference = needs "disk" "ssd" } ∷ []);
    });
    pod_affinity = some (record { required = zone_term ∷ []; preferred = [] });
    pod_anti_affinity = none;
    topology_spread_constraints = zone_spread ∷ [];
  };
}

-- A store with one class, where objects and their encoding are the class itself.
abbrev pub merger : Merger SchedulingClass SchedulingClass
merger = record {
  lister = record {
    get = λ name. if name == "gold" then ok gold else err (external "not found");
    marshal = λ sc. ok sc;
    unmarshal = λ sc. ok sc;
  };
  label_selector_keys = "app" ∷ [];
}

-- Selectors are the labels that they ask for.
abbrev pub labels_match : Labels → Labels → Bool
labels_match wanted labels = all (λ l. lookup_or "" l.0 labels == l.1) wanted

abbrev pub parse_term : Pod → PodAffinityTerm → Result (AffinityTerm Labels)
parse_term pod t = ok (record {
  namespaces = pod.namespace ∷ [];
  selector = elim t.label_selector [ none ↦ [] | some s ↦ s.match_labels ];
  topology_key = t.topology_key;
  namespace_selector = [];
})

abbrev pub parser : TermParser Labels
parser = record {
  get_affinity_terms = λ pod ts. traverse (parse_term pod) ts;
  get_pod_affinity_terms = λ a. required_of (pod_affinity_of a);
  get_pod_anti_affinity_terms = λ a. required_of (pod_anti_affinity_of a);
}

abbrev pub term_matches_pod : AffinityTerm Labels → Pod → Labels → Bool
term_matches_pod t pod ns_labels =
    any (λ ns. ns == pod.namespace) t.namespaces && labels_match t.selector pod.labels

-- A matcher that reads one value of a requirement, and selectors as Kubernetes documents them.
abbrev pub in_value : Requirement → String → Bool
in_value r v = any (λ w. w == v) r.values

abbrev pub terms_matcher : NodeMatcher
terms_matcher = record {
  expression_matches = λ r n. in_value r (lookup_or "" r.key n.labels);
  field_matches = λ r n. in_value r n.name;
  selector_matches = λ s n.
      any
        (λ t.
          not (is_blank t)
          && (all (λ r. in_value r (lookup_or "" r.key n.labels)) t.match_expressions
              && all (λ r. in_value r n.name) t.match_fields))
        s.node_selector_terms;
}
