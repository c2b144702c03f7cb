-- ===== src/SchedulingClass.antt =====
-- pkg/schedulingclass: the plugin that confines the pods of a labelled class to nodes with the
-- class's labels.
pub mod Filtering
use cozystack_scheduler.Prelude.{
  ℕ, String, Bool, true, false, Option, none, some, List, [], ◌∷◌, ◌==◌, string_eq, if◌then◌else◌,
  is_empty,
}
use cozystack_scheduler.Result.{Error, external, wrap, Result, ok, err, map_error, ◌>>=◌}
use cozystack_scheduler.GoMap.{GoMap, lookup, lookup_or, insert_all}
use cozystack_scheduler.Api.{Labels, NodeSelector, Pod, Node}
use cozystack_scheduler.Merge.{node_affinity_of, required_of}
use cozystack_scheduler.Framework.{
  Status, success, unschedulable, error_status, Slot, absent, holds, foreign,
}

pub record Args : Type 0 where
  pub class_label_key : String
  pub classes : GoMap String Labels

pub record Effective : Type 0 where
  pub required_node_labels : Labels

-- `(*Effective).Clone`
unfoldable pub clone : Option Effective → Effective
unfolding insert_all
clone none = record { required_node_labels = [] }
clone (some e) = record { required_node_labels = insert_all e.required_node_labels [] }

-- The configuration object: nil, of another type, or unknown with its raw bytes.
pub data ArgsObject : Type 0 where
  nil other : ArgsObject
  unknown : List ℕ → ArgsObject

abbrev pub default_args : Args
default_args = record { class_label_key = "cozystack.io/schedulingClass"; classes = [] }

-- `New`; `decode` is `json.Unmarshal` into the defaults.
unfoldable pub new_args : (List ℕ → Args → Result Args) → ArgsObject → Result Args
new_args decode (unknown (b ∷ raw)) =
    map_error (wrap "decode CozystackSchedulingClass args") (decode (b ∷ raw) default_args)
new_args decode _ = ok default_args

abbrev pub class_of : Args → Pod → String
class_of args pod = lookup_or "" args.class_label_key pod.labels

unfoldable pub pre_filter : Args → Slot (Option Effective) → Pod → Slot (Option Effective) × Status
unfolding lookup
pre_filter args slot pod =
    let class_name = class_of args pod in
    let required = lookup_or [] class_name args.classes in
    if class_name == ""
    then (slot, success)
    else if is_empty required
    then (slot, success)
    else (holds (some (record { required_node_labels = required })), success)

-- k8s.io/component-helpers' node selectors, and the text of a refusal.
pub record Selectors (Selector : Type 0) : Type 0 where
  pub new_node_selector : NodeSelector → Result Selector
  pub match : Selector → Node → Bool
  pub label_reason : String → String → String

module _ {Selector : Type 0} (sel : Selectors Selector) where
  -- `none` is the nil status.
  unfoldable pub check_pod_required_node_affinity : Pod → Node → Option Status
  check_pod_required_node_affinity pod node =
      elim (required_of (node_affinity_of pod.spec.affinity)) [
        | none ↦ none
        | some required ↦ elim (sel.new_node_selector required) [
          | err e ↦ some (error_status (wrap "invalid pod required node affinity" e))
          | ok selector ↦
              if sel.match selector node
              then none
              else some (unschedulable "node does not match pod required node affinity")
        ]
      ]

  -- The loop over the required labels; a label that the node lacks reads as the empty text.
  unfoldable pub missing_label : Labels → Node → Option Status
  unfolding lookup
  missing_label [] node = none
  missing_label ((key, wanted) ∷ required) node =
      let rest = missing_label required node in
      if lookup_or "" key node.labels == wanted
      then rest
      else some (unschedulable (sel.label_reason key wanted))

  abbrev pub required_labels : Slot (Option Effective) → Labels
  required_labels absent = []
  required_labels foreign = []
  required_labels (holds none) = []
  required_labels (holds (some e)) = e.required_node_labels

  unfoldable pub run_filter : Slot (Option Effective) → Pod → Option Node → Status
  unfolding missing_label check_pod_required_node_affinity
  run_filter slot pod none = error_status (external "nodeInfo has nil Node")
  run_filter slot pod (some node) = elim (missing_label (required_labels slot) node) [
    | some status ↦ status
    | none ↦ elim (check_pod_required_node_affinity pod node) [
      | some status ↦ status
      | none ↦ success
    ]
  ]
