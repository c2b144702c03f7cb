-- ===== src/InterPodAffinity/Hints.antt =====
-- pkg/interpodaffinity/plugin.go: the queueing hints. An error of the merger, unlike one of the parser,
-- is not returned: the pod is queued.
use cozystack_scheduler.Prelude.{
  String, Bool, true, false, not, ◌&&◌, Option, none, some, List, [], ◌==◌, string_eq,
  if◌then◌else◌, any, is_empty,
}
use cozystack_scheduler.GoMap.{lookup}
use cozystack_scheduler.Result.{Result, ok, err, ◌>>=◌}
use cozystack_scheduler.Api.{Pod, Node}
use cozystack_scheduler.Merge.Types.{AffinityTerm, InterPodAffinityTerms}
use cozystack_scheduler.Merge.InterPod.{merge_inter_pod_affinity}
use cozystack_scheduler.Framework.{
  QueueingHint, queue, queue_skip, queue_if, Event, created, deleted, updated,
}
use cozystack_scheduler.InterPodAffinity.Counts.{pod_matches_all_affinity_terms}
use cozystack_scheduler.InterPodAffinity.{InterPodAffinity}

abbrev pub is_placed : Pod → Bool
is_placed pod = not (pod.spec.node_name == "")

-- All pods of the event run on a node.
abbrev pub event_placed : Event Pod → Bool
event_placed (created new) = is_placed new
event_placed (deleted old) = is_placed old
event_placed (updated old new) = is_placed new && is_placed old

-- The values that a node has under a key before and after: a new node had none.
abbrev pub label_before : Option Node → String → Option String
label_before none key = none
label_before (some original) key = lookup key original.labels

abbrev pub text_differs : Option String → Option String → Bool
text_differs (some v) (some w) = not (v == w)
text_differs v w = false

abbrev pub label_gained : Option String → Option String → Bool
label_gained none (some w) = true
label_gained v w = text_differs v w

abbrev pub label_lost : Option String → Option String → Bool
label_lost (some v) none = true
label_lost v w = text_differs v w

module _ {S Object Raw : Type 0} (pl : InterPodAffinity S Object Raw) where
  -- The class's terms in place of the pod's, where there is a class.
  abbrev pub terms_or :
      List (AffinityTerm S)
      → List (AffinityTerm S)
      → Option (InterPodAffinityTerms S)
      → List (AffinityTerm S) × List (AffinityTerm S)
  terms_or terms anti_terms none = (terms, anti_terms)
  terms_or terms anti_terms (some merged) =
      (merged.required_affinity_terms, merged.required_anti_affinity_terms)

  -- The terms that the pod hint reads; none where the merger fails.
  unfoldable pub hint_terms : Pod → Result (Option (List (AffinityTerm S) × List (AffinityTerm S)))
  hint_terms pod = do
    terms ← pl.parser.get_affinity_terms pod (pl.parser.get_pod_affinity_terms pod.spec.affinity)
    anti_terms ←
        pl.parser.get_affinity_terms pod (pl.parser.get_pod_anti_affinity_terms pod.spec.affinity)
    elim (merge_inter_pod_affinity pl.parser pl.merger pod) [
      | err e ↦ ok none
      | ok merged ↦ ok (some (terms_or terms anti_terms merged))
    ]

  abbrev pub pod_change_hint :
      List (AffinityTerm S) × List (AffinityTerm S) → Event Pod → QueueingHint
  pod_change_hint (terms, anti_terms) (created new) =
      queue_if (pod_matches_all_affinity_terms pl.matches terms new)
  pod_change_hint (terms, anti_terms) (deleted old) =
      queue_if (pod_matches_all_affinity_terms pl.matches anti_terms old)
  pod_change_hint (terms, anti_terms) (updated old new) =
      if not (pod_matches_all_affinity_terms pl.matches terms old)
        && pod_matches_all_affinity_terms pl.matches terms new
      then queue
      else queue_if (
          pod_matches_all_affinity_terms pl.matches anti_terms old
          && not (pod_matches_all_affinity_terms pl.matches anti_terms new))

  abbrev pub hint_of :
      Event Pod → Option (List (AffinityTerm S) × List (AffinityTerm S)) → QueueingHint
  hint_of event none = queue
  hint_of event (some terms) = pod_change_hint terms event

  unfoldable pub is_schedulable_after_pod_change : Pod → Event Pod → Result QueueingHint
  is_schedulable_after_pod_change pod event =
      if event_placed event
      then (do terms ← hint_terms pod; ok (hint_of event terms))
      else ok queue_skip

  -- Whether an affinity term's topology is new or moved.
  abbrev pub affinity_key_changed : Option Node → Node → List (AffinityTerm S) → Bool
  affinity_key_changed original modified terms =
      any
        (λ t.
          label_gained (label_before original t.topology_key)
            (lookup t.topology_key modified.labels))
        terms

  -- Whether an anti-affinity term's topology is lost or moved; of a new node, any term says so.
  abbrev pub anti_affinity_key_changed : Option Node → Node → List (AffinityTerm S) → Bool
  anti_affinity_key_changed none modified terms = not (is_empty terms)
  anti_affinity_key_changed (some original) modified terms =
      any
        (λ t.
          label_lost (lookup t.topology_key original.labels)
            (lookup t.topology_key modified.labels))
        terms

  -- The anti-affinity terms are parsed only where the affinity terms leave the question open.
  abbrev pub anti_affinity_hint :
      Option Node
      → Node
      → Option (InterPodAffinityTerms S)
      → Result (List (AffinityTerm S))
      → Result QueueingHint
  anti_affinity_hint original modified merged parsed = do
    anti_terms ← parsed
    ok (queue_if (anti_affinity_key_changed original modified (terms_or [] anti_terms merged).1))

  -- After a node is added, with no original, or updated: the plugin registers for no other change.
  unfoldable pub is_schedulable_after_node_change : Pod → Option Node → Node → Result QueueingHint
  is_schedulable_after_node_change pod original modified = do
    terms ← pl.parser.get_affinity_terms pod (pl.parser.get_pod_affinity_terms pod.spec.affinity)
    elim (merge_inter_pod_affinity pl.parser pl.merger pod) [
      | err e ↦ ok queue
      | ok merged ↦
          if affinity_key_changed original modified (terms_or terms [] merged).0
          then ok queue
          else anti_affinity_hint original modified merged (
              pl.parser.get_affinity_terms pod
                (pl.parser.get_pod_anti_affinity_terms pod.spec.affinity))
    ]
