-- ===== src/Examples/Nodes.antt =====
-- Node affinity for pod `web` of class `gold`, and for a pod that names its node.
use cozystack_scheduler.Prelude.{
  ℕ, ◌%◌, ◌≡◌, refl, ◌↔◌, ◌⊎◌, inl, inr, String, Bool, true, false, ◌&&◌, Option, none, some, List,
  [], ◌∷◌, ◌++◌, arith, ◌==◌, string_eq, if◌then◌else◌, all, sum_over, Bool-cases,
}
use cozystack_scheduler.GoMap.{lookup, insert, insert_all}
use cozystack_scheduler.Words.{word}
use cozystack_scheduler.Result.{ok}
use cozystack_scheduler.Api.{Labels, NodeSelector, PreferredSchedulingTerm, Pod, Node}
use cozystack_scheduler.Merge.Types.{SchedulingClass}
use cozystack_scheduler.Merge.{
  entries, node_affinity_of, required_of, with_class, get_scheduling_class, decode_class,
  merge_node_affinity, node_affinity_terms, merge_node_selectors,
}
use cozystack_scheduler.Merge.Selectors.{optional_matches, term_matches}
use cozystack_scheduler.Framework.{success, skip, absent, queue_skip}
use cozystack_scheduler.NodeAffinity.{named, Helpers, Plugin}
use cozystack_scheduler.NodeAffinity.Filtering.{
  pre_filter, run_filter, is_schedulable_after_node_change,
}
use cozystack_scheduler.NodeAffinity.Scoring.{pre_score, run_score}
use cozystack_scheduler.NodeAffinity.Names.{Admits, pre_filter-keeps}
use cozystack_scheduler.NodeAffinity.Verdict.{HasLabels, MeansBoth, Suits, run_filter-Suits}
use cozystack_scheduler.NodeAffinity.Hints.{PassedBefore, is_schedulable_after_node_change-skip}
use cozystack_scheduler.NodeAffinity.Scores.{own_terms, class_terms, run_score-sum}
use cozystack_scheduler.Examples.{
  web, east, needs, selector_of, gold, merger, plain_spec, terms_matcher,
}

-- The node's label is what the selector asks for, if it asks.
abbrev asks : Option String → Option String → Bool
asks none have = true
asks (some v) none = false
asks (some v) (some w) = w == v

abbrev selects : Labels → Node → Bool
selects wanted n = all (λ l. asks (lookup l.0 wanted) (lookup l.0 n.labels)) wanted

abbrev required_holds : Pod → Node → Bool
required_holds pod n =
    selects (entries pod.spec.node_selector) n
    && optional_matches terms_matcher n (required_of (node_affinity_of pod.spec.affinity))

abbrev weight_at : Node → PreferredSchedulingTerm → ℕ
weight_at n t = if term_matches terms_matcher n t.preference then t.weight else 0

abbrev helpers : Helpers NodeSelector Pod (List PreferredSchedulingTerm)
helpers = record {
  new_node_selector = λ s. ok s;
  match_selector = λ s n. terms_matcher.selector_matches s n;
  get_required_node_affinity = λ pod. pod;
  match_required = λ pod n. (required_holds pod n, none);
  new_preferred_scheduling_terms = λ terms. ok terms;
  score = λ terms n. sum_over (weight_at n) terms % word;
}

abbrev plugin_with :
    Option NodeSelector
    → Plugin NodeSelector Pod (List PreferredSchedulingTerm) SchedulingClass SchedulingClass
plugin_with added = record {
  helpers = helpers;
  added_node_selector = added;
  added_pref_sched_terms = none;
  merger = merger;
}

asks-some :
    (ls : Labels) (p : String → Bool) (key v : String)
    → all (λ l. p l.0) ls ≡ true
    → lookup key ls ≡ some v
    → p key ≡ true
unfolding lookup
asks-some [] p key v h e = cc
asks-some ((k, w) ∷ ls) p key v h e = elim (Bool-cases (k == key)) [
  | inl same ↦
      let first : p k ≡ true = ground arith in rw (← (string_eq.beq_iff k key).0 same) first
  | inr other ↦
      let later : lookup key ls ≡ some v = rw other at e in
      asks-some ls p key v (ground arith) later
]

asks_iff : (v : String) (have : Option String) → (asks (some v) have ≡ true) → have ≡ some v
asks_iff v none h = cc
asks_iff v (some w) h = ground (arith, string_eq.beq_iff w v)

asks-all :
    (ls : Labels) (p : String → Bool) → ((key : String) → p key ≡ true) → all (λ l. p l.0) ls ≡ true
asks-all [] p h = refl
asks-all ((k, w) ∷ ls) p h = ground (arith, h k, asks-all ls p h)

asks_of :
    (wanted have : Option String)
    → ((v : String) → wanted ≡ some v → have ≡ some v)
    → asks wanted have ≡ true
asks_of none have h = refl
asks_of (some v) have h = rw (h v refl) ((string_eq.beq_iff v v).1 refl)

selects_iff :
    (wanted : Labels) (n : Node)
    → (selects wanted n ≡ true) ↔ HasLabels n (λ key. lookup key wanted)
selects_iff wanted n = (
  λ h key v e.
      let found = asks-some wanted (λ k. asks (lookup k wanted) (lookup k n.labels)) key v h e in
      asks_iff v (lookup key n.labels) (rw e at found),
  λ h.
      asks-all wanted (λ k. asks (lookup k wanted) (lookup k n.labels))
        (λ key. asks_of (lookup key wanted) (lookup key n.labels) (h key)),
)

both_iff : (a b : Bool) → ((a && b) ≡ true) ↔ ((a ≡ true) × (b ≡ true))
both_iff a b = ground arith

means_both :
    (added : Option NodeSelector) (n : Node) → MeansBoth (plugin_with added) terms_matcher n
means_both added n pod =
    let s = selects_iff (entries pod.spec.node_selector) n in
    let b =
      both_iff (selects (entries pod.spec.node_selector) n)
        (optional_matches terms_matcher n (required_of (node_affinity_of pod.spec.affinity))) in
    (λ h. (s.0 (b.0 h).0, (b.0 h).1), λ h. b.1 (s.1 h.0, h.1))

found_gold : get_scheduling_class merger web ≡ ok (some gold)
unfolding get_scheduling_class decode_class lookup
found_gold = refl

run_filter-Suits_example :
    (run_filter (plugin_with none) (pre_filter (plugin_with none) absent web).slot web east
      ≡ success)
    ↔ ((true ≡ true) × Suits terms_matcher east web (some gold))
unfolding lookup
run_filter-Suits_example =
    run_filter-Suits (plugin_with none) terms_matcher east (λ s. refl) (means_both none east) web
      (some gold) found_gold tt (refl, tt) tt (refl, tt)

-- A pod without a class that names two nodes.
abbrev named_pod : Pod
named_pod = record web {
  annotations = [];
  spec = record plain_spec {
    affinity = some (record {
      node_affinity = some (record {
        required = some (
            selector_of (
              record {
                match_expressions = [];
                match_fields =
                    record {
                      key = "metadata.name";
                      operator = "In";
                      values = "east-1" ∷ "north-1" ∷ [];
                    }
                    ∷ record { key = "metadata.name"; operator = "In"; values = "east-1" ∷ [] }
                    ∷ [];
              }
              ∷ []));
        preferred = none;
      });
      pod_affinity = none;
      pod_anti_affinity = none;
    });
  };
}

no_class : merge_node_affinity merger named_pod ≡ ok none
unfolding merge_node_affinity with_class get_scheduling_class decode_class lookup
no_class = refl

east_passes :
    run_filter
      (plugin_with none)
      (pre_filter (plugin_with none) absent named_pod).slot
      named_pod
      east
    ≡ success
unfolding pre_filter run_filter lookup
east_passes = rw (no_class, pre_filter) refl

pre_filter-keeps_example :
    Admits (pre_filter (plugin_with none) absent named_pod).nodes "east-1"
    × (((pre_filter (plugin_with none) absent named_pod).status ≡ success)
        ⊎ ((pre_filter (plugin_with none) absent named_pod).status ≡ skip))
pre_filter-keeps_example =
    pre_filter-keeps terms_matcher east (λ r h. refl) (plugin_with none) named_pod none (λ s. refl)
      (λ pod h. ((means_both none east pod).0 h).1) no_class east_passes

-- The second requirement leaves one name.
eligible_test : (pre_filter (plugin_with none) absent named_pod).nodes ≡ named ("east-1" ∷ [])
unfolding pre_filter
eligible_test = rw (no_class, pre_filter) refl

abbrev older_east : Node
older_east = record east { labels = ("zone", "east") ∷ ("disk", "ssd") ∷ ("old", "yes") ∷ [] }

merged_gold : merge_node_affinity merger web ≡ ok (some (node_affinity_terms web gold))
unfolding merge_node_affinity with_class get_scheduling_class decode_class lookup
merged_gold = refl

east_skipped :
    is_schedulable_after_node_change (plugin_with none) web (some older_east) east ≡ ok queue_skip
unfolding is_schedulable_after_node_change lookup insert insert_all node_affinity_terms
    merge_node_selectors
east_skipped = rw (merged_gold, is_schedulable_after_node_change) refl

web_passes :
    run_filter (plugin_with none) (pre_filter (plugin_with none) absent web).slot web east ≡ success
unfolding pre_filter run_filter lookup insert insert_all node_affinity_terms merge_node_selectors
web_passes = rw (merged_gold, pre_filter) refl

is_schedulable_after_node_change-skip_example :
    PassedBefore (plugin_with none) web (some older_east)
is_schedulable_after_node_change-skip_example =
    is_schedulable_after_node_change-skip (plugin_with none) web
      (some (node_affinity_terms web gold)) (some older_east) east refl merged_gold east_skipped
      web_passes

-- The plugin's own affinity starts to allow a node that always suited the pod: the hint still skips.
late_skipped :
    is_schedulable_after_node_change
      (plugin_with (some (selector_of (needs "pool" "a" ∷ []))))
      web
      (some east)
      (record east { labels = ("pool", "a") ∷ east.labels })
    ≡ ok queue_skip
unfolding is_schedulable_after_node_change lookup insert insert_all node_affinity_terms
    merge_node_selectors
late_skipped = rw (merged_gold, is_schedulable_after_node_change) refl

run_score-sum_example :
    run_score (plugin_with none) (pre_score (plugin_with none) absent web).0 web east ≡ ok 7
unfolding lookup
run_score-sum_example =
    run_score-sum (plugin_with none) east (weight_at east) web (some gold) found_gold
      ([], refl, refl) (own_terms web ++ class_terms (some gold), refl, refl)
