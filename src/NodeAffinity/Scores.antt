-- ===== src/NodeAffinity/Scores.antt =====
-- `PreScore` and `Score` of pkg/nodeaffinity/node_affinity.go, as a sum of weights.
use cozystack_scheduler.Prelude.{
  ℕ, ◌+◌, ◌%◌, ◌≡◌, refl, sym, ap, ◌∙◌, true, ◌&&◌, Option, none, some, List, [], ◌∷◌, ◌++◌, arith,
  is_empty, Bool-cases, Option-cases, inl, inr, sum_over, sum_over-append,
}
use cozystack_scheduler.Words.{word}
use cozystack_scheduler.Result.{Result, ok, Result-cases}
use cozystack_scheduler.Api.{PreferredSchedulingTerm, NodeAffinity, Pod, Node}
use cozystack_scheduler.Framework.{absent, holds}
use cozystack_scheduler.Merge.Types.{SchedulingClass, NodeAffinityTerms}
use cozystack_scheduler.Merge.{
  node_affinity_of, preferred_of, get_scheduling_class, node_affinity_terms,
}
use cozystack_scheduler.NodeAffinity.{Plugin, is_none}
use cozystack_scheduler.NodeAffinity.Scoring.{
  preferred_terms_of, preferred_field, get_pod_preferred_node_affinity, merged_preferred,
  preferred_node_affinity, pre_score, optional_score, run_score,
}
use cozystack_scheduler.NodeAffinity.Verdict.{merged_terms, merge_lem}

abbrev pub own_terms : Pod → List PreferredSchedulingTerm
own_terms pod = preferred_of (node_affinity_of pod.spec.affinity)

abbrev pub class_terms : Option SchedulingClass → List PreferredSchedulingTerm
class_terms none = []
class_terms (some sc) = preferred_of sc.spec.node_affinity

module _ {Selector Required Terms Object Raw : Type 0}
    (pl : Plugin Selector Required Terms Object Raw) (n : Node)
    (weigh : PreferredSchedulingTerm → ℕ) where
  -- The terms parse, and score the node by the sum of their weights there.
  abbrev pub Weighs : List PreferredSchedulingTerm → Type 0
  Weighs terms =
      (parsed : Terms) × (pl.helpers.new_preferred_scheduling_terms terms ≡ ok parsed)
      × (pl.helpers.score parsed n ≡ sum_over weigh terms % word)

  -- A result whose score is the sum over the terms.
  abbrev Scores : Result (Option Terms) → List PreferredSchedulingTerm → Type 0
  Scores r terms =
      (o : Option Terms) × (r ≡ ok o) × (optional_score pl o n ≡ sum_over weigh terms % word)

  some-Scores :
      (terms : List PreferredSchedulingTerm)
      → Weighs terms
      → Scores (preferred_terms_of pl (some terms)) terms
  some-Scores terms (parsed, e, s) = (some parsed, rw e refl, s)

  own-Scores :
      (pod : Pod) (a : Option NodeAffinity)
      → Weighs (preferred_of a)
      → Scores (preferred_terms_of pl (preferred_field pl a)) (preferred_of a)
  own-Scores pod none w = (none, refl, omega arith)
  own-Scores pod (some a) w = elim (Option-cases a.preferred) [
    | inl e ↦ rw e (none, refl, omega arith)
    | inr (terms, e) ↦ rw e (some-Scores terms (rw e at w))
  ]

  sum_nil :
      (terms : List PreferredSchedulingTerm) → is_empty terms ≡ true → sum_over weigh terms ≡ 0
  sum_nil [] h = refl
  sum_nil (t ∷ terms) h = cc

  -- What the pod's own parse gives is kept where the merge has no terms, and replaced otherwise.
  merged-Scores :
      (pod : Pod) (found : Option SchedulingClass) (own : Option Terms)
      → optional_score pl own n ≡ sum_over weigh (own_terms pod) % word
      → Weighs (own_terms pod ++ class_terms found)
      → Scores
          (merged_preferred pl (merged_terms pod found) own)
          (own_terms pod ++ class_terms found)
  unfolding node_affinity_terms
  merged-Scores pod none own s w =
      (own, refl, omega (arith, s, sum_over-append weigh (own_terms pod) []))
  merged-Scores pod (some sc) own s w =
      let terms = own_terms pod ++ class_terms (some sc) in
      elim (Bool-cases (is_empty terms)) [
        | inl e ↦
            rw (merged_preferred, e)
              (
                own,
                refl,
                omega (
                  arith,
                  s,
                  sum_nil terms e,
                  sum_over-append weigh (own_terms pod) (class_terms (some sc)),
                ),
              )
        | inr e ↦ rw (merged_preferred, e) (some-Scores terms w)
      ]

  merged_preferred-none :
      (merged : Option NodeAffinityTerms) (own : Option Terms)
      → merged_preferred pl merged own ≡ ok none
      → own ≡ none
  merged_preferred-none none own h = ground arith
  merged_preferred-none (some merged) own h = ground (
    arith,
    Result-cases (pl.helpers.new_preferred_scheduling_terms merged.preferred_node_affinity),
  )

  abbrev score_sum : List PreferredSchedulingTerm → ℕ
  score_sum terms = (optional_score pl pl.added_pref_sched_terms n + sum_over weigh terms) % word

  run_score-holds :
      (pod : Pod) (o : Option Terms) (terms : List PreferredSchedulingTerm)
      → optional_score pl o n ≡ sum_over weigh terms % word
      → run_score pl (holds o) pod n ≡ ok (score_sum terms)
  unfolding run_score
  run_score-holds pod o terms s = ap ok (omega (arith, s))

  run_score-absent :
      (pod : Pod) (o : Option Terms)
      → get_pod_preferred_node_affinity pl pod ≡ ok o
      → run_score pl absent pod n ≡ run_score pl (holds o) pod n
  unfolding run_score
  run_score-absent pod o e = rw e refl

  -- Without an error of the merge or of a parse, where a parsed list scores the sum of the weights
  -- of its terms, Score after PreScore gives, as an int64, the score of the plugin's own terms plus
  -- the weights of the pod's preferred terms and of its class's.
  pub run_score-sum :
      (pod : Pod) (found : Option SchedulingClass)
      → get_scheduling_class pl.merger pod ≡ ok found
      → Weighs (own_terms pod)
      → Weighs (own_terms pod ++ class_terms found)
      → run_score pl (pre_score pl absent pod).0 pod n
        ≡ ok (
            (optional_score pl pl.added_pref_sched_terms n
              + sum_over weigh (own_terms pod ++ class_terms found))
            % word)
  unfolding pre_score
  run_score-sum pod found e w w' =
      let (own, p, s) = own-Scores pod (node_affinity_of pod.spec.affinity) w in
      let (o, q, t) = merged-Scores pod found own s w' in
      let both : preferred_node_affinity pl pod ≡ ok o =
        rw (preferred_node_affinity, p, merge_lem pl n pod found e) q in
      let holding = run_score-holds pod o (own_terms pod ++ class_terms found) t in
      elim (Bool-cases (is_none o && is_none pl.added_pref_sched_terms)) [
        | inr f ↦ rw (pre_score, both, f) holding
        | inl f ↦
            let nothing : o ≡ none = ground arith in
            let same : own ≡ o =
              merged_preferred-none (merged_terms pod found) own (q ∙ ap ok nothing)
              ∙ sym nothing in
            rw (pre_score, both, f) (run_score-absent pod o (p ∙ ap ok same) ∙ holding)
      ]
