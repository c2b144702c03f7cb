-- ===== src/NodeAffinity/Hints.antt =====
-- The node hint of pkg/nodeaffinity/node_affinity.go against `Filter`.
use cozystack_scheduler.Prelude.{◌≡◌, true, Option, none, some, arith}
use cozystack_scheduler.Result.{ok}
use cozystack_scheduler.Api.{Pod, Node}
use cozystack_scheduler.Framework.{success, absent, queue_skip}
use cozystack_scheduler.Merge.Types.{NodeAffinityTerms}
use cozystack_scheduler.Merge.{merge_node_affinity}
use cozystack_scheduler.NodeAffinity.{Plugin, effective_pod}
use cozystack_scheduler.NodeAffinity.Filtering.{
  added_matches, hint_match, is_schedulable_after_node_change, pre_filter, run_filter,
}
use cozystack_scheduler.NodeAffinity.Verdict.{Passes, Matched, Passes-Matched}

module _ {Selector Required Terms Object Raw : Type 0}
    (pl : Plugin Selector Required Terms Object Raw) where
  -- Before the event there was a node, and it passed.
  abbrev pub PassedBefore : Pod → Option Node → Type 0
  PassedBefore pod none = ⊥
  PassedBefore pod (some original) = Passes pl original pod

  -- The plugin's own affinity allowed the node before the event, where there was one.
  abbrev pub AllowedBefore : Option Node → Type 0
  AllowedBefore none = Unit
  AllowedBefore (some original) = added_matches pl original ≡ true

  hint_match-skip :
      (pod : Pod) (merged : Option NodeAffinityTerms) (original : Option Node) (modified : Node)
      → AllowedBefore original
      → merge_node_affinity pl.merger pod ≡ ok merged
      → hint_match pl (pl.helpers.get_required_node_affinity (effective_pod pod merged)) original (
          pl.helpers.match_required
            (pl.helpers.get_required_node_affinity (effective_pod pod merged))
            modified)
        ≡ ok queue_skip
      → Matched pl modified pod merged
      → PassedBefore pod original
  hint_match-skip pod merged none modified allowed found h k = ground arith
  hint_match-skip pod merged (some original) modified allowed found h k =
      (Passes-Matched pl original pod merged found).1 (allowed, ground arith)

  -- Where the merge gives no error and the plugin's own affinity allowed the node before, the hint
  -- skips no event that matters: a node that Filter passes afterwards, it passed before.
  pub is_schedulable_after_node_change-skip :
      (pod : Pod) (merged : Option NodeAffinityTerms) (original : Option Node) (modified : Node)
      → AllowedBefore original
      → merge_node_affinity pl.merger pod ≡ ok merged
      → is_schedulable_after_node_change pl pod original modified ≡ ok queue_skip
      → run_filter pl (pre_filter pl absent pod).slot pod modified ≡ success
      → PassedBefore pod original
  unfolding is_schedulable_after_node_change
  is_schedulable_after_node_change-skip pod merged original modified allowed found h passed =
      let r = (Passes-Matched pl modified pod merged found).0 passed in
      hint_match-skip pod merged original modified allowed found
        (rw (r.0, found, is_schedulable_after_node_change) at h) r.1
