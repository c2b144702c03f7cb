-- ===== src/PodTopologySpread/Eviction/Counting.antt =====
-- What `countPodsMatchSelector` (pkg/podtopologyspread/common.go) counts with one pod more or less on a node.
use cozystack_scheduler.Prelude.{
  ℕ, ◌+◌, ◌%◌, ◌≡◌, ap, String, Bool, false, List, ◌∷◌, ◌++◌, arith, ◌==◌, string_eq, if◌then◌else◌,
  sum_over, sum_over-append,
}
use cozystack_scheduler.GoMap.{lookup_or}
use cozystack_scheduler.Words.{word}
use cozystack_scheduler.Api.{Pod}
use cozystack_scheduler.Framework.{PodInfo, NodeInfo}
use cozystack_scheduler.PodTopologySpread.{Constraint, PodTopologySpread, LabelSelectors}
use cozystack_scheduler.PodTopologySpread.State.{skips_constraint}
use cozystack_scheduler.PodTopologySpread.State.Totals.{left_out, matching}
use cozystack_scheduler.PodTopologySpread.State.Selected.{counted_pods, counts_pod}

-- What a pod adds to the count of a selector.
abbrev pub selected : {S R : Type 0} → LabelSelectors S R → PodInfo S → S → String → ℕ
selected sel p s ns =
    if p.pod.namespace == ns then (if sel.matches s p.pod.labels then 1 else 0) else 0

module _ {S R : Type 0} (sel : LabelSelectors S R) (p : PodInfo S) (later : List (PodInfo S)) where
  -- One pod more among those of a node.
  pub counted-middle :
      (before : List (PodInfo S)) (s : S) (ns : String)
      → p.pod.deleting ≡ false
      → sel.empty s ≡ false
      → counted_pods sel (before ++ p ∷ later) s ns
        ≡ counted_pods sel (before ++ later) s ns + selected sel p s ns
  counted-middle before s ns d e =
      let f = sum_over-append (counts_pod sel s ns) before (p ∷ later) in
      let g = sum_over-append (counts_pod sel s ns) before later in ground (arith, f, g)

-- The node with other pods.
abbrev pub holding : {S : Type 0} → NodeInfo S → List (PodInfo S) → NodeInfo S
holding n pods = record n { pods = pods }

module _ {S R Object Raw : Type 0} (pl : PodTopologySpread S R Object Raw) (pod : Pod)
    (constraints : List (Constraint S)) (n : NodeInfo S) where
  -- What a pod on the node adds to the number of a value.
  abbrev pub share : PodInfo S → Constraint S → String → ℕ
  share p c v =
      if left_out pl pod constraints n
      then 0
      else if skips_constraint pl pod n.node c
      then 0
      else if lookup_or "" c.topology_key n.node.labels == v
      then selected pl.selectors p c.selector pod.namespace
      else 0

  share_lem :
      (a b d : Bool) (x y k : ℕ)
      → x % word ≡ (y + k) % word
      → (if a then 0 else if b then 0 else if d then x else 0) % word
        ≡ ((if a then 0 else if b then 0 else if d then y else 0)
            + (if a then 0 else if b then 0 else if d then k else 0))
          % word
  share_lem a b d x y k h = ground (arith, h)

  pub matching-share :
      (p : PodInfo S) (before later : List (PodInfo S)) (c : Constraint S) (v : String)
      → p.pod.deleting ≡ false
      → pl.selectors.empty c.selector ≡ false
      → matching pl pod constraints c v (holding n (before ++ p ∷ later)) % word
        ≡ (matching pl pod constraints c v (holding n (before ++ later)) + share p c v) % word
  matching-share p before later c v d e =
      share_lem (left_out pl pod constraints n) (skips_constraint pl pod n.node c)
        (lookup_or "" c.topology_key n.node.labels == v) _ _ _
        (ap (λ x. x % word)
          (counted-middle pl.selectors p later before c.selector pod.namespace d e))

  -- The sum over the nodes.
  pub sum-share :
      (p : PodInfo S) (before later : List (PodInfo S)) (xs ys : List (NodeInfo S))
      (c : Constraint S) (v : String)
      → p.pod.deleting ≡ false
      → pl.selectors.empty c.selector ≡ false
      → sum_over (matching pl pod constraints c v) (xs ++ holding n (before ++ p ∷ later) ∷ ys)
          % word
        ≡ (sum_over (matching pl pod constraints c v) (xs ++ holding n (before ++ later) ∷ ys)
            + share p c v)
          % word
  sum-share p before later xs ys c v d e =
      let count = matching pl pod constraints c v in
      omega (
        arith,
        sum_over-append count xs (holding n (before ++ p ∷ later) ∷ ys),
        sum_over-append count xs (holding n (before ++ later) ∷ ys),
        matching-share p before later c v d e,
      )
