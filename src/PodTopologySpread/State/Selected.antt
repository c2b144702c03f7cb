-- ===== src/PodTopologySpread/State/Selected.antt =====
-- `countPodsMatchSelector` (pkg/podtopologyspread/common.go) against a sum over the pods.
use cozystack_scheduler.Prelude.{
  ℕ, ◌+◌, ◌%◌, ◌≡◌, refl, String, Bool, false, true, not, ◌&&◌, ◌||◌, List, [], ◌∷◌, arith,
  Bool-cases, inl, inr, ◌==◌, string_eq, if◌then◌else◌, sum_over,
}
use cozystack_scheduler.Words.{word, add64}
use cozystack_scheduler.Framework.{PodInfo, NodeInfo}
use cozystack_scheduler.PodTopologySpread.{
  LabelSelectors, count_pods_match_selector, count_pods_selected,
}

abbrev pub with_pod : {S : Type 0} → PodInfo S → NodeInfo S → NodeInfo S
with_pod p n = record n { pods = p ∷ n.pods }

module _ {S R : Type 0} (sel : LabelSelectors S R) where
  -- A pod counts if it is not terminating, is of the namespace, and has the labels.
  abbrev pub counts_pod : S → String → PodInfo S → ℕ
  counts_pod s ns p =
      if not p.pod.deleting && (p.pod.namespace == ns && sel.matches s p.pod.labels) then 1 else 0

  -- How many pods count: none for an empty selector, although it has each pod's labels.
  abbrev pub counted_pods : List (PodInfo S) → S → String → ℕ
  counted_pods ps s ns = if sel.empty s then 0 else sum_over (counts_pod s ns) ps

  one_more :
      (deleting same has : Bool) (k a total rest : ℕ)
      → a ≡ (if deleting || not same then k else if has then add64 k 1 else k)
      → total % word ≡ (a + rest) % word
      → total % word ≡ (k + ((if not deleting && (same && has) then 1 else 0) + rest)) % word
  one_more true same has k a total rest e f = omega (arith, e, f)
  one_more false false has k a total rest e f = omega (arith, e, f)
  one_more false true false k a total rest e f = omega (arith, e, f)
  one_more false true true k a total rest e f = omega (arith, e, f)

  count_pods_selected-sum :
      (ps : List (PodInfo S)) (s : S) (ns : String) (k : ℕ)
      → count_pods_selected sel ps s ns k % word ≡ (k + sum_over (counts_pod s ns) ps) % word
  count_pods_selected-sum [] s ns k = omega arith
  count_pods_selected-sum (p ∷ ps) s ns k =
      one_more p.pod.deleting (p.pod.namespace == ns) (sel.matches s p.pod.labels) k _ _ _ refl
        (count_pods_selected-sum ps s ns _)

  -- The loop computes the sum, as an int64.
  pub count_pods-counted :
      (ps : List (PodInfo S)) (s : S) (ns : String)
      → count_pods_match_selector sel ps s ns % word ≡ counted_pods ps s ns % word
  count_pods-counted ps s ns = elim (Bool-cases (sel.empty s)) [
    | inl e ↦ rw (count_pods_match_selector, counted_pods, e) refl
    | inr e ↦
        rw (count_pods_match_selector, counted_pods, e)
          (omega (arith, count_pods_selected-sum ps s ns 0))
  ]

  -- One more pod that runs in the namespace.
  pub counted-with_pod :
      (p : PodInfo S) (ps : List (PodInfo S)) (s : S) (ns : String)
      → p.pod.deleting ≡ false
      → p.pod.namespace == ns ≡ true
      → sel.empty s ≡ false
      → counted_pods (p ∷ ps) s ns
        ≡ counted_pods ps s ns + (if sel.matches s p.pod.labels then 1 else 0)
  counted-with_pod p ps s ns d e f = ground arith

  -- A pod of another namespace.
  pub counted-with_stranger :
      (p : PodInfo S) (ps : List (PodInfo S)) (s : S) (ns : String)
      → p.pod.namespace == ns ≡ false
      → counted_pods (p ∷ ps) s ns ≡ counted_pods ps s ns
  counted-with_stranger p ps s ns e = ground arith
