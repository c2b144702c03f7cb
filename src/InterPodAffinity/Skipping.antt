-- ===== src/InterPodAffinity/Skipping.antt =====
-- What Skip of `PreFilter` (pkg/interpodaffinity/filtering.go) means for `Filter`.
use cozystack_scheduler.Prelude.{
  ◌≡◌, ◌≢◌, ◌⊎◌, refl, ap, ◌∙◌, true, List, inl, inr, if◌then◌else◌, arith,
}
use cozystack_scheduler.Result.{Error, wrap, Result, ok, err, traverse, Result-cases}
use cozystack_scheduler.Merge.InterPod.{merge_inter_pod_affinity}
use cozystack_scheduler.Api.{Pod}
use cozystack_scheduler.Framework.{
  PodInfo, NodeInfo, Status, success, skip, unschedulable_and_unresolvable, error_status, Slot,
  holds, Check, pass, stop, ◌>>=◌, or_status,
}
use cozystack_scheduler.InterPodAffinity.{PreFilterState, InterPodAffinity}
use cozystack_scheduler.InterPodAffinity.Plugin.{
  state_of, run_filter, is_unconstrained, incoming_pod_info, compute_state, pre_filter,
  replace_required_terms, merge_affinity_term_namespaces_if_not_empty,
}
use cozystack_scheduler.InterPodAffinity.Filtering.{is_unconstrained-success}

-- A step that may stop, but not with Skip.
module _ {A B : Type 0} where
  passes :
      (f : Error → Status) (r : Result A) (k : A → Check B)
      → ((e : Error) → f e ≢ skip)
      → (or_status f r >>= k) ≡ stop skip
      → (a : A) × (r ≡ ok a) × (k a ≡ stop skip)
  passes f (ok a) k h e = (a, refl, e)
  passes f (err e') k h e = elim (h e' (cc e)) [ ]

Check-cases : {A : Type 0} (c : Check A) → ((a : A) × (c ≡ pass a)) ⊎ ((s : Status) × (c ≡ stop s))
Check-cases (pass a) = inl (a, refl)
Check-cases (stop s) = inr (s, refl)

stop-eq : {A : Type 0} (c : Check A) (s t : Status) → c ≡ stop s → c ≡ stop t → s ≡ t
stop-eq c s t h k = cc (h, k)

both_read :
    {A B C : Type 0} (r : Result A) (r' : Result B) (f : A → B → C)
    → (do a ← or_status error_status r; b ← or_status error_status r'; pass (f a b)) ≢ stop skip
both_read (ok a) (ok b) f h = cc h
both_read (ok a) (err e) f h = cc h
both_read (err e) r' f h = cc h

error_status-ne-skip : (g : Error → Error) (e : Error) → error_status (g e) ≢ skip
error_status-ne-skip g e h = cc

unschedulable-ne-skip : (e : Error) → unschedulable_and_unresolvable "parsing pod" ≢ skip
unschedulable-ne-skip e h = cc

module _ {S Object Raw : Type 0} (pl : InterPodAffinity S Object Raw) where
  -- Parsing and merging the terms does not stop with Skip.
  incoming_pod_info-ne-skip : (pod : Pod) → incoming_pod_info pl pod ≢ stop skip
  unfolding incoming_pod_info
  incoming_pod_info-ne-skip pod h = elim (Result-cases (pl.new_pod_info pod)) [
    | inr (e, q) ↦ cc (rw (incoming_pod_info, q) at h)
    | inl (info, q) ↦ elim (Result-cases (merge_inter_pod_affinity pl.parser pl.merger pod)) [
      | inr (e, q') ↦ cc (rw (incoming_pod_info, q, q') at h)
      | inl (merged, q') ↦
          let replaced = replace_required_terms pl info merged in
          let read = traverse (merge_affinity_term_namespaces_if_not_empty pl) in
          both_read (read replaced.required_affinity_terms)
            (read replaced.required_anti_affinity_terms) _ (rw (incoming_pod_info, q, q') at h)
    ]
  ]

  compute_state-skip :
      (claimed : List (NodeInfo S) → List (NodeInfo S)) (slot : Slot (PreFilterState S)) (pod : Pod)
      → (pre_filter pl claimed slot pod).1 ≡ skip
      → (compute_state pl claimed pod ≡ stop skip) × ((pre_filter pl claimed slot pod).0 ≡ slot)
  unfolding pre_filter
  compute_state-skip claimed slot pod h = elim (Check-cases (compute_state pl claimed pod)) [
    | inl (s, e) ↦ let absurd : success ≡ skip = rw (pre_filter, e) at h in cc
    | inr (s, e) ↦
        let same : s ≡ skip = rw (pre_filter, e) at h in (e ∙ ap stop same, rw (pre_filter, e) refl)
  ]

  unconstrained :
      (s : PreFilterState S)
      → (if is_unconstrained pl s then stop skip else pass s) ≡ stop skip
      → is_unconstrained pl s ≡ true
  unconstrained s h = ground arith

  -- Where PreFilter returns Skip, it writes no state, its two lists of nodes and the pod's terms are
  -- there without an error, and Filter on the state of the counts from them would pass every node.
  pub pre_filter-skip :
      (claimed : List (NodeInfo S) → List (NodeInfo S)) (slot : Slot (PreFilterState S)) (pod : Pod)
      → (pre_filter pl claimed slot pod).1 ≡ skip
      → ((pre_filter pl claimed slot pod).0 ≡ slot)
        × ((all_nodes : List (NodeInfo S)) × (req : List (NodeInfo S)) × (info : PodInfo S)
            × (pl.list ≡ ok all_nodes)
            × (pl.have_pods_with_required_anti_affinity_list ≡ ok req)
            × (incoming_pod_info pl pod ≡ pass info)
            × ((n : NodeInfo S)
                → run_filter pl (holds (state_of pl claimed pod info all_nodes req)) n ≡ success))
  unfolding compute_state run_filter
  pre_filter-skip claimed slot pod h =
      let (skipped, kept) = compute_state-skip claimed slot pod h in
      let (all_nodes, e, h1) =
        passes _ pl.list _ (error_status-ne-skip (wrap "failed to list NodeInfos")) skipped in
      let (req, e', h2) =
        passes _ pl.have_pods_with_required_anti_affinity_list _
          (error_status-ne-skip (wrap "failed to list NodeInfos with pods with affinity")) h1 in
      elim (Check-cases (incoming_pod_info pl pod)) [
        | inr (s, e2) ↦
            let same : s ≡ skip = stop-eq _ s skip refl (rw e2 at h2) in
            elim (incoming_pod_info-ne-skip pod (e2 ∙ ap stop same)) [ ]
        | inl (info, e2) ↦
            let s = state_of pl claimed pod info all_nodes req in
            let last : (if is_unconstrained pl s then stop skip else pass s) ≡ stop skip =
              rw e2 at h2 in
            (
              kept,
              (
                all_nodes,
                req,
                info,
                e,
                e',
                e2,
                λ n. is_unconstrained-success pl s n.node (unconstrained s last),
              ),
            )
      ]
