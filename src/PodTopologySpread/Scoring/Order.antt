-- ===== src/PodTopologySpread/Scoring/Order.antt =====
-- `PreScore` (pkg/podtopologyspread/scoring.go) under any interleaving of its workers' additions.
use cozystack_scheduler.Prelude.{
  ℕ, zero, suc, ◌≡◌, refl, ap, ◌∙◌, inl, inr, String, List, [], ◌∷◌, string_eq, arith,
}
use text.Mathlib.TextEquality.{IsScalar-prop}
use mathlib.Core.List.{Perm, Permᴰ}
use mathlib.Core.Logic.{∥∥₁_elim}
use cozystack_scheduler.GoMap.{GoMap}
use cozystack_scheduler.Result.{Result-cases}
use cozystack_scheduler.Words.{add64}
use cozystack_scheduler.Float64.{Float64}
use cozystack_scheduler.Api.{Pod}
use cozystack_scheduler.Framework.{NodeInfo, Slot}
use cozystack_scheduler.PodTopologySpread.{PodTopologySpread}
use cozystack_scheduler.PodTopologySpread.State.{TopologyCount}
use cozystack_scheduler.PodTopologySpread.Scoring.{
  atomic_add, atomic_add_at, atomic_adds, count_pods, pre_score, init_pre_score_state,
  require_all_topologies, PreScoreState,
}

add64_swap : (n a b : ℕ) → add64 (add64 n a) b ≡ add64 (add64 n b) a
add64_swap n a b = omega arith

atomic_add_comm :
    (v w : String) (a b : ℕ) (m : GoMap String ℕ)
    → atomic_add v a (atomic_add w b m) ≡ atomic_add w b (atomic_add v a m)
atomic_add_comm v w a b [] = refl
atomic_add_comm v w a b ((k, n) ∷ m) = ground (arith, atomic_add_comm v w a b m, add64_swap n a b)

atomic_add_at_comm :
    (s t : TopologyCount) (i j : ℕ) (ms : List (GoMap String ℕ))
    → atomic_add_at s i (atomic_add_at t j ms) ≡ atomic_add_at t j (atomic_add_at s i ms)
atomic_add_at_comm s t i j [] = refl
atomic_add_at_comm s t zero zero (m ∷ ms) =
    ap (λ x. x ∷ ms) (atomic_add_comm s.topology_value t.topology_value s.count t.count m)
atomic_add_at_comm s t zero (suc j) (m ∷ ms) = refl
atomic_add_at_comm s t (suc i) zero (m ∷ ms) = refl
atomic_add_at_comm s t (suc i) (suc j) (m ∷ ms) = ap (λ xs. m ∷ xs) (atomic_add_at_comm s t i j ms)

atomic_adds-permᴰ :
    {xs ys : List TopologyCount} (h : Permᴰ xs ys) (ms : List (GoMap String ℕ))
    → atomic_adds xs ms ≡ atomic_adds ys ms
unfolding atomic_adds
atomic_adds-permᴰ Permᴰ.nil ms = refl
atomic_adds-permᴰ (Permᴰ.cons {a = s} {b = t} {l₂ = ys} e h) ms =
    atomic_adds-permᴰ h _ ∙ ap (λ u. atomic_adds ys (atomic_add_at u u.constraint_id ms)) e
atomic_adds-permᴰ (Permᴰ.swap {a = a} {b = b} {a' = a'} {l = l} e e') ms =
    ap (atomic_adds l) (atomic_add_at_comm b a b.constraint_id a.constraint_id ms)
    ∙ ap (λ u. atomic_adds l (atomic_add_at a a.constraint_id (atomic_add_at u u.constraint_id ms)))
        e'
    ∙ ap
        (λ u.
          atomic_adds l (atomic_add_at u u.constraint_id (atomic_add_at a' a'.constraint_id ms)))
        e
atomic_adds-permᴰ (Permᴰ.trans h k) ms = atomic_adds-permᴰ h ms ∙ atomic_adds-permᴰ k ms

counts_set : IsSet (List (GoMap String ℕ))
counts_set = hlevel (IsScalar-prop)

atomic_adds-perm :
    (xs ys : List TopologyCount) (ms : List (GoMap String ℕ))
    → Perm xs ys
    → atomic_adds xs ms ≡ atomic_adds ys ms
atomic_adds-perm xs ys ms h = ∥∥₁_elim h (counts_set _ _) (λ d. atomic_adds-permᴰ d ms)

module _ {S R Object Raw : Type 0} (pl : PodTopologySpread S R Object Raw)
    (log : Float64 → Float64) where
  -- Whatever the order in which a run makes the atomic additions, PreScore writes the state, and
  -- returns the status, that it does when the nodes are processed one after another.
  pub pre_score-order :
      (order : List TopologyCount → List TopologyCount) (slot : Slot (PreScoreState S)) (pod : Pod)
      (filtered : List (NodeInfo S))
      → ((ts : List TopologyCount) → Perm (order ts) ts)
      → pre_score pl log order slot pod filtered ≡ pre_score pl log (λ ts. ts) slot pod filtered
  unfolding pre_score
  pre_score-order order slot pod filtered h = elim (Result-cases pl.list) [
    | inr (e, l) ↦ rw l refl
    | inl (nodes, l) ↦
        elim (Result-cases
          (init_pre_score_state pl log pod filtered (require_all_topologies pl log pod))) [
            | inr (e, i) ↦ rw (pre_score, l, i) refl
            | inl (s, i) ↦
                let same : count_pods pl log order pod (require_all_topologies pl log pod) nodes s
                    ≡ count_pods pl log (λ ts. ts) pod (require_all_topologies pl log pod) nodes s =
                  ap (λ ms. record s { topology_value_to_pod_counts = ms })
                    (atomic_adds-perm _ _ _ (h _)) in
                rw (pre_score, l, i, same) refl
          ]
  ]
