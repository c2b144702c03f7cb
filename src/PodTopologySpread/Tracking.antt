-- ===== src/PodTopologySpread/Tracking.antt =====
-- `criticalPaths` of pkg/podtopologyspread/filtering.go while the number of one value changes: the
-- two facts that its comment names.
pub mod Changes
pub mod Least
use cozystack_scheduler.Prelude.{
  ℕ, ◌≤◌, ◌≡◌, refl, sym, ap, ◌∙◌, inl, inr, String, true, [], ◌∷◌, arith, ◌==◌, string_eq,
  Bool-cases,
}
use mathlib.Core.Path.{subst}
use cozystack_scheduler.GoMap.{GoMap, lookup, lookup_or, insert}
use cozystack_scheduler.Words.{add64}
use cozystack_scheduler.PodTopologySpread.Minimum.{
  smin, least, IsCountMap, distinct-Unseen, Apart-nil,
}
use cozystack_scheduler.GoMap.Laws.{lookup-insert}
use cozystack_scheduler.PodTopologySpread.State.{bump}
use cozystack_scheduler.PodTopologySpread.Filtering.{bump-IsCountMap}
use cozystack_scheduler.PodTopologySpread.CriticalPaths.{
  CriticalPaths, max_int32, new_critical_paths, update, update_all,
}
use cozystack_scheduler.PodTopologySpread.Tracking.Changes.{
  Tracks, update-Both, IsSmall, Fits, update-Tracks,
}
use cozystack_scheduler.PodTopologySpread.Tracking.Least.{
  number, least_other, smin-small, update_all-Tracks, IsSmallMap, number-lookup, least-split,
  least_other-insert,
}

-- The paths follow a map while only the number of the value changes.
abbrev pub Follows : String → CriticalPaths → GoMap String ℕ → Type 0
Follows x p m =
    Fits p
    × Tracks x (lookup_or max_int32 x m) (least_other max_int32 x m) p
    × IsCountMap m
    × IsSmallMap m

lookup_or-small :
    (x : String) (d : ℕ) (m : GoMap String ℕ)
    → d ≤ max_int32
    → IsSmallMap m
    → lookup_or d x m ≤ max_int32
unfolding lookup
lookup_or-small x d [] h s = h
lookup_or-small x d ((v, n) ∷ m) h s = ground (arith, lookup_or-small x d m h s.1)

Tracks-first :
    (x : String) (a b : ℕ) (p : CriticalPaths)
    → a ≤ max_int32
    → b ≤ max_int32
    → Tracks x a b p
    → p.first.match_num ≡ smin a b
Tracks-first x a b p h i t = ground arith

least_other-small :
    (b : ℕ) (x : String) (m : GoMap String ℕ)
    → b ≤ max_int32
    → IsSmallMap m
    → least_other b x m ≤ max_int32
least_other-small b x [] h s = h
least_other-small b x ((v, n) ∷ m) h (k, s) = elim (Bool-cases (v == x)) [
  | inl e ↦ rw e (least_other-small b x m h s)
  | inr e ↦ rw e (least_other-small (smin b n) x m (smin-small b n h k) s)
]

-- The first path has the least number of the map, and at most the greatest int32.
pub Follows-least :
    (x : String) (p : CriticalPaths) (m : GoMap String ℕ)
    → Follows x p m
    → p.first.match_num ≡ least max_int32 m
Follows-least x p m (f, t, c, s) =
    Tracks-first x _ _ p (lookup_or-small x max_int32 m (omega arith) s)
      (least_other-small max_int32 x m (omega arith) s) t
    ∙ ap (λ a. smin a (least_other max_int32 x m)) (sym (number-lookup max_int32 x m c.0))
    ∙ sym (least-split max_int32 x m (omega arith) s c.0)

new-Tracks : (x : String) → Tracks x max_int32 max_int32 new_critical_paths
new-Tracks x = ground arith

-- The paths that the loop over the map fills follow it.
pub update_all-Follows :
    (x : String) (m : GoMap String ℕ)
    → IsCountMap m
    → IsSmallMap m
    → Follows x (update_all new_critical_paths m) m
update_all-Follows x m c s =
    let (t, f) =
      update_all-Tracks [] m x max_int32 max_int32 new_critical_paths (omega arith) (omega arith) s
        (distinct-Unseen [] m c.0 c.1 (Apart-nil m)) (inr refl, inr refl) (omega arith, omega arith)
        (new-Tracks x) in
    (f, rw (sym (number-lookup max_int32 x m c.0)) t, c, s)

lookup_or-insert :
    (a b : ℕ) (x : String) (n : ℕ) (m : GoMap String ℕ)
    → lookup_or a x (insert x n m) ≡ lookup_or b x (insert x n m)
lookup_or-insert a b x n m =
    let self : x == x ≡ true = (string_eq.beq_iff x x).1 refl in
    rw (lookup_or, lookup-insert x x n m, self) refl

-- They do after the value's number has changed in the map, and then in the paths.
pub bump-Follows :
    (x : String) (d : ℕ) (p : CriticalPaths) (m : GoMap String ℕ)
    → IsSmallMap (bump x d m)
    → Follows x p m
    → Follows x (update p x (lookup_or 0 x (bump x d m))) (bump x d m)
bump-Follows x d p m small (f, t, c, s) =
    let a = lookup_or 0 x (bump x d m) in
    let fits : a ≤ max_int32 = lookup_or-small x 0 (bump x d m) (omega arith) small in
    let found : lookup_or max_int32 x (bump x d m) ≡ a =
      lookup_or-insert max_int32 0 x (add64 (lookup_or 0 x m) d) m in
    let others : least_other max_int32 x (bump x d m) ≡ least_other max_int32 x m =
      least_other-insert max_int32 (add64 (lookup_or 0 x m) d) x m in
    (
      update-Both IsSmall p x a (λ path (e, n). omega (arith, n, fits)) f,
      subst (λ i. Tracks x i (least_other max_int32 x (bump x d m)) (update p x a)) (sym found)
          (subst (λ b. Tracks x a b (update p x a)) (sym others)
            (update-Tracks x _ (least_other max_int32 x m) a p fits f t)),
      bump-IsCountMap x d m c,
      small,
    )
