-- ===== src/PodTopologySpread/Tracking/Least.antt =====
-- The loop of `calPreFilterState` (pkg/podtopologyspread/filtering.go) over a map, where one value is followed.
use cozystack_scheduler.Prelude.{
  ℕ, ◌≤◌, ◌≡◌, refl, sym, ap, ◌∙◌, ◌⊎◌, inl, inr, String, true, false, [], ◌∷◌, arith, ◌==◌,
  string_eq, if◌then◌else◌, any, All, Bool-cases,
}
use cozystack_scheduler.GoMap.{GoMap, lookup, lookup_or, insert, HasDistinctKeys, IsFresh}
use cozystack_scheduler.PodTopologySpread.Minimum.{smin, least, Unseen, beq_comm}
use cozystack_scheduler.PodTopologySpread.CriticalPaths.{
  CriticalPath, CriticalPaths, max_int32, update, update_all,
}
use cozystack_scheduler.PodTopologySpread.Tracking.Changes.{
  Tracks, Both, update-Both, IsSmall, Fits, update-Tracks, IsLesser, IsNew, update-other,
}

-- The number of a value, and the least number of the other values.
abbrev pub number : ℕ → String → GoMap String ℕ → ℕ
number bound x [] = bound
number bound x ((v, num) ∷ counts) = number (if v == x then num else bound) x counts

abbrev pub least_other : ℕ → String → GoMap String ℕ → ℕ
least_other bound x [] = bound
least_other bound x ((v, num) ∷ counts) =
    least_other (if v == x then bound else smin bound num) x counts

-- Each path has a value that was seen, or the greatest int32.
abbrev Seen : GoMap String ℕ → CriticalPath → Type 0
Seen seen path = (any (λ e. e.0 == path.topology_value) seen ≡ true) ⊎ (path.match_num ≡ max_int32)

Seen-IsNew :
    (seen : GoMap String ℕ) (y : String) (path : CriticalPath)
    → any (λ e. e.0 == y) seen ≡ false
    → Seen seen path
    → IsNew y path
Seen-IsNew seen y path fresh (inr e) h = e
Seen-IsNew seen y path fresh (inl s) h =
    let same : y ≡ path.topology_value = (string_eq.beq_iff y path.topology_value).0 h in
    let old : any (λ e. e.0 == y) seen ≡ true = rw same s in cc

Seen-more :
    (seen : GoMap String ℕ) (v : String) (num : ℕ) (path : CriticalPath)
    → Seen seen path
    → Seen ((v, num) ∷ seen) path
Seen-more seen v num path s = ground arith

update-Seen :
    (seen : GoMap String ℕ) (p : CriticalPaths) (v : String) (num : ℕ)
    → Both (Seen seen) p
    → Both (Seen ((v, num) ∷ seen)) (update p v num)
update-Seen seen p v num (s, t) =
    update-Both (Seen ((v, num) ∷ seen)) p v num (λ path (e, n). inl (rw e refl))
      (Seen-more seen v num p.first s, Seen-more seen v num p.second t)

IsLesser-smin : (b k : ℕ) → b ≤ max_int32 → k ≤ max_int32 → IsLesser (smin b k) b k
IsLesser-smin b k h i = ground arith

pub smin-small : (b k : ℕ) → b ≤ max_int32 → k ≤ max_int32 → smin b k ≤ max_int32
smin-small b k h i = ground arith

pub update_all-Tracks :
    (seen counts : GoMap String ℕ) (x : String) (a b : ℕ) (p : CriticalPaths)
    → a ≤ max_int32
    → b ≤ max_int32
    → All (λ e. e.1 ≤ max_int32) counts
    → Unseen seen counts
    → Both (Seen seen) p
    → Fits p
    → Tracks x a b p
    → (Tracks x (number a x counts) (least_other b x counts) (update_all p counts))
      × Fits (update_all p counts)
unfolding update_all
update_all-Tracks seen [] x a b p h i s u k f t = (t, f)
update_all-Tracks seen ((v, num) ∷ counts) x a b p h i (n, s) (fresh, small, u) (k, l) f t =
    let fits : Fits (update p v num) =
      update-Both IsSmall p v num (λ path (e, m). omega (arith, n, m)) f in
    let more = update-Seen seen p v num (k, l) in
    elim (Bool-cases (v == x)) [
      | inl e ↦
          let same : x ≡ v = sym ((string_eq.beq_iff v x).0 e) in
          rw e (
            update_all-Tracks ((v, num) ∷ seen) counts x num b (update p v num) n i s u more fits
              (rw (← same) (update-Tracks x a b num p n f t)))
      | inr e ↦ rw e (
          update_all-Tracks ((v, num) ∷ seen) counts x a (smin b num) (update p v num) h
            (smin-small b num i n) s u more fits
            (update-other x v a b (smin b num) num p (beq_comm x v e) h n (IsLesser-smin b num i n)
              f (Seen-IsNew seen v p.first fresh k) (Seen-IsNew seen v p.second fresh l) t))
    ]

smin_comm : (a b : ℕ) → a ≤ max_int32 → b ≤ max_int32 → smin a b ≡ smin b a
smin_comm a b h i = ground arith

smin_assoc :
    (a b c : ℕ)
    → a ≤ max_int32
    → b ≤ max_int32
    → c ≤ max_int32
    → smin (smin a b) c ≡ smin a (smin b c)
smin_assoc a b c h i j = ground arith

-- The numbers of a map fit an int32.
abbrev pub IsSmallMap : GoMap String ℕ → Type 0
IsSmallMap m = All (λ e. e.1 ≤ max_int32) m

number-fresh : (a : ℕ) (x : String) (m : GoMap String ℕ) → IsFresh x m → number a x m ≡ a
unfolding lookup
number-fresh a x [] h = refl
number-fresh a x ((v, n) ∷ m) h = ground (arith, number-fresh a x m)

pub number-lookup :
    (a : ℕ) (x : String) (m : GoMap String ℕ) → HasDistinctKeys m → number a x m ≡ lookup_or a x m
unfolding lookup
number-lookup a x [] h = refl
number-lookup a x ((v, n) ∷ m) h = elim (Bool-cases (v == x)) [
  | inl e ↦
      let gone : IsFresh x m = rw (sym ((string_eq.beq_iff v x).0 e)) h.0 in
      rw (lookup_or, lookup, e) (number-fresh n x m gone)
  | inr e ↦ rw (lookup_or, lookup, e) (number-lookup a x m h.1)
]

least_other-fresh :
    (a b : ℕ) (x : String) (m : GoMap String ℕ)
    → a ≤ max_int32
    → b ≤ max_int32
    → IsSmallMap m
    → IsFresh x m
    → least (smin a b) m ≡ smin a (least_other b x m)
unfolding lookup
least_other-fresh a b x [] h i s f = refl
least_other-fresh a b x ((v, n) ∷ m) h i (k, s) f =
    let other : v == x ≡ false = ground arith in
    let later : IsFresh x m = ground arith in
    rw (other, smin_assoc a b n h i k)
      (least_other-fresh a (smin b n) x m h (smin-small b n i k) s later)

pub least-split :
    (b : ℕ) (x : String) (m : GoMap String ℕ)
    → b ≤ max_int32
    → IsSmallMap m
    → HasDistinctKeys m
    → least b m ≡ smin (number max_int32 x m) (least_other b x m)
unfolding lookup
least-split b x [] h s d = ground arith
least-split b x ((v, n) ∷ m) h (k, s) d = elim (Bool-cases (v == x)) [
  | inl e ↦
      let gone : IsFresh x m = rw (sym ((string_eq.beq_iff v x).0 e)) d.0 in
      rw (e, number-fresh n x m gone, smin_comm b n h k) (least_other-fresh n b x m k h s gone)
  | inr e ↦ rw e (least-split (smin b n) x m (smin-small b n h k) s d.1)
]

least_other-cons :
    (b k : ℕ) (v x : String) (m : GoMap String ℕ)
    → v == x ≡ false
    → least_other b x ((v, k) ∷ m) ≡ least_other (smin b k) x m
least_other-cons b k v x m e = rw e refl

pub least_other-insert :
    (b n : ℕ) (x : String) (m : GoMap String ℕ) → least_other b x (insert x n m) ≡ least_other b x m
unfolding insert
least_other-insert b n x [] = ap (λ t. if t then b else smin b n) ((string_eq.beq_iff x x).1 refl)
least_other-insert b n x ((v, k) ∷ m) = elim (Bool-cases (v == x)) [
  | inl e ↦
      rw (insert, e)
        (ap (λ t. least_other (if t then b else smin b n) x m) ((string_eq.beq_iff x x).1 refl))
  | inr e ↦
      let kept : insert x n ((v, k) ∷ m) ≡ (v, k) ∷ insert x n m = rw (insert, e) refl in
      ap (least_other b x) kept
      ∙ least_other-cons b k v x (insert x n m) e
      ∙ least_other-insert (smin b k) n x m
      ∙ sym (least_other-cons b k v x m e)
]
