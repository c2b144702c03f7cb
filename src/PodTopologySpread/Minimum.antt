-- ===== src/PodTopologySpread/Minimum.antt =====
-- `criticalPaths` of pkg/podtopologyspread/filtering.go, filled from a map, against its least number.
use cozystack_scheduler.Prelude.{
  ℕ, ◌<◌, ◌≡◌, refl, sym, ap, ◌∙◌, ◌⊎◌, inl, inr, String, Bool, true, false, ◌||◌, [], ◌∷◌, arith,
  ◌==◌, string_eq, if◌then◌else◌, any, All, Bool-cases,
}
use cozystack_scheduler.GoMap.{GoMap, lookup, HasDistinctKeys, IsFresh}
use cozystack_scheduler.Words.{word, slt}
use cozystack_scheduler.PodTopologySpread.CriticalPaths.{
  CriticalPaths, max_int32, new_critical_paths, update, update_all,
}

-- The lesser of two signed numbers.
abbrev pub smin : ℕ → ℕ → ℕ
smin a b = if slt b a then b else a

-- The least number of a map, from a bound.
abbrev pub least : ℕ → GoMap String ℕ → ℕ
least bound [] = bound
least bound ((value, num) ∷ counts) = least (smin bound num) counts

abbrev is_first : CriticalPaths → String → Bool
is_first p v = v == p.first.topology_value

abbrev is_second : CriticalPaths → String → Bool
is_second p v = v == p.second.topology_value

-- A value that the paths do not hold, unless as the text of the empty paths.
or_true : (a b : Bool) → b ≡ true → (a || b) ≡ true
or_true a b h = ground arith

update-new :
    (p : CriticalPaths) (v : String) (num : ℕ)
    → num < word
    → (is_first p v ≡ true → p ≡ new_critical_paths)
    → (update p v num).first.match_num ≡ smin p.first.match_num num
unfolding update
update-new p v num small h = elim (Bool-cases (is_first p v)) [
  | inl e ↦ rw (h e) (new_lem v num small)
  | inr e ↦ ground arith
]
  where
    new_lem :
        (v : String) (num : ℕ)
        → num < word
        → (update new_critical_paths v num).first.match_num ≡ smin max_int32 num
    new_lem v num small = ground arith

-- The first path is still that of the empty paths, or holds a value of the map so far.
abbrev Known : GoMap String ℕ → CriticalPaths → Type 0
Known seen p = (p ≡ new_critical_paths) ⊎ (any (λ e. e.0 == p.first.topology_value) seen ≡ true)

-- At a value that it does not hold, the first path keeps its value or takes the new one.
update-first :
    (p : CriticalPaths) (v : String) (num : ℕ)
    → is_first p v ≡ false
    → ((update p v num).first.topology_value ≡ p.first.topology_value)
      ⊎ ((update p v num).first.topology_value ≡ v)
unfolding update
update-first p v num h = ground (arith, string_eq.beq_iff v p.second.topology_value)

ne_of_seen :
    (seen : GoMap String ℕ) (v w : String)
    → any (λ e. e.0 == v) seen ≡ false
    → any (λ e. e.0 == w) seen ≡ true
    → v == w ≡ false
ne_of_seen seen v w fresh old = elim (Bool-cases (v == w)) [
  | inr e ↦ e
  | inl e ↦ let same : any (λ e. e.0 == v) seen ≡ true = rw ((string_eq.beq_iff v w).0 e) old in cc
]

update-new_first :
    (v : String) (num : ℕ)
    → (update new_critical_paths v num ≡ new_critical_paths)
      ⊎ ((update new_critical_paths v num).first.topology_value ≡ v)
unfolding update
update-new_first v num = ground (arith, string_eq.beq_iff v "")

beq_of_eq : (v w : String) → w ≡ v → v == w ≡ true
beq_of_eq v w e = (string_eq.beq_iff v w).1 (sym e)

update-Known :
    (seen : GoMap String ℕ) (p : CriticalPaths) (v : String) (num : ℕ)
    → any (λ e. e.0 == v) seen ≡ false
    → Known seen p
    → Known ((v, num) ∷ seen) (update p v num)
update-Known seen p v num fresh (inl e) = elim (update-new_first v num) [
  | inl f ↦ inl (rw e f)
  | inr f ↦
      let g : v == (update p v num).first.topology_value ≡ true = beq_of_eq v _ (rw e f) in
      inr (rw g refl)
]
update-Known seen p v num fresh (inr old) =
    elim (update-first p v num (ne_of_seen seen v p.first.topology_value fresh old)) [
      | inl f ↦ inr (or_true _ _ (ap (λ w. any (λ e. e.0 == w) seen) f ∙ old))
      | inr f ↦
          let g : v == (update p v num).first.topology_value ≡ true = beq_of_eq v _ f in
          inr (rw g refl)
    ]

Known-first :
    (seen : GoMap String ℕ) (p : CriticalPaths) (v : String)
    → any (λ e. e.0 == v) seen ≡ false
    → Known seen p
    → is_first p v ≡ true
    → p ≡ new_critical_paths
Known-first seen p v fresh (inl e) h = e
Known-first seen p v fresh (inr old) h = cc (ne_of_seen seen v p.first.topology_value fresh old)

-- No entry of the map has a value that was seen before.
abbrev pub Unseen : GoMap String ℕ → GoMap String ℕ → Type 0
Unseen seen [] = Unit
Unseen seen ((v, num) ∷ counts) =
    (any (λ e. e.0 == v) seen ≡ false) × (num < word) × Unseen ((v, num) ∷ seen) counts

update_all-least :
    (seen counts : GoMap String ℕ) (p : CriticalPaths)
    → Known seen p
    → Unseen seen counts
    → (update_all p counts).first.match_num ≡ least p.first.match_num counts
unfolding update_all
update_all-least seen [] p k u = refl
update_all-least seen ((v, num) ∷ counts) p k u =
    update_all-least ((v, num) ∷ seen) counts (update p v num) (update-Known seen p v num u.0 k) u.2
    ∙ ap (λ b. least b counts) (update-new p v num u.1 (Known-first seen p v u.0 k))

-- What a Go map of counts guarantees: distinct values, and numbers that fit a word.
abbrev pub IsCountMap : GoMap String ℕ → Type 0
IsCountMap counts = HasDistinctKeys counts × All (λ e. e.1 < word) counts

-- No entry of `counts` has a value of `seen`.
abbrev Apart : GoMap String ℕ → GoMap String ℕ → Type 0
Apart seen counts = All (λ e. any (λ k. k.0 == e.0) seen ≡ false) counts

pub beq_comm : (v w : String) → w == v ≡ false → v == w ≡ false
beq_comm v w h = elim (Bool-cases (v == w)) [
  | inr e ↦ e
  | inl e ↦
      let swapped : w == v ≡ true = (string_eq.beq_iff w v).1 (sym ((string_eq.beq_iff v w).0 e)) in
      cc
]

or_false : (a b : Bool) → a ≡ false → b ≡ false → (a || b) ≡ false
or_false a b h k = ground arith

Apart-fresh :
    (seen counts : GoMap String ℕ) (v : String) (num : ℕ)
    → IsFresh v counts
    → Apart seen counts
    → Apart ((v, num) ∷ seen) counts
unfolding lookup
Apart-fresh seen [] v num h a = tt
Apart-fresh seen ((w, n) ∷ counts) v num h a = elim (Bool-cases (w == v)) [
  | inl e ↦ ground arith
  | inr e ↦
      let later : IsFresh v counts = ground arith in
      (or_false _ _ (beq_comm v w e) a.0, Apart-fresh seen counts v num later a.1)
]

pub distinct-Unseen :
    (seen counts : GoMap String ℕ)
    → HasDistinctKeys counts
    → All (λ e. e.1 < word) counts
    → Apart seen counts
    → Unseen seen counts
distinct-Unseen seen [] d s a = tt
distinct-Unseen seen ((v, num) ∷ counts) d s a = (
  a.0,
  s.0,
  distinct-Unseen ((v, num) ∷ seen) counts d.1 s.1 (Apart-fresh seen counts v num d.0 a.1),
)

pub Apart-nil : (counts : GoMap String ℕ) → Apart [] counts
Apart-nil [] = tt
Apart-nil (e ∷ counts) = (refl, Apart-nil counts)

-- On a map of counts (distinct values, numbers that fit a word), in whatever order its entries are
-- met, the loop that fills new critical paths leaves in the first path the least number of the map,
-- and at most the greatest int32.
pub update_all-minimum :
    (counts : GoMap String ℕ)
    → IsCountMap counts
    → (update_all new_critical_paths counts).first.match_num ≡ least max_int32 counts
update_all-minimum counts (d, s) =
    update_all-least [] counts new_critical_paths (inl refl)
      (distinct-Unseen [] counts d s (Apart-nil counts))
