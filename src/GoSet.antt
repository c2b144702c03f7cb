-- ===== src/GoSet.antt =====
-- k8s.io/apimachinery's `sets.Set[string]`, as used in pkg/: a list of its names, each once.
use cozystack_scheduler.Prelude.{
  ◌≡◌, refl, String, Bool, true, ◌&&◌, ◌||◌, List, [], ◌∷◌, arith, ◌==◌, string_eq, if◌then◌else◌,
  any, Bool-cases, inl, inr,
}

abbrev pub has : List String → String → Bool
has s name = any (λ n. n == name) s

-- `s.Insert(name)`
abbrev pub insert_name : List String → String → List String
insert_name s name = if has s name then s else name ∷ s

abbrev pub insert_names : List String → List String → List String
insert_names s [] = s
insert_names s (n ∷ names) = insert_names (insert_name s n) names

-- `s.Intersection(t)`
abbrev pub intersection : List String → List String → List String
intersection [] t = []
intersection (n ∷ s) t = let rest = intersection s t in if has t n then n ∷ rest else rest

-- `s.Union(t)`
abbrev pub union : List String → List String → List String
union s t = insert_names s t

pub has-insert_names :
    (s names : List String) (name : String)
    → has (insert_names s names) name ≡ (has s name || has names name)
has-insert_names s [] name = ground arith
has-insert_names s (n ∷ names) name =
    ground (arith, has-insert_names (insert_name s n) names name, string_eq.beq_iff n name)

has_congr : (s : List String) (n name : String) → n == name ≡ true → has s n ≡ has s name
has_congr s n name e = rw ((string_eq.beq_iff n name).0 e) refl

pub has-intersection :
    (s t : List String) (name : String) → has (intersection s t) name ≡ (has s name && has t name)
has-intersection [] t name = refl
has-intersection (n ∷ s) t name = elim (Bool-cases (n == name)) [
  | inl e ↦ ground (arith, has-intersection s t name, has_congr t n name e)
  | inr e ↦ ground (arith, has-intersection s t name)
]
