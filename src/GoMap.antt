-- ===== src/GoMap.antt =====
-- Go's `map`, as used all over pkg/: a list of entries with distinct keys. Go leaves the order of
-- iteration open, so the order of the entries stands for whatever order a run meets.
pub mod Laws
use cozystack_scheduler.Prelude.{◌≡◌, Option, none, some, List, [], ◌∷◌, Eq, ◌==◌, if◌then◌else◌}

abbrev pub GoMap {ℓ κ} : Type ℓ → Type κ → Type (ℓ ⊔ κ)
GoMap K V = List (K × V)

module _ {ℓ κ} {K : Type ℓ} {V : Type κ} ⦃e : Eq K⦄ where
  -- `v, ok := m[k]`
  unfoldable pub lookup : K → GoMap K V → Option V
  lookup k [] = none
  lookup k ((j, v) ∷ m) = if j == k then some v else lookup k m

  -- `m[k] = v`
  unfoldable pub insert : K → V → GoMap K V → GoMap K V
  insert k v [] = (k, v) ∷ []
  insert k v ((j, w) ∷ m) = let rest = insert k v m in if j == k then (k, v) ∷ m else (j, w) ∷ rest

  -- `delete(m, k)`
  unfoldable pub delete : K → GoMap K V → GoMap K V
  delete k [] = []
  delete k ((j, w) ∷ m) = let rest = delete k m in if j == k then rest else (j, w) ∷ rest

  -- `for k, v := range from { to[k] = v }`
  unfoldable pub insert_all : GoMap K V → GoMap K V → GoMap K V
  insert_all [] to = to
  insert_all ((k, v) ∷ from) to = insert_all from (insert k v to)

  -- `v := m[k]`, where `d` is the zero value.
  abbrev pub lookup_or : V → K → GoMap K V → V
  lookup_or d k m = elim (lookup k m) [ none ↦ d | some v ↦ v ]

  -- The key is not in the map.
  abbrev pub IsFresh : K → GoMap K V → Type κ
  IsFresh k m = lookup k m ≡ none

  -- What Go guarantees of every map: no key stands twice.
  abbrev pub HasDistinctKeys : GoMap K V → Type κ
  HasDistinctKeys [] = Unit
  HasDistinctKeys ((k, v) ∷ m) = IsFresh k m × HasDistinctKeys m
