-- ===== src/GoMap/Laws.antt =====
-- The laws of the map operations, by the value found at a key.
use mathlib.Core.List.{append-nil, append_assoc}
use cozystack_scheduler.Prelude.{
  ◌≡◌, refl, sym, ◌∙◌, Option, none, some, [], ◌∷◌, arith, Eq, ◌==◌, if◌then◌else◌, is_empty, false,
  ◌++◌, All,
}
use cozystack_scheduler.GoMap.{GoMap, lookup, insert, delete, insert_all, HasDistinctKeys, IsFresh}

abbrev pub or_else {ℓ} : {A : Type ℓ} → Option A → Option A → Option A
or_else none b = b
or_else (some a) b = some a

module _ {ℓ κ} {K : Type ℓ} {V : Type κ} ⦃e : Eq K⦄ where
  pub lookup-insert :
      (k j : K) (new : V) (m : GoMap K V)
      → lookup j (insert k new m) ≡ (if k == j then some new else lookup j m)
  unfolding lookup insert
  lookup-insert k j new [] = refl
  lookup-insert k j new ((i, old) ∷ m) =
      ground (e.beq_iff k j, e.beq_iff i k, e.beq_iff i j, lookup-insert k j new m, arith)

  pub lookup-delete :
      (k j : K) (m : GoMap K V) → lookup j (delete k m) ≡ (if k == j then none else lookup j m)
  unfolding lookup delete
  lookup-delete k j [] = ground arith
  lookup-delete k j ((i, w) ∷ m) =
      ground (arith, e.beq_iff k j, e.beq_iff i k, e.beq_iff i j, lookup-delete k j m)

  pub insert-HasDistinctKeys :
      (k : K) (v : V) (m : GoMap K V) → HasDistinctKeys m → HasDistinctKeys (insert k v m)
  unfolding lookup insert
  insert-HasDistinctKeys k v [] h = (refl, tt)
  insert-HasDistinctKeys k v ((i, w) ∷ m) h =
      ground (
        arith,
        e.beq_iff i k,
        e.beq_iff k i,
        lookup-insert k i v m,
        insert-HasDistinctKeys k v m h.1,
      )

  pub delete-HasDistinctKeys :
      (k : K) (m : GoMap K V) → HasDistinctKeys m → HasDistinctKeys (delete k m)
  unfolding lookup delete
  delete-HasDistinctKeys k [] h = tt
  delete-HasDistinctKeys k ((i, w) ∷ m) h =
      ground (arith, lookup-delete k i m, delete-HasDistinctKeys k m h.1)

  -- After a copy a key has the copied value, and what it had before where nothing was copied.
  pub lookup-insert_all :
      (j : K) (from to : GoMap K V)
      → HasDistinctKeys from
      → lookup j (insert_all from to) ≡ or_else (lookup j from) (lookup j to)
  unfolding lookup insert_all
  lookup-insert_all j [] to h = refl
  lookup-insert_all j ((k, v) ∷ from) to h =
      ground
        (arith, e.beq_iff k j, lookup-insert k j v to, lookup-insert_all j from (insert k v to) h.1)

  pub insert_all-HasDistinctKeys :
      (from to : GoMap K V) → HasDistinctKeys to → HasDistinctKeys (insert_all from to)
  unfolding insert_all
  insert_all-HasDistinctKeys [] to h = h
  insert_all-HasDistinctKeys ((k, v) ∷ from) to h =
      insert_all-HasDistinctKeys from (insert k v to) (insert-HasDistinctKeys k v to h)

  pub is_empty-insert : (k : K) (v : V) (m : GoMap K V) → is_empty (insert k v m) ≡ false
  unfolding insert
  is_empty-insert k v [] = refl
  is_empty-insert k v ((i, w) ∷ m) = ground arith

  insert-append :
      (k : K) (v : V) (m : GoMap K V) → lookup k m ≡ none → insert k v m ≡ m ++ (k, v) ∷ []
  unfolding lookup insert
  insert-append k v [] h = refl
  insert-append k v ((j, w) ∷ m) h = ground (arith, insert-append k v m)

  lookup-append :
      (j k : K) (v : V) (m : GoMap K V)
      → k == j ≡ false
      → lookup j m ≡ none
      → lookup j (m ++ (k, v) ∷ []) ≡ none
  unfolding lookup
  lookup-append j k v [] d h = ground arith
  lookup-append j k v ((i, w) ∷ m) d h = ground (arith, lookup-append j k v m d)

  -- No key of the first map is in the second.
  abbrev Apart : GoMap K V → GoMap K V → Type κ
  Apart from to = All (λ e. IsFresh e.0 to) from

  Apart-append :
      (k : K) (v : V) (from to : GoMap K V)
      → IsFresh k from
      → Apart from to
      → Apart from (to ++ (k, v) ∷ [])
  unfolding lookup
  Apart-append k v [] to h d = tt
  Apart-append k v ((j, w) ∷ from) to h (f, d) =
      let other : k == j ≡ false = ground (arith, e.beq_iff k j, e.beq_iff j k) in
      let later : IsFresh k from = ground arith in
      (lookup-append j k v to other f, Apart-append k v from to later d)

  insert_all-append :
      (from to : GoMap K V) → HasDistinctKeys from → Apart from to → insert_all from to ≡ to ++ from
  unfolding insert_all
  insert_all-append [] to h d = sym (append-nil to)
  insert_all-append ((k, v) ∷ from) to (f, h) (g, d) =
      rw (insert-append k v to g)
        (insert_all-append from _ h (Apart-append k v from to f d) ∙ append_assoc to _ from)

  Apart-nil : (m : GoMap K V) → Apart m []
  unfolding lookup
  Apart-nil [] = tt
  Apart-nil (e ∷ m) = (refl, Apart-nil m)

  -- A copy of a map has its entries.
  pub insert_all-same : (m : GoMap K V) → HasDistinctKeys m → insert_all m [] ≡ m
  insert_all-same m h = insert_all-append m [] h (Apart-nil m)
