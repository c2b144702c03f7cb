-- ===== src/Result.antt =====
-- Go's `(value, error)` results. A nil pointer beside a nil error is `ok none`.
use cozystack_scheduler.Prelude.{◌≡◌, refl, ◌⊎◌, inl, inr, String, List, [], ◌∷◌, ◌++◌, arith}

-- What an error says: the text of a foreign error, and `fmt.Errorf` around an error, with the
-- format's text and, in the second, the name that it quotes.
pub data Error : Type 0 where
  external : String → Error
  wrap : String → Error → Error
  wrap_named : String → String → Error → Error

pub data Result {ℓ} (A : Type ℓ) : Type ℓ where
  ok : A → Result A
  err : Error → Result A

infixl 5 ◌>>=◌
abbrev pub ◌>>=◌ {ℓ κ} : {A : Type ℓ} {B : Type κ} → Result A → (A → Result B) → Result B
ok a >>= f = f a
err e >>= f = err e

-- `if err != nil { return nil, fmt.Errorf("…: %w", err) }`
abbrev pub map_error {ℓ} : {A : Type ℓ} → (Error → Error) → Result A → Result A
map_error f (ok a) = ok a
map_error f (err e) = err (f e)

-- A loop that appends each result, and stops at the first error.
abbrev pub traverse {ℓ κ} : {A : Type ℓ} {B : Type κ} → (A → Result B) → List A → Result (List B)
traverse f [] = ok []
traverse f (x ∷ xs) = do b ← f x; bs ← traverse f xs; ok (b ∷ bs)

-- Both results, the first error first.
abbrev pub join_append {ℓ} : {A : Type ℓ} → Result (List A) → Result (List A) → Result (List A)
join_append r s = do xs ← r; ys ← s; ok (xs ++ ys)

pub Result-cases {ℓ} :
    {A : Type ℓ} (r : Result A) → ((a : A) × (r ≡ ok a)) ⊎ ((e : Error) × (r ≡ err e))
Result-cases (ok a) = inl (a, refl)
Result-cases (err e) = inr (e, refl)

pub traverse-append {ℓ κ} :
    {A : Type ℓ} {B : Type κ} (f : A → Result B) (xs ys : List A)
    → traverse f (xs ++ ys) ≡ join_append (traverse f xs) (traverse f ys)
traverse-append f [] ys = ground arith
traverse-append f (x ∷ xs) ys = ground (arith, traverse-append f xs ys)
