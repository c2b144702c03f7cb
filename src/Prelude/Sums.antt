-- ===== src/Prelude/Sums.antt =====
-- Sums of a number over a list.
use Prim.Native.Nat.{ℕ, ◌+◌}
use mathlib.Core.Path.{◌≡◌, refl, ap, ◌∙◌}
use mathlib.Core.Logic.{∥∥₁_elim}
use mathlib.Core.List.{List, [], ◌∷◌, ◌++◌, Perm, Permᴰ}
use native.Mathlib.Nat.{ℕ_set}
use native.Mathlib.Omega.{arith}

-- The sum of a number over a list.
abbrev pub sum_over {ℓ} : {A : Type ℓ} → (A → ℕ) → List A → ℕ
sum_over f [] = 0
sum_over f (x ∷ xs) = f x + sum_over f xs

sum_over-permᴰ {ℓ} :
    {A : Type ℓ} (f : A → ℕ) {xs ys : List A} → Permᴰ xs ys → sum_over f xs ≡ sum_over f ys
sum_over-permᴰ f Permᴰ.nil = refl
sum_over-permᴰ f (Permᴰ.cons e h) = omega (arith, ap f e, sum_over-permᴰ f h)
sum_over-permᴰ f (Permᴰ.swap e e') = omega (arith, ap f e, ap f e')
sum_over-permᴰ f (Permᴰ.trans h k) = sum_over-permᴰ f h ∙ sum_over-permᴰ f k

pub sum_over-zero {ℓ} :
    {A : Type ℓ} (f : A → ℕ) (xs : List A) → ((x : A) → f x ≡ 0) → sum_over f xs ≡ 0
sum_over-zero f [] h = refl
sum_over-zero f (x ∷ xs) h = omega (arith, h x, sum_over-zero f xs h)

pub sum_over-append {ℓ} :
    {A : Type ℓ} (f : A → ℕ) (xs ys : List A)
    → sum_over f (xs ++ ys) ≡ sum_over f xs + sum_over f ys
sum_over-append f [] ys = omega arith
sum_over-append f (x ∷ xs) ys = omega (arith, sum_over-append f xs ys)

pub sum_over-perm {ℓ} :
    {A : Type ℓ} (f : A → ℕ) (xs ys : List A) → Perm xs ys → sum_over f xs ≡ sum_over f ys
sum_over-perm f xs ys h = ∥∥₁_elim h (ℕ_set _ _) (sum_over-permᴰ f)
