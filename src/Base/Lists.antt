-- ===== src/Base/Lists.antt =====
-- Lists measured by native numbers and filtered by Boolean tests: Python's len, sum, any, all, `in`
-- and list comprehensions with a condition.
use Prim.Native.Nat.{ℕ, zero, suc, ◌+◌, ◌≤◌}
use mathlib.Core.Path.{◌≡◌, refl, ap}
use mathlib.Core.Logic.{inl, inr}
use mathlib.Core.Bool.{Bool, true, false, ◌&&◌, ◌||◌}
use mathlib.Core.List.{List, [], ◌∷◌, ◌++◌, map}
use native.Mathlib.Omega.{arith}
use cursor_pulse.Base.Tests.{if◌then◌else◌, ◌==◌, Bool-cases}

module _ {ℓ} {A : Type ℓ} where
  abbrev pub length : List A → ℕ
  length [] = 0
  length (x ∷ xs) = suc (length xs)

  -- `[x for x in xs if p(x)]`
  abbrev pub keep : (A → Bool) → List A → List A
  keep p [] = []
  keep p (x ∷ xs) = let rest = keep p xs in if p x then x ∷ rest else rest

  abbrev pub any : (A → Bool) → List A → Bool
  any p [] = false
  any p (x ∷ xs) = p x || any p xs

  abbrev pub sum_by : (A → ℕ) → List A → ℕ
  sum_by f [] = 0
  sum_by f (x ∷ xs) = f x + sum_by f xs

  abbrev pub All {κ} : (A → Type κ) → List A → Type κ
  All P [] = Unit
  All P (x ∷ xs) = P x × All P xs

  pub length-append : (xs ys : List A) → length (xs ++ ys) ≡ length xs + length ys
  length-append [] ys = omega arith
  length-append (x ∷ xs) ys = omega (arith, length-append xs ys)

  length-keep-le : (p : A → Bool) (xs : List A) → length (keep p xs) ≤ length xs
  length-keep-le p [] = omega arith
  length-keep-le p (x ∷ xs) = ground (arith, length-keep-le p xs)

  -- `xs[:n]`
  abbrev pub take : ℕ → List A → List A
  take zero xs = []
  take (suc n) [] = []
  take (suc n) (x ∷ xs) = x ∷ take n xs

  pub All-take {κ} : (P : A → Type κ) (n : ℕ) (xs : List A) → All P xs → All P (take n xs)
  All-take P zero xs a = tt
  All-take P (suc n) [] a = tt
  All-take P (suc n) (x ∷ xs) a = (a.0, All-take P n xs a.1)

  abbrev pub is_nil : List A → Bool
  is_nil [] = true
  is_nil (x ∷ xs) = false

  pub any-append : (p : A → Bool) (xs ys : List A) → any p (xs ++ ys) ≡ (any p xs || any p ys)
  any-append p [] ys = refl
  any-append p (x ∷ xs) ys = ground (arith, any-append p xs ys)

  pub any-or :
      (p q r : A → Bool) (xs : List A)
      → any (λ x. (p x || q x) && r x) xs ≡ (any (λ x. p x && r x) xs || any (λ x. q x && r x) xs)
  any-or p q r [] = refl
  any-or p q r (x ∷ xs) = ground (arith, any-or p q r xs)

  pub any-and : (p q : A → Bool) (xs : List A) → any p xs ≡ false → any (λ x. p x && q x) xs ≡ false
  any-and p q [] h = refl
  any-and p q (x ∷ xs) h = ground (arith, any-and p q xs)

  pub any_of_All :
      (p : A → Bool) (xs : List A) → All (λ x. p x ≡ true) xs → is_nil xs ≡ false → any p xs ≡ true
  any_of_All p [] a h = cc
  any_of_All p (x ∷ xs) a h = rw a.0

  pub is_nil-keep : (p : A → Bool) (xs : List A) → any p xs ≡ true → is_nil (keep p xs) ≡ false
  is_nil-keep p [] h = cc
  is_nil-keep p (x ∷ xs) h = ground (arith, is_nil-keep p xs)

  pub sum_by-append : (f : A → ℕ) (xs ys : List A) → sum_by f (xs ++ ys) ≡ sum_by f xs + sum_by f ys
  sum_by-append f [] ys = omega arith
  sum_by-append f (x ∷ xs) ys = omega (arith, sum_by-append f xs ys)

  pub keep-append : (p : A → Bool) (xs ys : List A) → keep p (xs ++ ys) ≡ keep p xs ++ keep p ys
  keep-append p [] ys = refl
  keep-append p (x ∷ xs) ys = ground (arith, keep-append p xs ys)

  pub All-mono {κ μ} :
      (P : A → Type κ) (Q : A → Type μ)
      → ((x : A) → P x → Q x)
      → (xs : List A) → All P xs
      → All Q xs
  All-mono P Q f [] h = tt
  All-mono P Q f (x ∷ xs) h = (f x h.0, All-mono P Q f xs h.1)

  pub All-append {κ} : (P : A → Type κ) (xs ys : List A) → All P xs → All P ys → All P (xs ++ ys)
  All-append P [] ys hx hy = hy
  All-append P (x ∷ xs) ys hx hy = (hx.0, All-append P xs ys hx.1 hy)

  pub All-keep {κ} : (P : A → Type κ) (p : A → Bool) (xs : List A) → All P xs → All P (keep p xs)
  All-keep P p [] h = tt
  All-keep P p (x ∷ xs) h = elim (Bool-cases (p x)) [
    | inl e ↦ rw e (h.0, All-keep P p xs h.1)
    | inr e ↦ rw e (All-keep P p xs h.1)
  ]

  -- A sum over the entries that pass a test, as a sum over all.
  pub sum_by-keep :
      (f : A → ℕ) (p : A → Bool) (xs : List A)
      → sum_by f (keep p xs) ≡ sum_by (λ x. if p x then f x else 0) xs
  sum_by-keep f p [] = refl
  sum_by-keep f p (x ∷ xs) = ground (arith, sum_by-keep f p xs)

  pub sum_by-add {κ} :
      (P : A → Type κ) (f g h : A → ℕ)
      → ((x : A) → P x → f x ≡ g x + h x)
      → (xs : List A) → All P xs
      → sum_by f xs ≡ sum_by g xs + sum_by h xs
  sum_by-add P f g h split [] a = omega arith
  sum_by-add P f g h split (x ∷ xs) a = omega (arith, split x a.0, sum_by-add P f g h split xs a.1)

pub sum_by-map {ℓ κ} :
    {A : Type ℓ} {B : Type κ} (f : A → ℕ) (g : B → A) (xs : List B)
    → sum_by f (map g xs) ≡ sum_by (λ x. f (g x)) xs
sum_by-map f g [] = refl
sum_by-map f g (x ∷ xs) = ap (◌+◌ (f (g x))) (sum_by-map f g xs)

abbrev pub elem : ℕ → List ℕ → Bool
elem a [] = false
elem a (x ∷ xs) = a == x || elem a xs
