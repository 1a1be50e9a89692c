-- ===== src/Base/Sorting.antt =====
-- Python's stable sort by a numeric key, as insertion from the right, and SQL's ORDER BY.
use cursor_pulse.Base.{
  ℕ, suc, ◌+◌, ◌≤◌, ◌≡◌, refl, List, [], ◌∷◌, arith, leb, if◌then◌else◌, length, sum_by, All,
  Bool-cases, inl, inr, leb→le,
}

module _ {ℓ} {A : Type ℓ} (key : A → ℕ) where
  -- Before the first entry with the same or a larger key.
  unfoldable pub place : A → List A → List A
  place x [] = x ∷ []
  place x (y ∷ ys) = if leb (key x) (key y) then x ∷ y ∷ ys else y ∷ place x ys

  unfoldable pub sort_by : List A → List A
  unfolding place
  sort_by [] = []
  sort_by (x ∷ xs) = place x (sort_by xs)

  -- The keys never fall along the list.
  abbrev pub IsSorted : List A → Type 0
  IsSorted [] = Unit
  IsSorted (x ∷ xs) = All (λ y. key x ≤ key y) xs × IsSorted xs

  All-le_mono : (m n : ℕ) (xs : List A) → m ≤ n → All (λ y. n ≤ key y) xs → All (λ y. m ≤ key y) xs
  All-le_mono m n [] h a = tt
  All-le_mono m n (x ∷ xs) h a = (omega arith, All-le_mono m n xs h a.1)

  pub All-place {κ} : (P : A → Type κ) (x : A) (xs : List A) → P x → All P xs → All P (place x xs)
  unfolding place
  All-place P x [] p a = (p, tt)
  All-place P x (y ∷ ys) p a = elim (Bool-cases (leb (key x) (key y))) [
    | inl e ↦ rw e (p, a)
    | inr e ↦ rw e (a.0, All-place P x ys p a.1)
  ]

  pub All-sort_by {κ} : (P : A → Type κ) (xs : List A) → All P xs → All P (sort_by xs)
  unfolding sort_by
  All-sort_by P [] a = tt
  All-sort_by P (x ∷ xs) a = All-place P x (sort_by xs) a.0 (All-sort_by P xs a.1)

  All-of_place {κ} : (P : A → Type κ) (x : A) (xs : List A) → All P (place x xs) → P x × All P xs
  unfolding place
  All-of_place P x [] a = a
  All-of_place P x (y ∷ ys) a = elim (Bool-cases (leb (key x) (key y))) [
    | inl e ↦ rw e at a
    | inr e ↦
        let b : P y × All P (place x ys) = rw e at a in
        let c = All-of_place P x ys b.1 in (c.0, (b.0, c.1))
  ]

  pub All-of_sort_by {κ} : (P : A → Type κ) (xs : List A) → All P (sort_by xs) → All P xs
  unfolding sort_by
  All-of_sort_by P [] a = tt
  All-of_sort_by P (x ∷ xs) a =
      let b = All-of_place P x (sort_by xs) a in (b.0, All-of_sort_by P xs b.1)

  place-IsSorted : (x : A) (xs : List A) → IsSorted xs → IsSorted (place x xs)
  unfolding place
  place-IsSorted x [] s = (tt, tt)
  place-IsSorted x (y ∷ ys) s = elim (Bool-cases (leb (key x) (key y))) [
    | inl e ↦
        let le : key x ≤ key y = leb→le (key x) (key y) e in
        rw e ((le, All-le_mono (key x) (key y) ys le s.0), s)
    | inr e ↦ rw e (All-place (λ z. key y ≤ key z) x ys (ground arith) s.0, place-IsSorted x ys s.1)
  ]

  pub sort_by-IsSorted : (xs : List A) → IsSorted (sort_by xs)
  unfolding sort_by
  sort_by-IsSorted [] = tt
  sort_by-IsSorted (x ∷ xs) = place-IsSorted x (sort_by xs) (sort_by-IsSorted xs)

  sum_by-place : (f : A → ℕ) (x : A) (xs : List A) → sum_by f (place x xs) ≡ f x + sum_by f xs
  unfolding place
  sum_by-place f x [] = refl
  sum_by-place f x (y ∷ ys) = ground (arith, sum_by-place f x ys)

  -- Any measure summed over the list is kept: nothing is lost or made up.
  pub sum_by-sort_by : (f : A → ℕ) (xs : List A) → sum_by f (sort_by xs) ≡ sum_by f xs
  unfolding sort_by
  sum_by-sort_by f [] = refl
  sum_by-sort_by f (x ∷ xs) = omega (arith, sum_by-place f x (sort_by xs), sum_by-sort_by f xs)

  length-place : (x : A) (xs : List A) → length (place x xs) ≡ suc (length xs)
  unfolding place
  length-place x [] = refl
  length-place x (y ∷ ys) = ground (arith, length-place x ys)

  pub length-sort_by : (xs : List A) → length (sort_by xs) ≡ length xs
  unfolding sort_by
  length-sort_by [] = refl
  length-sort_by (x ∷ xs) = omega (arith, length-place x (sort_by xs), length-sort_by xs)
