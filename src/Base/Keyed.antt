-- ===== src/Base/Keyed.antt =====
-- Tables whose rows have different ids.
use cursor_pulse.Base.{
  ℕ, ◌≡◌, ◌≢◌, refl, sym, Bool, ◌||◌, List, [], ◌∷◌, ◌++◌, map, arith, leb, keep, any, All,
  All-keep, All-append, ◌∙◌, Bool-cases, inl, inr,
}
use cursor_pulse.Base.Sorting.{place, sort_by, All-place, All-sort_by}

pub map-All {ℓ κ} :
    {A : Type ℓ} {B : Type κ} (f g : A → B) (xs : List A)
    → All (λ x. f x ≡ g x) xs
    → map f xs ≡ map g xs
map-All f g [] a = refl
map-All f g (x ∷ xs) a = rw (a.0, map-All f g xs a.1) refl

module _ {ℓ} {A : Type ℓ} (key : A → ℕ) (p : A → Bool) where
  any-place : (x : A) (xs : List A) → any p (place key x xs) ≡ (p x || any p xs)
  unfolding place
  any-place x [] = refl
  any-place x (y ∷ ys) = ground (arith, any-place x ys)

  pub any-sort_by : (xs : List A) → any p (sort_by key xs) ≡ any p xs
  unfolding sort_by
  any-sort_by [] = refl
  any-sort_by (x ∷ xs) = rw (any-place x (sort_by key xs), any-sort_by xs) refl

module _ {ℓ} {A : Type ℓ} (id : A → ℕ) where
  -- No id is listed twice: it is a primary key.
  abbrev pub HasKeys : List A → Type 0
  HasKeys [] = Unit
  HasKeys (x ∷ xs) = All (λ y. id y ≢ id x) xs × HasKeys xs

  pub keep-HasKeys : (p : A → Bool) (xs : List A) → HasKeys xs → HasKeys (keep p xs)
  keep-HasKeys p [] k = tt
  keep-HasKeys p (x ∷ xs) k = elim (Bool-cases (p x)) [
    | inl kept ↦ rw kept (All-keep (λ y. id y ≢ id x) p xs k.0, keep-HasKeys p xs k.1)
    | inr dropped ↦ rw dropped (keep-HasKeys p xs k.1)
  ]

  place-HasKeys :
      (key : A → ℕ) (x : A) (xs : List A)
      → All (λ y. id y ≢ id x) xs
      → HasKeys xs
      → HasKeys (place key x xs)
  unfolding place
  place-HasKeys key x [] fresh k = (tt, tt)
  place-HasKeys key x (y ∷ ys) fresh k = elim (Bool-cases (leb (key x) (key y))) [
    | inl first ↦ rw first (fresh, k)
    | inr later ↦ rw later (
      All-place key (λ z. id z ≢ id y) x ys (λ e. fresh.0 (sym e)) k.0,
      place-HasKeys key x ys fresh.1 k.1,
    )
  ]

  pub sort_by-HasKeys : (key : A → ℕ) (xs : List A) → HasKeys xs → HasKeys (sort_by key xs)
  unfolding sort_by
  sort_by-HasKeys key [] k = tt
  sort_by-HasKeys key (x ∷ xs) k =
      place-HasKeys key x (sort_by key xs) (All-sort_by key (λ y. id y ≢ id x) xs k.0)
        (sort_by-HasKeys key xs k.1)

  pub append-HasKeys :
      (x : A) (xs : List A) → HasKeys xs → All (λ y. id y ≢ id x) xs → HasKeys (xs ++ x ∷ [])
  append-HasKeys x [] keyed new = (tt, tt)
  append-HasKeys x (y ∷ ys) keyed new = (
    All-append (λ z. id z ≢ id y) ys (x ∷ []) keyed.0 (λ e. new.0 (sym e), tt),
    append-HasKeys x ys keyed.1 new.1,
  )

  All-map :
      (f : A → A) (i : ℕ) (xs : List A)
      → ((x : A) → id (f x) ≡ id x)
      → All (λ y. id y ≢ i) xs
      → All (λ y. id y ≢ i) (map f xs)
  All-map f i [] keeps a = tt
  All-map f i (x ∷ xs) keeps a = (λ e. a.0 (sym (keeps x) ∙ e), All-map f i xs keeps a.1)

  -- A change of rows that keeps their ids.
  pub map-HasKeys :
      (f : A → A) (xs : List A) → ((x : A) → id (f x) ≡ id x) → HasKeys xs → HasKeys (map f xs)
  map-HasKeys f [] keeps k = tt
  map-HasKeys f (x ∷ xs) keeps k =
      (rw (keeps x) (All-map f (id x) xs keeps k.0), map-HasKeys f xs keeps k.1)
