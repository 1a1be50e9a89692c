-- ===== src/Cache/Bound.antt =====
-- The hard limit on the number of entries.
use cursor_pulse.Base.{
  ℕ, zero, suc, ◌+◌, ◌-◌, ◌≤◌, ◌<◌, ◌≡◌, ◌≢◌, refl, ap, true, false, not, [], ◌∷◌, none, some,
  arith, ◌==◌, if◌then◌else◌, is_some, keep, length, take, All, All-take, Bool-cases, inl, inr, ltb,
  ltb-false,
}
use cursor_pulse.Base.Dict.{
  lookup, insert, erase, nat_eq, Distinct, insert-Distinct, erase-Distinct, lookup-insert,
  keep-Distinct, lookup-erase_ne,
}
use cursor_pulse.Base.Keyed.{HasKeys, sort_by-HasKeys}
use cursor_pulse.Base.Sorting.{sort_by, All-sort_by, length-sort_by}
use cursor_pulse.Cache.{Entries, stored_at, pop_all, sweep_locked, put, get, is_stale}

module _ {ℓ} {V : Type ℓ} where
  abbrev key_of : ℕ × (ℕ × V) → ℕ
  key_of e = e.0

  lookup-none : (k : ℕ) (d : Entries V) → lookup k d ≡ none → All (λ e. key_of e ≢ k) d
  lookup-none k [] h = tt
  lookup-none k ((j, w) ∷ d) h = (ground arith, lookup-none k d (ground arith))

  Distinct-HasKeys : (d : Entries V) → Distinct d → HasKeys key_of d
  Distinct-HasKeys [] h = tt
  Distinct-HasKeys ((j, w) ∷ d) h = (lookup-none j d h.0, Distinct-HasKeys d h.1)

  lookup-cons :
      (e : ℕ × (ℕ × V)) (d es : Entries V)
      → All (λ f. is_some (lookup (key_of f) d) ≡ true) es
      → All (λ f. is_some (lookup (key_of f) (e ∷ d)) ≡ true) es
  lookup-cons e d [] a = tt
  lookup-cons e d (f ∷ es) a = (ground (arith, a.0), lookup-cons e d es a.1)

  lookup-All : (d : Entries V) → All (λ e. is_some (lookup (key_of e) d) ≡ true) d
  lookup-All [] = tt
  lookup-All (e ∷ d) = (ground arith, lookup-cons e d d (lookup-All d))

  length-erase :
      (k : ℕ) (d : Entries V) → is_some (lookup k d) ≡ true → suc (length (erase k d)) ≡ length d
  length-erase k [] h = cc
  length-erase k ((j, w) ∷ d) h = ground (arith, length-erase k d)

  lookup-erased :
      (k : ℕ) (d es : Entries V)
      → All (λ f. key_of f ≢ k) es
      → All (λ f. is_some (lookup (key_of f) d) ≡ true) es
      → All (λ f. is_some (lookup (key_of f) (erase k d)) ≡ true) es
  lookup-erased k d [] other a = tt
  lookup-erased k d (f ∷ es) other a = (
    rw (lookup-erase_ne k (key_of f) d (ground (arith, other.0))) a.0,
    lookup-erased k d es other.1 a.1,
  )

  length-pop_all :
      (es d : Entries V)
      → HasKeys key_of es
      → All (λ e. is_some (lookup (key_of e) d) ≡ true) es
      → length (pop_all es d) + length es ≡ length d
  unfolding pop_all
  length-pop_all [] d keyed a = omega arith
  length-pop_all ((k, w) ∷ es) d keyed a = omega (
    arith,
    length-erase k d a.0,
    length-pop_all es (erase k d) keyed.1 (lookup-erased k d es keyed.0 a.1),
  )

  length-take : (n : ℕ) (es : Entries V) → n ≤ length es → length (take n es) ≡ n
  length-take zero es le = refl
  length-take (suc n) [] le = absurd (omega arith)
  length-take (suc n) (e ∷ es) le = ap suc (length-take n es (omega arith))

  take-HasKeys : (n : ℕ) (es : Entries V) → HasKeys key_of es → HasKeys key_of (take n es)
  take-HasKeys zero es keyed = tt
  take-HasKeys (suc n) [] keyed = tt
  take-HasKeys (suc n) (e ∷ es) keyed =
      (All-take (λ f. key_of f ≢ key_of e) n es keyed.0, take-HasKeys n es keyed.1)

  -- Popping the oldest entries beyond the limit leaves the limit.
  length-pop_oldest :
      (n : ℕ) (d : Entries V)
      → Distinct d
      → length (pop_all (take (length d - n) (sort_by stored_at d)) d) ≤ n
  length-pop_oldest n d distinct =
      let found = λ (e : ℕ × (ℕ × V)). is_some (lookup (key_of e) d) ≡ true in
      let oldest = sort_by stored_at d in
      let popped =
        length-pop_all (take (length d - n) oldest) d
          (take-HasKeys (length d - n) oldest
            (sort_by-HasKeys key_of stored_at d (Distinct-HasKeys d distinct)))
          (All-take found (length d - n) oldest (All-sort_by stored_at found d (lookup-All d))) in
      let taken = length-take (length d - n) oldest (omega (arith, length-sort_by stored_at d)) in
      omega (arith, popped, taken)

  length-sweep_locked :
      (n ttl now : ℕ) (d : Entries V) → Distinct d → length (sweep_locked n ttl now d) ≤ n
  unfolding sweep_locked
  length-sweep_locked n ttl now d distinct = elim (Bool-cases (ltb 0 ttl)) [
    | inl sweeps ↦
        let fresh = keep (λ e. not (is_stale ttl now e)) d in
        rw sweeps
          (length-pop_oldest n fresh (keep-Distinct (λ e. not (is_stale ttl now e)) d distinct))
    | inr all ↦ rw all (length-pop_oldest n d distinct)
  ]

  pop_all-Distinct : (es d : Entries V) → Distinct d → Distinct (pop_all es d)
  unfolding pop_all
  pop_all-Distinct [] d distinct = distinct
  pop_all-Distinct ((k, w) ∷ es) d distinct =
      pop_all-Distinct es (erase k d) (erase-Distinct k d distinct)

  pop_oldest-Distinct :
      (n : ℕ) (d : Entries V)
      → Distinct d
      → Distinct (pop_all (take (length d - n) (sort_by stored_at d)) d)
  pop_oldest-Distinct n d distinct =
      pop_all-Distinct (take (length d - n) (sort_by stored_at d)) d distinct

  sweep_locked-Distinct :
      (n ttl now : ℕ) (d : Entries V) → Distinct d → Distinct (sweep_locked n ttl now d)
  unfolding sweep_locked
  sweep_locked-Distinct n ttl now d distinct = elim (Bool-cases (ltb 0 ttl)) [
    | inl sweeps ↦ rw sweeps (
        pop_oldest-Distinct n (keep (λ e. not (is_stale ttl now e)) d)
          (keep-Distinct (λ e. not (is_stale ttl now e)) d distinct))
    | inr all ↦ rw all (pop_oldest-Distinct n d distinct)
  ]

  -- On entries that name each key once, `put` leaves entries that do, and at most as many as the limit,
  -- whatever was in the cache, and whatever the time to live and the clock.
  pub put_bound :
      (max_entries : ℕ) (entries : Entries V) (key : ℕ) (value : V) (ttl now swept : ℕ)
      → Distinct entries
      → Distinct (put max_entries entries key value ttl now swept)
        × (length (put max_entries entries key value ttl now swept) ≤ max_entries)
  unfolding put
  put_bound max_entries entries key value ttl now swept distinct =
      let stored = insert key (now, value) entries in
      let one_each = insert-Distinct key (now, value) entries distinct in
      elim (Bool-cases (ltb max_entries (length stored))) [
        | inl over ↦ rw over (
          sweep_locked-Distinct max_entries ttl swept stored one_each,
          length-sweep_locked max_entries ttl swept stored one_each,
        )
        | inr within ↦ rw within (one_each, ltb-false max_entries (length stored) within)
      ]

  length-insert : (k : ℕ) (w : ℕ × V) (d : Entries V) → length (insert k w d) ≤ suc (length d)
  length-insert k w [] = omega arith
  length-insert k w ((j, v) ∷ d) = ground (arith, length-insert k w d)

  -- What `put` stores in a cache with fewer entries than its limit, `get` returns as long as it is not
  -- older than the time to live, and not afterwards; with a time to live of 0 `get` returns nothing.
  pub get-put :
      (max_entries : ℕ) (entries : Entries V) (key : ℕ) (value : V) (ttl ttl' now swept later : ℕ)
      → length entries < max_entries
      → (get (put max_entries entries key value ttl now swept) key ttl' later).0
        ≡ (if ttl' == 0 then none else if ltb (now + ttl') later then none else some value)
  unfolding put get
  get-put max_entries entries key value ttl ttl' now swept later room =
      let still : ltb max_entries (length (insert key (now, value) entries)) ≡ false =
        ground (arith, length-insert key (now, value) entries) in
      let found : lookup key (insert key (now, value) entries) ≡ some (now, value) =
        ground (arith, lookup-insert key key (now, value) entries) in
      elim (Bool-cases (ttl' == 0)) [
        | inl never ↦ rw never refl
        | inr some_time ↦ elim (Bool-cases (ltb (now + ttl') later)) [
          | inl stale ↦ rw (still, some_time, found, stale, get) refl
          | inr fresh ↦ rw (still, some_time, found, fresh, get) refl
        ]
      ]
