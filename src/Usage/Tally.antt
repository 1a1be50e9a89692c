-- ===== src/Usage/Tally.antt =====
-- The buckets against the rows of each key.
use cursor_pulse.Base.{
  ℕ, ◌+◌, ◌≡◌, refl, sym, ap, ◌∙◌, List, [], ◌∷◌, arith, or_else, sum_by, keep, length, All,
  Bool-cases, inl, inr,
}
use cursor_pulse.Base.Dict.{
  Eq, Dict, lookup, insert, Distinct, lookup-insert, insert-Distinct, All-of_lookup,
}
use cursor_pulse.Usage.{Usage, Bucket, new_bucket, put_bucket}

-- The rows of a key, one after another.
abbrev pub count_all : (Bucket → Usage → Bucket) → Bucket → List Usage → Bucket
count_all count b [] = b
count_all count b (u ∷ rows) = count_all count (count b u) rows

-- One map on its own.
abbrev pub tally_loop :
    {K : Type 0}
    → ⦃e : Eq K⦄ → (Bucket → Usage → Bucket)
    → (Usage → K)
    → List Usage
    → Dict K Bucket
    → Dict K Bucket
tally_loop count key [] d = d
tally_loop count key (u ∷ rows) d = tally_loop count key rows (put_bucket count (key u) u d)

-- The three sums of a bucket are those of some rows.
abbrev pub IsTally : List Usage → Bucket → Type 0
IsTally rows b =
    (b.request_count ≡ length rows)
    × (b.total_tokens ≡ sum_by (λ (u : Usage). u.total_tokens) rows)
    × (b.cost_cents ≡ sum_by (λ (u : Usage). u.cost_cents) rows)

-- What both kinds of bucket do with a row.
abbrev pub IsCount : (Bucket → Usage → Bucket) → Type 0
IsCount count =
    (b : Bucket) (u : Usage)
    → ((count b u).request_count ≡ b.request_count + 1)
      × ((count b u).total_tokens ≡ b.total_tokens + u.total_tokens)
      × ((count b u).cost_cents ≡ b.cost_cents + u.cost_cents)

pub count_all-adds :
    (count : Bucket → Usage → Bucket)
    → IsCount count
    → (rows : List Usage) (b : Bucket)
    → let after = count_all count b rows in
      (after.request_count ≡ b.request_count + length rows)
      × (after.total_tokens ≡ b.total_tokens + sum_by (λ (u : Usage). u.total_tokens) rows)
      × (after.cost_cents ≡ b.cost_cents + sum_by (λ (u : Usage). u.cost_cents) rows)
count_all-adds count counts [] b = (omega arith, omega arith, omega arith)
count_all-adds count counts (u ∷ rows) b =
    let (n, t, c) = count_all-adds count counts rows (count b u) in
    let (n', t', c') = counts b u in
    (omega (arith, n, n'), omega (arith, t, t'), omega (arith, c, c'))

module _ {K : Type 0} ⦃e : Eq K⦄ (count : Bucket → Usage → Bucket) (key : Usage → K) where
  tally_loop-lookup :
      (k : K) (rows : List Usage) (d : Dict K Bucket)
      → or_else (lookup k (tally_loop count key rows d)) new_bucket
        ≡ count_all count (or_else (lookup k d) new_bucket) (keep (λ u. e.beq k (key u)) rows)
  unfolding put_bucket
  tally_loop-lookup k [] d = refl
  tally_loop-lookup k (u ∷ rows) d =
      tally_loop-lookup k rows (put_bucket count (key u) u d)
      ∙ (let v = count (or_else (lookup (key u) d) new_bucket) u in
          elim (Bool-cases (e.beq k (key u))) [
            | inl same ↦
                let at_key : k ≡ key u = (e.beq_iff k (key u)).0 same in
                rw (lookup-insert (key u) k v d, same)
                  (ap
                    (λ j.
                      count_all count (count (or_else (lookup j d) new_bucket) u)
                        (keep (λ w. e.beq k (key w)) rows))
                    (sym at_key))
            | inr other ↦ rw (lookup-insert (key u) k v d, other) refl
          ])

  tally_loop-Distinct :
      (rows : List Usage) (d : Dict K Bucket) → Distinct d → Distinct (tally_loop count key rows d)
  unfolding put_bucket
  tally_loop-Distinct [] d distinct = distinct
  tally_loop-Distinct (u ∷ rows) d distinct =
      tally_loop-Distinct rows _ (insert-Distinct (key u) _ d distinct)

  -- Every bucket counts the rows of its key.
  pub tally_loop-All :
      (rows : List Usage)
      → All
          (λ i. i.1 ≡ count_all count new_bucket (keep (λ u. e.beq i.0 (key u)) rows))
          (tally_loop count key rows [])
  tally_loop-All rows =
      All-of_lookup (λ k b. b ≡ count_all count new_bucket (keep (λ u. e.beq k (key u)) rows))
        (tally_loop count key rows []) (tally_loop-Distinct rows [] tt)
        (λ k b found. ap (λ o. or_else o new_bucket) (sym found) ∙ tally_loop-lookup k rows [])

  -- A sum over the buckets is the sum over all rows.
  module _ (field : Bucket → ℕ) (amount : Usage → ℕ) (starts : field new_bucket ≡ 0)
      (grows : (b : Bucket) (u : Usage) → field (count b u) ≡ field b + amount u) where
    insert-sum :
        (k : K) (v : Bucket) (d : Dict K Bucket)
        → sum_by (λ (i : K × Bucket). field i.1) (insert k v d)
            + field (or_else (lookup k d) new_bucket)
          ≡ sum_by (λ (i : K × Bucket). field i.1) d + field v
    insert-sum k v [] = omega (arith, starts)
    insert-sum k v ((j, b) ∷ d) = elim (Bool-cases (e.beq k j)) [
      | inl here ↦ rw here (omega arith)
      | inr later ↦ rw later (omega (arith, insert-sum k v d))
    ]

    put_bucket-sum :
        (k : K) (u : Usage) (d : Dict K Bucket)
        → sum_by (λ (i : K × Bucket). field i.1) (put_bucket count k u d)
          ≡ sum_by (λ (i : K × Bucket). field i.1) d + amount u
    unfolding put_bucket
    put_bucket-sum k u d =
        let old = or_else (lookup k d) new_bucket in
        omega (arith, insert-sum k (count old u) d, grows old u)

    pub tally_loop-sum :
        (rows : List Usage) (d : Dict K Bucket)
        → sum_by (λ (i : K × Bucket). field i.1) (tally_loop count key rows d)
          ≡ sum_by (λ (i : K × Bucket). field i.1) d + sum_by amount rows
    tally_loop-sum [] d = omega arith
    tally_loop-sum (u ∷ rows) d =
        omega
          (arith, tally_loop-sum rows (put_bucket count (key u) u d), put_bucket-sum (key u) u d)
