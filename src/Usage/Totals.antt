-- ===== src/Usage/Totals.antt =====
-- What a rollup says of its rows.
use cursor_pulse.Base.{ℕ, ◌≡◌, refl, List, [], ◌∷◌, Option, arith, sum_by, keep, All, All-mono}
use cursor_pulse.Base.Dict.{Eq, Dict, nat_eq}
use cursor_pulse.Base.Sorting.{sort_by, All-sort_by, sum_by-sort_by}
use cursor_pulse.Base.Text.{text_key}
use cursor_pulse.Loans.{Credential}
use cursor_pulse.Usage.{
  Usage, Bucket, new_bucket, count_row, count_item, Maps, account_key, model_key, day_key,
  rollup_loop, rollup_proxy_usages,
}
use cursor_pulse.Usage.Tally.{
  IsTally, count_all, count_all-adds, IsCount, tally_loop, tally_loop-All, tally_loop-sum,
}

abbrev pub tokens_of : Usage → ℕ
tokens_of u = u.total_tokens

abbrev pub cents_of : Usage → ℕ
cents_of u = u.cost_cents

-- The same sums over the buckets of a list.
abbrev pub cents_in : {K : Type 0} → Dict K Bucket → ℕ
cents_in = sum_by (λ i. i.1.cost_cents)

abbrev pub tokens_in : {K : Type 0} → Dict K Bucket → ℕ
tokens_in = sum_by (λ i. i.1.total_tokens)

module _ (creds : List Credential) (day : ℕ → Option ℕ) where
  rollup_loop-maps :
      (rows : List Usage) (m : Maps)
      → ((rollup_loop creds day rows m).by_account
          ≡ tally_loop count_row (account_key creds) rows m.by_account)
        × ((rollup_loop creds day rows m).by_model ≡ tally_loop count_row model_key rows m.by_model)
        × ((rollup_loop creds day rows m).by_day
            ≡ tally_loop count_item (day_key day) rows m.by_day)
  unfolding rollup_loop
  rollup_loop-maps [] m = (refl, refl, refl)
  rollup_loop-maps (u ∷ rows) m = rollup_loop-maps rows _

count_row-IsCount : IsCount count_row
unfolding count_row
count_row-IsCount b u = (refl, refl, refl)

count_item-IsCount : IsCount count_item
unfolding count_item count_row
count_item-IsCount b u = (refl, refl, refl)

module _ (count : Bucket → Usage → Bucket) (counts : IsCount count) where
  count_all-IsTally :
      (rows : List Usage) (b : Bucket) → b ≡ count_all count new_bucket rows → IsTally rows b
  count_all-IsTally rows b e =
      let (n, t, c) = count_all-adds count counts rows new_bucket in
      rw e (omega (arith, n), omega (arith, t), omega (arith, c))

  module _ {K : Type 0} ⦃e : Eq K⦄ (key : Usage → K) (order : K × Bucket → ℕ)
      (rows : List Usage) where
    abbrev sorted : Dict K Bucket
    sorted = sort_by order (tally_loop count key rows [])

    sorted-All : All (λ i. IsTally (keep (λ u. e.beq i.0 (key u)) rows) i.1) sorted
    sorted-All = All-sort_by order _ _ (
        All-mono _ _ (λ i h. count_all-IsTally (keep (λ u. e.beq i.0 (key u)) rows) i.1 h)
          (tally_loop count key rows []) (tally_loop-All count key rows))

    sorted-cents : cents_in sorted ≡ sum_by cents_of rows
    sorted-cents =
        let kept = sum_by-sort_by order (λ i. i.1.cost_cents) (tally_loop count key rows []) in
        let summed =
          tally_loop-sum count key (λ b. b.cost_cents) cents_of refl (λ b u. (counts b u).2) rows
            [] in
        omega (arith, kept, summed)

    sorted-tokens : tokens_in sorted ≡ sum_by tokens_of rows
    sorted-tokens =
        let kept = sum_by-sort_by order (λ i. i.1.total_tokens) (tally_loop count key rows []) in
        let summed =
          tally_loop-sum count key (λ b. b.total_tokens) tokens_of refl (λ b u. (counts b u).1) rows
            [] in
        omega (arith, kept, summed)

-- A list of buckets: each has the number, the tokens and the cost of exactly the rows of its key, and all
-- of them together those of all rows.
abbrev pub IsRollup : {K : Type 0} → ⦃e : Eq K⦄ → (Usage → K) → List Usage → Dict K Bucket → Type 0
IsRollup {K} ⦃e⦄ key rows d =
    All (λ i. IsTally (keep (λ u. e.beq i.0 (key u)) rows) i.1) d
    × (tokens_in d ≡ sum_by tokens_of rows)
    × (cents_in d ≡ sum_by cents_of rows)

sorted-IsRollup :
    (count : Bucket → Usage → Bucket)
    → IsCount count
    → {K : Type 0} → ⦃e : Eq K⦄ → (key : Usage → K) (order : K × Bucket → ℕ) (rows : List Usage)
    → IsRollup key rows (sort_by order (tally_loop count key rows []))
sorted-IsRollup count counts key order rows = (
  sorted-All count counts key order rows,
  sorted-tokens count counts key order rows,
  sorted-cents count counts key order rows,
)

-- In a rollup each bucket of an account, of a model and of a day has the number, the tokens and the cost
-- of exactly the rows of its key, and each of the three lists adds up to the tokens and the cost of all
-- rows, whatever the limit on the items.
pub rollup_proxy_usages_exact :
    (creds : List Credential) (day : ℕ → Option ℕ) (rows : List Usage) (limit : ℕ)
    → let r = rollup_proxy_usages creds day rows limit in
      IsRollup (account_key creds) rows r.by_account
      × IsRollup model_key rows r.by_model
      × IsRollup (day_key day) rows r.by_day
unfolding rollup_proxy_usages
rollup_proxy_usages_exact creds day rows limit =
    let empty : Maps = record { by_account = []; by_model = []; by_day = [] } in
    let (accounts, models, days) = rollup_loop-maps creds day rows empty in
    (
      rw accounts (sorted-IsRollup count_row count_row-IsCount (account_key creds) _ rows),
      rw models (sorted-IsRollup count_row count_row-IsCount model_key _ rows),
      rw days (sorted-IsRollup count_item count_item-IsCount (day_key day) _ rows),
    )
