-- ===== src/Spend/Totals.antt =====
-- The database's sums against the row-by-row ones.
use cursor_pulse.Base.{
  ℕ, ◌+◌, ◌≤◌, ◌≡◌, sym, ◌∙◌, ◌⊎◌, inl, inr, ◌&&◌, List, ◌++◌, map, none, some, arith, All, ltb,
  if◌then◌else◌, keep, sum_by, sum_by-keep, sum_by-add, sum_by-map, sum_by-append,
}
use mathlib.Core.Path.{ap₂}
use cursor_pulse.Base.Sorting.{sort_by, sum_by-sort_by}
use cursor_pulse.Base.Text.{codes, strip}
use cursor_pulse.Spend.Rule.{SpendPool, auto, api, total}
use cursor_pulse.Spend.Window.{
  UsageRow, Scope, in_scope, row_ts, row_event, event_ts, event_cents, window_cutoff,
  row_matches_pool, stored_pools_for, null_row_matches_pool, is_null, in_pools,
  prefetch_null_pool_rows, sum_window_cents_fast, window_events_fast, sum_window_usage_cents,
}

-- What the ledger writes into the pool column, or nothing, on rows from before it had one.
abbrev pub IsCanonical : UsageRow → Type 0
IsCanonical row =
    (row.usage_cap_pool ≡ none)
    ⊎ (row.usage_cap_pool ≡ some (codes "skip"))
    ⊎ (row.usage_cap_pool ≡ some (codes "auto"))
    ⊎ (row.usage_cap_pool ≡ some (codes "api"))

abbrev cents : UsageRow → ℕ
cents row = row.cost_cents

module _ (scope : Scope) (cutoff oldest : ℕ) (pool : SpendPool) (row : UsageRow) where
  abbrev counted : ℕ
  counted =
      if in_scope scope row && ltb cutoff row.ts
      then (if row_matches_pool row pool then row.cost_cents else 0)
      else 0

  abbrev stored : ℕ
  stored =
      if in_scope scope row
        && ltb cutoff row.ts
        && in_pools row.usage_cap_pool (stored_pools_for pool)
      then row.cost_cents
      else 0

  abbrev prefetched : ℕ
  prefetched =
      if in_scope scope row && ltb oldest row.ts && is_null row.usage_cap_pool
      then (if ltb cutoff row.ts && null_row_matches_pool row.model pool then row.cost_cents else 0)
      else 0

module _ (scope : Scope) (cutoff oldest : ℕ) (early : oldest ≤ cutoff) (row : UsageRow) where
  abbrev IsSplit : SpendPool → Type 0
  IsSplit pool =
      counted scope cutoff oldest pool row
      ≡ stored scope cutoff oldest pool row + prefetched scope cutoff oldest pool row

  IsSplit-null : (pool : SpendPool) → row.usage_cap_pool ≡ none → IsSplit pool
  unfolding row_matches_pool null_row_matches_pool strip
  IsSplit-null pool e = rw e (ground arith)

  IsSplit-skip : (pool : SpendPool) → row.usage_cap_pool ≡ some (codes "skip") → IsSplit pool
  unfolding row_matches_pool stored_pools_for strip
  IsSplit-skip auto e = rw e (ground arith)
  IsSplit-skip api e = rw e (ground arith)
  IsSplit-skip total e = rw e (ground arith)

  IsSplit-auto : (pool : SpendPool) → row.usage_cap_pool ≡ some (codes "auto") → IsSplit pool
  unfolding row_matches_pool stored_pools_for strip
  IsSplit-auto auto e = rw e (ground arith)
  IsSplit-auto api e = rw e (ground arith)
  IsSplit-auto total e = rw e (ground arith)

  IsSplit-api : (pool : SpendPool) → row.usage_cap_pool ≡ some (codes "api") → IsSplit pool
  unfolding row_matches_pool stored_pools_for strip
  IsSplit-api auto e = rw e (ground arith)
  IsSplit-api api e = rw e (ground arith)
  IsSplit-api total e = rw e (ground arith)

  IsSplit-row : (pool : SpendPool) → IsCanonical row → IsSplit pool
  IsSplit-row pool (inl e) = IsSplit-null pool e
  IsSplit-row pool (inr (inl e)) = IsSplit-skip pool e
  IsSplit-row pool (inr (inr (inl e))) = IsSplit-auto pool e
  IsSplit-row pool (inr (inr (inr e))) = IsSplit-api pool e

module _ (table : List UsageRow) (scope : Scope) (pool : SpendPool) where
  reference_sum :
      (window now oldest : ℕ)
      → sum_window_usage_cents table scope window pool now
        ≡ sum_by (counted scope (window_cutoff now window) oldest pool) table
  unfolding sum_window_usage_cents
  reference_sum window now oldest =
      let inside =
        λ (row : UsageRow). in_scope scope row && ltb (window_cutoff now window) row.ts in
      let matching = λ (row : UsageRow). row_matches_pool row pool in
      sum_by-map event_cents row_event (keep matching (sort_by row_ts (keep inside table)))
      ∙ sum_by-keep cents matching (sort_by row_ts (keep inside table))
      ∙ sum_by-sort_by row_ts (λ row. if matching row then row.cost_cents else 0)
          (keep inside table)
      ∙ sum_by-keep (λ row. if matching row then row.cost_cents else 0) inside table

  fast_sum :
      (cutoff oldest : ℕ)
      → sum_window_cents_fast table scope cutoff pool (prefetch_null_pool_rows table scope oldest)
        ≡ sum_by (stored scope cutoff oldest pool) table
          + sum_by (prefetched scope cutoff oldest pool) table
  unfolding sum_window_cents_fast prefetch_null_pool_rows
  fast_sum cutoff oldest =
      let nulls =
        λ (row : UsageRow). in_scope scope row && ltb oldest row.ts && is_null row.usage_cap_pool in
      let late = λ (row : UsageRow). ltb cutoff row.ts && null_row_matches_pool row.model pool in
      ap₂ ◌+◌ (sum_by-keep cents _ table) (
        sum_by-keep cents late (sort_by row_ts (keep nulls table))
        ∙ sum_by-sort_by row_ts (λ row. if late row then row.cost_cents else 0) (keep nulls table)
        ∙ sum_by-keep (λ row. if late row then row.cost_cents else 0) nulls table)

  events_sum :
      (cutoff oldest : ℕ)
      → let nulls = prefetch_null_pool_rows table scope oldest in
        sum_by event_cents (window_events_fast table scope cutoff pool nulls)
        ≡ sum_window_cents_fast table scope cutoff pool nulls
  unfolding window_events_fast sum_window_cents_fast
  events_sum cutoff oldest =
      let nulls = prefetch_null_pool_rows table scope oldest in
      let inside = λ (row : UsageRow).
        in_scope scope row
        && ltb cutoff row.ts
        && in_pools row.usage_cap_pool (stored_pools_for pool) in
      let late = λ (row : UsageRow). ltb cutoff row.ts && null_row_matches_pool row.model pool in
      let rows = sort_by row_ts (keep inside table) in
      sum_by-sort_by event_ts event_cents (map row_event rows ++ map row_event (keep late nulls))
      ∙ sum_by-append event_cents (map row_event rows) (map row_event (keep late nulls))
      ∙ ap₂ ◌+◌
          (sum_by-map event_cents row_event rows ∙ sum_by-sort_by row_ts cents (keep inside table))
          (sum_by-map event_cents row_event (keep late nulls))

-- On a table whose pool column holds only what the ledger writes, or nothing, the sum that the
-- database computes, with the rows of no pool fetched once from an `oldest` cutoff that does not lie
-- after the window's, and the sum over the fast path's events both equal the row-by-row sum.
pub sum_window_cents_fast_lem :
    (table : List UsageRow) (scope : Scope) (window now oldest : ℕ) (pool : SpendPool)
    → All IsCanonical table
    → oldest ≤ window_cutoff now window
    → let nulls = prefetch_null_pool_rows table scope oldest in
      (sum_window_cents_fast table scope (window_cutoff now window) pool nulls
        ≡ sum_window_usage_cents table scope window pool now)
      × (sum_by event_cents (window_events_fast table scope (window_cutoff now window) pool nulls)
          ≡ sum_window_usage_cents table scope window pool now)
sum_window_cents_fast_lem table scope window now oldest pool canonical early =
    let cutoff = window_cutoff now window in
    let same =
      fast_sum table scope pool cutoff oldest
      ∙ sym (
          sum_by-add IsCanonical (counted scope cutoff oldest pool)
            (stored scope cutoff oldest pool) (prefetched scope cutoff oldest pool)
            (λ row c. IsSplit-row scope cutoff oldest early row pool c) table canonical)
      ∙ sym (reference_sum table scope pool window now oldest) in
    (same, events_sum table scope pool cutoff oldest ∙ same)
