-- ===== src/Spend/Window.antt =====
-- Usage rows in a rolling window, and the cost that counts against a pool: once row by row, once
-- as the database sums it. Times are microseconds since an origin that lies more than 30 days before
-- any row, and costs are not negative.
use cursor_pulse.Base.{
  ℕ, ◌+◌, ◌-◌, Bool, true, false, ◌&&◌, List, [], ◌∷◌, ◌++◌, map, Option, none, some, ltb, ◌==◌,
  if◌then◌else◌, keep, sum_by, any,
}
use cursor_pulse.Base.Sorting.{sort_by}
use cursor_pulse.Base.Text.{Text, codes, strip, text_eq, text_or_empty}
use cursor_pulse.Spend.Rule.{SpendPool, auto, api, total, pool_rank, loan_usage_cap_pool}

-- The columns of `ProxyKeyUsage` that the policy reads.
pub record UsageRow : Type 0 where
  pub member_id : ℕ
  pub loan_id : ℕ
  pub ts : ℕ
  pub cost_cents : ℕ
  pub usage_cap_pool : Option Text
  pub model : Option Text

abbrev pub Event : Type 0
Event = ℕ × ℕ

effective_row_pool : UsageRow → Option SpendPool
effective_row_pool row =
    let stored = strip (text_or_empty row.usage_cap_pool) in
    if text_eq stored (codes "skip")
    then none
    else if text_eq stored (codes "auto")
    then some auto
    else if text_eq stored (codes "api")
    then some api
    else loan_usage_cap_pool row.model

-- Whether a row that counts in `effective` counts against `pool`.
counts_against : Option SpendPool → SpendPool → Bool
counts_against none pool = false
counts_against (some effective) total = true
counts_against (some effective) pool = pool_rank effective == pool_rank pool

unfoldable pub row_matches_pool : UsageRow → SpendPool → Bool
unfolding counts_against effective_row_pool
row_matches_pool row pool = counts_against (effective_row_pool row) pool

unfoldable pub window_cutoff : ℕ → ℕ → ℕ
window_cutoff now window = now - window

pub data Scope : Type 0 where
  member loan : ℕ → Scope

-- `none` is the ValueError; an empty id is 0.
unfoldable pub scope_filter : ℕ → ℕ → Option Scope
scope_filter member_id loan_id =
    if ltb 0 member_id
    then some (member member_id)
    else if ltb 0 loan_id
    then some (loan loan_id)
    else none

abbrev pub in_scope : Scope → UsageRow → Bool
in_scope (member m) row = row.member_id == m
in_scope (loan l) row = row.loan_id == l

abbrev pub row_ts : UsageRow → ℕ
row_ts row = row.ts

abbrev pub row_event : UsageRow → Event
row_event row = (row.ts, row.cost_cents)

abbrev pub event_ts : Event → ℕ
event_ts e = e.0

abbrev pub event_cents : Event → ℕ
event_cents e = e.1

window_usage_events : List UsageRow → Scope → ℕ → SpendPool → ℕ → List Event
unfolding window_cutoff
window_usage_events table scope window pool now =
    let cutoff = window_cutoff now window in
    let rows = sort_by row_ts (keep (λ row. in_scope scope row && ltb cutoff row.ts) table) in
    map row_event (keep (λ row. row_matches_pool row pool) rows)

unfoldable pub sum_window_usage_cents : List UsageRow → Scope → ℕ → SpendPool → ℕ → ℕ
unfolding window_usage_events
sum_window_usage_cents table scope window pool now =
    sum_by event_cents (window_usage_events table scope window pool now)

-- The first event after which less than the limit is left, on the events from there on.
unfoldable pub resets_loop : ℕ → ℕ → ℕ → ℕ → List Event → Option ℕ
resets_loop window limit sum dropped [] = none
resets_loop window limit sum dropped ((ts, cents) ∷ events) =
    let rest = resets_loop window limit sum (dropped + cents) events in
    if ltb (sum - (dropped + cents)) limit then some (ts + window) else rest

-- `events[-1][0]`; `none` is the IndexError.
last_ts : List Event → Option ℕ
last_ts [] = none
last_ts (e ∷ []) = some e.0
last_ts (e ∷ f ∷ events) = last_ts (f ∷ events)

unfoldable pub usage_resets_at : List Event → ℕ → ℕ → Option ℕ
unfolding resets_loop last_ts
usage_resets_at events limit window =
    elim (resets_loop window limit (sum_by event_cents events) 0 events) [
      | some t ↦ some t
      | none ↦ elim (last_ts events) [ none ↦ none | some ts ↦ some (ts + window) ]
    ]

-- The events of rows that are already in memory (`_events_from_rows`).
unfoldable events_from_rows : List UsageRow → SpendPool → ℕ → List Event
events_from_rows rows pool cutoff =
    map row_event (keep (λ row. row_matches_pool row pool && ltb cutoff row.ts) rows)

unfoldable pub stored_pools_for : SpendPool → List Text
stored_pools_for total = codes "auto" ∷ codes "api" ∷ []
stored_pools_for auto = codes "auto" ∷ []
stored_pools_for api = codes "api" ∷ []

unfoldable pub null_row_matches_pool : Option Text → SpendPool → Bool
unfolding counts_against
null_row_matches_pool model pool = counts_against (loan_usage_cap_pool model) pool

-- SQL's `usage_cap_pool IS NULL` and `usage_cap_pool IN (…)`.
abbrev pub is_null : Option Text → Bool
is_null none = true
is_null (some s) = false

abbrev pub in_pools : Option Text → List Text → Bool
in_pools none pools = false
in_pools (some s) pools = any (text_eq s) pools

unfoldable pub prefetch_null_pool_rows : List UsageRow → Scope → ℕ → List UsageRow
prefetch_null_pool_rows table scope cutoff =
    sort_by row_ts
      (keep (λ row. in_scope scope row && ltb cutoff row.ts && is_null row.usage_cap_pool) table)

unfoldable pub sum_window_cents_fast : List UsageRow → Scope → ℕ → SpendPool → List UsageRow → ℕ
unfolding stored_pools_for null_row_matches_pool
sum_window_cents_fast table scope cutoff pool null_rows =
    let stored = stored_pools_for pool in
    sum_by (λ row. row.cost_cents)
      (keep (λ row. in_scope scope row && ltb cutoff row.ts && in_pools row.usage_cap_pool stored)
        table)
    + sum_by (λ row. row.cost_cents)
        (keep (λ row. ltb cutoff row.ts && null_row_matches_pool row.model pool) null_rows)

unfoldable pub window_events_fast :
    List UsageRow → Scope → ℕ → SpendPool → List UsageRow → List Event
unfolding stored_pools_for null_row_matches_pool
window_events_fast table scope cutoff pool null_rows =
    let stored = stored_pools_for pool in
    let rows = sort_by row_ts (
      keep (λ row. in_scope scope row && ltb cutoff row.ts && in_pools row.usage_cap_pool stored)
        table) in
    let nulls = keep (λ row. ltb cutoff row.ts && null_row_matches_pool row.model pool) null_rows in
    sort_by event_ts (map row_event rows ++ map row_event nulls)
