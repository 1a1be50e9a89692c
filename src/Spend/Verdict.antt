-- ===== src/Spend/Verdict.antt =====
-- What the verdict says against the row-by-row sums.
use mathlib.Core.Path.{ap₂}
use cursor_pulse.Base.{
  ℕ, ◌≤◌, ◌<◌, ◌≡◌, refl, sym, ◌∙◌, Bool, true, false, not, ◌&&◌, ◌||◌, List, [], ◌∷◌, ◌++◌, Option,
  none, some, arith, Bool-cases, Option-cases, inl, inr, All, ltb, leb, leb→le, if◌then◌else◌, any,
  keep, sum_by, is_nil, any-or, any-and, any_of_All, is_nil-keep,
}
use cursor_pulse.Base.Sorting.{IsSorted, sort_by-IsSorted}
use cursor_pulse.Base.Text.{Text}
use cursor_pulse.Spend.Rule.{
  SpendPool, total, SpendRule, loan_usage_cap_pool, cap_window_for_period,
}
use cursor_pulse.Spend.Window.{
  UsageRow, Scope, scope_filter, Event, event_ts, event_cents, window_cutoff,
  prefetch_null_pool_rows, sum_window_usage_cents, window_events_fast,
}
use cursor_pulse.Spend.Check.{
  Hit, Verdict, ok_payload, limited, cap_disabled, other_pool, oldest_cutoff, rule_hit, rule_used,
  rule_events, rule_cutoff, exceeded_for, rule_in, hit_in, limited_verdict, verdict_from,
  check_pools, check_spend_rules,
}
use cursor_pulse.Spend.Resets.{usage_resets_at_exact}
use cursor_pulse.Spend.Totals.{IsCanonical, sum_window_cents_fast_lem}

abbrev pub is_limited : Verdict → Bool
is_limited (ok_payload reason) = false
is_limited (limited l) = true

oldest_cutoff-le : (now : ℕ) (rules : List SpendRule) (acc : ℕ) → oldest_cutoff now rules acc ≤ acc
unfolding oldest_cutoff
oldest_cutoff-le now [] acc = omega arith
oldest_cutoff-le now (r ∷ rules) acc = ground (
  arith,
  oldest_cutoff-le now rules acc,
  oldest_cutoff-le now rules (window_cutoff now (cap_window_for_period r.period)),
)

oldest_cutoff-All :
    (now : ℕ) (rules : List SpendRule) (acc : ℕ)
    → All
        (λ r. oldest_cutoff now rules acc ≤ window_cutoff now (cap_window_for_period r.period))
        rules
unfolding oldest_cutoff
oldest_cutoff-All now [] acc = tt
oldest_cutoff-All now (r ∷ rules) acc =
    let cutoff = window_cutoff now (cap_window_for_period r.period) in
    let acc' = if ltb cutoff acc then cutoff else acc in
    (ground (arith, oldest_cutoff-le now rules acc'), oldest_cutoff-All now rules acc')

is_nil-sum : (events : List Event) → is_nil events ≡ true → sum_by event_cents events ≡ 0
is_nil-sum [] e = refl
is_nil-sum (x ∷ events) e = cc

-- The rule's limit is reached by the row-by-row sum over its window.
abbrev pub reached : List UsageRow → Scope → ℕ → SpendRule → Bool
reached table scope now r =
    leb r.limit_cents
      (sum_window_usage_cents table scope (cap_window_for_period r.period) r.pool now)

module _ (table : List UsageRow) (scope : Scope) (now : ℕ) (canonical : All IsCanonical table) where
  module _ (oldest : ℕ) where
    abbrev nulls : List UsageRow
    nulls = prefetch_null_pool_rows table scope oldest

    rule_events-IsSorted : (r : SpendRule) → IsSorted event_ts (rule_events table scope now nulls r)
    unfolding window_events_fast
    rule_events-IsSorted r = sort_by-IsSorted event_ts _

    rule_hit-none :
        (r : SpendRule) (pool : SpendPool)
        → 0 < r.limit_cents
        → oldest ≤ rule_cutoff table scope now nulls r
        → rule_in pool r && reached table scope now r ≡ false
        → rule_hit table scope now nulls r pool ≡ none
    unfolding rule_hit
    rule_hit-none r pool positive early missed = ground (
      arith,
      (sum_window_cents_fast_lem table scope (cap_window_for_period r.period) now oldest r.pool
          canonical early).0,
    )

    rule_hit-some :
        (r : SpendRule) (pool : SpendPool)
        → 0 < r.limit_cents
        → oldest ≤ rule_cutoff table scope now nulls r
        → rule_in pool r ≡ true
        → reached table scope now r ≡ true
        → (h : Hit) × (rule_hit table scope now nulls r pool ≡ some h) × (h.rule ≡ r)
    unfolding rule_hit
    rule_hit-some r pool positive early mine over =
        let window = cap_window_for_period r.period in
        let events = rule_events table scope now nulls r in
        let (fast, listed) =
          sum_window_cents_fast_lem table scope window now oldest r.pool canonical early in
        let used : r.limit_cents ≤ sum_window_usage_cents table scope window r.pool now =
          leb→le _ _ over in
        let (t, found, _, _) =
          usage_resets_at_exact events r.limit_cents window (rule_events-IsSorted r) positive
            (rw listed used) in
        (
          record { rule = r; used = rule_used table scope now nulls r; resets_at = t },
          ground (arith, is_nil-sum events),
          refl,
        )

    rule_hit-pool :
        (r : SpendRule) (pool : SpendPool) (h : Hit)
        → rule_hit table scope now nulls r pool ≡ some h
        → hit_in pool h ≡ true
    unfolding rule_hit
    rule_hit-pool r pool h e = ground arith

    -- Whether a pool has a hit is what the row-by-row sums say.
    exceeded_for-any :
        (pool : SpendPool) (rules : List SpendRule)
        → All (λ r. 0 < r.limit_cents) rules
        → All (λ r. oldest ≤ rule_cutoff table scope now nulls r) rules
        → not (is_nil (exceeded_for table scope now nulls pool rules))
          ≡ any (λ r. rule_in pool r && reached table scope now r) rules
    unfolding exceeded_for
    exceeded_for-any pool [] positive early = refl
    exceeded_for-any pool (r ∷ rules) positive early =
        let ih = exceeded_for-any pool rules positive.1 early.1 in
        elim (Bool-cases (rule_in pool r && reached table scope now r)) [
          | inl over ↦
              let (h, e, _) =
                rule_hit-some r pool positive.0 early.0 (ground arith) (ground arith) in
              ground (arith, e)
          | inr under ↦ ground (arith, rule_hit-none r pool positive.0 early.0 under, ih)
        ]

    exceeded_for-All :
        (pool : SpendPool) (rules : List SpendRule)
        → All (λ h. hit_in pool h ≡ true) (exceeded_for table scope now nulls pool rules)
    unfolding exceeded_for
    exceeded_for-All pool [] = tt
    exceeded_for-All pool (r ∷ rules) =
        let ih = exceeded_for-All pool rules in
        elim (Option-cases (rule_hit table scope now nulls r pool)) [
          | inl e ↦ rw (e, All, exceeded_for) ih
          | inr (h, e) ↦ rw (e, All, exceeded_for) (rule_hit-pool r pool h e, ih)
        ]

limited_verdict-IsLimited :
    (primary other : SpendPool) (open' : Bool) (hits : List Hit)
    → is_nil hits ≡ false
    → (v : Verdict) × (limited_verdict primary other open' hits ≡ some v) × (is_limited v ≡ true)
unfolding limited_verdict
limited_verdict-IsLimited primary other open' [] e = cc
limited_verdict-IsLimited primary other open' (h ∷ hits) e = (_, refl, refl)

-- The verdict on the hits of the request's pool followed by those of the total.
verdict_from_lem :
    (pool : SpendPool) (open' : Bool) (own all : List Hit)
    → All (λ h. hit_in pool h ≡ true) own
    → All (λ h. hit_in total h ≡ true) all
    → (v : Verdict) × (verdict_from pool open' (own ++ all) ≡ some v)
      × (is_limited v ≡ (not (is_nil own) || not (is_nil all)))
unfolding verdict_from
verdict_from_lem pool open' [] [] mine totals = (ok_payload none, refl, refl)
verdict_from_lem pool open' [] (h ∷ all) mine totals =
    elim (Bool-cases (any (hit_in pool) (h ∷ all))) [
      | inl some_own ↦ rw some_own (
          limited_verdict-IsLimited pool _ open' (keep (hit_in pool) (h ∷ all))
            (is_nil-keep (hit_in pool) (h ∷ all) some_own))
      | inr none_own ↦ rw none_own (
          limited_verdict-IsLimited total _ open' (keep (hit_in total) (h ∷ all)) (
            is_nil-keep (hit_in total) (h ∷ all) (any_of_All (hit_in total) (h ∷ all) totals refl)))
    ]
verdict_from_lem pool open' (h ∷ own) all mine totals =
    let any_own : any (hit_in pool) (h ∷ own ++ all) ≡ true = rw mine.0 in
    rw any_own (
      limited_verdict-IsLimited pool _ open' (keep (hit_in pool) (h ∷ own ++ all))
        (is_nil-keep (hit_in pool) (h ∷ own ++ all) any_own))

module _ (table : List UsageRow) (rules : List SpendRule) (request : SpendPool) (scope : Scope)
    (now : ℕ) (canonical : All IsCanonical table)
    (positive : All (λ r. 0 < r.limit_cents) rules) where
  abbrev oldest : ℕ
  oldest = oldest_cutoff now rules now

  abbrev hits_in : SpendPool → List Hit
  hits_in pool =
      exceeded_for table scope now (prefetch_null_pool_rows table scope oldest) pool rules

  hits_in-any :
      (pool : SpendPool)
      → not (is_nil (hits_in pool)) ≡ any (λ r. rule_in pool r && reached table scope now r) rules
  hits_in-any pool =
      exceeded_for-any table scope now canonical oldest pool rules positive
        (oldest_cutoff-All now rules now)

  check_pools-any :
      (v : Verdict) × (check_pools table rules request scope now ≡ some v)
      × (is_limited v
          ≡ any (λ r. (rule_in request r || rule_in total r) && reached table scope now r) rules)
  unfolding check_pools
  check_pools-any = elim (Bool-cases (any (rule_in total) rules)) [
    | inl with_total ↦
        let (v, e, said) =
          verdict_from_lem request other_open (hits_in request) (hits_in total) (all_in request)
            (all_in total) in
        (v, rw with_total e, said ∙ ap₂ ◌||◌ (hits_in-any request) (hits_in-any total) ∙ sym split)
    | inr without ↦
        let (v, e, said) =
          verdict_from_lem request other_open (hits_in request) [] (all_in request) tt in
        (
          v,
          rw without e,
          said
              ∙ ap₂ ◌||◌ (hits_in-any request)
                  (sym (any-and (rule_in total) (reached table scope now) rules without))
              ∙ sym split,
        )
  ]
    where
      other_open : Bool
      other_open =
          is_nil (hits_in (other_pool request)) || not (any (rule_in (other_pool request)) rules)

      all_in : (pool : SpendPool) → All (λ h. hit_in pool h ≡ true) (hits_in pool)
      all_in pool = exceeded_for-All table scope now canonical oldest pool rules

      split :
          any (λ r. (rule_in request r || rule_in total r) && reached table scope now r) rules ≡ (
            any (λ r. rule_in request r && reached table scope now r) rules
            || any (λ r. rule_in total r && reached table scope now r) rules)
      split = any-or (rule_in request) (rule_in total) (reached table scope now) rules

-- For a member or a loan, positive limits and a table whose pool column holds only what the ledger
-- writes, or nothing, a request that counts in pool `request` gets a verdict, and it is limited
-- exactly when some rule on that pool or on the total is reached by the row-by-row sum of its window.
pub check_spend_rules_limits :
    (table : List UsageRow) (rules : List SpendRule) (model : Option Text)
    (member_id loan_id now : ℕ) (request : SpendPool) (scope : Scope)
    → loan_usage_cap_pool model ≡ some request
    → scope_filter member_id loan_id ≡ some scope
    → All IsCanonical table
    → All (λ r. 0 < r.limit_cents) rules
    → (v : Verdict) × (check_spend_rules table rules model member_id loan_id now ≡ some v)
      × (is_limited v
          ≡ any (λ r. (rule_in request r || rule_in total r) && reached table scope now r) rules)
unfolding check_spend_rules
check_spend_rules_limits table [] model member_id loan_id now request scope counted scoped canonical
      positive =
    (ok_payload (some cap_disabled), refl, refl)
check_spend_rules_limits table (r ∷ rules) model member_id loan_id now request scope counted scoped
      canonical positive =
    rw (counted, scoped) (check_pools-any table (r ∷ rules) request scope now canonical positive)
