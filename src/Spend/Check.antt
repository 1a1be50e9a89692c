-- ===== src/Spend/Check.antt =====
-- The verdict on a request: `check_spend_rules`, and the snapshot of each rule that the admin pages
-- show. The text for the user and the formatting of times are left out, and so is the cache of sums
-- within one call.
use cursor_pulse.Base.{
  ℕ, Bool, not, ◌||◌, List, [], ◌∷◌, ◌++◌, Option, none, some, ltb, leb, ◌==◌, if◌then◌else◌, keep,
  any, sum_by, is_nil,
}
use cursor_pulse.Base.Text.{Text}
use cursor_pulse.Spend.Rule.{
  Period, SpendPool, auto, api, total, SpendRule, pool_rank, loan_usage_cap_pool,
  cap_window_for_period,
}
use cursor_pulse.Spend.Window.{
  UsageRow, Scope, scope_filter, Event, event_cents, window_cutoff, usage_resets_at,
  prefetch_null_pool_rows, sum_window_cents_fast, window_events_fast,
}

pub record Hit : Type 0 where
  pub rule : SpendRule
  pub used : ℕ
  pub resets_at : ℕ

pub data Reason : Type 0 where
  cap_disabled not_counted : Reason

pub record Limited : Type 0 where
  pub pool : SpendPool
  pub period : Period
  pub used_cents : ℕ
  pub limit_cents : ℕ
  pub resets_at : ℕ
  pub other_pool : SpendPool
  pub other_pool_open : Bool

pub data Verdict : Type 0 where
  ok_payload : Option Reason → Verdict
  limited : Limited → Verdict

abbrev pub pool_beq : SpendPool → SpendPool → Bool
pool_beq p q = pool_rank p == pool_rank q

pub other_pool : SpendPool → SpendPool
other_pool auto = api
other_pool api = auto
other_pool total = auto

-- The loop for the oldest cutoff of any rule.
unfoldable pub oldest_cutoff : ℕ → List SpendRule → ℕ → ℕ
unfolding window_cutoff cap_window_for_period
oldest_cutoff now [] min_cutoff = min_cutoff
oldest_cutoff now (r ∷ rules) min_cutoff =
    let cutoff = window_cutoff now (cap_window_for_period r.period) in
    oldest_cutoff now rules (if ltb cutoff min_cutoff then cutoff else min_cutoff)

module _ (table : List UsageRow) (scope : Scope) (now : ℕ) (null_rows : List UsageRow) where
  abbrev pub rule_cutoff : SpendRule → ℕ
  rule_cutoff r = window_cutoff now (cap_window_for_period r.period)

  abbrev pub rule_used : SpendRule → ℕ
  rule_used r = sum_window_cents_fast table scope (rule_cutoff r) r.pool null_rows

  abbrev pub rule_events : SpendRule → List Event
  rule_events r = window_events_fast table scope (rule_cutoff r) r.pool null_rows

  -- One round of the loop: `none` means `continue`.
  unfoldable pub rule_hit : SpendRule → SpendPool → Option Hit
  rule_hit r pool =
      if not (pool_beq r.pool pool)
      then none
      else if ltb (rule_used r) r.limit_cents
      then none
      else if is_nil (rule_events r)
      then none
      else elim (usage_resets_at (rule_events r) r.limit_cents (cap_window_for_period r.period)) [
        | none ↦ none
        | some t ↦ some (record { rule = r; used = rule_used r; resets_at = t })
      ]

  unfoldable pub exceeded_for : SpendPool → List SpendRule → List Hit
  exceeded_for pool [] = []
  exceeded_for pool (r ∷ rules) =
      let rest = exceeded_for pool rules in
      elim (rule_hit r pool) [ none ↦ rest | some hit ↦ hit ∷ rest ]

-- `max(hits, key=resets_at)`: the first with the latest time.
unfoldable pub latest_hit : Hit → List Hit → Hit
latest_hit best [] = best
latest_hit best (h ∷ hits) = latest_hit (if ltb best.resets_at h.resets_at then h else best) hits

abbrev pub rule_in : SpendPool → SpendRule → Bool
rule_in pool r = pool_beq r.pool pool

abbrev pub hit_in : SpendPool → Hit → Bool
hit_in pool h = pool_beq h.rule.pool pool

-- `none` is the ValueError of `max` on no hits.
unfoldable pub limited_verdict : SpendPool → SpendPool → Bool → List Hit → Option Verdict
limited_verdict primary_pool other other_open [] = none
limited_verdict primary_pool other other_open (h ∷ hits) =
    let primary = latest_hit h hits in
    some (
      limited (record {
        pool = primary_pool;
        period = primary.rule.period;
        used_cents = primary.used;
        limit_cents = primary.rule.limit_cents;
        resets_at = primary.resets_at;
        other_pool = other;
        other_pool_open = other_open;
      }))

-- From the hits on, those of the request's pool first.
unfoldable pub verdict_from : SpendPool → Bool → List Hit → Option Verdict
unfolding limited_verdict other_pool
verdict_from request_pool other_open exceeded =
    let other = other_pool request_pool in
    if is_nil exceeded
    then some (ok_payload none)
    else if any (hit_in request_pool) exceeded
    then limited_verdict request_pool other other_open (keep (hit_in request_pool) exceeded)
    else limited_verdict total other other_open (keep (hit_in total) exceeded)

-- From the first query on, for a request that counts in `request_pool`.
unfoldable pub check_pools : List UsageRow → List SpendRule → SpendPool → Scope → ℕ → Option Verdict
unfolding oldest_cutoff exceeded_for other_pool verdict_from
check_pools table rules request_pool scope now =
    let null_rows = prefetch_null_pool_rows table scope (oldest_cutoff now rules now) in
    let exceeded_in = λ (pool : SpendPool). exceeded_for table scope now null_rows pool rules in
    let exceeded =
      exceeded_in request_pool ++ (if any (rule_in total) rules then exceeded_in total else []) in
    let other = other_pool request_pool in
    let other_open = is_nil (exceeded_in other) || not (any (rule_in other) rules) in
    verdict_from request_pool other_open exceeded

-- `none` is a ValueError: no scope is given.
unfoldable pub check_spend_rules :
    List UsageRow → List SpendRule → Option Text → ℕ → ℕ → ℕ → Option Verdict
unfolding check_pools
check_spend_rules table rules model member_id loan_id now =
    if is_nil rules
    then some (ok_payload (some cap_disabled))
    else elim (loan_usage_cap_pool model) [
      | none ↦ some (ok_payload (some not_counted))
      | some request_pool ↦ elim (scope_filter member_id loan_id) [
        | none ↦ none
        | some scope ↦ check_pools table rules request_pool scope now
      ]
    ]

pub record Snapshot : Type 0 where
  pub period : Period
  pub pool : SpendPool
  pub limit_cents : ℕ
  pub used_cents : ℕ
  pub exceeded : Bool
  pub resets_at : Option ℕ

unfoldable rule_snapshot : List UsageRow → Scope → ℕ → List UsageRow → SpendRule → Snapshot
rule_snapshot table scope now null_rows r =
    let events = rule_events table scope now null_rows r in
    let used = sum_by event_cents events in
    record {
      period = r.period;
      pool = r.pool;
      limit_cents = r.limit_cents;
      used_cents = used;
      exceeded = leb r.limit_cents used;
      resets_at =
          if is_nil events
          then none
          else usage_resets_at events r.limit_cents (cap_window_for_period r.period);
    }
