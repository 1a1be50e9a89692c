-- ===== src/Tests/Rules.antt =====
-- Spend rules and billing scopes at concrete inputs.
use cursor_pulse.Base.{
  ℕ, ◌*◌, ◌≤◌, ◌<◌, ◌≡◌, ◌≢◌, ◌↔◌, refl, sym, ap, ◌∙◌, ◌||◌, ◌&&◌, List, [], ◌∷◌, map, Option, none,
  some, arith, inl, inr, All, any, sum_by, length,
}
use cursor_pulse.Base.Int.{pos}
use cursor_pulse.Base.Text.{Text, codes, strip, lower, contains, starts_with}
use cursor_pulse.Billing.{
  is_likely_byok_model, is_third_party_model, is_auto_composer_model, normalize_cursor_model_name,
  normalize_event_kind, join_words, is_digit, is_upper, upper_char, kind_prefix, drop_prefix,
  kind_family, classify_billing_scope, pool_for_row,
}
use cursor_pulse.Billing.Agree.{pool_for_row-kind_family}
use cursor_pulse.Spend.Rule.{
  Period, five_hours, week, SpendPool, api, total, SpendRule, RuleKey, rule_key, RawRule, dict, int,
  null, ok, parse_item, loan_usage_cap_pool, parse_spend_rules, rules_from_json, as_dict,
  min_merge_rules,
}
use cursor_pulse.Spend.Window.{
  UsageRow, Scope, member, Event, event_ts, event_cents, usage_resets_at, window_cutoff,
  prefetch_null_pool_rows, sum_window_cents_fast, sum_window_usage_cents, window_events_fast,
}
use cursor_pulse.Spend.Check.{Verdict, check_spend_rules, rule_in}
use cursor_pulse.Spend.Verdict.{is_limited, reached, check_spend_rules_limits}
use cursor_pulse.Spend.Resets.{used_at, usage_resets_at_exact}
use cursor_pulse.Spend.Totals.{sum_window_cents_fast_lem}
use cursor_pulse.Spend.Merging.{min_merge_rules_meet}
use cursor_pulse.Spend.Parsing.{DistinctKeys, parse_spend_rules_sound, parse_spend_rules-as_dict}

abbrev hour : ℕ
hour = 3_600_000_000

abbrev now : ℕ
now = 1000 * hour

abbrev gpt : Option Text
gpt = some (codes "gpt-5")

abbrev usage : ℕ → ℕ → Option Text → UsageRow
usage ts cents pool = record {
  member_id = 7;
  loan_id = 0;
  ts = ts;
  cost_cents = cents;
  usage_cap_pool = pool;
  model = gpt;
}

abbrev table : List UsageRow
table = usage (998 * hour) 300 (some (codes "api")) ∷ usage (997 * hour) 250 none ∷ []

abbrev limit_on : Period → SpendPool → ℕ → SpendRule
limit_on period pool cents = record { period = period; pool = pool; limit_cents = cents }

abbrev rules : List SpendRule
rules = limit_on five_hours api 500 ∷ limit_on week total 900 ∷ []

gpt-api : loan_usage_cap_pool gpt ≡ some api
unfolding loan_usage_cap_pool is_likely_byok_model is_third_party_model is_auto_composer_model
    normalize_cursor_model_name strip lower contains starts_with
gpt-api = refl

check_spend_rules_limits_example :
    (v : Verdict) × (check_spend_rules table rules gpt 7 0 now ≡ some v)
    × (is_limited v
        ≡ any (λ r. (rule_in api r || rule_in total r) && reached table (member 7) now r) rules)
unfolding cursor_pulse.Spend.Window.scope_filter
check_spend_rules_limits_example =
    check_spend_rules_limits table rules gpt 7 0 now api (member 7) gpt-api refl
      (inr (inr (inr refl)), (inl refl, tt)) (omega arith, (omega arith, tt))

abbrev events : List Event
events = (10, 300) ∷ (20, 250) ∷ (30, 100) ∷ []

usage_resets_at_exact_example :
    (t : ℕ) × (usage_resets_at events 400 50 ≡ some t)
    × ((s : ℕ) → t ≤ s → used_at 50 s events < 400)
    × ((s : ℕ) → s < t → 400 ≤ used_at 50 s events)
usage_resets_at_exact_example =
    usage_resets_at_exact events 400 50
      ((omega arith, (omega arith, tt)), ((omega arith, tt), (tt, tt))) (omega arith) (omega arith)

usage_resets_at_run : usage_resets_at events 400 50 ≡ some 60
unfolding usage_resets_at
usage_resets_at_run = refl

sum_window_cents_fast_lem_example :
    let nulls = prefetch_null_pool_rows table (member 7) (990 * hour) in
    (sum_window_cents_fast table (member 7) (window_cutoff now (5 * hour)) api nulls
      ≡ sum_window_usage_cents table (member 7) (5 * hour) api now)
    × (sum_by event_cents
          (window_events_fast table (member 7) (window_cutoff now (5 * hour)) api nulls)
        ≡ sum_window_usage_cents table (member 7) (5 * hour) api now)
unfolding window_cutoff
sum_window_cents_fast_lem_example =
    sum_window_cents_fast_lem table (member 7) (5 * hour) now (990 * hour) api
      (inr (inr (inr refl)), (inl refl, tt)) (omega arith)

abbrev incoming : List SpendRule
incoming = limit_on five_hours api 300 ∷ []

abbrev spent : RuleKey → ℕ
spent k = 350

min_merge_rules_meet_example :
    All (λ r. spent (rule_key r) < r.limit_cents) (min_merge_rules rules incoming) ↔ (
      All (λ r. spent (rule_key r) < r.limit_cents) rules
      × All (λ r. spent (rule_key r) < r.limit_cents) incoming)
min_merge_rules_meet_example = min_merge_rules_meet rules incoming spent

min_merge_rules_run :
    min_merge_rules rules incoming ≡ limit_on five_hours api 300 ∷ limit_on week total 900 ∷ []
unfolding min_merge_rules
min_merge_rules_run = refl

abbrev items : List RawRule
items =
    record {
      period = some (codes " 5h");
      pool = some (codes "api");
      limit_cents = null;
      cost_usd = int (pos 5);
    }
    ∷ record {
      period = some (codes "week");
      pool = some (codes "total");
      limit_cents = int (pos 900);
      cost_usd = null;
    }
    ∷ []

items-rules : parse_spend_rules (some items) ≡ ok rules
unfolding parse_spend_rules parse_item strip
items-rules = refl

parse_spend_rules_sound_example :
    All (λ r. 100 ≤ r.limit_cents) rules × DistinctKeys rules × (length rules ≡ length items)
parse_spend_rules_sound_example = parse_spend_rules_sound items rules items-rules

parse_spend_rules-as_dict_example :
    (rules_from_json (some (map (λ r. dict (as_dict r)) rules)) ≡ rules)
    × (parse_spend_rules (some (map as_dict rules)) ≡ ok rules)
parse_spend_rules-as_dict_example = parse_spend_rules-as_dict items rules items-rules

kind_family_run : kind_family (some (codes "Included")) ≡ codes "included"
unfolding kind_family normalize_event_kind join_words is_digit is_upper upper_char kind_prefix
    drop_prefix strip starts_with
kind_family_run = refl

Included-known : kind_family (some (codes "Included")) ≢ codes "unknown"
Included-known e = omega (arith, ap length (sym kind_family_run ∙ e))

pool_for_row-kind_family_example :
    pool_for_row gpt (some (kind_family (some (codes "Included"))))
    ≡ classify_billing_scope (some (codes "Included")) gpt
pool_for_row-kind_family_example =
    pool_for_row-kind_family (some (codes "Included")) gpt Included-known
