-- ===== src/Spend/Rule.antt =====
-- Spend rules: their periods and pools, how they are read from requests and from stored JSON, and
-- how two sets of rules are merged. Limits are non-negative cents.
use cursor_pulse.Base.{
  ℕ, ◌+◌, ◌*◌, ◌≡◌, ◌↔◌, refl, Bool, true, false, ◌&&◌, ◌||◌, List, [], ◌∷◌, ◌++◌, map, Option,
  none, some, arith, ltb, ◌==◌, if◌then◌else◌, or_else, min,
}
use cursor_pulse.Base.Int.{ℤ, pos, negsuc}
use cursor_pulse.Base.Dict.{Eq, Dict, lookup, insert}
use cursor_pulse.Base.Sorting.{sort_by}
use cursor_pulse.Base.Text.{Text, codes, strip, text_eq, is_empty, text_or_empty}
use cursor_pulse.Billing.{is_auto_composer_model, is_likely_byok_model}

pub data Period : Type 0 where
  five_hours week month : Period

-- `CapPool` is the first two.
pub data SpendPool : Type 0 where
  auto api total : SpendPool

pub record SpendRule : Type 0 where
  pub period : Period
  pub pool : SpendPool
  pub limit_cents : ℕ

pub data SpendPolicyConfigError : Type 0 where
  bad_cost bad_period bad_pool bad_limit duplicate_rule : SpendPolicyConfigError

pub data Result {ℓ} (A : Type ℓ) : Type ℓ where
  err : SpendPolicyConfigError → Result A
  ok : A → Result A

-- An exception ends the rest of the block.
infixl 5 ◌>>=◌
abbrev pub ◌>>=◌ {κ ℓ} : {A : Type κ} {B : Type ℓ} (m : Result A) (next : A → Result B) → Result B
err reason >>= next = err reason
ok value >>= next = next value

-- A block that ends well has read a value first.
pub >>=-eq-ok {κ ℓ} :
    {A : Type κ} {B : Type ℓ} {out : B} (read : Result A) (next : A → Result B)
    → (read >>= next) ≡ ok out
    → (value : A) × (next value ≡ ok out) × (read ≡ ok value)
>>=-eq-ok (err reason) next e = cc
>>=-eq-ok (ok value) next e = (value, e, refl)

-- The values that `item.get(…)` can give for an amount.
pub data Json : Type 0 where
  null : Json
  int : ℤ → Json
  bool : Bool → Json
  other : Json

pub record RawRule : Type 0 where
  pub period : Option Text
  pub pool : Option Text
  pub limit_cents : Json
  pub cost_usd : Json

pub data RawItem : Type 0 where
  dict : RawRule → RawItem
  not_dict : RawItem

unfoldable pub loan_usage_cap_pool : Option Text → Option SpendPool
loan_usage_cap_pool model =
    let text = strip (text_or_empty model) in
    if is_empty text
    then some auto
    else if is_likely_byok_model (some text)
    then none
    else if is_auto_composer_model (some text)
    then some auto
    else some api

abbrev pub pool_text : SpendPool → Text
pool_text auto = codes "auto"
pool_text api = codes "api"
pool_text total = codes "total"

unfoldable usage_cap_pool_column : Option Text → Text
usage_cap_pool_column model = elim (loan_usage_cap_pool model) [
  | none ↦ codes "skip"
  | some pool ↦ pool_text pool
]

abbrev pub period_text : Period → Text
period_text five_hours = codes "5h"
period_text week = codes "week"
period_text month = codes "month"

-- Microseconds.
unfoldable pub cap_window_for_period : Period → ℕ
cap_window_for_period five_hours = 5 * 3_600_000_000
cap_window_for_period week = 7 * 86_400_000_000
cap_window_for_period month = 30 * 86_400_000_000

-- `period in _SPEND_PERIODS`
unfoldable pub read_period : Text → Option Period
read_period s =
    if text_eq s (codes "5h")
    then some five_hours
    else if text_eq s (codes "week")
    then some week
    else if text_eq s (codes "month")
    then some month
    else none

-- `pool in ("auto", "api", "total")`
read_pool : Text → Option SpendPool
read_pool s =
    if text_eq s (codes "auto")
    then some auto
    else if text_eq s (codes "api")
    then some api
    else if text_eq s (codes "total")
    then some total
    else none

-- The limit in cents after the first two tests of the loop: a dollar amount stands in for a limit
-- that is not given.
effective_limit : Json → Json → Result Json
effective_limit null null = ok null
effective_limit null (int (pos dollars)) =
    if ltb dollars 1 then err bad_cost else ok (int (pos (dollars * 100)))
effective_limit null (int (negsuc n)) = err bad_cost
effective_limit null (bool b) = err bad_cost
effective_limit null other = err bad_cost
effective_limit limit cost = ok limit

-- `not isinstance(limit, int) or limit < 100` is an error; a bool is an int below 100.
check_limit : Json → Result ℕ
check_limit (int (pos cents)) = if ltb cents 100 then err bad_limit else ok cents
check_limit limit = err bad_limit

abbrev or_fail {ℓ} : {A : Type ℓ} → Option A → SpendPolicyConfigError → Result A
or_fail none e = err e
or_fail (some a) e = ok a

unfoldable pub parse_item : RawRule → Result SpendRule
unfolding effective_limit read_period read_pool check_limit
parse_item item = do
  limit ← effective_limit item.limit_cents item.cost_usd
  period ← or_fail (read_period (strip (text_or_empty item.period))) bad_period
  pool ← or_fail (read_pool (strip (text_or_empty item.pool))) bad_pool
  cents ← check_limit limit
  ok (record { period = period; pool = pool; limit_cents = cents })

-- The texts' order, which `sorted` goes by: "5h" < "month" < "week" and "api" < "auto" < "total".
abbrev pub period_rank : Period → ℕ
period_rank five_hours = 0
period_rank month = 1
period_rank week = 2

abbrev pub pool_rank : SpendPool → ℕ
pool_rank api = 0
pool_rank auto = 1
pool_rank total = 2

abbrev pub RuleKey : Type 0
RuleKey = Period × SpendPool

abbrev pub key_beq : RuleKey → RuleKey → Bool
key_beq a b = period_rank a.0 == period_rank b.0 && pool_rank a.1 == pool_rank b.1

pub key_beq_iff : (a b : RuleKey) → (key_beq a b ≡ true) ↔ (a ≡ b)
key_beq_iff a b = ground arith

instance abbrev pub key_eq : Eq RuleKey
key_eq = record { beq = key_beq; beq_iff = key_beq_iff }

abbrev pub rule_key : SpendRule → RuleKey
rule_key r = (r.period, r.pool)

-- `key in seen`
abbrev pub seen_key : RuleKey → List RuleKey → Bool
seen_key k [] = false
seen_key k (j ∷ seen) = key_beq k j || seen_key k seen

-- The loop: `seen` and `rules` are its variables, `rules` in reverse.
unfoldable pub parse_loop : List RawRule → List RuleKey → Result (List SpendRule)
parse_loop [] seen = ok []
parse_loop (item ∷ items) seen = parse_item item >>= λ rule.
    if seen_key (rule_key rule) seen
    then err duplicate_rule
    else (parse_loop items (rule_key rule ∷ seen) >>= λ rules. ok (rule ∷ rules))

unfoldable pub parse_spend_rules : Option (List RawRule) → Result (List SpendRule)
unfolding parse_loop
parse_spend_rules items = parse_loop (or_else items []) []

-- `SpendRule.as_dict`
unfoldable pub as_dict : SpendRule → RawRule
as_dict r = record {
  period = some (period_text r.period);
  pool = some (pool_text r.pool);
  limit_cents = int (pos r.limit_cents);
  cost_usd = null;
}

-- One stored item; `none` means that the loop skips it.
unfoldable pub read_stored : RawItem → Option SpendRule
unfolding read_period read_pool
read_stored not_dict = none
read_stored (dict item) = elim (read_period (strip (text_or_empty item.period))) [
  | none ↦ none
  | some period ↦ elim (read_pool (strip (text_or_empty item.pool))) [
    | none ↦ none
    | some pool ↦ elim item.limit_cents [
      | int (pos cents) ↦
          if ltb cents 100
          then none
          else some (record { period = period; pool = pool; limit_cents = cents })
      | _ ↦ none
    ]
  ]
]

-- `none` stands for a value that is no list.
unfoldable pub rules_from_json : Option (List RawItem) → List SpendRule
rules_from_json none = []
rules_from_json (some []) = []
rules_from_json (some (item ∷ raw)) =
    let rest = rules_from_json (some raw) in
    elim (read_stored item) [ none ↦ rest | some rule ↦ rule ∷ rest ]

-- `merged[key] = min(merged.get(key, rule.limit_cents), rule.limit_cents)`
pub merge_rule : SpendRule → Dict RuleKey ℕ → Dict RuleKey ℕ
merge_rule r merged =
    insert (rule_key r) (min (or_else (lookup (rule_key r) merged) r.limit_cents) r.limit_cents)
      merged

unfoldable pub merge_loop : List SpendRule → Dict RuleKey ℕ → Dict RuleKey ℕ
unfolding merge_rule
merge_loop [] merged = merged
merge_loop (r ∷ rules) merged = merge_loop rules (merge_rule r merged)

abbrev pub item_rank : RuleKey × ℕ → ℕ
item_rank (k, limit) = 3 * period_rank k.0 + pool_rank k.1

abbrev pub item_rule : RuleKey × ℕ → SpendRule
item_rule (k, limit) = record { period = k.0; pool = k.1; limit_cents = limit }

unfoldable pub min_merge_rules : List SpendRule → List SpendRule → List SpendRule
unfolding merge_loop sort_by
min_merge_rules existing incoming =
    map item_rule (sort_by item_rank (merge_loop (existing ++ incoming) []))
