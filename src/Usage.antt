-- ===== src/Usage.antt =====
-- pulse/proxy/usage_rollup.py: `rollup_proxy_usages`, the totals of usage rows by account, by model and by
-- day. The names of accounts, plans and members and the quota snapshots that are shown beside the
-- totals are left out. A missing number is 0.
pub mod Tally
pub mod Totals
use cursor_pulse.Base.{
  ℕ, suc, ◌+◌, ◌-◌, Bool, true, false, List, [], ◌∷◌, ◌++◌, Option, none, some, ◌==◌, if◌then◌else◌,
  or_else, sum_by, take,
}
use cursor_pulse.Base.Dict.{Eq, Dict, lookup, insert, nat_eq}
use cursor_pulse.Base.Sorting.{sort_by}
use cursor_pulse.Base.Text.{Text, codes, strip, is_empty, text_or_empty, text_key}
use cursor_pulse.Loans.{Credential, get_credential}

pub record Usage : Type 0 where
  pub id : ℕ
  pub credential_id : ℕ
  pub model : Option Text
  pub total_tokens : ℕ
  pub cost_cents : ℕ
  pub ts : ℕ

pub record Bucket : Type 0 where
  pub request_count : ℕ
  pub total_tokens : ℕ
  pub cost_cents : ℕ
  pub items : List Usage

abbrev pub new_bucket : Bucket
new_bucket = record { request_count = 0; total_tokens = 0; cost_cents = 0; items = [] }

-- The three sums that every bucket keeps; only the day's bucket keeps its rows too.
unfoldable pub count_row : Bucket → Usage → Bucket
count_row b u = record b {
  request_count = b.request_count + 1;
  total_tokens = b.total_tokens + u.total_tokens;
  cost_cents = b.cost_cents + u.cost_cents;
}

unfoldable pub count_item : Bucket → Usage → Bucket
count_item b u = record (count_row b u) { items = b.items ++ u ∷ [] }

pub record Maps : Type 0 where
  pub by_account : Dict ℕ Bucket
  pub by_model : Dict Text Bucket
  pub by_day : Dict ℕ Bucket

unfoldable pub put_bucket :
    {K : Type 0}
    → ⦃e : Eq K⦄ → (Bucket → Usage → Bucket)
    → K
    → Usage
    → Dict K Bucket
    → Dict K Bucket
put_bucket count k u d = insert k (count (or_else (lookup k d) new_bucket) u) d

-- `_resolve_usage_accounts`, of which the totals need the account of a credential; 0 is the bucket of those
-- that have none.
unfoldable pub account_key : List Credential → Usage → ℕ
account_key creds u =
    if u.credential_id == 0
    then 0
    else elim (get_credential u.credential_id creds) [ none ↦ 0 | some c ↦ c.account_id ]

abbrev pub unknown_model : Text
unknown_model = codes "（未知）"

unfoldable pub model_key : Usage → Text
model_key u =
    let label = strip (text_or_empty u.model) in if is_empty label then unknown_model else label

-- `day` gives the number of the China calendar day of a time, if it has one.
unfoldable pub day_key : (ℕ → Option ℕ) → Usage → ℕ
day_key day u = elim (day u.ts) [ none ↦ 0 | some d ↦ suc d ]

pub record Rollup : Type 0 where
  pub by_account : Dict ℕ Bucket
  pub by_model : Dict Text Bucket
  pub by_day : Dict ℕ Bucket
  pub items : List Usage

module _ (creds : List Credential) (day : ℕ → Option ℕ) where
  unfoldable pub rollup_loop : List Usage → Maps → Maps
  rollup_loop [] m = m
  rollup_loop (u ∷ rows) m = rollup_loop rows (record {
    by_account = put_bucket count_row (account_key creds u) u m.by_account;
    by_model = put_bucket count_row (model_key u) u m.by_model;
    by_day = put_bucket count_item (day_key day u) u m.by_day;
  })

  -- Sorted with the largest first: by what is left up to a number that no key exceeds.
  unfoldable pub rollup_proxy_usages : List Usage → ℕ → Rollup
  rollup_proxy_usages rows limit =
      let m = rollup_loop rows (record { by_account = []; by_model = []; by_day = [] }) in
      let tokens = sum_by (λ (u : Usage). u.total_tokens) rows in
      let cents = sum_by (λ (u : Usage). u.cost_cents) rows in
      let last = sum_by (day_key day) rows in
      record {
        by_account = sort_by (λ (e : ℕ × Bucket). tokens - e.1.total_tokens) m.by_account;
        by_model = sort_by (λ (e : Text × Bucket). cents - e.1.cost_cents) m.by_model;
        by_day = sort_by (λ (e : ℕ × Bucket). last - e.0) m.by_day;
        items = take limit rows;
      }
