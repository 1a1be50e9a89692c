-- ===== src/Tests/Rollups.antt =====
-- The rollup of three rows.
use cursor_pulse.Base.{ℕ, ◌≡◌, refl, true, false, List, [], ◌∷◌, Option, none, some}
use cursor_pulse.Base.Dict.{nat_eq}
use cursor_pulse.Base.Sorting.{sort_by}
use cursor_pulse.Base.Text.{strip, text_key}
use cursor_pulse.Loans.{Credential, get_credential}
use cursor_pulse.Usage.{
  Usage, rollup_proxy_usages, rollup_loop, account_key, model_key, day_key, put_bucket, count_row,
  count_item,
}
use cursor_pulse.Usage.Totals.{IsRollup, cents_in, rollup_proxy_usages_exact}

abbrev credential : Credential
credential = record {
  id = 10;
  account_id = 100;
  remote_key_id = 0;
  key_hash = none;
  is_loan_key = false;
  is_active = true;
  sync_enabled = true;
  has_value = true;
}

abbrev usage : ℕ → ℕ → ℕ → Usage
usage id credential_id cents = record {
  id = id;
  credential_id = credential_id;
  model = none;
  total_tokens = 5;
  cost_cents = cents;
  ts = id;
}

abbrev rows : List Usage
rows = usage 3 10 20 ∷ usage 2 0 7 ∷ usage 1 10 30 ∷ []

abbrev first_day : ℕ → Option ℕ
first_day ts = some 0

rollup_proxy_usages_exact_example :
    let r = rollup_proxy_usages (credential ∷ []) first_day rows 2 in
    IsRollup (account_key (credential ∷ [])) rows r.by_account
    × IsRollup model_key rows r.by_model
    × IsRollup (day_key first_day) rows r.by_day
rollup_proxy_usages_exact_example = rollup_proxy_usages_exact (credential ∷ []) first_day rows 2

rollup-cents : cents_in (rollup_proxy_usages (credential ∷ []) first_day rows 2).by_account ≡ 57
unfolding rollup_proxy_usages rollup_loop account_key model_key day_key put_bucket count_row
    count_item sort_by get_credential strip
rollup-cents = refl
