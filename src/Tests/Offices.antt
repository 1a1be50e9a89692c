-- ===== src/Tests/Offices.antt =====
-- Memberships and what a member may spend, at concrete inputs.
use cursor_pulse.Base.{ℕ, ◌*◌, ◌≤◌, ◌≡◌, refl, true, List, [], ◌∷◌, none, some, arith, inr}
use cursor_pulse.Base.Dict.{Dict}
use cursor_pulse.Base.Int.{pos}
use cursor_pulse.Base.Text.{codes, strip, lower, contains, starts_with}
use cursor_pulse.Billing.{
  is_likely_byok_model, is_third_party_model, is_auto_composer_model, normalize_cursor_model_name,
}
use cursor_pulse.Spend.Rule.{api, loan_usage_cap_pool}
use cursor_pulse.Spend.Window.{UsageRow}
use cursor_pulse.Wallet.{read_balance, sum_amounts}
use cursor_pulse.Keys.{ProxyKey, active, quota, get_key}
use cursor_pulse.Members.{MembershipPlan, Office, Opening, active_membership, prepaid}
use cursor_pulse.Members.Changes.{Call, opens, cancels, run}
use cursor_pulse.Members.Spending.{Evaluation, resolve_member_id, evaluate_spend}
use cursor_pulse.Members.Active.{active_of}
use cursor_pulse.Members.Openings.{openings_of}
use cursor_pulse.Members.Once.{new_office, run-IsSingle}
use cursor_pulse.Members.Evaluation.{is_limited_evaluation, is_stopped, evaluate_spend_limits}

abbrev plan : MembershipPlan
plan = record {
  id = 2;
  team_id = 4;
  rules = some [];
  credit_mode = prepaid;
  opening_credit_cents = some (pos 500);
  is_active = true;
}

abbrev opening : Opening
opening = record {
  member_id = 7;
  plan_id = some 2;
  created_by_member_id = none;
  rules_override = none;
  credit_mode_override = none;
}

abbrev calls : List Call
calls = opens opening ∷ opens opening ∷ cancels 1 ∷ opens opening ∷ []

abbrev teams : Dict ℕ ℕ
teams = (7, 4) ∷ []

gpt-api : loan_usage_cap_pool (some (codes "gpt-5")) ≡ some api
unfolding loan_usage_cap_pool is_likely_byok_model is_third_party_model is_auto_composer_model
    normalize_cursor_model_name strip lower contains starts_with
gpt-api = refl

run-IsSingle_example :
    let office = run (new_office (plan ∷ []) teams) calls in
    (active_of 7 office.memberships ≤ 1)
    × (openings_of 7 office.wallets.transactions ≤ 1)
    × (read_balance office.wallets 7 ≡ sum_amounts 7 office.wallets.transactions)
run-IsSingle_example = run-IsSingle (plan ∷ []) teams calls 7

abbrev key : ProxyKey
key = record {
  id = 1;
  key_hash = 4;
  member_id = 7;
  mode = quota;
  coding_plan_vendor = none;
  window_5h_cost_limit_cents = none;
  window_7d_cost_limit_cents = none;
  status = active;
  suspended_reason = none;
  expires_at = none;
  ide_key_hash = none;
}

abbrev office : Office
office = run (new_office (plan ∷ []) teams) calls

abbrev hour : ℕ
hour = 3_600_000_000

abbrev table : List UsageRow
table =
    record {
      member_id = 7;
      loan_id = 0;
      ts = 998 * hour;
      cost_cents = 300;
      usage_cap_pool = some (codes "api");
      model = some (codes "gpt-5");
    }
    ∷ []

evaluate_spend_limits_example :
    (e : Evaluation) × (evaluate_spend
        (λ t. true)
        table
        (1000 * hour)
        office
        (key ∷ [])
        []
        1
        0
        (some (codes "gpt-5"))
      ≡ some e)
    × (is_limited_evaluation e
        ≡ is_stopped
            (λ t. true)
            table
            (1000 * hour)
            office
            7
            api
            (active_membership 7 office.memberships))
unfolding resolve_member_id get_key
evaluate_spend_limits_example =
    evaluate_spend_limits (λ t. true) table (1000 * hour) (inr (inr (inr refl)), tt) office
      (key ∷ []) [] 1 0 (some (codes "gpt-5")) api (omega arith) gpt-api
