-- ===== src/Members/Spending.antt =====
-- `evaluate_spend`: the check before a request. The messages are left out.
use cursor_pulse.Base.{
  ℕ, Bool, not, ◌&&◌, List, [], ◌∷◌, ◌++◌, Option, none, some, ◌==◌, if◌then◌else◌, or_else,
}
use cursor_pulse.Base.Dict.{lookup, nat_eq}
use cursor_pulse.Base.Int.{pos, leb_ℤ}
use cursor_pulse.Base.Text.{Text, strip, text_eq, text_or_empty}
use cursor_pulse.Spend.Rule.{
  SpendPool, auto, api, SpendRule, read_period, rules_from_json, loan_usage_cap_pool,
}
use cursor_pulse.Spend.Window.{UsageRow}
use cursor_pulse.Spend.Check.{Verdict, check_spend_rules}
use cursor_pulse.Wallet.{read_balance}
use cursor_pulse.Loans.{KeyLoan, cursor_direct, proxy_alias, get_loan}
use cursor_pulse.Keys.{ProxyKey, get_key}
use cursor_pulse.Members.{Office, Membership, active_membership, effective_policy, prepaid}

-- `legacy_loan_rules` of pulse/proxy/spend_policy.py.
unfoldable pub legacy_loan_rules : KeyLoan → List SpendRule
legacy_loan_rules loan = elim loan.usage_cap_rules [
  | some raw ↦ rules_from_json (some raw)
  | none ↦ elim (read_period (strip (text_or_empty loan.usage_cap_period))) [
    | none ↦ []
    | some period ↦
        elim loan.auto_cost_limit_cents [
          | none ↦ []
          | some cents ↦ record { period = period; pool = auto; limit_cents = cents } ∷ []
        ]
        ++ elim loan.api_cost_limit_cents [
          | none ↦ []
          | some cents ↦ record { period = period; pool = api; limit_cents = cents } ∷ []
        ]
  ]
]

-- 0 stands for None and for the empty text.
unfoldable pub resolve_member_id : List ProxyKey → List KeyLoan → ℕ → ℕ → ℕ
resolve_member_id keys loans proxy_key_id loan_id =
    if not (proxy_key_id == 0)
    then elim (get_key proxy_key_id keys) [ none ↦ 0 | some key ↦ key.member_id ]
    else if not (loan_id == 0)
    then elim (get_loan loan_id loans) [ none ↦ 0 | some loan ↦ loan.borrower_member_id ]
    else 0

pub data Evaluation : Type 0 where
  not_counted membership_required not_applicable no_membership : Evaluation
  credit_exhausted : SpendPool → Evaluation
  checked : Verdict → Evaluation

unfoldable pub checked_by : Option Verdict → Option Evaluation
checked_by none = none
checked_by (some v) = some (checked v)

module _ (required : ℕ → Bool) (table : List UsageRow) (now : ℕ) where
  -- `required` says of which teams `membership_required_for_team` holds.
  unfoldable pub membership_required_for_member : Office → ℕ → Bool
  membership_required_for_member office member_id =
      let team = or_else (lookup member_id office.teams) 0 in
      not (member_id == 0) && not (team == 0) && required team

  unfoldable pub evaluate_loan : List KeyLoan → ℕ → Option Text → Option Evaluation
  evaluate_loan loans loan_id model = elim (get_loan loan_id loans) [
    | none ↦ some not_applicable
    | some loan ↦ elim loan.delivery_mode [
      | cursor_direct ↦ some not_applicable
      | proxy_alias ↦
          checked_by (check_spend_rules table (legacy_loan_rules loan) model 0 loan_id now)
    ]
  ]

  unfoldable pub evaluate_membership :
      Office → Membership → ℕ → SpendPool → Option Text → Option Evaluation
  evaluate_membership office m member_id request_pool model =
      let policy = effective_policy office m in
      if text_eq policy.credit_mode prepaid && leb_ℤ (read_balance office.wallets member_id) (pos 0)
      then some (credit_exhausted request_pool)
      else checked_by (check_spend_rules table policy.rules model member_id 0 now)

  -- `none` is the ValueError of `check_spend_rules`.
  unfoldable pub evaluate_spend :
      Office → List ProxyKey → List KeyLoan → ℕ → ℕ → Option Text → Option Evaluation
  evaluate_spend office keys loans proxy_key_id loan_id model =
      let member_id = resolve_member_id keys loans proxy_key_id loan_id in
      elim (loan_usage_cap_pool model) [
        | none ↦ some not_counted
        | some request_pool ↦
            elim (if member_id == 0 then none else active_membership member_id office.memberships) [
              | some m ↦ evaluate_membership office m member_id request_pool model
              | none ↦
                  if not (member_id == 0) && membership_required_for_member office member_id
                  then some membership_required
                  else if not (loan_id == 0) && member_id == 0
                  then evaluate_loan loans loan_id model
                  else some no_membership
            ]
      ]
