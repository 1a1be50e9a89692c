-- ===== src/Members.antt =====
-- pulse/proxy/membership.py: plans, the memberships of a team's members, and what a request may spend.
-- The tables are one record. Ids are numbers, 0 for the empty text; the dictionary of members gives the
-- team of each, 0 for none; whether a team requires a membership is a function, read from its settings.
pub mod Changes
pub mod Spending
pub mod Evaluation
pub mod Openings
pub mod Active
pub mod Once
use cursor_pulse.Base.{
  ℕ, suc, Bool, true, false, not, ◌&&◌, ◌||◌, List, [], ◌∷◌, ◌++◌, map, Option, none, some, ltb,
  ◌==◌, if◌then◌else◌, or_else, is_some, any,
}
use cursor_pulse.Base.Dict.{Dict, lookup, nat_eq}
use cursor_pulse.Base.Int.{ℤ, pos, leb_ℤ}
use cursor_pulse.Base.Outcome.{Outcome, raised, returned, ◌>>=◌}
use cursor_pulse.Base.Text.{Text, codes, strip, text_eq, is_empty, text_or_empty}
use cursor_pulse.Spend.Rule.{
  Period, SpendPool, auto, api, SpendPolicyConfigError, SpendRule, Result, ok, err, RawRule,
  RawItem, dict, read_period, parse_spend_rules, as_dict, rules_from_json, loan_usage_cap_pool,
}
use cursor_pulse.Spend.Window.{UsageRow}
use cursor_pulse.Spend.Check.{Verdict, check_spend_rules}
use cursor_pulse.Wallet.{Kind, CreditTransaction, Wallets, grant, read_balance}
use cursor_pulse.Wallet.Runs.{after}
use cursor_pulse.Loans.{KeyLoan, DeliveryMode, cursor_direct, proxy_alias, get_loan}

pub record MembershipPlan : Type 0 where
  pub id : ℕ
  pub team_id : ℕ
  pub rules : Option (List RawItem)
  pub credit_mode : Text
  pub opening_credit_cents : Option ℤ
  pub is_active : Bool

pub record Membership : Type 0 where
  pub id : ℕ
  pub member_id : ℕ
  pub plan_id : Option ℕ
  pub rules_override : Option (List RawItem)
  pub credit_mode_override : Option Text
  pub is_active : Bool
  pub created_by_member_id : Option ℕ

pub record Office : Type 0 where
  pub memberships : List Membership
  pub next_id : ℕ
  pub plans : List MembershipPlan
  pub teams : Dict ℕ ℕ
  pub wallets : Wallets

pub data MembershipError : Type 0 where
  has_membership no_plan wrong_team archived_plan bad_credit_mode : MembershipError
  bad_rules : SpendPolicyConfigError → MembershipError

pub record EffectivePolicy : Type 0 where
  pub rules : List SpendRule
  pub credit_mode : Text

unfoldable pub get_plan : ℕ → List MembershipPlan → Option MembershipPlan
get_plan id [] = none
get_plan id (p ∷ plans) = if p.id == id then some p else get_plan id plans

unfoldable pub plan_of : Office → Membership → Option MembershipPlan
plan_of office m = elim m.plan_id [ none ↦ none | some id ↦ get_plan id office.plans ]

abbrev pub unlimited : Text
unlimited = codes "unlimited"

abbrev pub prepaid : Text
prepaid = codes "prepaid"

abbrev pub is_credit_mode : Text → Bool
is_credit_mode mode = text_eq mode unlimited || text_eq mode prepaid

-- The plan's mode, "unlimited" where there is no plan or its mode is empty.
unfoldable pub plan_credit_mode : Option MembershipPlan → Text
plan_credit_mode none = unlimited
plan_credit_mode (some plan) = if is_empty plan.credit_mode then unlimited else plan.credit_mode

unfoldable pub effective_policy : Office → Membership → EffectivePolicy
effective_policy office m =
    let plan = plan_of office m in
    let override = strip (text_or_empty m.credit_mode_override) in
    record {
      rules = elim m.rules_override [
        | some override_rules ↦ rules_from_json (some override_rules)
        | none ↦ elim plan [ none ↦ [] | some p ↦ rules_from_json p.rules ]
      ];
      credit_mode = if is_credit_mode override then override else plan_credit_mode plan;
    }

abbrev pub is_active_of : ℕ → Membership → Bool
is_active_of member_id m = m.member_id == member_id && m.is_active

unfoldable pub active_membership : ℕ → List Membership → Option Membership
active_membership member_id [] = none
active_membership member_id (m ∷ memberships) =
    if is_active_of member_id m then some m else active_membership member_id memberships

abbrev pub opening_credit_note : Text
opening_credit_note = codes "membership:opening_credit"

abbrev pub is_grant : Kind → Bool
is_grant Kind.grant = true
is_grant Kind.adjust = false
is_grant Kind.refund = false
is_grant Kind.charge = false

-- SQL's `note = …`, which NULL never meets.
abbrev pub is_note : Option Text → Text → Bool
is_note none t = false
is_note (some s) t = text_eq s t

abbrev pub is_opening : ℕ → CreditTransaction → Bool
is_opening member_id t =
    t.member_id == member_id && is_grant t.kind && is_note t.note opening_credit_note

abbrev pub has_opening_credit_grant : ℕ → List CreditTransaction → Bool
has_opening_credit_grant member_id = any (is_opening member_id)

unfoldable pub validate_credit_mode_override : Option Text → Outcome MembershipError (Option Text)
validate_credit_mode_override none = returned none
validate_credit_mode_override (some value) =
    if is_credit_mode (strip value) then returned (some (strip value)) else raised bad_credit_mode

unfoldable pub normalize_rules_override :
    Option (List RawRule) → Outcome MembershipError (Option (List RawItem))
normalize_rules_override none = returned none
normalize_rules_override (some items) = elim (parse_spend_rules (some items)) [
  | err e ↦ raised (bad_rules e)
  | ok rules ↦ returned (some (map (λ r. dict (as_dict r)) rules))
]

unfoldable pub validate_plan_for_member :
    Office → ℕ → ℕ → Bool → Outcome MembershipError MembershipPlan
validate_plan_for_member office member_id plan_id assigning = elim (get_plan plan_id office.plans) [
  | none ↦ raised no_plan
  | some plan ↦ elim (lookup member_id office.teams) [
    | none ↦ raised wrong_team
    | some team ↦
        if not (team == plan.team_id)
        then raised wrong_team
        else if assigning && not plan.is_active
        then raised archived_plan
        else returned plan
  ]
]

-- `grant` raises on an amount that is not positive, which the tests before it rule out.
unfoldable pub maybe_grant_opening_credit : Office → Membership → Office
maybe_grant_opening_credit office m =
    if has_opening_credit_grant m.member_id office.wallets.transactions
    then office
    else elim (plan_of office m) [
      | none ↦ office
      | some plan ↦ elim plan.opening_credit_cents [
        | none ↦ office
        | some cents ↦ if leb_ℤ cents (pos 0) then office else record office {
          wallets = after office.wallets (
              grant office.wallets m.member_id cents m.created_by_member_id
                (some opening_credit_note));
        }
      ]
    ]

-- The arguments of `open_membership`.
pub record Opening : Type 0 where
  pub member_id : ℕ
  pub plan_id : Option ℕ
  pub created_by_member_id : Option ℕ
  pub rules_override : Option (List RawRule)
  pub credit_mode_override : Option Text

abbrev validate_opening_plan : Office → Opening → Outcome MembershipError (Option ℕ)
validate_opening_plan office o = elim o.plan_id [
  | none ↦ returned none
  | some plan_id ↦
      validate_plan_for_member office o.member_id plan_id true >>= λ plan. returned (some plan_id)
]

-- `session.add(membership)`, which gives the row its id.
unfoldable pub add_membership : Office → Membership → Office
add_membership office m = record office {
  memberships = office.memberships ++ m ∷ [];
  next_id = suc office.next_id;
}

unfoldable pub open_membership : Office → Opening → Outcome MembershipError (Membership × Office)
open_membership office o =
    if is_some (active_membership o.member_id office.memberships) then raised has_membership else do
      plan_id ← validate_opening_plan office o
      rules ← normalize_rules_override o.rules_override
      mode ← validate_credit_mode_override o.credit_mode_override
      let m : Membership = record {
        id = office.next_id;
        member_id = o.member_id;
        plan_id = plan_id;
        rules_override = rules;
        credit_mode_override = mode;
        is_active = true;
        created_by_member_id = o.created_by_member_id;
      }
      returned (m, maybe_grant_opening_credit (add_membership office m) m)
