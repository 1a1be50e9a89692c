-- ===== src/Members/Changes.antt =====
-- `change_membership` and `cancel_membership`, and the sequences of calls on the office. A call that
-- raises leaves the tables as they were: its caller's transaction is rolled back.
use cursor_pulse.Base.{ℕ, Bool, false, not, List, [], ◌∷◌, Option, none, some, ◌==◌, if◌then◌else◌}
use cursor_pulse.Base.Outcome.{Outcome, raised, returned, ◌>>=◌}
use cursor_pulse.Base.Text.{Text}
use cursor_pulse.Spend.Rule.{RawRule, RawItem}
use cursor_pulse.Wallet.Runs.{Operation}
use cursor_pulse.Wallet.{UsageRow}
use cursor_pulse.Wallet.Runs
use cursor_pulse.Members.{
  Membership, Office, MembershipError, validate_plan_for_member, normalize_rules_override,
  validate_credit_mode_override, maybe_grant_opening_credit, Opening, open_membership,
}

-- The arguments of `change_membership`.
pub record Change : Type 0 where
  pub plan_id : Option ℕ
  pub rules_override : Option (List RawRule)
  pub credit_mode_override : Option Text
  pub clear_rules_override : Bool
  pub clear_credit_mode_override : Bool
  pub clear_plan : Bool

abbrev same_plan : Option ℕ → ℕ → Bool
same_plan none plan_id = false
same_plan (some id) plan_id = id == plan_id

unfoldable pub changed_plan : Office → Membership → Change → Outcome MembershipError (Option ℕ)
changed_plan office m c = if c.clear_plan then returned none else elim c.plan_id [
  | none ↦ returned m.plan_id
  | some plan_id ↦
      validate_plan_for_member office m.member_id plan_id (not (same_plan m.plan_id plan_id))
      >>= λ plan. returned (some plan_id)
]

unfoldable pub changed_rules : Membership → Change → Outcome MembershipError (Option (List RawItem))
changed_rules m c = if c.clear_rules_override then returned none else elim c.rules_override [
  | none ↦ returned m.rules_override
  | some items ↦ normalize_rules_override (some items)
]

unfoldable pub changed_credit_mode : Membership → Change → Outcome MembershipError (Option Text)
changed_credit_mode m c =
    if c.clear_credit_mode_override then returned none else elim c.credit_mode_override [
      | none ↦ returned m.credit_mode_override
      | some mode ↦ validate_credit_mode_override (some mode)
    ]

-- A write to the row of a membership: ids are a primary key.
unfoldable pub write_row : Membership → List Membership → List Membership
write_row m [] = []
write_row m (n ∷ memberships) =
    if n.id == m.id then m ∷ memberships else n ∷ write_row m memberships

abbrev pub write_membership : Membership → Office → Office
write_membership m office = record office { memberships = write_row m office.memberships }

unfoldable pub change_membership :
    Office → Membership → Change → Outcome MembershipError (Membership × Office)
change_membership office m c = do
  plan_id ← changed_plan office m c
  rules ← changed_rules m c
  mode ← changed_credit_mode m c
  let changed = record m { plan_id = plan_id; rules_override = rules; credit_mode_override = mode }
  returned (changed, maybe_grant_opening_credit (write_membership changed office) changed)

unfoldable pub cancel_membership : Office → Membership → Office
cancel_membership office m = write_membership (record m { is_active = false }) office

unfoldable pub get_membership : ℕ → List Membership → Option Membership
get_membership id [] = none
get_membership id (m ∷ memberships) = if m.id == id then some m else get_membership id memberships

-- Calls on the office and its wallets; a membership is named by its id.
pub data Call : Type 0 where
  opens : Opening → Call
  changes : ℕ → Change → Call
  cancels : ℕ → Call
  refunds : ℕ → Option ℕ → Option Text → Call
  charges : ℕ → UsageRow → Call

abbrev pub office_after : Office → Outcome MembershipError (Membership × Office) → Office
office_after office (raised e) = office
office_after office (returned (m, after)) = after

unfoldable pub step : Office → Call → Office
step office (opens o) = office_after office (open_membership office o)
step office (changes id c) = elim (get_membership id office.memberships) [
  | none ↦ office
  | some m ↦ office_after office (change_membership office m c)
]
step office (cancels id) = elim (get_membership id office.memberships) [
  | none ↦ office
  | some m ↦ cancel_membership office m
]
step office (refunds id actor note) = record office {
  wallets = Runs.step office.wallets (Operation.refunds id actor note);
}
step office (charges member_id row) = record office {
  wallets = Runs.step office.wallets (Operation.charges member_id row);
}

unfoldable pub run : Office → List Call → Office
run office [] = office
run office (c ∷ calls) = run (step office c) calls
