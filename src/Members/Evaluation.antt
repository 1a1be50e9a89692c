-- ===== src/Members/Evaluation.antt =====
-- What `evaluate_spend` says of a member.
use cursor_pulse.Base.{
  ℕ, ◌<◌, ◌≡◌, ◌≢◌, refl, Bool, true, false, ◌&&◌, ◌||◌, List, [], ◌∷◌, Option, none, some, arith,
  ◌==◌, any, All, Bool-cases, Option-cases, inl, inr,
}
use cursor_pulse.Base.Int.{pos, leb_ℤ}
use cursor_pulse.Base.Text.{Text, text_eq}
use cursor_pulse.Spend.Rule.{
  SpendPool, total, SpendRule, RawItem, dict, not_dict, read_stored, rules_from_json,
  loan_usage_cap_pool,
}
use cursor_pulse.Spend.Window.{UsageRow, member, scope_filter}
use cursor_pulse.Spend.Check.{rule_in}
use cursor_pulse.Spend.Verdict.{is_limited, reached, check_spend_rules_limits}
use cursor_pulse.Spend.Totals.{IsCanonical}
use cursor_pulse.Wallet.{read_balance}
use cursor_pulse.Loans.{KeyLoan}
use cursor_pulse.Keys.{ProxyKey}
use cursor_pulse.Members.{Office, Membership, active_membership, effective_policy, plan_of, prepaid}
use cursor_pulse.Members.Spending.{
  Evaluation, not_counted, membership_required, not_applicable, no_membership, credit_exhausted,
  checked, checked_by, resolve_member_id, membership_required_for_member, evaluate_membership,
  evaluate_spend,
}

read_stored-positive :
    (item : RawItem) (r : SpendRule) → read_stored item ≡ some r → 0 < r.limit_cents
unfolding read_stored
read_stored-positive not_dict r e = ground arith
read_stored-positive (dict item) r e = ground arith

rules_from_json-positive :
    (raw : Option (List RawItem)) → All (λ r. 0 < r.limit_cents) (rules_from_json raw)
unfolding rules_from_json
rules_from_json-positive none = tt
rules_from_json-positive (some []) = tt
rules_from_json-positive (some (item ∷ raw)) = elim (Option-cases (read_stored item)) [
  | inl skipped ↦ rw (skipped, rules_from_json) (rules_from_json-positive (some raw))
  | inr (r, kept) ↦
      rw (kept, rules_from_json)
        (read_stored-positive item r kept, rules_from_json-positive (some raw))
]

effective_policy-positive :
    (office : Office) (m : Membership)
    → All (λ r. 0 < r.limit_cents) (effective_policy office m).rules
unfolding effective_policy
effective_policy-positive office m = elim (Option-cases m.rules_override) [
  | inr (raw, own) ↦ rw own (rules_from_json-positive (some raw))
  | inl none_own ↦ elim (Option-cases (plan_of office m)) [
    | inl bare ↦ rw (none_own, bare) tt
    | inr (plan, found) ↦ rw (none_own, found) (rules_from_json-positive plan.rules)
  ]
]

abbrev pub is_limited_evaluation : Evaluation → Bool
is_limited_evaluation not_counted = false
is_limited_evaluation membership_required = true
is_limited_evaluation not_applicable = false
is_limited_evaluation no_membership = false
is_limited_evaluation (credit_exhausted pool) = true
is_limited_evaluation (checked v) = is_limited v

-- What stops a member's request in a pool: no membership where the team requires one, a prepaid
-- wallet that is empty, or a rule on the pool or the total that is reached.
abbrev pub is_stopped :
    (ℕ → Bool) → List UsageRow → ℕ → Office → ℕ → SpendPool → Option Membership → Bool
is_stopped required table now office member_id request none =
    membership_required_for_member required table now office member_id
is_stopped required table now office member_id request (some m) =
    let policy = effective_policy office m in
    (text_eq policy.credit_mode prepaid && leb_ℤ (read_balance office.wallets member_id) (pos 0))
    || any (λ r. (rule_in request r || rule_in total r) && reached table (member member_id) now r)
        policy.rules

scope_filter-member : (m : ℕ) → m ≢ 0 → scope_filter m 0 ≡ some (member m)
unfolding scope_filter
scope_filter-member m real = ground arith

module _ (required : ℕ → Bool) (table : List UsageRow) (now : ℕ)
    (canonical : All IsCanonical table) where
  evaluate_membership-stops :
      (office : Office) (m : Membership) (member_id : ℕ) (request : SpendPool) (model : Option Text)
      → member_id ≢ 0
      → loan_usage_cap_pool model ≡ some request
      → (e : Evaluation) × (evaluate_membership required table now office m member_id request model
          ≡ some e)
        × (is_limited_evaluation e
            ≡ is_stopped required table now office member_id request (some m))
  unfolding evaluate_membership checked_by
  evaluate_membership-stops office m member_id request model real counted =
      let policy = effective_policy office m in
      elim (Bool-cases (
        text_eq policy.credit_mode prepaid
        && leb_ℤ (read_balance office.wallets member_id) (pos 0))) [
          | inl broke ↦ rw broke (credit_exhausted request, refl, refl)
          | inr solvent ↦
              let (v, e, says) =
                check_spend_rules_limits table policy.rules model member_id 0 now request
                  (member member_id) counted (scope_filter-member member_id real) canonical
                  (effective_policy-positive office m) in
              rw solvent (checked v, rw e refl, says)
        ]

  -- With a table whose pool column holds only what the ledger writes, or nothing, a request of a member
  -- in a pool that counts always gets an answer, and it is refused exactly when the member has no active
  -- membership and the team requires one, or has one that is prepaid with no balance left, or has one
  -- with a rule on the pool or the total that the row-by-row sum of its window reaches.
  pub evaluate_spend_limits :
      (office : Office) (keys : List ProxyKey) (loans : List KeyLoan) (proxy_key_id loan_id : ℕ)
      (model : Option Text) (request : SpendPool)
      → resolve_member_id keys loans proxy_key_id loan_id ≢ 0
      → loan_usage_cap_pool model ≡ some request
      → let member_id = resolve_member_id keys loans proxy_key_id loan_id in
        (e : Evaluation) × (evaluate_spend required table now office keys loans proxy_key_id loan_id
            model
          ≡ some e)
        × (is_limited_evaluation e
            ≡ is_stopped required table now office member_id request
                (active_membership member_id office.memberships))
  unfolding evaluate_spend
  evaluate_spend_limits office keys loans proxy_key_id loan_id model request real counted =
      let member_id = resolve_member_id keys loans proxy_key_id loan_id in
      let known : (member_id == 0) ≡ false = ground arith in
      elim (Option-cases (active_membership member_id office.memberships)) [
        | inr (m, found) ↦
            let (e, runs, says) =
              evaluate_membership-stops office m member_id request model real counted in
            rw (counted, found, known, evaluate_spend) (e, runs, says)
        | inl absent ↦
            elim (Bool-cases (membership_required_for_member required table now office member_id)) [
              | inl must ↦
                  rw (evaluate_spend, counted, absent, known, must)
                    (membership_required, ground arith, refl)
              | inr may ↦
                  rw (evaluate_spend, counted, absent, known, may)
                    (no_membership, ground arith, refl)
            ]
      ]
