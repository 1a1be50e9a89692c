-- ===== src/Loans.antt =====
-- pulse/tool_center/key_loan_state.py: how a loan of a key ends. A loan and its credential are rows of
-- pulse/storage/models.py; dates and times are numbers, ids are numbers with 0 for none. What the
-- loan has cost and the messages about it are left out.
pub mod Rows
pub mod Expiry
use cursor_pulse.Base.{
  ℕ, suc, ◌-◌, ◌/◌, Bool, true, false, not, ◌&&◌, ◌||◌, List, [], ◌∷◌, map, Option, none, some, ltb,
  leb, ◌==◌, if◌then◌else◌, is_some, keep, any,
}
use cursor_pulse.Base.Sorting.{sort_by}
use cursor_pulse.Base.Text.{Text}
use cursor_pulse.Spend.Rule.{RawItem}

pub data LoanStatus : Type 0 where
  active revoked expired : LoanStatus

abbrev pub is_active : LoanStatus → Bool
is_active active = true
is_active revoked = false
is_active expired = false

pub data DeliveryMode : Type 0 where
  cursor_direct proxy_alias : DeliveryMode

-- The hashes of the alias and of the IDE key stand for the three columns of each; `lends_auto` says that
-- the account is chosen anew for each request.
pub record KeyLoan : Type 0 where
  pub id : ℕ
  pub source_account_id : ℕ
  pub credential_id : ℕ
  pub is_pool : Bool
  pub created_at : ℕ
  pub revoked_at : Option ℕ
  pub status : LoanStatus
  pub auto_revoke_on_reset : Bool
  pub expires_on : Option ℕ
  pub alias_key_hash : Option ℕ
  pub ide_key_hash : Option ℕ
  pub borrower_member_id : ℕ
  pub baseline_used_cents : ℕ
  pub source_bound_at : Option ℕ
  pub delivery_mode : DeliveryMode
  pub lends_auto : Bool
  pub usage_cap_rules : Option (List RawItem)
  pub usage_cap_period : Option Text
  pub auto_cost_limit_cents : Option ℕ
  pub api_cost_limit_cents : Option ℕ

pub record Credential : Type 0 where
  pub id : ℕ
  pub account_id : ℕ
  pub remote_key_id : ℕ
  pub key_hash : Option ℕ
  pub is_loan_key : Bool
  pub is_active : Bool
  pub sync_enabled : Bool
  pub has_value : Bool

pub record Ledger : Type 0 where
  pub loans : List KeyLoan
  pub credentials : List Credential

-- `_loan_created_date`: days, where `created_at` is microseconds.
unfoldable pub loan_created_date : KeyLoan → ℕ
loan_created_date l = l.created_at / 86_400_000_000

-- Those created last come first: the order by age at `now`.
unfoldable pub list_active_loans : ℕ → List KeyLoan → List KeyLoan
list_active_loans now loans =
    sort_by (λ l. now - l.created_at) (keep (λ l. is_active l.status) loans)

unfoldable pub get_loan : ℕ → List KeyLoan → Option KeyLoan
get_loan id [] = none
get_loan id (l ∷ loans) = if l.id == id then some l else get_loan id loans

unfoldable pub get_credential : ℕ → List Credential → Option Credential
get_credential id [] = none
get_credential id (c ∷ creds) = if c.id == id then some c else get_credential id creds

-- `get_primary_credential` finds one where the account has any that is active.
unfoldable pub has_primary : ℕ → List Credential → Bool
has_primary account = any λ c. c.account_id == account && c.is_active

abbrev pub update_loan : (KeyLoan → KeyLoan) → ℕ → List KeyLoan → List KeyLoan
update_loan f id = map (λ l. if l.id == id then f l else l)

unfoldable pub revoke_credential : ℕ → List Credential → List Credential
revoke_credential id = map λ c.
    if c.id == id
    then record c { is_active = false; sync_enabled = false; has_value = false }
    else c

unfoldable pub revoked_loan : ℕ → KeyLoan → KeyLoan
revoked_loan now l = record l { status = revoked; revoked_at = some now; alias_key_hash = none }

unfoldable pub expired_loan : ℕ → KeyLoan → KeyLoan
unfolding revoked_loan
expired_loan now l = record (revoked_loan now l) { status = expired }

-- `cycle_start` gives the start of the cycle of an account's latest snapshot, `deadline` the deadline
-- of an account, where there is one.
module _ (cycle_start deadline : ℕ → Option ℕ) (today : ℕ) where
  unfoldable pub loan_should_auto_expire : KeyLoan → Bool
  loan_should_auto_expire l =
      let due : Bool = elim (deadline l.source_account_id) [
        | none ↦ false
        | some d ↦ leb d today
      ] in
      let legacy : Bool = elim (cycle_start l.source_account_id) [
        | none ↦ due
        | some start ↦ if ltb (loan_created_date l) start then true else due
      ] in
      if l.is_pool
      then false
      else if not l.auto_revoke_on_reset || not (is_active l.status)
      then false
      else elim l.expires_on [ some d ↦ leb d today | none ↦ legacy ]

  -- The two tests that skip a loan; account 0 stands for all.
  unfoldable pub is_due : ℕ → KeyLoan → Bool
  is_due account l =
      if not (account == 0) && not (l.source_account_id == account)
      then false
      else loan_should_auto_expire l

-- `remote_raises` says for which credentials the calls to Cursor raise.
module _ (remote_raises : ℕ → Bool) where
  -- Whether revoking the key at Cursor is tried and raises.
  unfoldable pub remote_fails : Ledger → KeyLoan → Bool
  remote_fails ledger l = elim (get_credential l.credential_id ledger.credentials) [
    | none ↦ false
    | some c ↦
        not (c.remote_key_id == 0)
        && c.is_active
        && has_primary l.source_account_id ledger.credentials
        && remote_raises c.id
  ]

  -- `none` is an exception.
  unfoldable pub revoke_loan : Ledger → ℕ → Bool → ℕ → Option Ledger
  revoke_loan ledger id revoke_remote now = elim (get_loan id ledger.loans) [
    | none ↦ none
    | some l ↦
        if not (is_active l.status)
        then some ledger
        else if revoke_remote && remote_fails ledger l
        then none
        else some (record {
          loans = update_loan (revoked_loan now) id ledger.loans;
          credentials = revoke_credential l.credential_id ledger.credentials;
        })
  ]

module _ (remote_raises : ℕ → Bool) (cycle_start deadline : ℕ → Option ℕ) (today now : ℕ) where
  -- `loan.status = "expired"`
  unfoldable pub set_expired : ℕ → Ledger → Ledger
  set_expired id ledger = record ledger {
    loans = update_loan (λ l. record l { status = expired }) id ledger.loans;
  }

  -- One round of the loop, for a loan of the list.
  unfoldable pub expire_one : Ledger → ℕ → Option Ledger
  expire_one ledger id = elim (revoke_loan remote_raises ledger id true now) [
    | some ledger' ↦ some (set_expired id ledger')
    | none ↦ elim (revoke_loan remote_raises ledger id false now) [
      | some ledger' ↦ some (set_expired id ledger')
      | none ↦ none
    ]
  ]

  unfoldable pub expire_loop : ℕ → List KeyLoan → Ledger → ℕ × Ledger
  expire_loop account [] ledger = (0, ledger)
  expire_loop account (l ∷ loans) ledger =
      let skipped = expire_loop account loans ledger in
      if not (is_due cycle_start deadline today account l)
      then skipped
      else elim (expire_one ledger l.id) [
        | none ↦ skipped
        | some ledger' ↦
            let (count, after) = expire_loop account loans ledger' in (suc count, after)
      ]

  unfoldable pub expire_loans_on_reset : Ledger → ℕ → ℕ × Ledger
  expire_loans_on_reset ledger account =
      expire_loop account (list_active_loans now ledger.loans) ledger
