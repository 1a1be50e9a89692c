-- ===== src/Lending/Reassign.antt =====
-- pulse/tool_center/key_loan_issue.py: `reassign_loan_source` and `finalize_reassign_old_remote_revoke`.
use cursor_pulse.Base.{
  ℕ, Bool, true, false, not, ◌&&◌, ◌||◌, List, [], ◌∷◌, Option, none, some, ◌==◌, if◌then◌else◌,
  or_else, is_some,
}
use cursor_pulse.Base.Outcome.{Outcome, raised, returned, ◌>>=◌}
use cursor_pulse.Base.Text.{Text, codes}
use cursor_pulse.Loans.{
  KeyLoan, Credential, Ledger, is_active, get_loan, get_credential, update_loan, revoke_credential,
}
use cursor_pulse.Keys.Answer.{is_direct}
use cursor_pulse.Lending.{
  LoanError, unknown_lender_mode, empty_pool, no_loan, not_active, not_alias, alias_missing,
  already_pool, same_account, not_bound, none_chosen, no_account, busy, other_error, Account,
  Member, RemoteCall, drop_key, World, Fresh, Effect,
}
use cursor_pulse.Lending.Accounts.{
  ensure, found, get_account, get_member, get_primary_credential, account_loan_deadline, Lender,
  check_account, check_lender,
}
use cursor_pulse.Lending.Remote.{loan_key_name, Made, create_loan_credential}
use cursor_pulse.Lending.Issue.{is_auto, is_lender_mode, with_remote_key}

-- The arguments that the outcome depends on; `auto_revoke_on_reset` may be left open.
pub record Reassignment : Type 0 where
  pub team_id : ℕ
  pub loan_id : ℕ
  pub new_source_account_id : ℕ
  pub enforce_loan_cap : Bool
  pub lender_mode : Text
  pub auto_revoke_on_reset : Option Bool

-- `_pending_old_remote_revoke`: the key to revoke at Cursor once the change is committed.
pub record Pending : Type 0 where
  pub old_source_account_id : ℕ
  pub old_credential_id : ℕ
  pub remote_key_id : ℕ

unfoldable pub validate_reassign_loan : Option KeyLoan → Outcome LoanError KeyLoan
validate_reassign_loan row = do
  loan ← found no_loan row
  _ ← ensure not_active (is_active loan.status)
  _ ← ensure not_alias (not (is_direct loan.delivery_mode))
  _ ← ensure alias_missing (is_some loan.alias_key_hash)
  returned loan

-- The credential of a loan, where it has one.
unfoldable pub old_credential : KeyLoan → List Credential → Option Credential
old_credential loan creds =
    if loan.credential_id == 0 then none else get_credential loan.credential_id creds

-- What is left to revoke at Cursor of a loan that gets another account.
unfoldable pub pending_revoke : KeyLoan → List Credential → Option Pending
pending_revoke loan creds = elim (old_credential loan creds) [
  | none ↦ none
  | some c ↦
      if not (c.remote_key_id == 0) && c.is_active
      then some (record {
        old_source_account_id = loan.source_account_id;
        old_credential_id = c.id;
        remote_key_id = c.remote_key_id;
      })
      else none
]

-- What `reassign_loan_source` leaves pending for `finalize_reassign_old_remote_revoke`, where it returns.
unfoldable pub reassign_pending : Reassignment → KeyLoan → List Credential → Option Pending
reassign_pending call loan creds =
    let same = not loan.is_pool && loan.source_account_id == call.new_source_account_id in
    let unbound = loan.source_account_id == 0 in
    if (if is_auto call.lender_mode then unbound else same) then none else pending_revoke loan creds

-- `if old_cred: …`
unfoldable pub retire_credential : KeyLoan → List Credential → List Credential
retire_credential loan creds = elim (old_credential loan creds) [
  | none ↦ creds
  | some c ↦ revoke_credential c.id creds
]

unfoldable pub pooled_loan : ℕ → KeyLoan → KeyLoan
pooled_loan now l = record l {
  source_account_id = 0;
  credential_id = 0;
  is_pool = true;
  lends_auto = true;
  auto_revoke_on_reset = false;
  expires_on = none;
  baseline_used_cents = 0;
  source_bound_at = some now;
}

-- A change of the loan's row that ends with the last write.
unfoldable pub write_loan : World → (KeyLoan → KeyLoan) → KeyLoan → Ledger → Ledger → Effect
write_loan world f loan before after =
    if world.flush_fails
    then record { result = raised other_error; ledger = before; calls = [] }
    else record {
      result = returned (f loan);
      ledger = record after { loans = update_loan f loan.id after.loans };
      calls = [];
    }

abbrev raise_now : LoanError → Ledger → Effect
raise_now e ledger = record { result = raised e; ledger = ledger; calls = [] }

unfoldable pub convert_pinned_loan_to_pool : World → KeyLoan → Ledger → Effect
convert_pinned_loan_to_pool world loan ledger =
    if world.pool_is_empty
    then raise_now empty_pool ledger
    else write_loan world (pooled_loan world.now) loan ledger
        (record ledger { credentials = retire_credential loan ledger.credentials })

-- The row of a loan that is pinned to an account, with the day it ends.
unfoldable pub pinned_loan : ℕ → Option Bool → Account → KeyLoan → KeyLoan
pinned_loan now auto_revoke account l =
    let ends = or_else auto_revoke l.auto_revoke_on_reset in
    record l {
      is_pool = false;
      auto_revoke_on_reset = ends;
      expires_on = if ends then account_loan_deadline account else none;
      lends_auto = false;
      source_bound_at = some now;
    }

-- What `_pin_auto_wander_on_current_account` checks.
unfoldable pub check_pin : World → Reassignment → KeyLoan → Outcome LoanError Account
check_pin world call loan = do
  _ ← ensure not_bound (not (loan.source_account_id == 0))
  account ← found no_account (get_account call.team_id loan.source_account_id world.accounts)
  _ ← ensure same_account (loan.lends_auto || is_some call.auto_revoke_on_reset)
  returned account

unfoldable pub pin_auto_wander_on_current_account : World → Reassignment → KeyLoan → Ledger → Effect
pin_auto_wander_on_current_account world call loan ledger = elim (check_pin world call loan) [
  | raised e ↦ raise_now e ledger
  | returned account ↦
      write_loan world (pinned_loan world.now call.auto_revoke_on_reset account) loan ledger ledger
]

unfoldable pub moved_loan : World → Fresh → Option Bool → Lender → KeyLoan → KeyLoan
moved_loan world fresh auto_revoke lender l =
    record (pinned_loan world.now auto_revoke lender.account l) {
      source_account_id = lender.account.id;
      credential_id = fresh.credential_id;
      baseline_used_cents = lender.used_cents;
    }

-- The body of the `try`.
unfoldable pub write_move : World → Fresh → Option Bool → Lender → KeyLoan → Ledger → Made → Effect
write_move world fresh auto_revoke lender loan ledger made =
    elim (create_loan_credential world fresh lender.account.id made ledger) [
      | raised e ↦ raise_now e ledger
      | returned with_key ↦
          write_loan world (moved_loan world fresh auto_revoke lender) loan ledger
            (record with_key { credentials = retire_credential loan with_key.credentials })
    ]

abbrev borrower_name : Option Member → Text
borrower_name none = codes "loan"
borrower_name (some m) = m.display_name

unfoldable pub check_move : World → Reassignment → Ledger → Outcome LoanError Lender
check_move world call ledger = do
  account ← check_account world call.team_id call.new_source_account_id
  check_lender world call.enforce_loan_cap account ledger.credentials ledger.loans

-- From the choice of a new account on.
unfoldable pub move_loan : World → Fresh → Reassignment → KeyLoan → Ledger → Effect
move_loan world fresh call loan ledger = elim (check_move world call ledger) [
  | raised e ↦ raise_now e ledger
  | returned lender ↦
      with_remote_key world lender
        (loan_key_name (borrower_name (get_member loan.borrower_member_id world.members))) ledger
        (write_move world fresh call.auto_revoke_on_reset lender loan ledger)
]

-- The three ways of a loan that may be reassigned.
unfoldable pub reassign_loan : World → Fresh → Reassignment → KeyLoan → Ledger → Effect
reassign_loan world fresh call loan ledger =
    if is_auto call.lender_mode
    then (if loan.is_pool
        then raise_now already_pool ledger
        else convert_pinned_loan_to_pool world loan ledger)
    else if call.new_source_account_id == 0
    then raise_now none_chosen ledger
    else if not loan.is_pool && loan.source_account_id == call.new_source_account_id
    then pin_auto_wander_on_current_account world call loan ledger
    else move_loan world fresh call loan ledger

unfoldable pub check_reassign : World → Reassignment → Ledger → Outcome LoanError KeyLoan
check_reassign world call ledger = do
  _ ← ensure unknown_lender_mode (is_lender_mode call.lender_mode)
  _ ← ensure busy (not world.lock_fails)
  validate_reassign_loan (get_loan call.loan_id ledger.loans)

unfoldable pub reassign_loan_source : World → Fresh → Reassignment → Ledger → Effect
reassign_loan_source world fresh call ledger = elim (check_reassign world call ledger) [
  | raised e ↦ raise_now e ledger
  | returned loan ↦ reassign_loan world fresh call loan ledger
]

-- After the commit: whether the old key is revoked at Cursor, where `revokes` says that the call for a
-- key does not raise, and the call made.
unfoldable pub finalize_reassign_old_remote_revoke :
    World → (ℕ → Bool) → Option Pending → Ledger → Bool × List RemoteCall
finalize_reassign_old_remote_revoke world revokes none ledger = (false, [])
finalize_reassign_old_remote_revoke world revokes (some p) ledger =
    elim (get_primary_credential p.old_source_account_id ledger.credentials) [
      | none ↦ (false, [])
      | some c ↦ elim (world.decrypt world.encryption_key c.id) [
        | none ↦ (false, [])
        | some api_key ↦ elim (world.client.get_access_token api_key) [
          | none ↦ (false, [])
          | some token ↦ (revokes p.remote_key_id, drop_key p.remote_key_id ∷ [])
        ]
      ]
    ]
