-- ===== src/Lending/Issue.antt =====
-- pulse/tool_center/key_loan_issue.py: `issue_loan_key`, `issue_pool_loan` and
-- `request_self_service_loan`.
use cursor_pulse.Base.{
  ℕ, Bool, true, false, not, ◌&&◌, ◌||◌, List, [], ◌∷◌, ◌++◌, Option, none, some, ◌==◌,
  if◌then◌else◌, or_else, any, is_nil,
}
use cursor_pulse.Base.Outcome.{Outcome, raised, returned, ◌>>=◌}
use cursor_pulse.Base.Text.{Text, codes, text_eq, strip, text_or_empty, is_empty}
use cursor_pulse.Loans.{KeyLoan, Ledger, is_active, active, proxy_alias}
use cursor_pulse.Spend.Rule.{RawItem}
use cursor_pulse.Lending.{
  LoanError, only_alias, unknown_lender_mode, no_borrower, no_lender, none_chosen,
  no_encryption_key, empty_pool, member_inactive, no_own_account, quota_left, already_borrowing,
  busy, other_error, Member, healthy, warning, exhausted, LatestSnapshot, RemoteCall, World, Fresh,
  Effect,
}
use cursor_pulse.Lending.Accounts.{
  burn_status, ensure, found, get_member, own_accounts, ensure_borrower_has_cursor_key,
  account_loan_deadline, Lender, check_account, check_lender,
}
use cursor_pulse.Lending.Remote.{
  loan_key_name, revoke_remote_key_best_effort, Made, make_remote_key, create_loan_credential,
}

-- The arguments of a request for a loan that its outcome depends on.
pub record LoanRequest : Type 0 where
  pub team_id : ℕ
  pub source_account_id : ℕ
  pub borrower_member_id : ℕ
  pub auto_revoke_on_reset : Bool
  pub key_name : Option Text
  pub delivery_mode : Option Text
  pub enforce_loan_cap : Bool
  pub lender_mode : Text
  pub usage_cap_rules : Option (List RawItem)

-- `(mode or default).strip()`
abbrev given_mode : Option Text → Text
given_mode mode =
    strip (if is_empty (text_or_empty mode) then codes "proxy_alias" else text_or_empty mode)

abbrev pub is_auto : Text → Bool
is_auto mode = text_eq mode (codes "auto")

abbrev pub is_lender_mode : Text → Bool
is_lender_mode mode = is_auto mode || text_eq mode (codes "manual")

-- `create_loan_record`; `now` is the time of both columns.
unfoldable pub new_loan : World → Fresh → LoanRequest → Bool → ℕ → ℕ → ℕ → Option ℕ → KeyLoan
new_loan world fresh request is_pool source_account_id credential_id baseline_used_cents
      expires_on =
    record {
      id = fresh.loan_id;
      source_account_id = source_account_id;
      credential_id = credential_id;
      is_pool = is_pool;
      created_at = world.now;
      revoked_at = none;
      status = active;
      auto_revoke_on_reset = request.auto_revoke_on_reset;
      expires_on = expires_on;
      alias_key_hash = some fresh.alias_key_hash;
      ide_key_hash = none;
      borrower_member_id = request.borrower_member_id;
      baseline_used_cents = baseline_used_cents;
      source_bound_at = some world.now;
      delivery_mode = proxy_alias;
      lends_auto = is_auto request.lender_mode;
      usage_cap_rules = some (or_else request.usage_cap_rules []);
      usage_cap_period = none;
      auto_cost_limit_cents = none;
      api_cost_limit_cents = none;
    }

unfoldable pub add_loan : KeyLoan → Ledger → Ledger
add_loan l ledger = record ledger { loans = ledger.loans ++ l ∷ [] }

-- The account to ask, and who borrows.
unfoldable pub choose_lender : World → LoanRequest → Outcome LoanError ℕ
choose_lender world request =
    let given = returned request.source_account_id in
    do
      chosen ←
          if is_auto request.lender_mode && request.source_account_id == 0
          then found no_lender world.auto_lender
          else given
      _ ← ensure none_chosen (not (chosen == 0))
      returned chosen

unfoldable pub check_borrower : World → ℕ → ℕ → Outcome LoanError Member
check_borrower world team_id id = do
  borrower ← found no_borrower (get_member id world.members)
  _ ← ensure no_borrower (borrower.team_id == team_id)
  returned borrower

-- Everything `issue_loan_key` checks before it asks Cursor for a key.
unfoldable pub check_request : World → LoanRequest → Ledger → Outcome LoanError (Member × Lender)
check_request world request ledger = do
  _ ← ensure only_alias (text_eq (given_mode request.delivery_mode) (codes "proxy_alias"))
  _ ← ensure unknown_lender_mode (is_lender_mode request.lender_mode)
  borrower ← check_borrower world request.team_id request.borrower_member_id
  source ← choose_lender world request
  account ← check_account world request.team_id source
  _ ←
      ensure_borrower_has_cursor_key world request.team_id request.borrower_member_id
        ledger.credentials
  lender ← check_lender world request.enforce_loan_cap account ledger.credentials ledger.loans
  returned (borrower, lender)

-- The body of the `try`: the credential of the new key, and then the loan. What was flushed before an
-- exception stays in the session, unless the database itself refuses.
unfoldable pub record_loan : World → Fresh → LoanRequest → Lender → Made → Ledger → Effect
record_loan world fresh request lender made ledger =
    elim (create_loan_credential world fresh lender.account.id made ledger) [
      | raised e ↦ record { result = raised e; ledger = ledger; calls = [] }
      | returned with_key ↦
          let deadline =
            if request.auto_revoke_on_reset then account_loan_deadline lender.account else none in
          let loan =
            new_loan world fresh request false lender.account.id fresh.credential_id
              lender.used_cents deadline in
          if is_empty (strip world.encryption_key)
          then record { result = raised no_encryption_key; ledger = with_key; calls = [] }
          else if world.flush_fails
          then record { result = raised other_error; ledger = ledger; calls = [] }
          else record { result = returned loan; ledger = add_loan loan with_key; calls = [] }
    ]

-- `except Exception`: the new key is revoked, and the exception goes on.
unfoldable pub or_revoke : World → Made → List RemoteCall → Effect → Effect
or_revoke world made calls tried = elim tried.result [
  | returned loan ↦ record tried { calls = calls }
  | raised e ↦ record tried {
    calls =
        calls ++ revoke_remote_key_best_effort world.client made.primary_api_key made.remote_key_id;
  }
]

-- A key is made at Cursor and then written here by `write`.
unfoldable pub with_remote_key : World → Lender → Text → Ledger → (Made → Effect) → Effect
with_remote_key world lender name ledger write =
    let (made, calls) = make_remote_key world lender name in
    elim made [
      | raised e ↦ record { result = raised e; ledger = ledger; calls = calls }
      | returned key ↦ or_revoke world key calls (write key)
    ]

abbrev given_name : Option Text → Text → Text
given_name key_name name =
    if is_empty (text_or_empty key_name) then loan_key_name name else text_or_empty key_name

unfoldable pub issue_loan_key : World → Fresh → LoanRequest → Ledger → Effect
issue_loan_key world fresh request ledger = elim (check_request world request ledger) [
  | raised e ↦ record { result = raised e; ledger = ledger; calls = [] }
  | returned (borrower, lender) ↦
      with_remote_key world lender (given_name request.key_name borrower.display_name) ledger
        λ made. record_loan world fresh request lender made ledger
]

-- The arguments of `create_loan_record` that the administrator's automatic loan fixes.
abbrev pool_loan_request : LoanRequest → LoanRequest
pool_loan_request request = record request {
  auto_revoke_on_reset = false;
  lender_mode = codes "auto";
}

unfoldable pub check_pool_request : World → LoanRequest → Outcome LoanError Member
check_pool_request world request = do
  borrower ← check_borrower world request.team_id request.borrower_member_id
  _ ← ensure no_encryption_key (not (is_empty (strip world.encryption_key)))
  _ ← ensure empty_pool (not world.pool_is_empty)
  _ ← ensure other_error (not world.flush_fails)
  returned borrower

unfoldable pub issue_pool_loan : World → Fresh → LoanRequest → Ledger → Effect
issue_pool_loan world fresh request ledger = elim (check_pool_request world request) [
  | raised e ↦ record { result = raised e; ledger = ledger; calls = [] }
  | returned borrower ↦
      let loan = new_loan world fresh (pool_loan_request request) true 0 0 0 none in
      record { result = returned loan; ledger = add_loan loan ledger; calls = [] }
]

abbrev is_low : Option LatestSnapshot → Bool
is_low none = false
is_low (some s) = elim (burn_status s) [ healthy ↦ false | warning ↦ true | exhausted ↦ true ]

-- The loans of a borrower that run.
abbrev pub is_loan_to : ℕ → KeyLoan → Bool
is_loan_to member_id l = l.borrower_member_id == member_id && is_active l.status

-- What a member who asks for a loan must be, up to the account that lends.
unfoldable pub check_self_service : World → ℕ → Member → Ledger → Outcome LoanError ℕ
check_self_service world team_id borrower ledger =
    let own = own_accounts team_id borrower.id world.accounts in
    do
      _ ← ensure member_inactive borrower.is_active
      _ ← ensure no_own_account (not (is_nil own))
      _ ← ensure_borrower_has_cursor_key world team_id borrower.id ledger.credentials
      _ ← ensure quota_left (any (λ a. is_low (world.latest_snapshot a.id)) own)
      found no_lender world.auto_lender

unfoldable pub check_no_loan : World → Member → Ledger → Outcome LoanError (Unit {0})
check_no_loan world borrower ledger = do
  _ ← ensure busy (not world.lock_fails)
  ensure already_borrowing (not (any (is_loan_to borrower.id) ledger.loans))

abbrev pub self_service_request : ℕ → ℕ → Member → LoanRequest
self_service_request team_id lender borrower = record {
  team_id = team_id;
  source_account_id = lender;
  borrower_member_id = borrower.id;
  auto_revoke_on_reset = true;
  key_name = none;
  delivery_mode = some (codes "proxy_alias");
  enforce_loan_cap = true;
  lender_mode = codes "auto";
  usage_cap_rules = none;
}

unfoldable pub self_service_lender : World → ℕ → Member → Ledger → Outcome LoanError ℕ
self_service_lender world team_id borrower ledger = do
  lender ← check_self_service world team_id borrower ledger
  _ ← check_no_loan world borrower ledger
  returned lender

unfoldable pub request_self_service_loan : World → Fresh → ℕ → Member → Ledger → Effect
request_self_service_loan world fresh team_id borrower ledger =
    elim (self_service_lender world team_id borrower ledger) [
      | raised e ↦ record { result = raised e; ledger = ledger; calls = [] }
      | returned lender ↦
          issue_loan_key world fresh (self_service_request team_id lender borrower) ledger
    ]
