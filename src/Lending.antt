-- ===== src/Lending.antt =====
-- pulse/tool_center/key_loan_issue.py and the modules it takes its rows and checks from: how a key is
-- lent and how a loan gets another account. Ids are numbers with 0 for none; `borrower_name` of the
-- answers, the notes, the messages and the cache of candidates are left out.
pub mod Accounts
pub mod Remote
pub mod Issue
pub mod Reassign
pub mod Checks
pub mod Cap
pub mod Capped
pub mod Steps
pub mod Balance
pub mod Added
pub mod Alias
pub mod Moved
pub mod Refusal
pub mod Finalize
use cursor_pulse.Base.{ℕ, Bool, List, Option, ◌≡◌}
use cursor_pulse.Base.Outcome.{Outcome}
use cursor_pulse.Base.Text.{Text}
use cursor_pulse.Loans.{KeyLoan, Ledger}

-- `KeyLoanError` by its message; `other_error` is any other exception.
pub data LoanError : Type 0 where
  only_alias unknown_lender_mode no_borrower no_lender none_chosen no_account not_cursor : LoanError
  keys_unbound no_primary_key no_snapshot quota_exhausted busy cap_reached no_api_key : LoanError
  no_encryption_key empty_pool no_loan not_active not_alias alias_missing already_pool : LoanError
  same_account not_bound member_inactive no_own_account quota_left already_borrowing : LoanError
  other_error : LoanError

-- `is_in_use` says that the status is one of `_ACCOUNT_ACTIVE_STATUSES`.
pub record Account : Type 0 where
  pub id : ℕ
  pub team_id : ℕ
  pub vendor_slug : Option Text
  pub primary_member_id : ℕ
  pub is_in_use : Bool
  pub is_deleted : Bool
  pub usage_resets_on : Option ℕ
  pub renews_on : Option ℕ

pub record Member : Type 0 where
  pub id : ℕ
  pub team_id : ℕ
  pub display_name : Text
  pub is_active : Bool

pub data BurnStatus : Type 0 where
  healthy warning exhausted : BurnStatus

-- The latest snapshot of an account. A percentage is its whole part, the remaining cents are 0 where they
-- are negative, `quota_progress` is in ten-thousandths, as floats round it, and `exhausts_before_reset`
-- is what they project.
pub record LatestSnapshot : Type 0 where
  pub used_cents : ℕ
  pub remaining_cents : ℕ
  pub total_pct : Option ℕ
  pub quota_progress : ℕ
  pub exhausts_before_reset : Bool

pub record RemoteKey : Type 0 where
  pub id : ℕ
  pub name : Text

-- What Cursor answers during one call; `none` is an exception. `again` is the token asked for a second
-- time, `create_user_api_key` the new key's text if there is one, `new_key_id` the id Cursor keeps the
-- new key under, and `list_user_api_keys` the list once a key of the name has been made.
pub record CursorClient : Type 0 where
  pub get_access_token : Text → Option ℕ
  pub again : Text → Option ℕ
  pub create_user_api_key : ℕ → Text → Option (Option Text)
  pub new_key_id : ℕ → Text → ℕ
  pub list_user_api_keys : ℕ → Text → Option (List RemoteKey)

-- The calls that change the keys at Cursor: a key made, by its name and its id there, or revoked, by
-- the id asked for.
pub data RemoteCall : Type 0 where
  make_key : Text → ℕ → RemoteCall
  drop_key : ℕ → RemoteCall

-- What a call reads: the other tables, the choices of the ranking, whether the database refuses the
-- lock or the last write, and the functions from outside the program.
pub record World : Type 0 where
  pub accounts : List Account
  pub members : List Member
  pub latest_snapshot : ℕ → Option LatestSnapshot
  pub auto_lender : Option ℕ
  pub pool_is_empty : Bool
  pub lock_fails : Bool
  pub flush_fails : Bool
  pub max_active_loans_per_account : ℕ
  pub encryption_key : Text
  pub decrypt : Text → ℕ → Option Text
  pub hash : Text → ℕ
  pub client : CursorClient
  pub now : ℕ

-- The ids and the alias that a call makes.
pub record Fresh : Type 0 where
  pub loan_id : ℕ
  pub credential_id : ℕ
  pub alias_key_hash : ℕ

-- How a call ends, with the tables it leaves and what it did at Cursor.
pub record Effect : Type 0 where
  pub result : Outcome LoanError KeyLoan
  pub ledger : Ledger
  pub calls : List RemoteCall
