-- ===== src/Lending/Accounts.antt =====
-- The rows behind a loan and the checks on them: pulse/tool_center/repository.py, key_loan_borrower.py,
-- key_loan_lender.py, account_pick.py and pulse/ingestion/credentials.py.
use cursor_pulse.Base.{
  ℕ, Bool, true, false, not, ◌&&◌, ◌||◌, List, length, Option, none, some, ltb, leb, ◌==◌,
  if◌then◌else◌, keep,
}
use cursor_pulse.Base.Outcome.{Outcome, raised, returned, ◌>>=◌}
use cursor_pulse.Base.Text.{Text, codes, text_eq}
use cursor_pulse.Loans.{KeyLoan, Credential, is_active}
use cursor_pulse.Keys.Answer.{first}
use cursor_pulse.Lending.{
  LoanError, no_account, not_cursor, keys_unbound, no_primary_key, no_snapshot, quota_exhausted,
  busy, cap_reached, Account, Member, BurnStatus, healthy, warning, exhausted, LatestSnapshot,
  World,
}

-- `if not test: raise KeyLoanError(…)`
abbrev pub ensure : LoanError → Bool → Outcome LoanError (Unit {0})
ensure e true = returned tt
ensure e false = raised e

-- `if row is None: raise KeyLoanError(…)`
abbrev pub found {ℓ} : {A : Type ℓ} → LoanError → Option A → Outcome LoanError A
found e none = raised e
found e (some a) = returned a

-- `ToolCenterRepository.get_account`
unfoldable pub get_account : ℕ → ℕ → List Account → Option Account
get_account team_id id = first λ a. a.id == id && a.team_id == team_id && not a.is_deleted

-- `session.get(Member, …)`
unfoldable pub get_member : ℕ → List Member → Option Member
get_member id = first λ m. m.id == id

abbrev pub is_cursor : Option Text → Bool
is_cursor none = false
is_cursor (some slug) = text_eq slug (codes "cursor")

-- The Cursor accounts among those of a member; their order is left out.
unfoldable pub own_accounts : ℕ → ℕ → List Account → List Account
own_accounts team_id member_id = keep λ a.
    a.team_id == team_id
    && a.primary_member_id == member_id
    && a.is_in_use
    && not a.is_deleted
    && is_cursor a.vendor_slug

unfoldable pub get_primary_credential : ℕ → List Credential → Option Credential
get_primary_credential account creds =
    elim (first (λ c. c.account_id == account && not c.is_loan_key && c.is_active) creds) [
      | some c ↦ some c
      | none ↦ first (λ c. c.account_id == account && c.is_active) creds
    ]

abbrev is_bound : Option Credential → Bool
is_bound none = false
is_bound (some c) = c.has_value

unfoldable pub borrower_unbound_cursor_accounts : World → ℕ → ℕ → List Credential → List Account
borrower_unbound_cursor_accounts world team_id member_id creds =
    keep (λ a. not (is_bound (get_primary_credential a.id creds)))
      (own_accounts team_id member_id world.accounts)

unfoldable pub ensure_borrower_has_cursor_key :
    World → ℕ → ℕ → List Credential → Outcome LoanError (Unit {0})
ensure_borrower_has_cursor_key world team_id member_id creds =
    ensure keys_unbound
      (length (borrower_unbound_cursor_accounts world team_id member_id creds) == 0)

-- `account_loan_deadline`: the earlier of two days.
unfoldable pub account_loan_deadline : Account → Option ℕ
account_loan_deadline a = elim a.renews_on [
  | none ↦ a.usage_resets_on
  | some renews ↦ elim a.usage_resets_on [
    | none ↦ some renews
    | some resets ↦ if ltb renews resets then some renews else some resets
  ]
]

-- The loans of an account that run.
abbrev pub is_loan_of : ℕ → KeyLoan → Bool
is_loan_of account l = l.source_account_id == account && is_active l.status

unfoldable pub active_loan_count : ℕ → List KeyLoan → ℕ
active_loan_count account loans = length (keep (is_loan_of account) loans)

-- The status of `analyze_burn_rate`.
unfoldable pub burn_status : LatestSnapshot → BurnStatus
burn_status s =
    let used_up : Bool = elim s.total_pct [
      | some pct ↦ leb 100 pct
      | none ↦ s.remaining_cents == 0 || leb 10_000 s.quota_progress
    ] in
    let much_used : Bool = elim s.total_pct [
      | some pct ↦ leb 80 pct
      | none ↦ leb 8_000 s.quota_progress
    ] in
    if used_up then exhausted else if much_used || s.exhausts_before_reset then warning else healthy

abbrev is_exhausted : BurnStatus → Bool
is_exhausted healthy = false
is_exhausted warning = false
is_exhausted exhausted = true

-- The account that is to lend, the key to it in clear, and what it has used.
pub record Lender : Type 0 where
  pub account : Account
  pub primary : Credential
  pub used_cents : ℕ

-- The row of the account, checked.
unfoldable pub check_account : World → ℕ → ℕ → Outcome LoanError Account
check_account world team_id id = do
  account ← found no_account (get_account team_id id world.accounts)
  _ ← ensure not_cursor (is_cursor account.vendor_slug)
  returned account

-- Its key, its snapshot, and then its loans, counted under a lock.
unfoldable pub check_lender :
    World → Bool → Account → List Credential → List KeyLoan → Outcome LoanError Lender
check_lender world enforce_loan_cap account creds loans = do
  primary ← found no_primary_key (get_primary_credential account.id creds)
  snapshot ← found no_snapshot (world.latest_snapshot account.id)
  _ ← ensure quota_exhausted (not (is_exhausted (burn_status snapshot)))
  _ ← ensure busy (not world.lock_fails)
  _ ← ensure cap_reached (
      not (
        enforce_loan_cap
        && leb world.max_active_loans_per_account (active_loan_count account.id loans)))
  returned (record { account = account; primary = primary; used_cents = snapshot.used_cents })
