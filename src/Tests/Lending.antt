-- ===== src/Tests/Lending.antt =====
-- Loans of a small office: one account with a key of its own, one with none, and a member who borrows.
use cursor_pulse.Base.{
  ℕ, ◌⊎◌, List, ◌++◌, ◌==◌, any, ◌≤◌, max, ◌≡◌, refl, true, false, [], ◌∷◌, length, none, some,
  arith,
}
use cursor_pulse.Base.Outcome.{returned}
use cursor_pulse.Base.Text.{Text, codes, text_eq_iff, strip, starts_with}
use cursor_pulse.Loans.{KeyLoan, Credential, Ledger, active, proxy_alias}
use cursor_pulse.Keys.Answer.{first}
use cursor_pulse.Lending.{World, Fresh, Account, Member, CursorClient}
use cursor_pulse.Lending.Accounts.{
  burn_status, active_loan_count, get_account, get_member, own_accounts, get_primary_credential,
  borrower_unbound_cursor_accounts, ensure_borrower_has_cursor_key, account_loan_deadline,
  check_account, check_lender,
}
use cursor_pulse.Lending.Remote.{
  loan_key_name, resolve_remote_key_id, make_remote_key, list_made, create_loan_credential,
}
use cursor_pulse.Lending.Issue.{
  LoanRequest, new_loan, add_loan, choose_lender, check_borrower, check_request, record_loan,
  or_revoke, with_remote_key, issue_loan_key, check_self_service, check_no_loan,
  self_service_lender, request_self_service_loan,
}
use cursor_pulse.Lending.Steps.{issue, stop, follow, Steps-counts}
use cursor_pulse.Lending.Balance.{keys_after, has_text, lists_new, fails, issue_loan_key-balance}
use cursor_pulse.Lending.Added.{loans_to, request_self_service_loan_once}
use cursor_pulse.Lending.Alias.{Lets, answer_to, authorize_status-issue_loan_key}

abbrev pub account : ℕ → Account
account id = record {
  id = id;
  team_id = 1;
  vendor_slug = some (codes "cursor");
  primary_member_id = id;
  is_in_use = true;
  is_deleted = false;
  usage_resets_on = some 40;
  renews_on = some 30;
}

abbrev pub member : ℕ → Member
member id = record { id = id; team_id = 1; display_name = codes "Li Na"; is_active = true }

abbrev pub credential : ℕ → ℕ → Credential
credential id account_id = record {
  id = id;
  account_id = account_id;
  remote_key_id = 0;
  key_hash = none;
  is_loan_key = false;
  is_active = true;
  sync_enabled = true;
  has_value = true;
}

abbrev pub client : CursorClient
client = record {
  get_access_token = λ key. some 1;
  again = λ key. some 2;
  create_user_api_key = λ token name. some (some (codes "key"));
  new_key_id = λ token name. 77;
  list_user_api_keys = λ token name.
      some (record { id = 77; name = name } ∷ record { id = 55; name = codes "other" } ∷ []);
}

-- Account 3 runs low, and account 4 is the one the ranking picks.
abbrev pub world : World
world = record {
  accounts = account 3 ∷ account 4 ∷ [];
  members = member 3 ∷ member 4 ∷ [];
  latest_snapshot = λ id. some (record {
    used_cents = 100;
    remaining_cents = 20;
    total_pct = some 83;
    quota_progress = 8_300;
    exhausts_before_reset = false;
  });
  auto_lender = some 4;
  pool_is_empty = false;
  lock_fails = false;
  flush_fails = false;
  max_active_loans_per_account = 1;
  encryption_key = codes "secret";
  decrypt = λ k id. some (codes "key");
  hash = length;
  client = client;
  now = 20;
}

abbrev pub fresh : Fresh
fresh = record { loan_id = 9; credential_id = 8; alias_key_hash = 6 }

abbrev before : Ledger
before = record { loans = []; credentials = credential 1 3 ∷ credential 2 4 ∷ [] }

abbrev request : LoanRequest
request = record {
  team_id = 1;
  source_account_id = 4;
  borrower_member_id = 3;
  auto_revoke_on_reset = true;
  key_name = none;
  delivery_mode = none;
  enforce_loan_cap = true;
  lender_mode = codes "manual";
  usage_cap_rules = none;
}

abbrev pub lent : KeyLoan
lent = record {
  id = 9;
  source_account_id = 4;
  credential_id = 8;
  is_pool = false;
  created_at = 20;
  revoked_at = none;
  status = active;
  auto_revoke_on_reset = true;
  expires_on = some 30;
  alias_key_hash = some 6;
  ide_key_hash = none;
  borrower_member_id = 3;
  baseline_used_cents = 100;
  source_bound_at = some 20;
  delivery_mode = proxy_alias;
  lends_auto = false;
  usage_cap_rules = some [];
  usage_cap_period = none;
  auto_cost_limit_cents = none;
  api_cost_limit_cents = none;
}

issue_done : (issue_loan_key world fresh request before).result ≡ returned lent
unfolding issue_loan_key check_request check_borrower choose_lender check_account check_lender
    ensure_borrower_has_cursor_key borrower_unbound_cursor_accounts own_accounts get_account
    get_member get_primary_credential first with_remote_key make_remote_key list_made or_revoke
    record_loan create_loan_credential new_loan add_loan account_loan_deadline active_loan_count
    burn_status strip resolve_remote_key_id loan_key_name
issue_done = refl

abbrev after_issue : Ledger
after_issue = (issue_loan_key world fresh request before).ledger

Steps-counts_example :
    active_loan_count 4 after_issue.loans ≤ max 1 (active_loan_count 4 before.loans)
Steps-counts_example = Steps-counts 1 before after_issue 4 tt (omega arith) (
    follow before after_issue after_issue (issue world fresh request before refl refl tt)
      (stop after_issue))

pub texts : (token : ℕ) (name : Text) → has_text (client.create_user_api_key token name) ≡ true
texts token name = refl

pub lists :
    (token : ℕ) (name : Text)
    → lists_new name (client.new_key_id token name) (client.list_user_api_keys token name) ≡ true
unfolding first
lists token name = rw ((text_eq_iff name name).1 refl) refl

-- The key that is at Cursor before.
abbrev pub ids : List ℕ
ids = 55 ∷ []

pub unused : (token : ℕ) (name : Text) → any (λ k. k == client.new_key_id token name) ids ≡ false
unused token name = refl

issue_loan_key-balance_example :
    let e = issue_loan_key world fresh request before in
    ((fails e ≡ true) × (e.ledger.loans ≡ []) × (keys_after ids e.calls ≡ ids))
    ⊎ ((l : KeyLoan) × (c : Credential) × (e.result ≡ returned l)
        × (e.ledger.loans ≡ l ∷ [])
        × (e.ledger.credentials ≡ before.credentials ++ c ∷ [])
        × (l.credential_id ≡ c.id)
        × (keys_after ids e.calls ≡ ids ++ c.remote_key_id ∷ []))
issue_loan_key-balance_example =
    issue_loan_key-balance world ids texts lists (λ key. refl) unused fresh request before

pub is_pka : starts_with (strip (codes "pka_ab")) (codes "pka_") ≡ true
unfolding strip starts_with
is_pka = refl

is_hashed : length (strip (codes "pka_ab")) ≡ 6
unfolding strip
is_hashed = refl

authorize_status-issue_loan_key_example :
    Lets world.decrypt
      (λ l. none)
      (codes "secret")
      length
      (codes "pka_ab")
      []
      50
      (answer_to world.decrypt
        (λ l. none)
        (codes "secret")
        length
        (codes "pka_ab")
        []
        50
        after_issue)
      9
      8
      (codes "key")
authorize_status-issue_loan_key_example =
    authorize_status-issue_loan_key world.decrypt (λ l. none) (codes "secret") length
      (codes "pka_ab") [] 50 world fresh request before lent (codes "key") issue_done is_pka
      is_hashed tt (omega arith, (omega arith, tt)) refl refl

-- A member asks, whose account runs low.
abbrev asked : KeyLoan
asked = record lent { lends_auto = true }

self_done : (request_self_service_loan world fresh 1 (member 3) before).result ≡ returned asked
unfolding request_self_service_loan self_service_lender check_self_service check_no_loan
    issue_loan_key check_request check_borrower choose_lender check_account check_lender
    ensure_borrower_has_cursor_key borrower_unbound_cursor_accounts own_accounts get_account
    get_member get_primary_credential first with_remote_key make_remote_key list_made or_revoke
    record_loan create_loan_credential new_loan add_loan account_loan_deadline active_loan_count
    burn_status strip resolve_remote_key_id loan_key_name
self_done = refl

request_self_service_loan_once_example :
    (loans_to 3 before.loans ≡ 0)
    × (loans_to 3 (request_self_service_loan world fresh 1 (member 3) before).ledger.loans ≡ 1)
request_self_service_loan_once_example =
    request_self_service_loan_once world fresh 1 (member 3) before asked self_done
