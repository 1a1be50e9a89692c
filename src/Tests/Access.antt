-- ===== src/Tests/Access.antt =====
-- Keys, loans and the store of keys at concrete inputs.
use cursor_pulse.Base.{
  ℕ, ◌+◌, ◌≡◌, ◌≢◌, refl, true, false, ◌&&◌, List, [], ◌∷◌, Option, none, some, arith, length,
}
use cursor_pulse.Base.Outcome.{returned}
use cursor_pulse.Base.Sorting.{sort_by}
use cursor_pulse.Base.Text.{Text, codes, strip, starts_with, text_or_empty}
use cursor_pulse.Loans.{
  remote_fails, get_credential, KeyLoan, LoanStatus, Ledger, proxy_alias, revoke_loan, get_loan,
  expired_loan, expire_loop, expire_one, set_expired, list_active_loans, is_due,
  expire_loans_on_reset, loan_should_auto_expire, revoked_loan, revoke_credential,
}
use cursor_pulse.Keys.{ProxyKey, KeyStatus, active, suspended, quota, coding_plan, get_key}
use cursor_pulse.Keys.Answer.{
  Answer, find_key_by_hash, authorize_proxy_key, authorize_proxy_key_row, find_ide_key_parent,
  first,
}
use cursor_pulse.Keys.Authorize.{
  authorize_status, authorize_loan_alias, authorize_loan_alias_row, authorize_ide_key,
}
use cursor_pulse.Keys.Backed.{is_ok, is_backed}
use cursor_pulse.Keys.Safety.{authorize_status-IsBacked}
use cursor_pulse.Keys.Ended.{authorize_status-revoke_loan, authorize_status-expire_loans_on_reset}
use cursor_pulse.Keys.Store.{KeyStore, rotate_ide_key, record_event, resume_key, suspend_key}
use cursor_pulse.Keys.Handlers.{
  User, Call, rotate, resume, revoke_proxy_key, resume_proxy_key, rotate_proxy_key_ide, handle,
  step, run, revoke, the_key,
}
use cursor_pulse.Keys.Revoked.{authorize_status-revoke_proxy_key}
use cursor_pulse.Keys.Owner.{IsOwn, step-IsOwn}
use cursor_pulse.Keys.CodingPlan
use cursor_pulse.Keys.CodingPlan.{KeyUsage, authorize_pkcp, may_call, authorize_pkcp_exact}

abbrev row : ℕ → ℕ → KeyStatus → ProxyKey
row id member_id status = record {
  id = id;
  key_hash = id + 3;
  member_id = member_id;
  mode = quota;
  coding_plan_vendor = none;
  window_5h_cost_limit_cents = none;
  window_7d_cost_limit_cents = none;
  status = status;
  suspended_reason = none;
  expires_at = none;
  ide_key_hash = none;
}

abbrev plan_row : ProxyKey
plan_row = record (row 3 9 active) {
  mode = coding_plan;
  coding_plan_vendor = some (codes "glm");
  window_5h_cost_limit_cents = some 100;
}

abbrev keys : List ProxyKey
keys = row 1 7 active ∷ row 2 8 active ∷ plan_row ∷ []

abbrev store : KeyStore
store = record { keys = keys; events = []; next_id = 4 }

abbrev lent : KeyLoan
lent = record {
  id = 5;
  source_account_id = 0;
  credential_id = 6;
  is_pool = true;
  created_at = 0;
  revoked_at = none;
  status = LoanStatus.active;
  auto_revoke_on_reset = true;
  expires_on = some 20;
  alias_key_hash = some 6;
  ide_key_hash = some 7;
  borrower_member_id = 7;
  baseline_used_cents = 0;
  source_bound_at = none;
  delivery_mode = proxy_alias;
  lends_auto = true;
  usage_cap_rules = none;
  usage_cap_period = none;
  auto_cost_limit_cents = none;
  api_cost_limit_cents = none;
}

-- A loan of one account that is not in the pool, lent by its IDE key too.
abbrev bound : KeyLoan
bound = record lent { is_pool = false; source_account_id = 1 }

abbrev ledger : Ledger
ledger = record { loans = lent ∷ []; credentials = [] }

abbrev bound_ledger : Ledger
bound_ledger = record {
  loans = bound ∷ record lent { id = 6; ide_key_hash = some 8 } ∷ [];
  credentials = [];
}

abbrev no_value : Text → ℕ → Option Text
no_value encryption_key id = none

abbrev no_candidates : KeyLoan → Option (List ℕ)
no_candidates l = none

abbrev answer : Text → List ProxyKey → Ledger → Answer
answer text keys ledger =
    authorize_status no_value no_candidates [] length (some text) keys ledger 50

pka_ok : is_ok (answer (codes "pka_ab") keys ledger).status ≡ true
unfolding authorize_status authorize_loan_alias authorize_loan_alias_row first strip starts_with
pka_ok = refl

authorize_status-IsBacked_example :
    is_backed keys ledger.loans 50 (answer (codes "pka_ab") keys ledger) ≡ true
authorize_status-IsBacked_example =
    authorize_status-IsBacked no_value no_candidates [] length (some (codes "pka_ab")) keys ledger
      50 pka_ok

abbrev never : ℕ → Option ℕ
never account = none

-- Both loans of the table stood behind their IDE keys; one of them ends.
abbrev revoked_ledger : Ledger
revoked_ledger = record {
  loans = revoked_loan 30 bound ∷ record lent { id = 6; ide_key_hash = some 8 } ∷ [];
  credentials = [];
}

ide_ok : is_ok (answer (codes "pkide_ab") [] revoked_ledger).status ≡ true
unfolding authorize_status authorize_ide_key authorize_loan_alias_row find_ide_key_parent first
    strip starts_with revoked_loan
ide_ok = refl

revoke_done : revoke_loan (λ c. false) bound_ledger 5 true 30 ≡ some revoked_ledger
unfolding revoke_loan revoke_credential get_loan remote_fails get_credential
revoke_done = refl

authorize_status-revoke_loan_example :
    (answer (codes "pkide_ab") [] revoked_ledger).loan_id ≢ some 5
authorize_status-revoke_loan_example =
    authorize_status-revoke_loan no_value no_candidates [] length (some (codes "pkide_ab")) [] 50
      (λ c. false) bound_ledger revoked_ledger 5 true 30 ((omega arith, tt), (tt, tt)) revoke_done
      ide_ok

-- The loan that is due at day 30 ends, the other has no date and stays.
abbrev dated_ledger : Ledger
dated_ledger = record bound_ledger {
  loans = bound ∷ record lent { id = 6; ide_key_hash = some 8; expires_on = none } ∷ [];
}

abbrev after_reset : Ledger
after_reset = (expire_loans_on_reset (λ c. true) never never 30 40 dated_ledger 0).1

reset_ok : is_ok (answer (codes "pkide_ab") [] after_reset).status ≡ true
unfolding authorize_status authorize_ide_key authorize_loan_alias_row find_ide_key_parent first
    strip starts_with revoked_loan expire_loans_on_reset expire_loop expire_one set_expired is_due
    loan_should_auto_expire list_active_loans revoke_loan revoke_credential get_loan sort_by
    expired_loan remote_fails get_credential
reset_ok = refl

due_bound : is_due never never 30 0 bound ≡ true
unfolding is_due loan_should_auto_expire
due_bound = refl

authorize_status-expire_loans_on_reset_example :
    (answer (codes "pkide_ab") [] after_reset).loan_id ≢ some 5
unfolding get_loan
authorize_status-expire_loans_on_reset_example =
    authorize_status-expire_loans_on_reset no_value no_candidates [] length
      (some (codes "pkide_ab")) [] 50 (λ c. true) never never 30 40 0 dated_ledger bound
      ((omega arith, tt), (tt, tt)) refl due_bound reset_ok

abbrev admin : User
admin = record { member_id = 9; may_write = true; may_read = true }

abbrev reader : User
reader = record { member_id = 7; may_write = false; may_read = true }

abbrev after_revoke : KeyStore
after_revoke = revoke store (row 1 7 active)

abbrev calls : List (User × Call)
calls = (admin, resume_proxy_key 1) ∷ (reader, rotate_proxy_key_ide 2 9) ∷ []

handle-done : handle (λ m. true) true store admin (revoke_proxy_key 1) ≡ returned after_revoke
unfolding handle the_key get_key revoke record_event
handle-done = refl

other_ok :
    is_ok (answer (codes "pk_ab") (run (λ m. true) true after_revoke calls).keys ledger).status
    ≡ true
unfolding authorize_status authorize_proxy_key authorize_proxy_key_row find_key_by_hash strip
    starts_with run step handle the_key get_key rotate rotate_ide_key resume resume_key revoke
    record_event
other_ok = refl

authorize_status-revoke_proxy_key_example :
    (answer (codes "pk_ab") (run (λ m. true) true after_revoke calls).keys ledger).proxy_key_id
    ≢ some 1
authorize_status-revoke_proxy_key_example =
    authorize_status-revoke_proxy_key (λ m. true) true no_value no_candidates [] length
      (some (codes "pk_ab")) ledger 50 store after_revoke admin 1 calls
      (omega arith, (omega arith, (omega arith, tt))) handle-done other_ok

step-IsOwn_example :
    IsOwn reader store (step (λ m. true) true store reader (rotate_proxy_key_ide 1 9))
step-IsOwn_example =
    step-IsOwn (λ m. true) true store reader refl (rotate_proxy_key_ide 1 9)
      ((omega arith, (omega arith, tt)), ((omega arith, tt), (tt, tt)))

abbrev spent : List KeyUsage
spent = record { proxy_key_id = 3; ts = 604_800_000_000; cost_cents = 120 } ∷ []

authorize_pkcp_exact_example :
    CodingPlan.is_ok
      (authorize_pkcp spent 604_800_000_050 length keys (some (codes "pkcp_a"))).status
    ≡ (starts_with (strip (text_or_empty (some (codes "pkcp_a")))) (codes "pkcp_")
        && elim (find_key_by_hash (length (strip (text_or_empty (some (codes "pkcp_a"))))) keys) [
          | none ↦ false
          | some key ↦ may_call spent 604_800_000_050 key
        ])
authorize_pkcp_exact_example =
    authorize_pkcp_exact spent 604_800_000_050 length keys (some (codes "pkcp_a"))

-- A revoked key that is suspended can be resumed.
abbrev suspended_row : ProxyKey
suspended_row = record (row 1 7 suspended) { suspended_reason = some (codes "limit") }

abbrev revoked_store : KeyStore
revoked_store = record { keys = row 1 7 KeyStatus.revoked ∷ []; events = []; next_id = 2 }

abbrev suspended_store : KeyStore
suspended_store = record revoked_store { keys = suspended_row ∷ [] }

suspend-revoked :
    (suspend_key revoked_store (row 1 7 KeyStatus.revoked) (codes "limit")).keys
    ≡ suspended_store.keys
unfolding suspend_key record_event
suspend-revoked = refl

resume-suspended : (resume_key suspended_store suspended_row).1.keys ≡ row 1 7 active ∷ []
unfolding resume_key record_event
resume-suspended = refl
