-- ===== src/Lending/Steps.antt =====
-- The calls that lend, move and end loans, as steps between tables.
use cursor_pulse.Base.{ℕ, ◌≤◌, max, ◌≡◌, ◌≢◌, sym, Bool, true, Option, some, arith, if◌then◌else◌}
use cursor_pulse.Base.Keyed.{HasKeys}
use cursor_pulse.Loans.{
  Ledger, revoked_loan, expired_loan, revoke_loan, is_due, expire_loans_on_reset,
}
use cursor_pulse.Loans.Rows.{loan_id}
use cursor_pulse.Loans.Expiry.{expire_loans_on_reset_exact}
use cursor_pulse.Lending.{World, Fresh, Member}
use cursor_pulse.Lending.Accounts.{active_loan_count}
use cursor_pulse.Lending.Issue.{
  LoanRequest, issue_loan_key, issue_pool_loan, request_self_service_loan,
}
use cursor_pulse.Lending.Reassign.{Reassignment, reassign_loan_source}
use cursor_pulse.Lending.Cap.{IsCapped, IsNew, map-IsCapped}
use cursor_pulse.Lending.Capped.{
  issue_loan_key-IsCapped, issue_pool_loan-IsCapped, request_self_service_loan-IsCapped,
  reassign_loan_source-IsCapped, revoke_loan-IsCapped,
}

-- A step of the tables under a cap: a loan that is lent, lent from the pool, asked for by a member or
-- moved, where the cap is enforced, and loans that end. A new loan has an id of its own.
pub data Step (cap : ℕ) : Ledger → Ledger → Type 0 where
  issue :
      (world : World) (fresh : Fresh) (request : LoanRequest) (ledger : Ledger)
      → world.max_active_loans_per_account ≡ cap
      → request.enforce_loan_cap ≡ true
      → IsNew fresh.loan_id ledger.loans
      → Step cap ledger (issue_loan_key world fresh request ledger).ledger
  issue_pool :
      (world : World) (fresh : Fresh) (request : LoanRequest) (ledger : Ledger)
      → IsNew fresh.loan_id ledger.loans
      → Step cap ledger (issue_pool_loan world fresh request ledger).ledger
  serve_self :
      (world : World) (fresh : Fresh) (team_id : ℕ) (borrower : Member) (ledger : Ledger)
      → world.max_active_loans_per_account ≡ cap
      → IsNew fresh.loan_id ledger.loans
      → Step cap ledger (request_self_service_loan world fresh team_id borrower ledger).ledger
  reassign :
      (world : World) (fresh : Fresh) (call : Reassignment) (ledger : Ledger)
      → world.max_active_loans_per_account ≡ cap
      → call.enforce_loan_cap ≡ true
      → Step cap ledger (reassign_loan_source world fresh call ledger).ledger
  revoke :
      (remote_raises : ℕ → Bool) (ledger after : Ledger) (id : ℕ) (revoke_remote : Bool) (now : ℕ)
      → revoke_loan remote_raises ledger id revoke_remote now ≡ some after
      → Step cap ledger after
  end_due :
      (remote_raises : ℕ → Bool) (cycle_start deadline : ℕ → Option ℕ) (today now account : ℕ)
      (ledger : Ledger)
      → Step cap ledger
          (expire_loans_on_reset remote_raises cycle_start deadline today now ledger account).1

pub data Steps (cap : ℕ) : Ledger → Ledger → Type 0 where
  stop : (ledger : Ledger) → Steps cap ledger ledger
  follow :
      (before middle after : Ledger)
      → Step cap before middle
      → Steps cap middle after
      → Steps cap before after

Step-IsCapped :
    (c : ℕ) (before after : Ledger)
    → HasKeys loan_id before.loans
    → Step c before after
    → IsCapped c before.loans after.loans
unfolding expired_loan revoked_loan
Step-IsCapped c before after keyed (issue world fresh request ledger e enforced new) =
    rw (sym e) (issue_loan_key-IsCapped world fresh before keyed new request enforced)
Step-IsCapped c before after keyed (issue_pool world fresh request ledger new) =
    issue_pool_loan-IsCapped world fresh before keyed new c request
Step-IsCapped c before after keyed (serve_self world fresh team_id borrower ledger e new) =
    rw (sym e) (request_self_service_loan-IsCapped world fresh before keyed new team_id borrower)
Step-IsCapped c before after keyed (reassign world fresh call ledger e enforced) =
    rw (sym e) (reassign_loan_source-IsCapped world fresh call before keyed enforced)
Step-IsCapped c before after keyed (revoke remote_raises ledger ledger' id revoke_remote now e) =
    revoke_loan-IsCapped c remote_raises before after id revoke_remote now keyed e
Step-IsCapped c before after keyed
      (end_due remote_raises cycle_start deadline today now account ledger) =
    rw
      (expire_loans_on_reset_exact remote_raises cycle_start deadline today now account before
        keyed)
      (map-IsCapped c
        (λ l. if is_due cycle_start deadline today account l then expired_loan now l else l)
        before.loans keyed (λ k. ground arith) (λ a k here. ground (arith, here)))

-- Through any steps from tables whose loans have different ids, no account gets more active loans than
-- the cap, or than it had where that was more.
pub Steps-counts :
    (c : ℕ) (before after : Ledger) (account : ℕ)
    → HasKeys loan_id before.loans
    → account ≢ 0
    → Steps c before after
    → active_loan_count account after.loans ≤ max c (active_loan_count account before.loans)
Steps-counts c before after account keyed named (stop ledger) = omega arith
Steps-counts c before after account keyed named (follow b middle a first rest) =
    let capped = Step-IsCapped c before middle keyed first in
    omega (
      arith,
      capped.counts account named,
      Steps-counts c middle after account capped.keyed named rest,
    )
