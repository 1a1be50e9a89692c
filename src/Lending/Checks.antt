-- ===== src/Lending/Checks.antt =====
-- What a call that returns has passed.
use cursor_pulse.Base.{◌≡◌, ◌⊎◌, refl, true, false, List, some, arith, leb, inl, inr}
use cursor_pulse.Base.Outcome.{Outcome, raised, returned}
use cursor_pulse.Base.Text.{Text}
use cursor_pulse.Loans.{KeyLoan, Credential, Ledger, is_active, get_loan}
use cursor_pulse.Lending.{Account, Member, World, Effect}
use cursor_pulse.Lending.Accounts.{active_loan_count, Lender, check_lender}
use cursor_pulse.Lending.Remote.{Made, make_remote_key}
use cursor_pulse.Lending.Issue.{LoanRequest, check_request, or_revoke, with_remote_key}
use cursor_pulse.Lending.Reassign.{Reassignment, check_move, check_reassign, validate_reassign_loan}

pub Outcome-cases {ℓ κ} :
    {E : Type ℓ} {A : Type κ} (o : Outcome E A)
    → ((e : E) × (o ≡ raised e)) ⊎ ((a : A) × (o ≡ returned a))
Outcome-cases (raised e) = inl (e, refl)
Outcome-cases (returned a) = inr (a, refl)

-- The loans of an account that may lend are below the cap, where that is enforced.
pub check_lender-cap :
    (world : World) (account : Account) (creds : List Credential) (loans : List KeyLoan)
    (lender : Lender)
    → check_lender world true account creds loans ≡ returned lender
    → (lender.account ≡ account)
      × (leb world.max_active_loans_per_account (active_loan_count account.id loans) ≡ false)
unfolding check_lender
check_lender-cap world account creds loans lender e = (ground arith, ground arith)

pub check_request-cap :
    (world : World) (request : LoanRequest) (ledger : Ledger) (borrower : Member) (lender : Lender)
    → request.enforce_loan_cap ≡ true
    → check_request world request ledger ≡ returned (borrower, lender)
    → leb world.max_active_loans_per_account (active_loan_count lender.account.id ledger.loans)
      ≡ false
unfolding check_request check_lender
check_request-cap world request ledger borrower lender enforced e = ground (arith, enforced)

pub check_move-cap :
    (world : World) (call : Reassignment) (ledger : Ledger) (lender : Lender)
    → call.enforce_loan_cap ≡ true
    → check_move world call ledger ≡ returned lender
    → leb world.max_active_loans_per_account (active_loan_count lender.account.id ledger.loans)
      ≡ false
unfolding check_move check_lender
check_move-cap world call ledger lender enforced e = ground (arith, enforced)

-- A loan that may be reassigned runs, under its id.
pub check_reassign-found :
    (world : World) (call : Reassignment) (ledger : Ledger) (loan : KeyLoan)
    → check_reassign world call ledger ≡ returned loan
    → (get_loan call.loan_id ledger.loans ≡ some loan) × (is_active loan.status ≡ true)
unfolding check_reassign validate_reassign_loan
check_reassign-found world call ledger loan e = (ground arith, ground arith)

-- What holds before a key is made at Cursor, and after the write that follows, holds of the tables in
-- the end.
pub with_remote_key-ledger :
    (P : Ledger → Type 0) (world : World) (lender : Lender) (name : Text) (ledger : Ledger)
    (write : Made → Effect)
    → P ledger
    → ((made : Made) → P (write made).ledger)
    → P (with_remote_key world lender name ledger write).ledger
unfolding with_remote_key or_revoke
with_remote_key-ledger P world lender name ledger write before after =
    elim (Outcome-cases (make_remote_key world lender name).0) [
      | inl (x, e) ↦ rw (e, with_remote_key) before
      | inr (made, e) ↦ elim (Outcome-cases (write made).result) [
        | inl (y, f) ↦ rw (e, with_remote_key, f, or_revoke) (after made)
        | inr (loan, f) ↦ rw (e, with_remote_key, f, or_revoke) (after made)
      ]
    ]

-- A call that returns has made a key at Cursor, and its write returned.
pub with_remote_key-returned :
    (world : World) (lender : Lender) (name : Text) (ledger : Ledger) (write : Made → Effect)
    (l : KeyLoan)
    → (with_remote_key world lender name ledger write).result ≡ returned l
    → (made : Made) × ((make_remote_key world lender name).0 ≡ returned made)
      × ((write made).result ≡ returned l)
      × ((with_remote_key world lender name ledger write).ledger ≡ (write made).ledger)
      × ((with_remote_key world lender name ledger write).calls
          ≡ (make_remote_key world lender name).1)
unfolding with_remote_key or_revoke
with_remote_key-returned world lender name ledger write l done =
    elim (Outcome-cases (make_remote_key world lender name).0) [
      | inl (x, e) ↦ ground (arith, rw (e, with_remote_key) at done)
      | inr (made, e) ↦ elim (Outcome-cases (write made).result) [
        | inl (y, f) ↦ ground (arith, rw (e, with_remote_key, f, or_revoke) at done)
        | inr (loan, f) ↦ (
          made,
          e,
          rw (e, with_remote_key, f, or_revoke) at done,
          rw (e, with_remote_key, f, or_revoke) refl,
          rw (e, with_remote_key, f, or_revoke) refl,
        )
      ]
    ]
