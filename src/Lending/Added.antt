-- ===== src/Lending/Added.antt =====
-- The rows that a call of `issue_loan_key` adds, and the loans of a member who asks.
use cursor_pulse.Base.{
  ℕ, ◌≡◌, refl, ◌∙◌, true, false, List, [], ◌∷◌, ◌++◌, length, keep, any, none, arith,
  if◌then◌else◌, inl, inr,
}
use cursor_pulse.Base.Outcome.{returned}
use cursor_pulse.Loans.{KeyLoan, Ledger}
use cursor_pulse.Lending.{World, Fresh, Member}
use cursor_pulse.Lending.Accounts.{Lender, account_loan_deadline}
use cursor_pulse.Base.Text.{Text}
use cursor_pulse.Lending.Remote.{Made, make_remote_key, new_credential, create_loan_credential}
use cursor_pulse.Lending.Issue.{
  LoanRequest, new_loan, add_loan, check_request, record_loan, issue_loan_key, is_loan_to,
  self_service_request, self_service_lender, check_no_loan, request_self_service_loan,
}
use cursor_pulse.Lending.Checks.{Outcome-cases, with_remote_key-returned}

-- The loan that a request adds.
abbrev pub lent_loan : World → Fresh → LoanRequest → Lender → KeyLoan
lent_loan world fresh request lender =
    new_loan world fresh request false lender.account.id fresh.credential_id lender.used_cents
      (if request.auto_revoke_on_reset then account_loan_deadline lender.account else none)

abbrev pub lent_ledger : World → Fresh → LoanRequest → Lender → Made → Ledger → Ledger
lent_ledger world fresh request lender made ledger = record {
  loans = ledger.loans ++ lent_loan world fresh request lender ∷ [];
  credentials = ledger.credentials ++ new_credential world fresh lender.account.id made ∷ [];
}

module _ (world : World) (fresh : Fresh) (ledger : Ledger) where
  record_loan-returned :
      (request : LoanRequest) (lender : Lender) (made : Made) (l : KeyLoan)
      → (record_loan world fresh request lender made ledger).result ≡ returned l
      → (l ≡ lent_loan world fresh request lender)
        × ((record_loan world fresh request lender made ledger).ledger
            ≡ lent_ledger world fresh request lender made ledger)
  unfolding record_loan create_loan_credential add_loan
  record_loan-returned request lender made l e = (ground (arith, e), ground (arith, e))

  -- A call that returns adds its loan and the credential of the key it made, and nothing else.
  pub issue_loan_key-returned :
      (request : LoanRequest) (l : KeyLoan)
      → (issue_loan_key world fresh request ledger).result ≡ returned l
      → (lender : Lender) × (name : Text) × (made : Made) × (l
          ≡ lent_loan world fresh request lender)
        × ((issue_loan_key world fresh request ledger).ledger
            ≡ lent_ledger world fresh request lender made ledger)
        × ((make_remote_key world lender name).0 ≡ returned made)
        × ((issue_loan_key world fresh request ledger).calls
            ≡ (make_remote_key world lender name).1)
  unfolding issue_loan_key
  issue_loan_key-returned request l e = elim (Outcome-cases (check_request world request ledger)) [
    | inl (x, refused) ↦ ground (arith, rw (refused, issue_loan_key) at e)
    | inr ((borrower, lender), granted) ↦
        let e' = rw (granted, issue_loan_key) at e in
        let (made, wrote, done, after, asked) =
          with_remote_key-returned world lender _ ledger _ l e' in
        let (is, tables) = record_loan-returned request lender made l done in
        (
          lender,
          _,
          made,
          is,
          rw (granted, issue_loan_key) (after ∙ tables),
          wrote,
          rw (granted, issue_loan_key) asked,
        )
  ]

abbrev pub loans_to : ℕ → List KeyLoan → ℕ
loans_to member_id loans = length (keep (is_loan_to member_id) loans)

loans_to-none :
    (member_id : ℕ) (loans : List KeyLoan)
    → any (is_loan_to member_id) loans ≡ false
    → loans_to member_id loans ≡ 0
loans_to-none member_id [] e = refl
loans_to-none member_id (l ∷ loans) e = ground (arith, loans_to-none member_id loans)

loans_to-append :
    (member_id : ℕ) (l : KeyLoan) (loans : List KeyLoan)
    → any (is_loan_to member_id) loans ≡ false
    → is_loan_to member_id l ≡ true
    → loans_to member_id (loans ++ l ∷ []) ≡ 1
loans_to-append member_id l [] e here = ground (arith, here)
loans_to-append member_id l (k ∷ loans) e here =
    ground (arith, loans_to-append member_id l loans, here)

-- A member's request that returns: before it no loan of the member was active, and after it one is.
pub request_self_service_loan_once :
    (world : World) (fresh : Fresh) (team_id : ℕ) (borrower : Member) (ledger : Ledger)
    (l : KeyLoan)
    → (request_self_service_loan world fresh team_id borrower ledger).result ≡ returned l
    → (loans_to borrower.id ledger.loans ≡ 0)
      × (loans_to borrower.id
            (request_self_service_loan world fresh team_id borrower ledger).ledger.loans
          ≡ 1)
unfolding request_self_service_loan self_service_lender check_no_loan new_loan
request_self_service_loan_once world fresh team_id borrower ledger l e =
    elim (Outcome-cases (self_service_lender world team_id borrower ledger)) [
      | inl (x, refused) ↦ ground (arith, rw (refused, request_self_service_loan) at e)
      | inr (lender, granted) ↦
          let none_before : any (is_loan_to borrower.id) ledger.loans ≡ false =
            ground (arith, granted) in
          let request = self_service_request team_id lender borrower in
          let (from, name, made, is, after, wrote, asked) =
            issue_loan_key-returned world fresh ledger request l
              (rw (granted, request_self_service_loan) at e) in
          (
            loans_to-none borrower.id ledger.loans none_before,
            rw (granted, request_self_service_loan, after)
                (loans_to-append borrower.id (lent_loan world fresh request from) ledger.loans
                  none_before (ground arith)),
          )
    ]
