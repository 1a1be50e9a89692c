-- ===== src/Lending/Capped.antt =====
-- Each call that lends, moves or ends loans keeps the accounts below the cap.
use cursor_pulse.Base.{
  ℕ, ◌≡◌, ◌≢◌, refl, sym, Bool, true, false, not, ◌&&◌, ◌||◌, if_both, some, arith, ◌==◌, leb,
  if◌then◌else◌, inl, inr, Bool-cases,
}
use cursor_pulse.Base.Text.{strip, is_empty}
use cursor_pulse.Base.Keyed.{HasKeys}
use cursor_pulse.Loans.{KeyLoan, Ledger, is_active, get_loan, revoked_loan, revoke_loan}
use cursor_pulse.Loans.Rows.{loan_id, revoke_loan-some}
use cursor_pulse.Lending.{World, Fresh, Effect, Member}
use cursor_pulse.Lending.Accounts.{is_loan_of, active_loan_count, Lender}
use cursor_pulse.Lending.Remote.{Made, create_loan_credential}
use cursor_pulse.Lending.Issue.{
  is_auto, LoanRequest, new_loan, add_loan, check_request, record_loan, issue_loan_key,
  issue_pool_loan, check_pool_request, self_service_lender, request_self_service_loan,
  self_service_request,
}
use cursor_pulse.Lending.Reassign.{
  Reassignment, write_loan, pooled_loan, pinned_loan, moved_loan, convert_pinned_loan_to_pool,
  check_pin, pin_auto_wander_on_current_account, write_move, check_move, move_loan, reassign_loan,
  check_reassign, reassign_loan_source,
}
use cursor_pulse.Lending.Checks.{
  Outcome-cases, check_request-cap, check_move-cap, check_reassign-found, with_remote_key-ledger,
}
use cursor_pulse.Lending.Cap.{
  get_loan-id, IsCapped, IsNew, same-IsCapped, add-IsCapped, update_loan-IsCapped, map-IsCapped,
}

abbrev cap : World → ℕ
cap world = world.max_active_loans_per_account

abbrev IsKept : World → Ledger → Ledger → Type 0
IsKept world ledger after = IsCapped (cap world) ledger.loans after.loans

module _ (world : World) (fresh : Fresh) (ledger : Ledger) (keyed : HasKeys loan_id ledger.loans)
    (new : IsNew fresh.loan_id ledger.loans) where
  record_loan-IsCapped :
      (request : LoanRequest) (lender : Lender) (made : Made)
      → leb (cap world) (active_loan_count lender.account.id ledger.loans) ≡ false
      → IsKept world ledger (record_loan world fresh request lender made ledger).ledger
  unfolding record_loan create_loan_credential new_loan add_loan
  record_loan-IsCapped request lender made room =
      let same = same-IsCapped (cap world) ledger.loans keyed in
      elim (Bool-cases (is_empty world.encryption_key)) [
        | inl e ↦ rw (record_loan, create_loan_credential, e) same
        | inr e ↦ elim (Bool-cases (is_empty (strip world.encryption_key))) [
          | inl f ↦ rw (record_loan, create_loan_credential, e, f) same
          | inr f ↦ elim (Bool-cases world.flush_fails) [
            | inl g ↦ rw (record_loan, create_loan_credential, e, f, g) same
            | inr g ↦
                rw (record_loan, create_loan_credential, e, f, g)
                  (add-IsCapped (cap world) _ ledger.loans keyed new (λ named. room))
          ]
        ]
      ]

  pub issue_loan_key-IsCapped :
      (request : LoanRequest)
      → request.enforce_loan_cap ≡ true
      → IsKept world ledger (issue_loan_key world fresh request ledger).ledger
  unfolding issue_loan_key
  issue_loan_key-IsCapped request enforced =
      let same = same-IsCapped (cap world) ledger.loans keyed in
      elim (Outcome-cases (check_request world request ledger)) [
        | inl (x, e) ↦ rw (e, issue_loan_key) same
        | inr ((borrower, lender), e) ↦
            let room = check_request-cap world request ledger borrower lender enforced e in
            rw (e, issue_loan_key)
              (with_remote_key-ledger (IsKept world ledger) world lender _ ledger _ same
                (λ made. record_loan-IsCapped request lender made room))
      ]

  pub issue_pool_loan-IsCapped :
      (c : ℕ) (request : LoanRequest)
      → IsCapped c ledger.loans (issue_pool_loan world fresh request ledger).ledger.loans
  unfolding issue_pool_loan new_loan add_loan
  issue_pool_loan-IsCapped c request = elim (Outcome-cases (check_pool_request world request)) [
    | inl (x, e) ↦ rw (e, issue_pool_loan) (same-IsCapped c ledger.loans keyed)
    | inr (borrower, e) ↦
        rw (e, issue_pool_loan)
          (add-IsCapped c _ ledger.loans keyed new (λ named. absurd (named refl)))
  ]

  pub request_self_service_loan-IsCapped :
      (team_id : ℕ) (borrower : Member)
      → IsKept world ledger (request_self_service_loan world fresh team_id borrower ledger).ledger
  unfolding request_self_service_loan
  request_self_service_loan-IsCapped team_id borrower =
      elim (Outcome-cases (self_service_lender world team_id borrower ledger)) [
        | inl (x, e) ↦
            rw (e, request_self_service_loan) (same-IsCapped (cap world) ledger.loans keyed)
        | inr (lender, e) ↦
            rw (e, request_self_service_loan)
              (issue_loan_key-IsCapped (self_service_request team_id lender borrower) refl)
      ]

module _ (world : World) (fresh : Fresh) (ledger : Ledger) (keyed : HasKeys loan_id ledger.loans)
    (call : Reassignment) (loan : KeyLoan) (found : get_loan loan.id ledger.loans ≡ some loan)
    (live : is_active loan.status ≡ true) where
  write_loan-IsCapped :
      (f : KeyLoan → KeyLoan) (after : Ledger)
      → after.loans ≡ ledger.loans
      → ((k : KeyLoan) → (f k).id ≡ k.id)
      → ((account : ℕ)
          → account ≢ 0
          → is_loan_of account (f loan) ≡ true
          → (is_loan_of account loan
              || not (leb (cap world) (active_loan_count account ledger.loans)))
            ≡ true)
      → IsKept world ledger (write_loan world f loan ledger after).ledger
  unfolding write_loan
  write_loan-IsCapped f after same keeps room = elim (Bool-cases world.flush_fails) [
    | inl e ↦ rw (write_loan, e) (same-IsCapped (cap world) ledger.loans keyed)
    | inr e ↦
        rw (write_loan, e, same)
          (update_loan-IsCapped (cap world) f loan ledger.loans keyed found keeps room)
  ]

  convert-IsCapped : IsKept world ledger (convert_pinned_loan_to_pool world loan ledger).ledger
  unfolding convert_pinned_loan_to_pool pooled_loan
  convert-IsCapped =
      if_both (λ (e : Effect). IsKept world ledger e.ledger) world.pool_is_empty _ _
        (same-IsCapped (cap world) ledger.loans keyed)
        (write_loan-IsCapped (pooled_loan world.now) _ refl (λ k. refl)
          (λ account named e. ground (arith, named)))

  pin-IsCapped :
      IsKept world ledger (pin_auto_wander_on_current_account world call loan ledger).ledger
  unfolding pin_auto_wander_on_current_account pinned_loan
  pin-IsCapped = elim (Outcome-cases (check_pin world call loan)) [
    | inl (x, e) ↦
        rw (e, pin_auto_wander_on_current_account) (same-IsCapped (cap world) ledger.loans keyed)
    | inr (account, e) ↦
        rw (e, pin_auto_wander_on_current_account)
          (write_loan-IsCapped (pinned_loan world.now call.auto_revoke_on_reset account) ledger refl
            (λ k. refl) (λ a named here. ground (arith, here)))
  ]

  write_move-IsCapped :
      (lender : Lender) (made : Made)
      → leb (cap world) (active_loan_count lender.account.id ledger.loans) ≡ false
      → IsKept world ledger
          (write_move world fresh call.auto_revoke_on_reset lender loan ledger made).ledger
  unfolding write_move create_loan_credential moved_loan pinned_loan
  write_move-IsCapped lender made room = elim (Bool-cases (is_empty world.encryption_key)) [
    | inl e ↦
        rw (write_move, create_loan_credential, e) (same-IsCapped (cap world) ledger.loans keyed)
    | inr e ↦
        rw (write_move, create_loan_credential, e)
          (write_loan-IsCapped (moved_loan world fresh call.auto_revoke_on_reset lender) _ refl
            (λ k. refl) (λ account named here. ground (arith, here, room)))
  ]

  move_loan-IsCapped :
      call.enforce_loan_cap ≡ true
      → IsKept world ledger (move_loan world fresh call loan ledger).ledger
  unfolding move_loan
  move_loan-IsCapped enforced =
      let same = same-IsCapped (cap world) ledger.loans keyed in
      elim (Outcome-cases (check_move world call ledger)) [
        | inl (x, e) ↦ rw (e, move_loan) same
        | inr (lender, e) ↦
            let room = check_move-cap world call ledger lender enforced e in
            rw (e, move_loan)
              (with_remote_key-ledger (IsKept world ledger) world lender _ ledger _ same
                (λ made. write_move-IsCapped lender made room))
      ]

  reassign_loan-IsCapped :
      call.enforce_loan_cap ≡ true
      → IsKept world ledger (reassign_loan world fresh call loan ledger).ledger
  unfolding reassign_loan
  reassign_loan-IsCapped enforced =
      let same = same-IsCapped (cap world) ledger.loans keyed in
      let kept = λ (e : Effect). IsKept world ledger e.ledger in
      if_both kept (is_auto call.lender_mode) _ _
        (if_both kept loan.is_pool _ _ same convert-IsCapped)
        (if_both kept (call.new_source_account_id == 0) _ _ same (
          if_both kept (not loan.is_pool && loan.source_account_id == call.new_source_account_id) _
            _ pin-IsCapped (move_loan-IsCapped enforced)))

pub reassign_loan_source-IsCapped :
    (world : World) (fresh : Fresh) (call : Reassignment) (ledger : Ledger)
    → HasKeys loan_id ledger.loans
    → call.enforce_loan_cap ≡ true
    → IsKept world ledger (reassign_loan_source world fresh call ledger).ledger
unfolding reassign_loan_source
reassign_loan_source-IsCapped world fresh call ledger keyed enforced =
    elim (Outcome-cases (check_reassign world call ledger)) [
      | inl (x, e) ↦ rw (e, reassign_loan_source) (same-IsCapped (cap world) ledger.loans keyed)
      | inr (loan, e) ↦
          let (found, live) = check_reassign-found world call ledger loan e in
          let same = get_loan-id call.loan_id ledger.loans loan found in
          rw (e, reassign_loan_source)
            (reassign_loan-IsCapped world fresh ledger keyed call loan (rw (sym same) at found) live
              enforced)
    ]

pub revoke_loan-IsCapped :
    (c : ℕ) (remote_raises : ℕ → Bool) (ledger after : Ledger) (id : ℕ) (revoke_remote : Bool)
    (now : ℕ)
    → HasKeys loan_id ledger.loans
    → revoke_loan remote_raises ledger id revoke_remote now ≡ some after
    → IsCapped c ledger.loans after.loans
unfolding revoked_loan
revoke_loan-IsCapped c remote_raises ledger after id revoke_remote now keyed done =
    let (l, found, way) = revoke_loan-some remote_raises ledger after id revoke_remote now done in
    elim way [
      | inl (ended, same) ↦ rw same (same-IsCapped c ledger.loans keyed)
      | inr same ↦ rw same (
          map-IsCapped c (λ k. if k.id == id then revoked_loan now k else k) ledger.loans keyed
            (λ k. ground arith) (λ account k here. ground (arith, here)))
    ]
