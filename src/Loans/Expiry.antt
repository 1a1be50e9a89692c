-- ===== src/Loans/Expiry.antt =====
-- Which loans a reset ends.
use cursor_pulse.Base.{
  ℕ, ◌-◌, ◌≡◌, refl, sym, ap, ◌∙◌, Bool, true, false, ◌&&◌, List, [], ◌∷◌, map, Option, none, some,
  arith, ◌==◌, if◌then◌else◌, keep, any, All, All-mono, All-keep, Bool-cases, inl, inr,
}
use cursor_pulse.Base.Sorting.{sort_by, All-sort_by}
use cursor_pulse.Base.Keyed.{HasKeys, keep-HasKeys, sort_by-HasKeys, map-All, any-sort_by}
use cursor_pulse.Loans.{
  KeyLoan, Ledger, is_active, get_loan, list_active_loans, revoked_loan, expired_loan, remote_fails,
  revoke_loan, loan_should_auto_expire, is_due, set_expired, expire_one, expire_loop,
  expire_loans_on_reset,
}
use cursor_pulse.Loans.Rows.{
  revoked_ledger, loan_id, expire_id, set_expired-revoked, get_loan-All, any-get_loan,
  get_loan-kept, map_same,
}

module _ (remote_raises : ℕ → Bool) (now : ℕ) (ledger : Ledger) (l : KeyLoan) where
  revoke_loan-done :
      (remote : Bool)
      → get_loan l.id ledger.loans ≡ some l
      → is_active l.status ≡ true
      → (remote && remote_fails remote_raises ledger l) ≡ false
      → revoke_loan remote_raises ledger l.id remote now ≡ some (revoked_ledger now ledger l.id l)
  unfolding revoke_loan
  revoke_loan-done remote found live works = rw (found, live, works, revoke_loan) refl

  revoke_loan-raises :
      get_loan l.id ledger.loans ≡ some l
      → is_active l.status ≡ true
      → remote_fails remote_raises ledger l ≡ true
      → revoke_loan remote_raises ledger l.id true now ≡ none
  unfolding revoke_loan
  revoke_loan-raises found live fails = rw (found, live, fails, revoke_loan) refl

module _ (remote_raises : ℕ → Bool) (cycle_start deadline : ℕ → Option ℕ)
    (today now account : ℕ) where
  abbrev due : KeyLoan → Bool
  due = is_due cycle_start deadline today account

  due-active : (l : KeyLoan) → due l ≡ true → is_active l.status ≡ true
  unfolding is_due loan_should_auto_expire
  due-active l e = ground arith

  expire_one-loans :
      (ledger : Ledger) (l : KeyLoan)
      → get_loan l.id ledger.loans ≡ some l
      → is_active l.status ≡ true
      → (after : Ledger) × (expire_one remote_raises cycle_start deadline today now ledger l.id
          ≡ some after)
        × (after.loans ≡ map (expire_id now l.id) ledger.loans)
  unfolding expire_one set_expired
  expire_one-loans ledger l found live =
      let after =
        set_expired remote_raises cycle_start deadline today now l.id
          (revoked_ledger now ledger l.id l) in
      let done = set_expired-revoked now l.id ledger.loans in
      elim (Bool-cases (remote_fails remote_raises ledger l)) [
        | inl fails ↦ (
          after,
          rw
              (
                revoke_loan-raises remote_raises now ledger l found live fails,
                revoke_loan-done remote_raises now ledger l false found live refl,
                expire_one,
              )
              refl,
          done,
        )
        | inr works ↦ (
          after,
          rw (revoke_loan-done remote_raises now ledger l true found live works, expire_one) refl,
          done,
        )
      ]

  abbrev expire_all : List KeyLoan → KeyLoan → KeyLoan
  expire_all todo k = if any (λ l. l.id == k.id && due l) todo then expired_loan now k else k

  expire_all-due :
      (l : KeyLoan) (todo : List KeyLoan)
      → due l ≡ true
      → (loans : List KeyLoan)
      → map (expire_all todo) (map (expire_id now l.id) loans) ≡ map (expire_all (l ∷ todo)) loans
  unfolding expired_loan revoked_loan
  expire_all-due l todo ends [] = refl
  expire_all-due l todo ends (k ∷ loans) = ground (arith, ends, expire_all-due l todo ends loans)

  expire_all-stays :
      (l : KeyLoan) (todo : List KeyLoan)
      → due l ≡ false
      → (loans : List KeyLoan) → map (expire_all todo) loans ≡ map (expire_all (l ∷ todo)) loans
  expire_all-stays l todo stays [] = refl
  expire_all-stays l todo stays (k ∷ loans) =
      ground (arith, stays, expire_all-stays l todo stays loans)

  expire_loop-loans :
      (todo : List KeyLoan) (ledger : Ledger)
      → HasKeys loan_id todo
      → All (λ l. get_loan l.id ledger.loans ≡ some l) todo
      → (expire_loop remote_raises cycle_start deadline today now account todo ledger).1.loans
        ≡ map (expire_all todo) ledger.loans
  unfolding expire_loop
  expire_loop-loans [] ledger keyed found = sym (map_same (expire_all []) ledger.loans (λ l. refl))
  expire_loop-loans (l ∷ todo) ledger keyed found = elim (Bool-cases (due l)) [
    | inl ends ↦
        let (after, e, is) = expire_one-loans ledger l found.0 (due-active l ends) in
        let found' = get_loan-kept now l.id ledger.loans todo keyed.0 found.1 in
        rw (ends, e)
          (expire_loop-loans todo after keyed.1 (rw is found')
            ∙ ap (map (expire_all todo)) is
            ∙ expire_all-due l todo ends ledger.loans)
    | inr stays ↦
        rw stays (
          expire_loop-loans todo ledger keyed.1 found.1
          ∙ expire_all-stays l todo stays ledger.loans)
  ]

  any-live :
      (i : ℕ) (loans : List KeyLoan)
      → any (λ l. l.id == i && due l) (keep (λ l. is_active l.status) loans)
        ≡ any (λ l. l.id == i && due l) loans
  any-live i [] = refl
  any-live i (l ∷ loans) = ground (arith, any-live i loans, due-active l)

  expire_all-due_only :
      (loans : List KeyLoan) (k : KeyLoan)
      → HasKeys loan_id loans
      → get_loan k.id loans ≡ some k
      → expire_all (sort_by (λ l. now - l.created_at) (keep (λ l. is_active l.status) loans)) k
        ≡ (if due k then expired_loan now k else k)
  expire_all-due_only loans k keyed found =
      let listed =
        any-sort_by (λ (l : KeyLoan). now - l.created_at) (λ l. l.id == k.id && due l)
          (keep (λ l. is_active l.status) loans) in
      rw (listed ∙ any-live k.id loans ∙ any-get_loan due k.id k loans keyed found) refl

  -- After `expire_loans_on_reset` on a table of loans with unique ids, each loan that was due has
  -- expired, with its time set and its alias cleared, and every other loan is as it was, whichever
  -- calls to Cursor raise.
  pub expire_loans_on_reset_exact :
      (ledger : Ledger)
      → HasKeys loan_id ledger.loans
      → (expire_loans_on_reset remote_raises cycle_start deadline today now ledger account).1.loans
        ≡ map
            (λ l. if is_due cycle_start deadline today account l then expired_loan now l else l)
            ledger.loans
  unfolding expire_loans_on_reset list_active_loans
  expire_loans_on_reset_exact ledger keyed =
      let age = λ (l : KeyLoan). now - l.created_at in
      let live = keep (λ (l : KeyLoan). is_active l.status) ledger.loans in
      let found = get_loan-All ledger.loans keyed in
      let same = λ (k : KeyLoan). get_loan k.id ledger.loans ≡ some k in
      expire_loop-loans (sort_by age live) ledger
        (sort_by-HasKeys loan_id age live
          (keep-HasKeys loan_id (λ l. is_active l.status) ledger.loans keyed))
        (All-sort_by age same live (All-keep same (λ l. is_active l.status) ledger.loans found))
      ∙ map-All (expire_all (sort_by age live))
          (λ l. if is_due cycle_start deadline today account l then expired_loan now l else l)
          ledger.loans
          (All-mono same _ (λ k h. expire_all-due_only ledger.loans k keyed h) ledger.loans found)
