-- ===== src/Keys/Ended.antt =====
-- A loan that has ended lets nobody in.
use cursor_pulse.Base.{
  ℕ, ◌≡◌, ◌≢◌, refl, ap, ◌∙◌, Bool, true, false, not, ◌&&◌, List, [], ◌∷◌, map, Option, some, arith,
  ◌==◌, if◌then◌else◌, any, Option-cases, inl, inr,
}
use cursor_pulse.Base.Keyed.{HasKeys}
use cursor_pulse.Base.Text.{Text}
use cursor_pulse.Loans.{
  KeyLoan, Ledger, is_active, get_loan, revoked_loan, expired_loan, revoke_loan, is_due,
  expire_loans_on_reset,
}
use cursor_pulse.Loans.Rows.{revoke_loan-some, loan_id, any-get_loan}
use cursor_pulse.Loans.Expiry.{expire_loans_on_reset_exact}
use cursor_pulse.Keys.{ProxyKey}
use cursor_pulse.Keys.Answer.{AnswerMode, Answer}
use cursor_pulse.Keys.Authorize.{authorize_status}
use cursor_pulse.Keys.Backed.{is_ok, is_delivered, is_live_loan, is_backed}
use cursor_pulse.Keys.Safety.{authorize_status-IsBacked}

is_backed-loan :
    (keys : List ProxyKey) (loans : List KeyLoan) (now id : ℕ) (a : Answer)
    → is_backed keys loans now a ≡ true
    → a.loan_id ≡ some id
    → any (is_live_loan a.mode id) loans ≡ true
is_backed-loan keys loans now id a backed names = elim (Option-cases a.proxy_key_id) [
  | inl keyless ↦ rw (keyless, names) at backed
  | inr (k, keyed) ↦ ground (arith, rw (keyed, names) at backed)
]

module _ (now id : ℕ) (mode : Option AnswerMode) where
  any-live_revoked :
      (loans : List KeyLoan)
      → any (is_live_loan mode id) (map (λ l. if l.id == id then revoked_loan now l else l) loans)
        ≡ false
  unfolding revoked_loan
  any-live_revoked [] = refl
  any-live_revoked (l ∷ loans) = ground (arith, any-live_revoked loans)

  any-live_expired :
      (due : KeyLoan → Bool) (loans : List KeyLoan)
      → any (is_live_loan mode id) (map (λ l. if due l then expired_loan now l else l) loans)
        ≡ any (λ l. l.id == id && (not (due l) && is_active l.status && is_delivered mode l)) loans
  unfolding expired_loan revoked_loan
  any-live_expired due [] = refl
  any-live_expired due (l ∷ loans) = ground (arith, any-live_expired due loans)

module _ (decrypt : Text → ℕ → Option Text) (candidates : KeyLoan → Option (List ℕ))
    (encryption_key : Text) (hash : Text → ℕ) (plaintext : Option Text) (keys : List ProxyKey)
    (now : ℕ) where
  abbrev answered : Ledger → Answer
  answered ledger =
      authorize_status decrypt candidates encryption_key hash plaintext keys ledger now

  -- Where no row of a loan is active, no key's text is accepted for it.
  authorize_status-not_live :
      (ledger : Ledger) (id : ℕ)
      → ((mode : Option AnswerMode) → any (is_live_loan mode id) ledger.loans ≡ false)
      → is_ok (answered ledger).status ≡ true
      → (answered ledger).loan_id ≢ some id
  authorize_status-not_live ledger id ended e names =
      let live =
        is_backed-loan keys ledger.loans now id (answered ledger)
          (authorize_status-IsBacked decrypt candidates encryption_key hash plaintext keys ledger
            now e)
          names in
      ground (arith, live, ended (answered ledger).mode)

  -- After `revoke_loan` on a table of loans with unique ids, whether or not the key at Cursor is revoked
  -- too, no key's text is accepted for that loan.
  pub authorize_status-revoke_loan :
      (remote_raises : ℕ → Bool) (ledger after : Ledger) (id : ℕ) (revoke_remote : Bool)
      (at_time : ℕ)
      → HasKeys loan_id ledger.loans
      → revoke_loan remote_raises ledger id revoke_remote at_time ≡ some after
      → is_ok (answered after).status ≡ true
      → (answered after).loan_id ≢ some id
  authorize_status-revoke_loan remote_raises ledger after id revoke_remote at_time keyed done =
      let (l, found, way) =
        revoke_loan-some remote_raises ledger after id revoke_remote at_time done in
      authorize_status-not_live after id λ mode. elim way [
        | inl (ended, same) ↦
            let dead : (is_active l.status && is_delivered mode l) ≡ false =
              ground (arith, ended) in
            ap (λ (x : Ledger). any (is_live_loan mode id) x.loans) same
            ∙ any-get_loan (λ k. is_active k.status && is_delivered mode k) id l ledger.loans keyed
                found
            ∙ dead
        | inr same ↦
            ap (λ (x : Ledger). any (is_live_loan mode id) x.loans) same
            ∙ any-live_revoked at_time id mode ledger.loans
      ]

  -- After a reset on a table of loans with unique ids, no key's text is accepted for a loan that was due,
  -- whichever calls to Cursor raise.
  pub authorize_status-expire_loans_on_reset :
      (remote_raises : ℕ → Bool) (cycle_start deadline : ℕ → Option ℕ) (today at_time account : ℕ)
      (ledger : Ledger) (l : KeyLoan)
      → HasKeys loan_id ledger.loans
      → get_loan l.id ledger.loans ≡ some l
      → is_due cycle_start deadline today account l ≡ true
      → let after =
          (expire_loans_on_reset remote_raises cycle_start deadline today at_time ledger
            account).1 in
        is_ok (answered after).status ≡ true → (answered after).loan_id ≢ some l.id
  authorize_status-expire_loans_on_reset remote_raises cycle_start deadline today at_time account
        ledger l keyed found ends =
      authorize_status-not_live _ l.id λ mode.
        let due = is_due cycle_start deadline today account in
        ap (any (is_live_loan mode l.id)) (
          expire_loans_on_reset_exact remote_raises cycle_start deadline today at_time account
            ledger keyed)
        ∙ any-live_expired at_time l.id mode due ledger.loans
        ∙ any-get_loan (λ k. not (due k) && is_active k.status && is_delivered mode k) l.id l
            ledger.loans keyed found
        ∙ ground (arith, ends)
