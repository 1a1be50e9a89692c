-- ===== src/Keys/Safety.antt =====
-- Who an answer lets in.
use cursor_pulse.Base.{
  ℕ, ◌≡◌, Bool, true, false, List, Option, arith, if◌then◌else◌, Option-cases, inl, inr,
}
use cursor_pulse.Base.Text.{Text, codes, strip, starts_with, text_or_empty}
use cursor_pulse.Loans.{KeyLoan, Ledger}
use cursor_pulse.Keys.{ProxyKey}
use cursor_pulse.Keys.Answer.{
  Answer, find_key_by_hash, is_hash, first, find_ide_key_parent, authorize_proxy_key,
}
use cursor_pulse.Keys.Authorize.{authorize_loan_alias, authorize_ide_key, authorize_status}
use cursor_pulse.Keys.Backed.{
  is_ok, is_backed, is_live_key, KeyMode-cases, any-first, any-find_key,
  authorize_proxy_key_row-live, authorize_loan_alias_row-IsBacked, authorize_proxy_key_row-IsBacked,
  authorize_loan_passthrough-IsBacked,
}

module _ (decrypt : Text → ℕ → Option Text) (candidates : KeyLoan → Option (List ℕ))
    (encryption_key : Text) where
  module _ (keys : List ProxyKey) (ledger : Ledger) (now : ℕ) where
    authorize_ide_key-IsBacked :
        (h : ℕ)
        → is_ok (authorize_ide_key decrypt candidates encryption_key h keys ledger now).status
          ≡ true
        → is_backed keys ledger.loans now
            (authorize_ide_key decrypt candidates encryption_key h keys ledger now)
          ≡ true
    unfolding authorize_ide_key find_ide_key_parent
    authorize_ide_key-IsBacked h e =
        let is_keyed = λ (k : ProxyKey). is_hash k.ide_key_hash h in
        let is_lent = λ (l : KeyLoan). is_hash l.ide_key_hash h in
        elim (Option-cases (first is_keyed keys)) [
          | inr (k, found) ↦ elim (KeyMode-cases k.mode) [
            | inl plan ↦ ground (arith, rw (found, plan, authorize_ide_key) at e)
            | inr own ↦
                let e' = rw (found, own, authorize_ide_key) at e in
                rw (found, own, authorize_ide_key)
                  (authorize_proxy_key_row-IsBacked decrypt candidates encryption_key keys ledger
                    now k
                    (any-first is_keyed (is_live_key now k.id) keys k found
                      (authorize_proxy_key_row-live k now e')))
          ]
          | inl keyless ↦ elim (Option-cases (first is_lent ledger.loans)) [
            | inl none_lent ↦ ground (arith, rw (keyless, none_lent, authorize_ide_key) at e)
            | inr (l, lent) ↦
                let e' = rw (keyless, lent, authorize_ide_key) at e in
                rw (keyless, lent, authorize_ide_key)
                  (authorize_loan_alias_row-IsBacked decrypt candidates encryption_key keys ledger
                    now is_lent l lent e')
          ]
        ]

    authorize_loan_alias-IsBacked :
        (h : ℕ)
        → is_ok (authorize_loan_alias decrypt candidates encryption_key h ledger).status ≡ true
        → is_backed keys ledger.loans now
            (authorize_loan_alias decrypt candidates encryption_key h ledger)
          ≡ true
    unfolding authorize_loan_alias
    authorize_loan_alias-IsBacked h e =
        let is_lent = λ (l : KeyLoan). is_hash l.alias_key_hash h in
        elim (Option-cases (first is_lent ledger.loans)) [
          | inl none_lent ↦ ground (arith, rw (none_lent, authorize_loan_alias) at e)
          | inr (l, lent) ↦
              let e' = rw (lent, authorize_loan_alias) at e in
              rw (lent, authorize_loan_alias)
                (authorize_loan_alias_row-IsBacked decrypt candidates encryption_key keys ledger now
                  is_lent l lent e')
        ]

    authorize_proxy_key-IsBacked :
        (h : ℕ)
        → is_ok (authorize_proxy_key h keys now).status ≡ true
        → is_backed keys ledger.loans now (authorize_proxy_key h keys now) ≡ true
    unfolding authorize_proxy_key
    authorize_proxy_key-IsBacked h e = elim (Option-cases (find_key_by_hash h keys)) [
      | inl missing ↦ ground (arith, rw (missing, authorize_proxy_key) at e)
      | inr (k, found) ↦
          let e' = rw (found, authorize_proxy_key) at e in
          rw (found, authorize_proxy_key)
            (authorize_proxy_key_row-IsBacked decrypt candidates encryption_key keys ledger now k (
              any-find_key h (is_live_key now k.id) keys k found
                (authorize_proxy_key_row-live k now e')))
    ]

    -- The tests on the text choose among answers that are backed.
    if-IsBacked :
        (b : Bool) (x y : Answer)
        → (is_ok x.status ≡ true → is_backed keys ledger.loans now x ≡ true)
        → (is_ok y.status ≡ true → is_backed keys ledger.loans now y ≡ true)
        → is_ok (if b then x else y).status ≡ true
        → is_backed keys ledger.loans now (if b then x else y) ≡ true
    if-IsBacked true x y f g e = f e
    if-IsBacked false x y f g e = g e

  -- A key's text is accepted only where the key or the loan that the answer names stands in its table:
  -- a key that is active and not past its time, or an active loan that is delivered in the way the
  -- answer's mode says.
  pub authorize_status-IsBacked :
      (hash : Text → ℕ) (plaintext : Option Text) (keys : List ProxyKey) (ledger : Ledger) (now : ℕ)
      → is_ok
          (authorize_status decrypt candidates encryption_key hash plaintext keys ledger now).status
        ≡ true
      → is_backed keys ledger.loans now
          (authorize_status decrypt candidates encryption_key hash plaintext keys ledger now)
        ≡ true
  unfolding authorize_status
  authorize_status-IsBacked hash plaintext keys ledger now =
      let text = strip (text_or_empty plaintext) in
      let h = hash text in
      let choose = if-IsBacked keys ledger now in
      choose (starts_with text (codes "pkide_")) _ _ (authorize_ide_key-IsBacked keys ledger now h)
        (choose (starts_with text (codes "pka_")) _ _
          (authorize_loan_alias-IsBacked keys ledger now h)
          (choose (starts_with text (codes "pk_")) _ _
            (authorize_proxy_key-IsBacked keys ledger now h)
            (choose (starts_with text (codes "cr")) _ _
              (authorize_loan_passthrough-IsBacked decrypt candidates encryption_key keys ledger now
                h)
              (λ e. ground arith))))
