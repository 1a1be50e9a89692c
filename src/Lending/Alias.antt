-- ===== src/Lending/Alias.antt =====
-- What the alias of a loan lets a request do after the loan is lent or moved.
use cursor_pulse.Base.{
  ℕ, ◌≡◌, ◌≢◌, refl, Bool, true, false, not, ◌&&◌, List, [], ◌∷◌, ◌++◌, Option, some, arith, All,
}
use cursor_pulse.Base.Outcome.{returned}
use cursor_pulse.Base.Text.{Text, codes, strip, starts_with, is_empty}
use cursor_pulse.Loans.{KeyLoan, Credential, Ledger, is_active, get_credential}
use cursor_pulse.Keys.{ProxyKey}
use cursor_pulse.Keys.Answer.{Answer, ok, loan_alias, is_hash, first, is_direct}
use cursor_pulse.Keys.Authorize.{
  authorize_status, authorize_loan_alias, authorize_loan_alias_row, authorize_by_credential,
}
use cursor_pulse.Lending.{World, Fresh}
use cursor_pulse.Lending.Remote.{new_credential}
use cursor_pulse.Lending.Issue.{LoanRequest, issue_loan_key, new_loan}
use cursor_pulse.Lending.Added.{lent_loan, lent_ledger, issue_loan_key-returned}

pka_not_ide :
    (t : Text) → starts_with t (codes "pka_") ≡ true → starts_with t (codes "pkide_") ≡ false
unfolding starts_with
pka_not_ide [] e = refl
pka_not_ide (a ∷ []) e = ground (arith, e)
pka_not_ide (a ∷ b ∷ []) e = ground (arith, e)
pka_not_ide (a ∷ b ∷ c ∷ t) e = ground (arith, e)

-- The new row stands behind what no row had.
first-append :
    {A : Type 0}
    → (p : A → Bool) (xs : List A) (x : A) → All (λ y. p y ≡ false) xs
    → p x ≡ true
    → first p (xs ++ x ∷ []) ≡ some x
unfolding first
first-append p [] x none_before here = rw here refl
first-append p (y ∷ ys) x none_before here =
    rw (none_before.0) (first-append p ys x none_before.1 here)

pub get_credential-append :
    (c : Credential) (creds : List Credential)
    → All (λ k. k.id ≢ c.id) creds
    → get_credential c.id (creds ++ c ∷ []) ≡ some c
unfolding get_credential
get_credential-append c [] new = ground arith
get_credential-append c (k ∷ creds) new = ground (arith, get_credential-append c creds new.1)

module _ (decrypt : Text → ℕ → Option Text) (candidates : KeyLoan → Option (List ℕ))
    (encryption_key : Text) (hash : Text → ℕ) (plaintext : Text) (keys : List ProxyKey)
    (now : ℕ) where
  abbrev pub answer_to : Ledger → Answer
  answer_to ledger =
      authorize_status decrypt candidates encryption_key hash (some plaintext) keys ledger now

  -- The key's text is accepted for a loan, with a credential of its own in clear.
  abbrev pub Lets : Answer → ℕ → ℕ → Text → Type 0
  Lets a loan_id credential_id key =
      (a.status ≡ ok)
      × (a.mode ≡ some loan_alias)
      × (a.loan_id ≡ some loan_id)
      × (a.credential_id ≡ some credential_id)
      × (a.cursor_api_key ≡ some key)

  pub authorize_status-row :
      (ledger : Ledger) (l : KeyLoan)
      → starts_with (strip plaintext) (codes "pka_") ≡ true
      → first (λ k. is_hash k.alias_key_hash (hash (strip plaintext))) ledger.loans ≡ some l
      → answer_to ledger
        ≡ authorize_loan_alias_row decrypt candidates encryption_key l ledger.credentials
  unfolding authorize_status authorize_loan_alias
  authorize_status-row ledger l alias found =
      rw (pka_not_ide (strip plaintext) alias, alias, found, authorize_loan_alias) refl

  pub authorize_loan_alias_row-Lets :
      (l : KeyLoan) (c : Credential) (key : Text) (creds : List Credential)
      → (is_active l.status && (not (is_direct l.delivery_mode) && not l.is_pool)) ≡ true
      → get_credential l.credential_id creds ≡ some c
      → (c.is_active && c.has_value) ≡ true
      → is_empty encryption_key ≡ false
      → decrypt encryption_key c.id ≡ some key
      → Lets (authorize_loan_alias_row decrypt candidates encryption_key l creds) l.id c.id key
  unfolding authorize_loan_alias_row authorize_by_credential
  authorize_loan_alias_row-Lets l c key creds live found good given clear =
      (ground arith, ground arith, ground arith, ground arith, ground arith)

  -- After `issue_loan_key` returns, where the alias and the id of the credential are new and the encryption
  -- key opens the new credential, the text of the alias is accepted for the new loan, with the new key.
  pub authorize_status-issue_loan_key :
      (world : World) (fresh : Fresh) (request : LoanRequest) (ledger : Ledger) (l : KeyLoan)
      (key : Text)
      → (issue_loan_key world fresh request ledger).result ≡ returned l
      → starts_with (strip plaintext) (codes "pka_") ≡ true
      → hash (strip plaintext) ≡ fresh.alias_key_hash
      → All (λ k. is_hash k.alias_key_hash (hash (strip plaintext)) ≡ false) ledger.loans
      → All (λ c. c.id ≢ fresh.credential_id) ledger.credentials
      → is_empty encryption_key ≡ false
      → decrypt encryption_key fresh.credential_id ≡ some key
      → Lets
          (answer_to (issue_loan_key world fresh request ledger).ledger)
          fresh.loan_id
          fresh.credential_id
          key
  unfolding new_loan
  authorize_status-issue_loan_key world fresh request ledger l key e alias hashed new_alias
        new_credential_id given clear =
      let (lender, name, made, is, after, wrote, asked) =
        issue_loan_key-returned world fresh ledger request l e in
      let lent = lent_loan world fresh request lender in
      let c = new_credential world fresh lender.account.id made in
      let tables = lent_ledger world fresh request lender made ledger in
      let found =
        first-append (λ k. is_hash k.alias_key_hash (hash (strip plaintext))) ledger.loans lent
          new_alias (ground (arith, hashed)) in
      rw (after, authorize_status-row tables lent alias found)
        (authorize_loan_alias_row-Lets lent c key tables.credentials refl
          (get_credential-append c ledger.credentials new_credential_id) refl given clear)
