-- ===== src/Lending/Balance.antt =====
-- The keys at Cursor, by their ids, before and after a call that lends.
use cursor_pulse.Base.{
  ℕ, ◌≡◌, ◌⊎◌, refl, Bool, true, false, not, ◌&&◌, List, [], ◌∷◌, ◌++◌, keep, any, Option, none,
  some, arith, ◌==◌, inl, inr, Option-cases, is_some,
}
use cursor_pulse.Base.Outcome.{raised, returned}
use cursor_pulse.Base.Text.{Text, text_eq, is_empty, text_or_empty}
use cursor_pulse.Loans.{KeyLoan, Credential, Ledger}
use cursor_pulse.Keys.Answer.{first}
use cursor_pulse.Lending.{RemoteKey, RemoteCall, make_key, drop_key, World, Fresh, Effect}
use cursor_pulse.Lending.Accounts.{Lender}
use cursor_pulse.Lending.Remote.{
  Made, make_remote_key, list_made, resolve_remote_key_id, revoke_remote_key_best_effort,
  new_credential, create_loan_credential,
}
use cursor_pulse.Lending.Issue.{
  LoanRequest, new_loan, or_revoke, with_remote_key, record_loan, check_request, issue_loan_key,
}
use cursor_pulse.Lending.Checks.{Outcome-cases}
use cursor_pulse.Lending.Added.{issue_loan_key-returned}

-- The ids at Cursor after the calls, each revocation being carried out there.
abbrev pub keys_after : List ℕ → List RemoteCall → List ℕ
keys_after ids [] = ids
keys_after ids (make_key name id ∷ calls) = keys_after (ids ++ id ∷ []) calls
keys_after ids (drop_key id ∷ calls) = keys_after (keep (λ k. not (k == id)) ids) calls

-- The answer to `create_user_api_key` has the text of the new key, where there is an answer.
abbrev pub has_text : Option (Option Text) → Bool
has_text none = true
has_text (some key) = not (is_empty (text_or_empty key))

-- The list of keys comes, and the first of the name in it has the id of the new key, which is not 0.
abbrev pub lists_new : Text → ℕ → Option (List RemoteKey) → Bool
lists_new name id none = false
lists_new name id (some keys) =
    not (id == 0)
    && elim (first (λ k. text_eq k.name name) keys) [ none ↦ false | some k ↦ k.id == id ]

-- Whether a call raises.
abbrev pub fails : Effect → Bool
fails e = elim e.result [ raised x ↦ true | returned l ↦ false ]

keep-add_new :
    (id : ℕ) (ids : List ℕ)
    → any (λ k. k == id) ids ≡ false
    → keep (λ k. not (k == id)) (ids ++ id ∷ []) ≡ ids
keep-add_new id [] e = ground arith
keep-add_new id (k ∷ ids) e = ground (arith, keep-add_new id ids)

record_loan-unchanged :
    (world : World) (fresh : Fresh) (request : LoanRequest) (lender : Lender) (made : Made)
    (ledger : Ledger)
    → fails (record_loan world fresh request lender made ledger) ≡ true
    → (record_loan world fresh request lender made ledger).ledger.loans ≡ ledger.loans
unfolding record_loan create_loan_credential
record_loan-unchanged world fresh request lender made ledger e = ground (arith, e)

-- What every write that raises leaves as it was, the whole call that raises leaves as it was.
pub with_remote_key-unchanged {ℓ} :
    {B : Type ℓ} (part : Ledger → B) (world : World) (ledger : Ledger) (lender : Lender)
    (name : Text) (write : Made → Effect)
    → ((made : Made) → fails (write made) ≡ true → part (write made).ledger ≡ part ledger)
    → fails (with_remote_key world lender name ledger write) ≡ true
    → part (with_remote_key world lender name ledger write).ledger ≡ part ledger
unfolding with_remote_key or_revoke
with_remote_key-unchanged part world ledger lender name write each e =
    elim (Outcome-cases (make_remote_key world lender name).0) [
      | inl (x, failed) ↦ rw (failed, with_remote_key) refl
      | inr (made, m) ↦ elim (Outcome-cases (write made).result) [
        | inl (y, f) ↦ rw (m, with_remote_key, f, or_revoke) (each made (rw f refl))
        | inr (loan, f) ↦ ground (arith, rw (m, with_remote_key, f, or_revoke) at e, f)
      ]
    ]

module _ (world : World) (ids : List ℕ)
    (texts : (token : ℕ) (name : Text)
      → has_text (world.client.create_user_api_key token name) ≡ true)
    (lists : (token : ℕ) (name : Text)
      → lists_new name
          (world.client.new_key_id token name)
          (world.client.list_user_api_keys token name)
        ≡ true)
    (again : (key : Text) → is_some (world.client.again key) ≡ true)
    (unused : (token : ℕ) (name : Text)
      → any (λ k. k == world.client.new_key_id token name) ids ≡ false) where
  make_remote_key-raised :
      (lender : Lender) (name : Text) {x : _}
      → (make_remote_key world lender name).0 ≡ raised x
      → (make_remote_key world lender name).1 ≡ []
  unfolding make_remote_key list_made
  make_remote_key-raised lender name e =
      elim (Option-cases (world.decrypt world.encryption_key lender.primary.id)) [
        | inl none_given ↦ ground arith
        | inr (key, given) ↦ elim (Option-cases (world.client.get_access_token key)) [
          | inl refused ↦ ground arith
          | inr (token, granted) ↦ ground (arith, texts token name, lists token name)
        ]
      ]

  -- A key that is made is known by its own id.
  make_remote_key-returned :
      (lender : Lender) (name : Text) (made : Made)
      → (make_remote_key world lender name).0 ≡ returned made
      → ((make_remote_key world lender name).1 ≡ make_key name made.remote_key_id ∷ [])
        × ((made.remote_key_id == 0) ≡ false)
        × (any (λ k. k == made.remote_key_id) ids ≡ false)
  unfolding make_remote_key list_made resolve_remote_key_id
  make_remote_key-returned lender name made e =
      elim (Option-cases (world.decrypt world.encryption_key lender.primary.id)) [
        | inl none_given ↦ ground arith
        | inr (key, given) ↦ elim (Option-cases (world.client.get_access_token key)) [
          | inl refused ↦ ground arith
          | inr (token, granted) ↦ ground (arith, lists token name, unused token name)
        ]
      ]

  -- A call that raises leaves at Cursor the keys that were there.
  pub with_remote_key-keys :
      (lender : Lender) (name : Text) (ledger : Ledger) (write : Made → Effect)
      → fails (with_remote_key world lender name ledger write) ≡ true
      → keys_after ids (with_remote_key world lender name ledger write).calls ≡ ids
  unfolding with_remote_key or_revoke revoke_remote_key_best_effort
  with_remote_key-keys lender name ledger write e =
      elim (Outcome-cases (make_remote_key world lender name).0) [
        | inl (x, f) ↦ rw (f, with_remote_key, make_remote_key-raised lender name f) refl
        | inr (made, m) ↦
            let (calls, known, new) = make_remote_key-returned lender name made m in
            elim (Outcome-cases (write made).result) [
              | inl (y, f) ↦ elim (Option-cases (world.client.again made.primary_api_key)) [
                | inl refused ↦ ground (arith, again made.primary_api_key)
                | inr (token, granted) ↦
                    rw
                      (
                        m, with_remote_key, f, or_revoke, calls, revoke_remote_key_best_effort,
                        known, granted,
                      )
                      (keep-add_new made.remote_key_id ids new)
              ]
              | inr (loan, f) ↦ ground (arith, rw (m, with_remote_key, f, or_revoke) at e, f)
            ]
      ]

  issue_loan_key-raised :
      (fresh : Fresh) (request : LoanRequest) (ledger : Ledger)
      → let e = issue_loan_key world fresh request ledger in
        fails e ≡ true → (e.ledger.loans ≡ ledger.loans) × (keys_after ids e.calls ≡ ids)
  unfolding issue_loan_key
  issue_loan_key-raised fresh request ledger e =
      elim (Outcome-cases (check_request world request ledger)) [
        | inl (x, refused) ↦ (rw (refused, issue_loan_key) refl, rw (refused, issue_loan_key) refl)
        | inr ((borrower, lender), granted) ↦
            let e' = rw (granted, issue_loan_key) at e in
            (
              rw (granted, issue_loan_key)
                  (with_remote_key-unchanged (λ t. t.loans) world ledger lender _ _
                    (λ made. record_loan-unchanged world fresh request lender made ledger) e'),
              rw (granted, issue_loan_key) (with_remote_key-keys lender _ ledger _ e'),
            )
      ]

  -- Where each key made at Cursor comes with its text, has an id that is not 0 and none of `ids`, and is
  -- the first of its name in the list that follows, and where a token is given a second time: with the
  -- keys of `ids` at Cursor and each revocation carried out there, a call of `issue_loan_key` that raises
  -- leaves the loans and the keys at Cursor as they were, and one that returns a loan adds that loan, the
  -- credential it names, and at Cursor the key whose id the credential stores, and nothing else.
  pub issue_loan_key-balance :
      (fresh : Fresh) (request : LoanRequest) (ledger : Ledger)
      → let e = issue_loan_key world fresh request ledger in
        ((fails e ≡ true) × (e.ledger.loans ≡ ledger.loans) × (keys_after ids e.calls ≡ ids))
        ⊎ ((l : KeyLoan) × (c : Credential) × (e.result ≡ returned l)
            × (e.ledger.loans ≡ ledger.loans ++ l ∷ [])
            × (e.ledger.credentials ≡ ledger.credentials ++ c ∷ [])
            × (l.credential_id ≡ c.id)
            × (keys_after ids e.calls ≡ ids ++ c.remote_key_id ∷ []))
  unfolding new_loan
  issue_loan_key-balance fresh request ledger =
      elim (Outcome-cases (issue_loan_key world fresh request ledger).result) [
        | inl (x, e) ↦
            let failed : fails (issue_loan_key world fresh request ledger) ≡ true = rw e refl in
            let (loans, keys) = issue_loan_key-raised fresh request ledger failed in
            inl (failed, loans, keys)
        | inr (l, e) ↦
            let (lender, name, made, is, after, wrote, asked) =
              issue_loan_key-returned world fresh ledger request l e in
            let (calls, known, new) = make_remote_key-returned lender name made wrote in
            inr (
              l,
              new_credential world fresh lender.account.id made,
              e,
              rw (after, is) refl,
              rw after refl,
              rw is refl,
              rw (asked, calls) refl,
            )
      ]
