-- ===== src/Lending/Moved.antt =====
-- What the alias of a loan lets a request do once the loan has moved to another account.
use cursor_pulse.Base.{
  ℕ, ◌≡◌, ◌≢◌, refl, sym, ap, ◌∙◌, Bool, true, false, not, ◌&&◌, List, [], ◌∷◌, ◌++◌, Option, some,
  arith, ◌==◌, ==_iff, inl, inr, Bool-cases, Option-cases, All,
}
use cursor_pulse.Base.Outcome.{returned}
use cursor_pulse.Base.Text.{Text, codes, strip, starts_with, is_empty}
use cursor_pulse.Loans.{
  KeyLoan, Credential, Ledger, is_active, get_credential, update_loan, revoke_credential,
}
use cursor_pulse.Keys.{ProxyKey}
use cursor_pulse.Keys.Answer.{is_hash, first, is_direct}
use cursor_pulse.Lending.{World, Fresh}
use cursor_pulse.Lending.Accounts.{Lender}
use cursor_pulse.Lending.Remote.{Made, new_credential, create_loan_credential}
use cursor_pulse.Lending.Issue.{is_auto}
use cursor_pulse.Lending.Reassign.{
  Reassignment, old_credential, retire_credential, write_loan, pinned_loan, moved_loan, write_move,
  check_move, move_loan, reassign_loan, check_reassign, validate_reassign_loan,
  reassign_loan_source,
}
use cursor_pulse.Lending.Checks.{Outcome-cases, with_remote_key-returned}
use cursor_pulse.Lending.Alias.{
  Lets, answer_to, get_credential-append, authorize_status-row, authorize_loan_alias_row-Lets,
}

first-update_loan :
    (p : KeyLoan → Bool) (f : KeyLoan → KeyLoan) (i : ℕ) (l : KeyLoan) (loans : List KeyLoan)
    → ((k : KeyLoan) → p (f k) ≡ p k)
    → first p loans ≡ some l
    → l.id ≡ i
    → first p (update_loan f i loans) ≡ some (f l)
unfolding first
first-update_loan p f i l [] keeps e at_i = cc
first-update_loan p f i l (k ∷ loans) keeps e at_i = elim (Bool-cases (p k)) [
  | inl here ↦
      let e' : some k ≡ some l = rw here at e in
      let same : k ≡ l = cc in
      let at_k : k.id == i ≡ true = (==_iff k.id i).1 (rw (sym same) at at_i) in
      rw (at_k, keeps k, here) (ap (λ x. some (f x)) same)
  | inr later ↦ elim (Bool-cases (k.id == i)) [
    | inl twin ↦
        rw (twin, keeps k, later) (first-update_loan p f i l loans keeps (rw later at e) at_i)
    | inr other ↦ rw (other, later) (first-update_loan p f i l loans keeps (rw later at e) at_i)
  ]
]

get_credential-id :
    (i : ℕ) (creds : List Credential) (c : Credential) → get_credential i creds ≡ some c → c.id ≡ i
unfolding get_credential
get_credential-id i [] c e = cc
get_credential-id i (k ∷ creds) c e = ground (arith, get_credential-id i creds c)

get_credential-revoke_other :
    (i j : ℕ) (creds : List Credential)
    → i ≢ j
    → get_credential i (revoke_credential j creds) ≡ get_credential i creds
unfolding get_credential revoke_credential
get_credential-revoke_other i j [] other = refl
get_credential-revoke_other i j (c ∷ creds) other =
    ground (arith, other, get_credential-revoke_other i j creds other)

-- The new credential of a moved loan stands, whatever the old one was.
get_credential-retire_credential :
    (l : KeyLoan) (c : Credential) (creds : List Credential)
    → All (λ k. k.id ≢ c.id) creds
    → l.credential_id ≢ c.id
    → get_credential c.id (retire_credential l (creds ++ c ∷ [])) ≡ some c
unfolding retire_credential old_credential
get_credential-retire_credential l c creds new other =
    elim (Option-cases (old_credential l (creds ++ c ∷ []))) [
      | inl none_old ↦ rw (none_old, retire_credential) (get_credential-append c creds new)
      | inr (o, old) ↦
          let found : get_credential l.credential_id (creds ++ c ∷ []) ≡ some o =
            ground (arith, old) in
          let at_old = get_credential-id l.credential_id (creds ++ c ∷ []) o found in
          rw (old, retire_credential)
            (get_credential-revoke_other c.id o.id (creds ++ c ∷ []) (ground (arith, at_old, other))
              ∙ get_credential-append c creds new)
    ]

module _ (world : World) (fresh : Fresh) (call : Reassignment) (loan : KeyLoan)
    (ledger : Ledger) where
  abbrev moved_row : Lender → KeyLoan → KeyLoan
  moved_row lender = moved_loan world fresh call.auto_revoke_on_reset lender

  abbrev moved_ledger : Lender → Made → Ledger
  moved_ledger lender made = record {
    loans = update_loan (moved_row lender) loan.id ledger.loans;
    credentials =
        retire_credential loan
          (ledger.credentials ++ new_credential world fresh lender.account.id made ∷ []);
  }

  write_move-returned :
      (lender : Lender) (made : Made) (l : KeyLoan)
      → (write_move world fresh call.auto_revoke_on_reset lender loan ledger made).result
        ≡ returned l
      → (write_move world fresh call.auto_revoke_on_reset lender loan ledger made).ledger
        ≡ moved_ledger lender made
  unfolding write_move create_loan_credential write_loan
  write_move-returned lender made l e = ground (arith, e)

  move_loan-returned :
      (l : KeyLoan)
      → (move_loan world fresh call loan ledger).result ≡ returned l
      → (lender : Lender) × (made : Made) × ((move_loan world fresh call loan ledger).ledger
          ≡ moved_ledger lender made)
  unfolding move_loan
  move_loan-returned l e = elim (Outcome-cases (check_move world call ledger)) [
    | inl (x, refused) ↦ ground (arith, rw (refused, move_loan) at e)
    | inr (lender, granted) ↦
        let e' = rw (granted, move_loan) at e in
        let (made, wrote, done, after, asked) =
          with_remote_key-returned world lender _ ledger _ l e' in
        (lender, made, rw (granted, move_loan) (after ∙ write_move-returned lender made l done))
  ]

  reassign_loan_source-moved :
      (l : KeyLoan)
      → (reassign_loan_source world fresh call ledger).result ≡ returned l
      → check_reassign world call ledger ≡ returned loan
      → is_auto call.lender_mode ≡ false
      → (not loan.is_pool && loan.source_account_id == call.new_source_account_id) ≡ false
      → (lender : Lender) × (made : Made) × ((reassign_loan_source world fresh call ledger).ledger
          ≡ moved_ledger lender made)
  unfolding reassign_loan_source reassign_loan
  reassign_loan_source-moved l e granted manual elsewhere =
      elim (Bool-cases (call.new_source_account_id == 0)) [
        | inl unnamed ↦
            ground (arith, rw (granted, reassign_loan_source, manual, unnamed, reassign_loan) at e)
        | inr named ↦
            let e' =
              rw (granted, reassign_loan_source, manual, named, elsewhere, reassign_loan) at e in
            let (lender, made, after) = move_loan-returned l e' in
            (
              lender,
              made,
              rw (granted, reassign_loan_source, manual, named, elsewhere, reassign_loan) after,
            )
      ]

module _ (decrypt : Text → ℕ → Option Text) (candidates : KeyLoan → Option (List ℕ))
    (encryption_key : Text) (hash : Text → ℕ) (plaintext : Text) (keys : List ProxyKey)
    (now : ℕ) where
  -- After `reassign_loan_source` returns for a loan that goes to another account, the text of the alias it
  -- had is accepted for the same loan, with the key made for it at the new account. The credential's id is
  -- new, the alias is that of this loan, and the encryption key opens the new credential.
  pub authorize_status-reassign_loan_source :
      (world : World) (fresh : Fresh) (call : Reassignment) (loan : KeyLoan) (ledger : Ledger)
      (l : KeyLoan) (key : Text)
      → (reassign_loan_source world fresh call ledger).result ≡ returned l
      → check_reassign world call ledger ≡ returned loan
      → is_auto call.lender_mode ≡ false
      → (not loan.is_pool && loan.source_account_id == call.new_source_account_id) ≡ false
      → starts_with (strip plaintext) (codes "pka_") ≡ true
      → first (λ k. is_hash k.alias_key_hash (hash (strip plaintext))) ledger.loans ≡ some loan
      → All (λ c. c.id ≢ fresh.credential_id) ledger.credentials
      → loan.credential_id ≢ fresh.credential_id
      → is_empty encryption_key ≡ false
      → decrypt encryption_key fresh.credential_id ≡ some key
      → Lets decrypt candidates encryption_key hash plaintext keys now
          (answer_to decrypt candidates encryption_key hash plaintext keys now
            (reassign_loan_source world fresh call ledger).ledger)
          loan.id
          fresh.credential_id
          key
  unfolding moved_loan pinned_loan check_reassign validate_reassign_loan
  authorize_status-reassign_loan_source world fresh call loan ledger l key e granted manual
        elsewhere alias found new old given clear =
      let (lender, made, after) =
        reassign_loan_source-moved world fresh call loan ledger l e granted manual elsewhere in
      let c = new_credential world fresh lender.account.id made in
      let row = moved_row world fresh call loan ledger lender in
      let tables = moved_ledger world fresh call loan ledger lender made in
      let is_alias = λ (k : KeyLoan). is_hash k.alias_key_hash (hash (strip plaintext)) in
      let found' =
        first-update_loan is_alias row loan.id loan ledger.loans (λ k. refl) found refl in
      let live : (is_active loan.status && not (is_direct loan.delivery_mode)) ≡ true =
        ground (arith, granted) in
      rw
        (
          after,
          authorize_status-row decrypt candidates encryption_key hash plaintext keys now tables
              (row loan) alias found',
        )
        (authorize_loan_alias_row-Lets decrypt candidates encryption_key hash plaintext keys now
          (row loan) c key tables.credentials (ground (arith, live))
          (get_credential-retire_credential loan c ledger.credentials new old) refl given clear)
