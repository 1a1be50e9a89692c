-- ===== src/Loans/Rows.antt =====
-- The rows of loans, as one of them expires.
use cursor_pulse.Base.{
  ℕ, ◌≡◌, ◌≢◌, refl, ◌∙◌, Bool, false, ◌&&◌, List, [], ◌∷◌, map, some, arith, ◌==◌, ==_iff,
  if◌then◌else◌, any, All, Bool-cases, Option-cases, ◌⊎◌, inl, inr,
}
use cursor_pulse.Base.Keyed.{HasKeys}
use cursor_pulse.Loans.{
  Ledger, revoke_loan, revoke_credential, remote_fails, is_active, KeyLoan, expired, get_loan,
  update_loan, revoked_loan, expired_loan,
}

abbrev pub loan_id : KeyLoan → ℕ
loan_id l = l.id

module _ (now : ℕ) where
  abbrev pub expire_id : ℕ → KeyLoan → KeyLoan
  expire_id id l = if l.id == id then expired_loan now l else l

  pub set_expired-revoked :
      (id : ℕ) (loans : List KeyLoan)
      → update_loan
          (λ l. record l { status = expired })
          id
          (update_loan (revoked_loan now) id loans)
        ≡ map (expire_id id) loans
  unfolding revoked_loan expired_loan
  set_expired-revoked id [] = refl
  set_expired-revoked id (l ∷ loans) = ground (arith, set_expired-revoked id loans)

  get_loan-expire_id :
      (i id : ℕ) (loans : List KeyLoan)
      → i ≢ id
      → get_loan i (map (expire_id id) loans) ≡ get_loan i loans
  unfolding get_loan expired_loan revoked_loan
  get_loan-expire_id i id [] other = refl
  get_loan-expire_id i id (l ∷ loans) other = ground (arith, get_loan-expire_id i id loans other)

get_loan-cons :
    (l : KeyLoan) (loans ks : List KeyLoan)
    → All (λ k. k.id ≢ l.id) ks
    → All (λ k. get_loan k.id loans ≡ some k) ks
    → All (λ k. get_loan k.id (l ∷ loans) ≡ some k) ks
unfolding get_loan
get_loan-cons l loans [] a b = tt
get_loan-cons l loans (k ∷ ks) a b = (ground (arith, b.0), get_loan-cons l loans ks a.1 b.1)

pub get_loan-All :
    (loans : List KeyLoan) → HasKeys loan_id loans → All (λ k. get_loan k.id loans ≡ some k) loans
unfolding get_loan
get_loan-All [] keyed = tt
get_loan-All (l ∷ loans) keyed =
    (ground arith, get_loan-cons l loans loans keyed.0 (get_loan-All loans keyed.1))

-- On a table with unique ids, a test on the row of an id is a test on any row.
any-none :
    (q : KeyLoan → Bool) (i : ℕ) (loans : List KeyLoan)
    → All (λ k. k.id ≢ i) loans
    → any (λ l. l.id == i && q l) loans ≡ false
any-none q i [] a = refl
any-none q i (l ∷ loans) a = ground (arith, any-none q i loans a.1)

pub any-get_loan :
    (q : KeyLoan → Bool) (i : ℕ) (k : KeyLoan) (loans : List KeyLoan)
    → HasKeys loan_id loans
    → get_loan i loans ≡ some k
    → any (λ l. l.id == i && q l) loans ≡ q k
unfolding get_loan
any-get_loan q i k [] keyed e = cc
any-get_loan q i k (l ∷ loans) keyed e = elim (Bool-cases (l.id == i)) [
  | inl same ↦
      let at_i : l.id ≡ i = (==_iff l.id i).0 same in
      let e' : some l ≡ some k = rw same at e in
      let is_k : l ≡ k = cc in
      rw (same, any-none q i loans (rw at_i at keyed.0)) (rw is_k (ground arith))
  | inr other ↦ ground (arith, any-get_loan q i k loans keyed.1)
]

pub get_loan-kept :
    (now id : ℕ) (loans ks : List KeyLoan)
    → All (λ k. k.id ≢ id) ks
    → All (λ k. get_loan k.id loans ≡ some k) ks
    → All (λ k. get_loan k.id (map (expire_id now id) loans) ≡ some k) ks
get_loan-kept now id loans [] a b = tt
get_loan-kept now id loans (k ∷ ks) a b =
    (get_loan-expire_id now k.id id loans a.0 ∙ b.0, get_loan-kept now id loans ks a.1 b.1)

pub map_same :
    (f : KeyLoan → KeyLoan) (loans : List KeyLoan) → ((l : KeyLoan) → f l ≡ l) → map f loans ≡ loans
map_same f [] h = refl
map_same f (l ∷ loans) h = rw (h l, map_same f loans h) refl

-- The tables after a loan is revoked.
abbrev pub revoked_ledger : ℕ → Ledger → ℕ → KeyLoan → Ledger
revoked_ledger now ledger id l = record {
  loans = update_loan (revoked_loan now) id ledger.loans;
  credentials = revoke_credential l.credential_id ledger.credentials;
}

-- What `revoke_loan` returns: the tables as they were for a loan that had ended, or the loan revoked.
pub revoke_loan-some :
    (remote_raises : ℕ → Bool) (ledger after : Ledger) (id : ℕ) (revoke_remote : Bool) (now : ℕ)
    → revoke_loan remote_raises ledger id revoke_remote now ≡ some after
    → (l : KeyLoan) × (get_loan id ledger.loans ≡ some l)
      × (((is_active l.status ≡ false) × (after ≡ ledger))
          ⊎ (after ≡ revoked_ledger now ledger id l))
unfolding revoke_loan
revoke_loan-some remote_raises ledger after id revoke_remote now done =
    elim (Option-cases (get_loan id ledger.loans)) [
      | inl missing ↦ ground (arith, rw (missing, revoke_loan) at done)
      | inr (l, found) ↦ elim (Bool-cases (is_active l.status)) [
        | inr ended ↦
            let done' : some ledger ≡ some after = rw (found, ended, revoke_loan) at done in
            (l, found, inl (ended, cc))
        | inl live ↦ elim (Bool-cases (revoke_remote && remote_fails remote_raises ledger l)) [
          | inl fails ↦ ground (arith, rw (found, live, fails, revoke_loan) at done)
          | inr works ↦
              let done' : some (revoked_ledger now ledger id l) ≡ some after =
                rw (found, live, works, revoke_loan) at done in
              (l, found, inr cc)
        ]
      ]
    ]
