-- ===== src/Lending/Cap.antt =====
-- How many loans of an account run, through the calls that lend.
use cursor_pulse.Base.{
  ℕ, ◌+◌, ◌≤◌, max, ◌≡◌, ◌≢◌, refl, sym, Bool, true, false, not, ◌||◌, if_both, List, [], ◌∷◌, ◌++◌,
  map, some, arith, ◌==◌, ==_iff, leb, if◌then◌else◌, All, inl, inr, Bool-cases,
}
use cursor_pulse.Base.Keyed.{HasKeys, append-HasKeys, map-HasKeys}
use cursor_pulse.Loans.{KeyLoan, get_loan, update_loan}
use cursor_pulse.Loans.Rows.{loan_id}
use cursor_pulse.Lending.Accounts.{is_loan_of, active_loan_count}

-- A call on the tables keeps each account at what it had or below the cap, and the ids different.
pub record IsCapped (cap : ℕ) (before after : List KeyLoan) : Type 0 where
  pub counts :
      (account : ℕ)
      → account ≢ 0
      → active_loan_count account after ≤ max cap (active_loan_count account before)
  pub keyed : HasKeys loan_id after

abbrev pub one : Bool → ℕ
one b = if b then 1 else 0

active_loan_count-append :
    (account : ℕ) (l : KeyLoan) (loans : List KeyLoan)
    → active_loan_count account (loans ++ l ∷ [])
      ≡ active_loan_count account loans + one (is_loan_of account l)
unfolding active_loan_count
active_loan_count-append account l [] = ground arith
active_loan_count-append account l (k ∷ loans) =
    ground (arith, active_loan_count-append account l loans)

-- The database gives a new row an id of its own.
abbrev pub IsNew : ℕ → List KeyLoan → Type 0
IsNew id = All λ l. l.id ≢ id

pub same-IsCapped :
    (cap : ℕ) (loans : List KeyLoan) → HasKeys loan_id loans → IsCapped cap loans loans
same-IsCapped cap loans keyed = record { counts = λ account named. omega arith; keyed = keyed }

pub add-IsCapped :
    (cap : ℕ) (l : KeyLoan) (loans : List KeyLoan)
    → HasKeys loan_id loans
    → IsNew l.id loans
    → (l.source_account_id ≢ 0 → leb cap (active_loan_count l.source_account_id loans) ≡ false)
    → IsCapped cap loans (loans ++ l ∷ [])
add-IsCapped cap l loans keyed new room = record {
  counts = λ account named. ground (arith, active_loan_count-append account l loans, room);
  keyed = append-HasKeys loan_id l loans keyed new;
}

pub get_loan-id :
    (i : ℕ) (loans : List KeyLoan) (l : KeyLoan) → get_loan i loans ≡ some l → l.id ≡ i
unfolding get_loan
get_loan-id i [] l e = cc
get_loan-id i (k ∷ loans) l e = ground (arith, get_loan-id i loans l)

update_loan-other :
    (f : KeyLoan → KeyLoan) (i : ℕ) (loans : List KeyLoan)
    → IsNew i loans
    → update_loan f i loans ≡ loans
update_loan-other f i [] new = refl
update_loan-other f i (k ∷ loans) new = ground (arith, update_loan-other f i loans new.1)

-- One loan changes: the counts differ by it.
active_loan_count-update_loan :
    (f : KeyLoan → KeyLoan) (account i : ℕ) (l : KeyLoan) (loans : List KeyLoan)
    → HasKeys loan_id loans
    → get_loan i loans ≡ some l
    → active_loan_count account (update_loan f i loans) + one (is_loan_of account l)
      ≡ active_loan_count account loans + one (is_loan_of account (f l))
unfolding active_loan_count get_loan
active_loan_count-update_loan f account i l [] keyed found = cc
active_loan_count-update_loan f account i l (k ∷ loans) keyed found =
    elim (Bool-cases (k.id == i)) [
      | inl here ↦
          let at_i : k.id ≡ i = (==_iff k.id i).0 here in
          let found' : some k ≡ some l = rw here at found in
          let same : k ≡ l = cc in
          let rest = update_loan-other f i loans (rw at_i at keyed.0) in
          rw (here, rest, sym same) (ground arith)
      | inr later ↦ ground (arith, later, active_loan_count-update_loan f account i l loans keyed.1)
    ]

-- One loan changes, and where it comes to an account there is room.
pub update_loan-IsCapped :
    (cap : ℕ) (f : KeyLoan → KeyLoan) (l : KeyLoan) (loans : List KeyLoan)
    → HasKeys loan_id loans
    → get_loan l.id loans ≡ some l
    → ((k : KeyLoan) → (f k).id ≡ k.id)
    → ((account : ℕ)
        → account ≢ 0
        → is_loan_of account (f l) ≡ true
        → (is_loan_of account l || not (leb cap (active_loan_count account loans))) ≡ true)
    → IsCapped cap loans (update_loan f l.id loans)
update_loan-IsCapped cap f l loans keyed found keeps room = record {
  counts = λ account named.
      ground (
        arith,
        active_loan_count-update_loan f account l.id l loans keyed found,
        room account named,
      );
  keyed =
      map-HasKeys loan_id (λ k. if k.id == l.id then f k else k) loans
        (λ k. if_both (λ m. m.id ≡ k.id) (k.id == l.id) (f k) k (keeps k) refl) keyed;
}

-- Rows change, and no loan comes to an account.
active_loan_count-map-le :
    (f : KeyLoan → KeyLoan) (account : ℕ) (loans : List KeyLoan)
    → ((k : KeyLoan) → is_loan_of account (f k) ≡ true → is_loan_of account k ≡ true)
    → active_loan_count account (map f loans) ≤ active_loan_count account loans
unfolding active_loan_count
active_loan_count-map-le f account [] ends = omega arith
active_loan_count-map-le f account (k ∷ loans) ends =
    ground (arith, active_loan_count-map-le f account loans ends, ends k)

pub map-IsCapped :
    (cap : ℕ) (f : KeyLoan → KeyLoan) (loans : List KeyLoan)
    → HasKeys loan_id loans
    → ((k : KeyLoan) → (f k).id ≡ k.id)
    → ((account : ℕ) (k : KeyLoan) → is_loan_of account (f k) ≡ true → is_loan_of account k ≡ true)
    → IsCapped cap loans (map f loans)
map-IsCapped cap f loans keyed keeps ends = record {
  counts = λ account named. omega (arith, active_loan_count-map-le f account loans (ends account));
  keyed = map-HasKeys loan_id f loans keeps keyed;
}
