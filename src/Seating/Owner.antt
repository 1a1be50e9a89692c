-- ===== src/Seating/Owner.antt =====
-- pulse/proxy/seat_assignment.py: the member behind a key, and the holder of a seat.
use cursor_pulse.Base.{ℕ, not, ◌&&◌, List, Option, none, some, ◌==◌, if◌then◌else◌}
use cursor_pulse.Base.Dict.{nat_eq}
use cursor_pulse.Base.Text.{Text, codes, strip, starts_with, text_or_empty}
use cursor_pulse.Loans.{KeyLoan, Ledger, get_loan, is_active}
use cursor_pulse.Keys.{ProxyKey, get_key}
use cursor_pulse.Keys.Answer.{
  Answer, find_key_by_hash, first, is_hash, is_direct, key_parent, loan_parent, find_ide_key_parent,
}

-- `_member_id_for_plaintext`, 0 for None.
unfoldable pub member_id_for_plaintext : (Text → ℕ) → List ProxyKey → Ledger → Option Text → ℕ
member_id_for_plaintext hash keys ledger plaintext =
    let text = strip (text_or_empty plaintext) in
    let h = hash text in
    if starts_with text (codes "pkide_")
    then elim (find_ide_key_parent h keys ledger.loans) [
      | none ↦ 0
      | some (key_parent k) ↦ k.member_id
      | some (loan_parent l) ↦ l.borrower_member_id
    ]
    else if starts_with text (codes "pka_")
    then elim (first (λ l. is_hash l.alias_key_hash h && not (is_direct l.delivery_mode))
        ledger.loans) [ none ↦ 0 | some l ↦ l.borrower_member_id ]
    else if starts_with text (codes "pk_")
    then elim (find_key_by_hash h keys) [ none ↦ 0 | some k ↦ k.member_id ]
    else if starts_with text (codes "cr")
    then elim (first (λ c. is_hash c.key_hash h && c.is_loan_key) ledger.credentials) [
      | none ↦ 0
      | some c ↦ elim (first (λ l. l.credential_id == c.id && is_active l.status) ledger.loans) [
        | none ↦ 0
        | some l ↦ l.borrower_member_id
      ]
    ]
    else 0

-- `_member_id`: the member behind an answer, 0 for None.
unfoldable pub member_of_key : List ProxyKey → Answer → ℕ
member_of_key keys answer = elim answer.proxy_key_id [
  | none ↦ 0
  | some id ↦ elim (get_key id keys) [ none ↦ 0 | some k ↦ k.member_id ]
]

unfoldable pub member_of_loan : List KeyLoan → Answer → ℕ
member_of_loan loans answer = elim answer.loan_id [
  | none ↦ 0
  | some id ↦ elim (get_loan id loans) [ none ↦ 0 | some l ↦ l.borrower_member_id ]
]

unfoldable pub member_of_answer : List ProxyKey → List KeyLoan → Answer → ℕ
member_of_answer keys loans answer =
    if not (member_of_loan loans answer == 0)
    then member_of_loan loans answer
    else member_of_key keys answer

-- `seat_holder_id` of pulse/proxy/occupancy.py; the text is `member:…`, `loan:…` or `pk:…`.
pub data Holder : Type 0 where
  member_holder loan_holder key_holder : ℕ → Holder
  anonymous : Holder

unfoldable pub seat_holder : ℕ → ℕ → ℕ → Holder
seat_holder member_id loan_id proxy_key_id =
    if not (member_id == 0)
    then member_holder member_id
    else if not (loan_id == 0)
    then loan_holder loan_id
    else if not (proxy_key_id == 0)
    then key_holder proxy_key_id
    else anonymous
