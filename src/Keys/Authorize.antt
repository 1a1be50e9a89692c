-- ===== src/Keys/Authorize.antt =====
-- pulse/proxy/authorize.py: what a key's text lets a request do.
-- `hash` is SHA-256, `decrypt` what the stored value of a credential gives under an encryption key, if it
-- gives anything, and `candidates` the ranking of the accounts for a loan, `none` where it raises. The
-- text of the encryption key comes stripped, empty where there is none.
use cursor_pulse.Base.{
  ℕ, true, not, ◌||◌, List, [], ◌∷◌, Option, none, some, if◌then◌else◌, or_else, is_nil,
}
use cursor_pulse.Base.Text.{Text, codes, strip, starts_with, text_or_empty, is_empty}
use cursor_pulse.Loans.{KeyLoan, Credential, Ledger, is_active, get_credential}
use cursor_pulse.Keys.{ProxyKey, quota, coding_plan}
use cursor_pulse.Keys.Answer.{
  ok, loan_pool, loan_alias, Reason, credential_unavailable, encryption_unavailable,
  credential_undecryptable, Answer, unknown, is_hash, first, key_parent, loan_parent,
  find_ide_key_parent, is_direct, authorize_proxy_key_row, authorize_proxy_key,
  authorize_loan_passthrough,
}

abbrev alias_invalid : KeyLoan → ℕ → Reason → Answer
alias_invalid loan credential_id reason = record unknown {
  mode = some loan_alias;
  loan_id = some loan.id;
  credential_id = some credential_id;
  reason = some reason;
}

abbrev alias_ok : KeyLoan → ℕ → List ℕ → Text → Answer
alias_ok loan credential_id credential_ids cursor_api_key = record unknown {
  status = ok;
  mode = some loan_alias;
  loan_id = some loan.id;
  credential_id = some credential_id;
  credential_ids = credential_ids;
  cursor_api_key = some cursor_api_key;
  reason = none;
}

module _ (decrypt : Text → ℕ → Option Text) (candidates : KeyLoan → Option (List ℕ))
    (encryption_key : Text) where
  -- The first candidate that can be used, with its key in clear.
  unfoldable pub decrypt_candidate_loop : List Credential → List ℕ → Option (ℕ × Text)
  decrypt_candidate_loop creds [] = none
  decrypt_candidate_loop creds (id ∷ ids) =
      let rest = decrypt_candidate_loop creds ids in
      elim (get_credential id creds) [
        | none ↦ rest
        | some c ↦
            if not c.is_active || not c.has_value
            then rest
            else elim (decrypt encryption_key id) [ none ↦ rest | some key ↦ some (id, key) ]
      ]

  unfoldable pub decrypt_candidate_credential : List Credential → List ℕ → Option (ℕ × Text)
  decrypt_candidate_credential creds ids =
      if is_nil ids || is_empty encryption_key then none else decrypt_candidate_loop creds ids

  abbrev pub loan_candidate_credential_ids : KeyLoan → List ℕ
  loan_candidate_credential_ids loan = or_else (candidates loan) []

  -- With no credential that can be used.
  unfoldable pub authorize_by_candidate : KeyLoan → List Credential → List ℕ → Answer
  authorize_by_candidate loan creds ids = elim (decrypt_candidate_credential creds ids) [
    | none ↦ alias_invalid loan loan.credential_id credential_unavailable
    | some (id, key) ↦ alias_ok loan id ids key
  ]

  -- From the credential of the loan on.
  unfoldable pub authorize_by_credential : KeyLoan → List Credential → List ℕ → Answer
  authorize_by_credential loan creds ids = elim (get_credential loan.credential_id creds) [
    | none ↦ authorize_by_candidate loan creds ids
    | some cred ↦
        if not cred.is_active || not cred.has_value
        then authorize_by_candidate loan creds ids
        else if is_empty encryption_key
        then alias_invalid loan cred.id encryption_unavailable
        else elim (decrypt encryption_key cred.id) [
          | none ↦ alias_invalid loan cred.id credential_undecryptable
          | some key ↦ alias_ok loan cred.id ids key
        ]
  ]

  unfoldable pub authorize_loan_alias_row : KeyLoan → List Credential → Answer
  authorize_loan_alias_row loan creds =
      if not (is_active loan.status) || is_direct loan.delivery_mode
      then unknown
      else if loan.is_pool
      then record unknown {
        status = ok;
        mode = some loan_pool;
        loan_id = some loan.id;
        reason = none;
      }
      else authorize_by_credential loan creds
          (if loan.lends_auto then loan_candidate_credential_ids loan else [])

  unfoldable pub authorize_loan_alias : ℕ → Ledger → Answer
  authorize_loan_alias h ledger = elim (first (λ l. is_hash l.alias_key_hash h) ledger.loans) [
    | none ↦ unknown
    | some loan ↦ authorize_loan_alias_row loan ledger.credentials
  ]

  unfoldable pub authorize_ide_key : ℕ → List ProxyKey → Ledger → ℕ → Answer
  authorize_ide_key h keys ledger now = elim (find_ide_key_parent h keys ledger.loans) [
    | none ↦ unknown
    | some (key_parent key) ↦ elim key.mode [
      | coding_plan ↦ unknown
      | quota ↦ record (authorize_proxy_key_row key now) { is_ide = true }
    ]
    | some (loan_parent loan) ↦ record (authorize_loan_alias_row loan ledger.credentials) {
      is_ide = true;
    }
  ]

  unfoldable pub authorize_status : (Text → ℕ) → Option Text → List ProxyKey → Ledger → ℕ → Answer
  authorize_status hash plaintext keys ledger now =
      let text = strip (text_or_empty plaintext) in
      let h = hash text in
      if starts_with text (codes "pkide_")
      then authorize_ide_key h keys ledger now
      else if starts_with text (codes "pka_")
      then authorize_loan_alias h ledger
      else if starts_with text (codes "pk_")
      then authorize_proxy_key h keys now
      else if starts_with text (codes "cr")
      then authorize_loan_passthrough h ledger
      else unknown
