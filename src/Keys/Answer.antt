-- ===== src/Keys/Answer.antt =====
-- pulse/proxy/authorize.py: the answer to a request's key, and the keys that need no decryption.
use cursor_pulse.Base.{
  ℕ, Bool, true, false, not, ◌&&◌, List, [], ◌∷◌, Option, none, some, ◌==◌, leb, if◌then◌else◌,
}
use cursor_pulse.Base.Text.{Text, codes, text_or_empty, is_empty}
use cursor_pulse.Loans.{KeyLoan, Ledger, DeliveryMode, cursor_direct, proxy_alias, is_active}
use cursor_pulse.Keys.{ProxyKey, KeyMode, KeyStatus, active, suspended, revoked}

-- `soft_suspended` is the status "suspended".
pub data AnswerStatus : Type 0 where
  ok invalid soft_suspended : AnswerStatus

pub data AnswerMode : Type 0 where
  key_mode : KeyMode → AnswerMode
  loan_passthrough loan_pool loan_alias : AnswerMode

pub data Reason : Type 0 where
  unknown_key is_revoked is_expired loan_inactive alias_required : Reason
  credential_unavailable encryption_unavailable credential_undecryptable : Reason
  suspended_for : Text → Reason

pub record Answer : Type 0 where
  pub status : AnswerStatus
  pub proxy_key_id : Option ℕ
  pub mode : Option AnswerMode
  pub loan_id : Option ℕ
  pub credential_id : Option ℕ
  pub credential_ids : List ℕ
  pub cursor_api_key : Option Text
  pub reason : Option Reason
  pub is_ide : Bool

abbrev pub unknown : Answer
unknown = record {
  status = invalid;
  proxy_key_id = none;
  mode = none;
  loan_id = none;
  credential_id = none;
  credential_ids = [];
  cursor_api_key = none;
  reason = some unknown_key;
  is_ide = false;
}

-- `SELECT … WHERE key_hash = …`
unfoldable pub find_key_by_hash : ℕ → List ProxyKey → Option ProxyKey
find_key_by_hash h [] = none
find_key_by_hash h (k ∷ keys) = if k.key_hash == h then some k else find_key_by_hash h keys

-- SQL's equality, which NULL never meets.
abbrev pub is_hash : Option ℕ → ℕ → Bool
is_hash none h = false
is_hash (some g) h = g == h

-- The first row of a table that a condition selects.
unfoldable pub first : {A : Type 0} → (A → Bool) → List A → Option A
first p [] = none
first p (x ∷ xs) = if p x then some x else first p xs

pub data Parent : Type 0 where
  key_parent : ProxyKey → Parent
  loan_parent : KeyLoan → Parent

-- pulse/proxy/ide_keys.py
unfoldable pub find_ide_key_parent : ℕ → List ProxyKey → List KeyLoan → Option Parent
find_ide_key_parent h keys loans = elim (first (λ k. is_hash k.ide_key_hash h) keys) [
  | some k ↦ some (key_parent k)
  | none ↦ elim (first (λ l. is_hash l.ide_key_hash h) loans) [
    | some l ↦ some (loan_parent l)
    | none ↦ none
  ]
]

abbrev pub is_past : Option ℕ → ℕ → Bool
is_past none now = false
is_past (some t) now = leb t now

abbrev key_answer : ProxyKey → AnswerStatus → Option Reason → Answer
key_answer key status reason = record unknown {
  status = status;
  proxy_key_id = some key.id;
  mode = some (key_mode key.mode);
  reason = reason;
}

abbrev pub reason_text : Option Text → Text
reason_text reason =
    let given = text_or_empty reason in if is_empty given then codes "suspended" else given

abbrev pub is_key_active : KeyStatus → Bool
is_key_active active = true
is_key_active suspended = false
is_key_active revoked = false

unfoldable pub authorize_proxy_key_row : ProxyKey → ℕ → Answer
authorize_proxy_key_row key now = elim key.status [
  | revoked ↦ key_answer key invalid (some is_revoked)
  | suspended ↦
      if is_past key.expires_at now
      then key_answer key invalid (some is_expired)
      else key_answer key soft_suspended (some (suspended_for (reason_text key.suspended_reason)))
  | active ↦
      if is_past key.expires_at now
      then key_answer key invalid (some is_expired)
      else key_answer key ok none
]

unfoldable pub authorize_proxy_key : ℕ → List ProxyKey → ℕ → Answer
authorize_proxy_key h keys now = elim (find_key_by_hash h keys) [
  | none ↦ unknown
  | some key ↦ authorize_proxy_key_row key now
]

abbrev pub is_direct : DeliveryMode → Bool
is_direct cursor_direct = true
is_direct proxy_alias = false

unfoldable pub authorize_loan_passthrough : ℕ → Ledger → Answer
authorize_loan_passthrough h ledger =
    elim (first (λ c. is_hash c.key_hash h && c.is_active && c.is_loan_key) ledger.credentials) [
      | none ↦ unknown
      | some cred ↦
          elim (first (λ l. l.credential_id == cred.id && is_active l.status) ledger.loans) [
            | none ↦ record unknown { credential_id = some cred.id; reason = some loan_inactive }
            | some loan ↦
                if not (is_direct loan.delivery_mode)
                then record unknown {
                  loan_id = some loan.id;
                  credential_id = some cred.id;
                  reason = some alias_required;
                }
                else record unknown {
                  status = ok;
                  mode = some loan_passthrough;
                  loan_id = some loan.id;
                  credential_id = some cred.id;
                  reason = none;
                }
          ]
    ]
