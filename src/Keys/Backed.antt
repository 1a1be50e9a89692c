-- ===== src/Keys/Backed.antt =====
-- The row of a table that stands behind an answer.
use cursor_pulse.Base.{
  ℕ, ◌≡◌, ◌⊎◌, refl, sym, Bool, true, false, not, ◌&&◌, ◌||◌, List, [], ◌∷◌, Option, none, some,
  arith, ◌==◌, if◌then◌else◌, any, Bool-cases, Option-cases, inl, inr, or_else, is_some,
}
use cursor_pulse.Base.Text.{Text}
use cursor_pulse.Loans.{KeyLoan, Credential, Ledger, is_active}
use cursor_pulse.Keys.{ProxyKey, KeyMode, quota, coding_plan}
use cursor_pulse.Keys.Answer.{
  AnswerStatus, ok, invalid, soft_suspended, AnswerMode, key_mode, loan_passthrough, loan_pool,
  loan_alias, Answer, find_key_by_hash, is_hash, first, is_past, is_key_active, is_direct,
  authorize_proxy_key_row, authorize_loan_passthrough,
}
use cursor_pulse.Keys.Authorize.{
  authorize_by_candidate, authorize_by_credential, authorize_loan_alias_row,
}

abbrev pub is_live_key : ℕ → ℕ → ProxyKey → Bool
is_live_key now id k = k.id == id && is_key_active k.status && not (is_past k.expires_at now)

-- The mode in which a loan is used fits the way it is delivered.
abbrev pub is_delivered : Option AnswerMode → KeyLoan → Bool
is_delivered (some loan_passthrough) l = is_direct l.delivery_mode
is_delivered (some loan_pool) l = not (is_direct l.delivery_mode) && l.is_pool
is_delivered (some loan_alias) l = not (is_direct l.delivery_mode) && not l.is_pool
is_delivered (some (key_mode m)) l = false
is_delivered none l = false

abbrev pub is_live_loan : Option AnswerMode → ℕ → KeyLoan → Bool
is_live_loan mode id l = l.id == id && (is_active l.status && is_delivered mode l)

abbrev pub is_ok : AnswerStatus → Bool
is_ok ok = true
is_ok invalid = false
is_ok soft_suspended = false

-- The row behind an answer: the key it names, and then no loan, or else the loan.
abbrev pub is_backed : List ProxyKey → List KeyLoan → ℕ → Answer → Bool
is_backed keys loans now answer = elim answer.proxy_key_id [
  | some id ↦ any (is_live_key now id) keys && not (is_some answer.loan_id)
  | none ↦ elim answer.loan_id [ some id ↦ any (is_live_loan answer.mode id) loans | none ↦ false ]
]

pub KeyMode-cases : (m : KeyMode) → (m ≡ coding_plan) ⊎ (m ≡ quota)
KeyMode-cases quota = inr refl
KeyMode-cases coding_plan = inl refl

first-holds : {A : Type 0} → (p : A → Bool) (xs : List A) (x : A) → first p xs ≡ some x → p x ≡ true
unfolding first
first-holds p [] x e = ground arith
first-holds p (y ∷ xs) x e = elim (Bool-cases (p y)) [
  | inl here ↦ let e' : some y ≡ some x = rw here at e in let same : y ≡ x = cc in rw same at here
  | inr later ↦ first-holds p xs x (rw later at e)
]

-- What the first row of its kind satisfies, some row does.
pub any-first :
    {A : Type 0}
    → (p q : A → Bool) (xs : List A) (x : A) → first p xs ≡ some x
    → q x ≡ true
    → any q xs ≡ true
unfolding first
any-first p q [] x e holds = ground arith
any-first p q (y ∷ xs) x e holds = elim (Bool-cases (p y)) [
  | inl here ↦
      let e' : some y ≡ some x = rw here at e in
      let same : y ≡ x = cc in rw (rw (sym same) at holds) refl
  | inr later ↦ ground (arith, any-first p q xs x (rw later at e) holds)
]

pub any-find_key :
    (h : ℕ) (q : ProxyKey → Bool) (keys : List ProxyKey) (k : ProxyKey)
    → find_key_by_hash h keys ≡ some k
    → q k ≡ true
    → any q keys ≡ true
unfolding find_key_by_hash
any-find_key h q [] k e holds = ground arith
any-find_key h q (y ∷ keys) k e holds = elim (Bool-cases (y.key_hash == h)) [
  | inl here ↦
      let e' : some y ≡ some k = rw here at e in
      let same : y ≡ k = cc in rw (rw (sym same) at holds) refl
  | inr later ↦ ground (arith, any-find_key h q keys k (rw later at e) holds)
]

authorize_proxy_key_row-names :
    (k : ProxyKey) (now : ℕ)
    → ((authorize_proxy_key_row k now).proxy_key_id ≡ some k.id)
      × ((authorize_proxy_key_row k now).loan_id ≡ none)
unfolding authorize_proxy_key_row
authorize_proxy_key_row-names k now = ground arith

pub authorize_proxy_key_row-live :
    (k : ProxyKey) (now : ℕ)
    → is_ok (authorize_proxy_key_row k now).status ≡ true
    → is_live_key now k.id k ≡ true
unfolding authorize_proxy_key_row
authorize_proxy_key_row-live k now e = ground arith

module _ (decrypt : Text → ℕ → Option Text) (candidates : KeyLoan → Option (List ℕ))
    (encryption_key : Text) where
  authorize_by_credential-names :
      (l : KeyLoan) (creds : List Credential) (ids : List ℕ)
      → ((authorize_by_credential decrypt candidates encryption_key l creds ids).proxy_key_id
          ≡ none)
        × ((authorize_by_credential decrypt candidates encryption_key l creds ids).loan_id
            ≡ some l.id)
        × ((authorize_by_credential decrypt candidates encryption_key l creds ids).mode
            ≡ some loan_alias)
  unfolding authorize_by_credential authorize_by_candidate
  authorize_by_credential-names l creds ids = ground arith

  authorize_loan_alias_row-bound :
      (l : KeyLoan) (creds : List Credential)
      → (not (is_active l.status) || is_direct l.delivery_mode) ≡ false
      → l.is_pool ≡ false
      → authorize_loan_alias_row decrypt candidates encryption_key l creds
        ≡ authorize_by_credential decrypt candidates encryption_key l creds
            (if l.lends_auto then or_else (candidates l) [] else [])
  unfolding authorize_loan_alias_row
  authorize_loan_alias_row-bound l creds granted bound = ground arith

  module _ (keys : List ProxyKey) (ledger : Ledger) (now : ℕ) where
    pub authorize_loan_alias_row-IsBacked :
        (p : KeyLoan → Bool) (l : KeyLoan)
        → first p ledger.loans ≡ some l
        → is_ok
            (authorize_loan_alias_row decrypt candidates encryption_key l ledger.credentials).status
          ≡ true
        → is_backed keys ledger.loans now
            (authorize_loan_alias_row decrypt candidates encryption_key l ledger.credentials)
          ≡ true
    unfolding authorize_loan_alias_row
    authorize_loan_alias_row-IsBacked p l found e =
        let ids = if l.lends_auto then or_else (candidates l) [] else [] in
        let (keyless, lent, by_alias) = authorize_by_credential-names l ledger.credentials ids in
        let listed = λ (q : KeyLoan → Bool). any-first p q ledger.loans l found in
        elim (Bool-cases (not (is_active l.status) || is_direct l.delivery_mode)) [
          | inl refused ↦ ground (arith, rw (refused, authorize_loan_alias_row) at e)
          | inr granted ↦ elim (Bool-cases l.is_pool) [
            | inl pooled ↦
                rw (granted, pooled) (listed (is_live_loan (some loan_pool) l.id) (ground arith))
            | inr bound ↦ rw (authorize_loan_alias_row-bound l ledger.credentials granted bound) (
                rw (keyless, lent, by_alias)
                  (listed (is_live_loan (some loan_alias) l.id) (ground arith)))
          ]
        ]

    pub authorize_proxy_key_row-IsBacked :
        (k : ProxyKey)
        → any (λ j. is_live_key now k.id j) keys ≡ true
        → is_backed keys ledger.loans now (authorize_proxy_key_row k now) ≡ true
    authorize_proxy_key_row-IsBacked k listed =
        rw
          ((authorize_proxy_key_row-names k now).0, (authorize_proxy_key_row-names k now).1, listed)
          refl

    pub authorize_loan_passthrough-IsBacked :
        (h : ℕ)
        → is_ok (authorize_loan_passthrough h ledger).status ≡ true
        → is_backed keys ledger.loans now (authorize_loan_passthrough h ledger) ≡ true
    unfolding authorize_loan_passthrough
    authorize_loan_passthrough-IsBacked h e =
        let is_cred = λ (c : Credential). is_hash c.key_hash h && c.is_active && c.is_loan_key in
        elim (Option-cases (first is_cred ledger.credentials)) [
          | inl missing ↦ ground (arith, rw (missing, authorize_loan_passthrough) at e)
          | inr (c, found) ↦
              let is_lent = λ (l : KeyLoan). l.credential_id == c.id && is_active l.status in
              elim (Option-cases (first is_lent ledger.loans)) [
                | inl ended ↦ ground (arith, rw (found, ended, authorize_loan_passthrough) at e)
                | inr (l, lent) ↦ elim (Bool-cases (is_direct l.delivery_mode)) [
                  | inr by_alias ↦
                      ground (arith, rw (found, lent, by_alias, authorize_loan_passthrough) at e)
                  | inl direct ↦
                      let live = first-holds is_lent ledger.loans l lent in
                      rw (found, lent, direct, authorize_loan_passthrough)
                        (any-first is_lent (is_live_loan (some loan_passthrough) l.id) ledger.loans
                          l lent (ground (arith, live, direct)))
                ]
              ]
        ]
