-- ===== src/Limits/Login.antt =====
-- `check_login_allowed` and `record_login_attempt`. A key is (0, user) for a normalised user name
-- and (1, ip) for an address; ip 0 stands for none.
use cursor_pulse.Base.{
  ℕ, ◌+◌, ◌*◌, ◌≤◌, ◌<◌, ◌≡◌, refl, ap, ◌∙◌, Bool, true, false, List, [], ◌∷◌, ◌++◌, arith,
  Bool-cases, inl, inr, ltb, leb, ◌==◌, if◌then◌else◌, or_else, length, length-append, keep,
  keep-append, any,
}
use cursor_pulse.Base.Dict.{Dict, lookup, insert, pair_eq, pair_beq, pair_beq_iff, lookup-insert}

abbrev pub Attempts : Type 0
Attempts = Dict (ℕ × ℕ) (List ℕ)

abbrev pub window_sec : ℕ
window_sec = 300 * 1_000_000

abbrev pub max_attempts : ℕ
max_attempts = 20

pub login_keys : ℕ → ℕ → List (ℕ × ℕ)
login_keys ip user = (0, user) ∷ (if ip == 0 then [] else (1, ip) ∷ [])

-- `[t for t in _ATTEMPTS.get(key, []) if now - t < _WINDOW_SEC]`
abbrev pub stamps : Attempts → ℕ → ℕ × ℕ → List ℕ
stamps attempts now key = keep (λ t. ltb now (t + window_sec)) (or_else (lookup key attempts) [])

-- The loop of the check; `true` stands for the error message.
check_keys : Attempts → ℕ → List (ℕ × ℕ) → Bool × Attempts
check_keys attempts now [] = (false, attempts)
check_keys attempts now (key ∷ keys) =
    let recent = stamps attempts now key in
    let attempts' = insert key recent attempts in
    let rest = check_keys attempts' now keys in
    if leb max_attempts (length recent) then (true, attempts') else rest

pub check_login_allowed : Attempts → ℕ → ℕ → ℕ → Bool × Attempts
check_login_allowed attempts ip user now = check_keys attempts now (login_keys ip user)

record_keys : Attempts → ℕ → List (ℕ × ℕ) → Attempts
record_keys attempts now [] = attempts
record_keys attempts now (key ∷ keys) =
    record_keys (insert key (stamps attempts now key ++ now ∷ []) attempts) now keys

pub record_login_attempt : Attempts → ℕ → ℕ → ℕ → Attempts
record_login_attempt attempts ip user now = record_keys attempts now (login_keys ip user)

-- How many attempts of a key count at a moment.
abbrev pub counted : Attempts → ℕ → ℕ × ℕ → ℕ
counted attempts now key = length (stamps attempts now key)

counted-insert :
    (attempts : Attempts) (now later : ℕ) (key j : ℕ × ℕ) (ts : List ℕ)
    → counted (insert key ts attempts) later j ≡ (
        if pair_beq j key
        then length (keep (λ t. ltb later (t + window_sec)) ts)
        else counted attempts later j)
counted-insert attempts now later key j ts = ground (arith, lookup-insert key j ts attempts)

keep_twice :
    (now later : ℕ) (ts : List ℕ)
    → now ≤ later
    → length (keep (λ t. ltb later (t + window_sec)) (keep (λ t. ltb now (t + window_sec)) ts))
      ≡ length (keep (λ t. ltb later (t + window_sec)) ts)
keep_twice now later [] le = refl
keep_twice now later (t ∷ ts) le = ground (arith, keep_twice now later ts le)

-- Forgetting the stamps of a key that are old at `now` changes no later count.
counted-refresh :
    (attempts : Attempts) (now later : ℕ) (key j : ℕ × ℕ)
    → now ≤ later
    → counted (insert key (stamps attempts now key) attempts) later j ≡ counted attempts later j
counted-refresh attempts now later key j le = ground (
  arith,
  counted-insert attempts now later key j (stamps attempts now key),
  keep_twice now later (or_else (lookup key attempts) []) le,
  ap (λ (k : ℕ × ℕ). counted attempts later k),
)

check_keys_exact :
    (attempts : Attempts) (now : ℕ) (keys : List (ℕ × ℕ))
    → ((check_keys attempts now keys).0 ≡ any (λ k. leb max_attempts (counted attempts now k)) keys)
      × ((later : ℕ) (j : ℕ × ℕ)
          → now ≤ later
          → counted (check_keys attempts now keys).1 later j ≡ counted attempts later j)
unfolding check_keys
check_keys_exact attempts now [] = (refl, λ later j le. refl)
check_keys_exact attempts now (key ∷ keys) =
    let attempts' = insert key (stamps attempts now key) attempts in
    let (answer, left) = check_keys_exact attempts' now keys in
    let same : (k : ℕ × ℕ) → counted attempts' now k ≡ counted attempts now k =
      λ k. counted-refresh attempts now now key k (omega arith) in
    let tests : any (λ k. leb max_attempts (counted attempts' now k)) keys
        ≡ any (λ k. leb max_attempts (counted attempts now k)) keys =
      λ i. any (λ k. leb max_attempts (same k i)) keys in
    elim (Bool-cases (leb max_attempts (counted attempts now key))) [
      | inl over ↦ rw over (refl, λ later j le. counted-refresh attempts now later key j le)
      | inr under ↦ rw under (
        answer ∙ tests,
        λ later j le. left later j le ∙ counted-refresh attempts now later key j le,
      )
    ]

record_key :
    (attempts : Attempts) (now later : ℕ) (key j : ℕ × ℕ)
    → now ≤ later
    → later < now + window_sec
    → counted (insert key (stamps attempts now key ++ now ∷ []) attempts) later j
      ≡ counted attempts later j + (if pair_beq j key then 1 else 0)
record_key attempts now later key j le lt =
    let old = stamps attempts now key in
    ground (
      arith,
      counted-insert attempts now later key j (old ++ now ∷ []),
      ap length (keep-append (λ t. ltb later (t + window_sec)) old (now ∷ [])),
      length-append (keep (λ t. ltb later (t + window_sec)) old)
          (keep (λ t. ltb later (t + window_sec)) (now ∷ [])),
      keep_twice now later (or_else (lookup key attempts) []) le,
      pair_beq_iff j key,
      ap (λ (k : ℕ × ℕ). counted attempts later k),
    )

-- The check refuses a login exactly when the user, or the address if one is given, has twenty or more
-- attempts within the last five minutes; and it changes the number of attempts that count, for no key
-- and at no later moment.
pub check_login_allowed_exact :
    (attempts : Attempts) (ip user now : ℕ)
    → ((check_login_allowed attempts ip user now).0
        ≡ any (λ k. leb 20 (counted attempts now k)) (login_keys ip user))
      × ((later : ℕ) (j : ℕ × ℕ)
          → now ≤ later
          → counted (check_login_allowed attempts ip user now).1 later j ≡ counted attempts later j)
unfolding check_login_allowed
check_login_allowed_exact attempts ip user now = check_keys_exact attempts now (login_keys ip user)

-- For five minutes, a recorded attempt counts once more for its user, and once for its address if one
-- is given, and for no other key.
pub record_login_attempt_counts :
    (attempts : Attempts) (ip user now later : ℕ) (j : ℕ × ℕ)
    → now ≤ later
    → later < now + 300 * 1_000_000
    → counted (record_login_attempt attempts ip user now) later j
      ≡ counted attempts later j + (if any (pair_beq j) (login_keys ip user) then 1 else 0)
unfolding record_login_attempt record_keys login_keys
record_login_attempt_counts attempts ip user now later j le lt =
    let first = insert (0, user) (stamps attempts now (0, user) ++ now ∷ []) attempts in
    ground (
      arith,
      record_key attempts now later (0, user) j le lt,
      record_key first now later (1, ip) j le lt,
    )
