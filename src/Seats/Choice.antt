-- ===== src/Seats/Choice.antt =====
-- `OccupancyBook.choose`: which credential a holder works on, and the seat that it takes.
use cursor_pulse.Base.{
  ℕ, ◌+◌, Bool, false, not, ◌&&◌, ◌||◌, List, [], ◌∷◌, ◌++◌, map, Option, none, some, leb, ◌==◌,
  if◌then◌else◌, or_else, is_some, keep, elem,
}
use cursor_pulse.Base.Dict.{Dict, lookup, insert, erase, nat_eq, pair_eq}
use cursor_pulse.Seats.Book.{Seat, Seats, Book, expire}

pub record SeatChoice : Type 0 where
  pub assigned_credential_id : Option ℕ
  pub blocked_credential_ids : List ℕ

-- The arguments of `choose`; `ranked` pairs a credential with its account.
pub record Request : Type 0 where
  pub holder_id : ℕ
  pub ranked : List (ℕ × ℕ)
  pub account_by_credential : Dict ℕ ℕ
  pub current_credential_id : ℕ
  pub release_current : Bool
  pub pinned : Bool
  pub pinned_credential_id : ℕ
  pub max_concurrent : ℕ
  pub ttl_seconds : ℕ
  pub held_credential_ids : List ℕ

-- `accounts.setdefault(cred, account_id)` over the ranking.
unfoldable pub set_defaults : List (ℕ × ℕ) → Dict ℕ ℕ → Dict ℕ ℕ
set_defaults [] accounts = accounts
set_defaults ((credential, account) ∷ ranked) accounts =
    set_defaults ranked (
      if is_some (lookup credential accounts) then accounts else insert credential account accounts)

-- `accounts.get(cred)`, 0 if there is none.
abbrev pub account_of : Dict ℕ ℕ → ℕ → ℕ
account_of accounts credential = or_else (lookup credential accounts) 0

-- Seats on the account of other holders.
unfoldable pub others_on : ℕ → ℕ → Seats → ℕ
others_on holder account [] = 0
others_on holder account ((k, s) ∷ seats) =
    (if k.0 == holder then 0 else if k.1 == account then 1 else 0) + others_on holder account seats

abbrev pub truthy : ℕ → Option ℕ
truthy id = if id == 0 then none else some id

module _ (q : Request) (now : ℕ) where
  unfoldable pub accounts : Dict ℕ ℕ
  accounts = set_defaults q.ranked q.account_by_credential

  unfoldable pub held : List ℕ
  held = keep (λ c. not (c == 0)) q.held_credential_ids

  unfoldable pub held_accounts : List ℕ
  held_accounts = keep (λ a. not (a == 0)) (map (account_of accounts) held)

  abbrev pub holder_on : Seats → ℕ → Bool
  holder_on seats account = is_some (lookup (q.holder_id, account) seats)

  unfoldable pub full : Seats → ℕ → Bool
  full seats account =
      if q.max_concurrent == 0 || account == 0
      then false
      else leb q.max_concurrent (others_on q.holder_id account seats)

  -- One of the two loops of `blocked_ids`.
  unfoldable pub blocked_loop : Seats → List (ℕ × ℕ) → List ℕ → List ℕ
  blocked_loop seats [] out = out
  blocked_loop seats ((credential, account) ∷ rest) out = blocked_loop seats rest (
      if elem credential out
      then out
      else if full seats account && not (holder_on seats account)
      then out ++ credential ∷ []
      else out)

  unfoldable pub blocked_ids : Seats → List ℕ
  blocked_ids seats =
      if q.max_concurrent == 0
      then []
      else blocked_loop seats accounts (blocked_loop seats q.ranked [])

  unfoldable pub occupied_seat : Seats → ℕ → ℕ → Seat
  occupied_seat seats credential account = elim (lookup (q.holder_id, account) seats) [
    | none ↦ record {
      holder_id = q.holder_id;
      account_id = account;
      credential_id = credential;
      seen_at = now;
      inflight = [];
      hold_until = 0;
      hold_seconds = 0;
    }
    | some prev ↦ record {
      holder_id = q.holder_id;
      account_id = account;
      credential_id = credential;
      seen_at = now;
      inflight = prev.inflight;
      hold_until = prev.hold_until;
      hold_seconds = prev.hold_seconds;
    }
  ]

  unfoldable pub occupy : Seats → ℕ → Seats
  occupy seats credential =
      let account = account_of accounts credential in
      if account == 0
      then seats
      else insert (q.holder_id, account) (occupied_seat seats credential account) seats

  unfoldable pub occupy_all : Seats → List ℕ → Seats
  occupy_all seats [] = seats
  occupy_all seats (credential ∷ credentials) = occupy_all (occupy seats credential) credentials

  -- The seats that stay when a credential of no known account is dropped.
  abbrev pub stays : ℕ → (ℕ × ℕ) × Seat → Bool
  stays credential (k, seat) =
      not (k.0 == q.holder_id && seat.credential_id == credential && not (elem k.1 held_accounts))

  unfoldable pub drop_account : Seats → ℕ → Seats
  drop_account seats credential =
      let account = account_of accounts credential in
      if account == 0
      then keep (stays credential) seats
      else if elem account held_accounts
      then seats
      else erase (q.holder_id, account) seats

  -- The choice without a limit.
  unfoldable pub first_other : ℕ → List (ℕ × ℕ) → ℕ
  first_other released [] = 0
  first_other released ((credential, account) ∷ ranked) =
      if credential == released then first_other released ranked else credential

  -- The first of the ranking that has room, other than the released one.
  unfoldable pub first_free : Seats → ℕ → List (ℕ × ℕ) → Option ℕ
  first_free seats released [] = none
  first_free seats released ((credential, account) ∷ ranked) =
      let rest = first_free seats released ranked in
      if q.release_current && credential == released
      then rest
      else if not (full seats account) || holder_on seats account
      then some credential
      else rest

  -- The test for staying on the current credential.
  unfoldable pub current_fits : Seats → ℕ → Bool
  current_fits seats current =
      let account = account_of accounts current in
      not (current == 0)
      && not (account == 0)
      && (not (full seats account) || holder_on seats account)

  unfoldable pub choose_limited : Seats → ℕ → ℕ → SeatChoice × Seats
  choose_limited seats current released =
      if current_fits seats current
      then (let seats' = occupy seats current in
          (
            record {
              assigned_credential_id = some current;
              blocked_credential_ids = blocked_ids seats';
            },
            seats',
          ))
      else elim (first_free seats released q.ranked) [
        | some credential ↦
            let seats' = occupy seats credential in
            (
              record {
                assigned_credential_id = some credential;
                blocked_credential_ids = blocked_ids seats';
              },
              seats',
            )
        | none ↦ (
          record { assigned_credential_id = none; blocked_credential_ids = blocked_ids seats },
          seats,
        )
      ]

  unfoldable pub choose_unlimited : Seats → ℕ → ℕ → SeatChoice × Seats
  choose_unlimited seats current released =
      let kept =
        if not (current == 0) && not (account_of accounts current == 0)
        then current
        else first_other released q.ranked in
      (
        record { assigned_credential_id = truthy kept; blocked_credential_ids = [] },
        (if kept == 0 then seats else occupy seats kept),
      )

  unfoldable pub choose_pinned : Seats → ℕ → SeatChoice × Seats
  choose_pinned seats current =
      let credential = if q.pinned_credential_id == 0 then current else q.pinned_credential_id in
      let seats' = if credential == 0 then seats else occupy seats credential in
      (
        record {
          assigned_credential_id = truthy credential;
          blocked_credential_ids = blocked_ids seats';
        },
        seats',
      )

  -- From the expired seats on.
  unfoldable pub choose_seats : Seats → SeatChoice × Seats
  choose_seats expired =
      let seats = occupy_all expired held in
      let current = q.current_credential_id in
      let released = if q.release_current then current else 0 in
      let dropping = not (released == 0) in
      let seats' = if dropping then drop_account seats released else seats in
      let current' = if dropping then 0 else current in
      if q.pinned
      then choose_pinned seats current
      else if q.max_concurrent == 0
      then choose_unlimited seats' current' released
      else choose_limited seats' current' released

unfoldable pub choose : Book → Request → ℕ → SeatChoice × Book
choose book q now =
    let expired = expire book now q.ttl_seconds in
    let (choice, seats) = choose_seats q now expired.seats in
    (choice, record expired { seats = seats })
