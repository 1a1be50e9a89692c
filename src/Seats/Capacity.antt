-- ===== src/Seats/Capacity.antt =====
-- The limit on how many holders share an account.
use cursor_pulse.Base.{
  ℕ, ◌≤◌, ◌≡◌, ◌≢◌, Bool, true, false, not, ◌||◌, List, [], ◌∷◌, some, arith, Bool-cases,
  Option-cases, inl, inr, if◌then◌else◌, All, max,
}
use cursor_pulse.Base.Dict.{pair_eq}
use cursor_pulse.Seats.Book.{Seats, Book, on_account, expire}
use cursor_pulse.Seats.Choice.{
  Request, accounts, account_of, holder_on, full, occupy, occupied_seat, drop_account, first_free,
  current_fits, occupy_all, choose_limited, choose_seats, choose, stays, held,
}
use cursor_pulse.Seats.Counting.{
  on_account-insert, on_account-others, on_account-erase-le, on_account-keep-le,
  on_account-expire-le,
}

module _ (q : Request) (now : ℕ) where
  -- The ranking names the account that each credential has in `account_by_credential`, if it has one.
  abbrev pub Agrees : Type 0
  Agrees = All (λ p. account_of (accounts q now) p.0 ≡ p.1) q.ranked

  abbrev has_room : Seats → ℕ → Bool
  has_room seats account = not (full q now seats account) || holder_on q now seats account

  occupy_room :
      (b : ℕ) (seats : Seats) (credential : ℕ)
      → q.max_concurrent ≢ 0
      → has_room seats (account_of (accounts q now) credential) ≡ true
      → on_account b (occupy q now seats credential) ≤ max (on_account b seats) q.max_concurrent
  unfolding occupy full
  occupy_room b seats credential limited room =
      let account = account_of (accounts q now) credential in
      ground (
        arith,
        on_account-insert b q.holder_id account (occupied_seat q now seats credential account)
            seats,
        on_account-others q.holder_id account seats,
      )

  first_free_room :
      (seats : Seats) (released : ℕ) (ranked : List (ℕ × ℕ)) (credential : ℕ)
      → All (λ p. account_of (accounts q now) p.0 ≡ p.1) ranked
      → first_free q now seats released ranked ≡ some credential
      → has_room seats (account_of (accounts q now) credential) ≡ true
  unfolding first_free
  first_free_room seats released [] credential agrees e = cc
  first_free_room seats released ((c, a) ∷ ranked) credential agrees e =
      ground (arith, first_free_room seats released ranked credential agrees.1)

  current_fits_room :
      (seats : Seats) (current : ℕ)
      → current_fits q now seats current ≡ true
      → has_room seats (account_of (accounts q now) current) ≡ true
  unfolding current_fits
  current_fits_room seats current fits = ground arith

  choose_limited_room :
      (b : ℕ) (seats : Seats) (current released : ℕ)
      → q.max_concurrent ≢ 0
      → Agrees
      → on_account b (choose_limited q now seats current released).1
        ≤ max (on_account b seats) q.max_concurrent
  unfolding choose_limited
  choose_limited_room b seats current released limited agrees =
      elim (Bool-cases (current_fits q now seats current)) [
        | inl fits ↦
            rw fits (occupy_room b seats current limited (current_fits_room seats current fits))
        | inr moves ↦ elim (Option-cases (first_free q now seats released q.ranked)) [
          | inl nothing ↦ rw (moves, choose_limited, nothing) (omega arith)
          | inr (c, found) ↦
              rw (moves, choose_limited, found)
                (occupy_room b seats c limited
                  (first_free_room seats released q.ranked c agrees found))
        ]
      ]

  drop_account-le :
      (b : ℕ) (seats : Seats) (credential : ℕ)
      → on_account b (drop_account q now seats credential) ≤ on_account b seats
  unfolding drop_account
  drop_account-le b seats credential = ground (
    arith,
    on_account-keep-le b (stays q now credential) seats,
    on_account-erase-le b (q.holder_id, account_of (accounts q now) credential) seats,
  )

-- Where the ranking names for each credential the account that `account_by_credential` has for it: after
-- `choose` with a limit, for a holder that is not pinned and holds no other credential, there are on
-- every account at most as many seats as before or as the limit allows, whichever is more.
pub choose_capacity :
    (book : Book) (q : Request) (now : ℕ)
    → q.pinned ≡ false
    → q.max_concurrent ≢ 0
    → q.held_credential_ids ≡ []
    → Agrees q now
    → (b : ℕ)
    → on_account b (choose book q now).1.seats ≤ max (on_account b book.seats) q.max_concurrent
unfolding choose choose_seats held occupy_all
choose_capacity book q now loose limited alone agrees b =
    let expired = (expire book now q.ttl_seconds).seats in
    let released = if q.release_current then q.current_credential_id else 0 in
    let dropped = drop_account q now expired released in
    ground (
      arith,
      on_account-expire-le b book now q.ttl_seconds,
      drop_account-le q now b expired released,
      choose_limited_room q now b dropped 0 released limited agrees,
      choose_limited_room q now b expired q.current_credential_id released limited agrees,
    )
