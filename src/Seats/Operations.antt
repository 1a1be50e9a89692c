-- ===== src/Seats/Operations.antt =====
-- Every operation of the book keeps it well formed.
use cursor_pulse.Base.{
  ℕ, ◌-◌, ◌≡◌, refl, Bool, not, ◌&&◌, ◌||◌, List, [], ◌∷◌, arith, Bool-cases, Option-cases, inl,
  inr, ◌==◌, if◌then◌else◌, if_both, All, or_else, leb, elem,
}
use cursor_pulse.Base.Dict.{
  Dict, lookup, nat_eq, pair_eq, Distinct, insert-Distinct, erase-Distinct,
}
use cursor_pulse.Seats.Book.{Seats, Book, empty_book, note_boot, new_seat, expire, has_calls}
use cursor_pulse.Seats.Calls.{
  seat_or_new, begin_call, end_call, end_seat, drop_call, release_idle, hold,
}
use cursor_pulse.Seats.Choice.{
  Request, SeatChoice, occupy, occupied_seat, occupy_all, drop_account, stays, accounts, account_of,
  held, held_accounts, first_free, current_fits, first_other, choose_limited, choose_unlimited,
  choose_pinned, choose_seats, choose,
}
use cursor_pulse.Seats.Keyed.{
  IsFiled, IsWell, insert-IsWell, erase-IsWell, keep-IsWell, found-IsFiled, expire-IsWell,
}

note_boot_seats : (book : Book) (boot now : ℕ) → (note_boot book boot now).seats ≡ book.seats
unfolding note_boot
note_boot_seats book boot now = ground arith

seat_or_new-IsFiled :
    (seats : Seats) (h a c now : ℕ) → IsWell seats → IsFiled (h, a) (seat_or_new seats h a c now)
unfolding seat_or_new new_seat
seat_or_new-IsFiled seats h a c now v = elim (Option-cases (lookup (h, a) seats)) [
  | inl fresh ↦ rw fresh (refl, refl, tt)
  | inr (s, found) ↦ rw found (found-IsFiled (h, a) s seats v found)
]

begin_call-IsWell :
    (book : Book) (h a c boot hs now : ℕ)
    → IsWell book.seats
    → IsWell (begin_call book h a c boot hs now).seats
unfolding begin_call
begin_call-IsWell book h a c boot hs now v = elim (Bool-cases (a == 0)) [
  | inl absent ↦ rw absent v
  | inr present ↦
      let w : IsWell (note_boot book boot now).seats = rw (note_boot_seats book boot now) v in
      let f = seat_or_new-IsFiled (note_boot book boot now).seats h a c now w in
      rw present (
        insert-IsWell (h, a) _ (note_boot book boot now).seats
          (f.0, f.1, insert-Distinct boot _ _ f.2) w)
]

drop_call-Distinct : (boot : ℕ) (d : Dict ℕ ℕ) → Distinct d → Distinct (drop_call boot d)
unfolding drop_call
drop_call-Distinct boot d u =
    ground
      (arith, insert-Distinct boot (or_else (lookup boot d) 0 - 1) d u, erase-Distinct boot d u)

end_call-IsWell :
    (book : Book) (h a c hs boot : ℕ) (recreate : Bool) (now : ℕ)
    → IsWell book.seats
    → IsWell (end_call book h a c hs boot recreate now).seats
unfolding end_call end_seat new_seat
end_call-IsWell book h a c hs boot recreate now v = elim (Bool-cases (a == 0)) [
  | inl absent ↦ rw absent v
  | inr present ↦
      let seats = (note_boot book boot now).seats in
      let w : IsWell seats = rw (note_boot_seats book boot now) v in
      elim (Option-cases (lookup (h, a) seats)) [
        | inr (s, found) ↦
            let f = found-IsFiled (h, a) s seats w found in
            rw (present, found)
              (insert-IsWell (h, a) _ seats (f.0, f.1, drop_call-Distinct boot s.inflight f.2) w)
        | inl gone ↦ elim (Bool-cases recreate) [
          | inl again ↦
              rw (present, gone, again)
                (insert-IsWell (h, a) _ seats (refl, refl, drop_call-Distinct boot [] tt) w)
          | inr quiet ↦ rw (present, gone, quiet) w
        ]
      ]
]

release_idle-IsWell :
    (book : Book) (h a : ℕ) → IsWell book.seats → IsWell (release_idle book h a).seats
unfolding release_idle
release_idle-IsWell book h a v = elim (Option-cases (lookup (h, a) book.seats)) [
  | inl gone ↦ rw (gone, release_idle) v
  | inr (s, found) ↦ elim (Bool-cases (has_calls s.inflight)) [
    | inl busy ↦ rw (found, release_idle, busy) v
    | inr idle ↦ rw (found, release_idle, idle) (erase-IsWell (h, a) book.seats v)
  ]
]

hold-IsWell :
    (book : Book) (h a c until now : ℕ)
    → IsWell book.seats
    → IsWell (hold book h a c until now).seats
unfolding hold
hold-IsWell book h a c until now v = elim (Bool-cases (a == 0 || leb until now)) [
  | inl skip ↦ rw skip v
  | inr go ↦
      rw go (insert-IsWell (h, a) _ book.seats (seat_or_new-IsFiled book.seats h a c now v) v)
]

module _ (q : Request) (now : ℕ) where
  occupied_seat-IsFiled :
      (seats : Seats) (c a : ℕ)
      → IsWell seats
      → IsFiled (q.holder_id, a) (occupied_seat q now seats c a)
  unfolding occupied_seat
  occupied_seat-IsFiled seats c a v = elim (Option-cases (lookup (q.holder_id, a) seats)) [
    | inl fresh ↦ rw (fresh, occupied_seat) (refl, refl, tt)
    | inr (s, found) ↦
        rw (found, occupied_seat) (refl, refl, (found-IsFiled (q.holder_id, a) s seats v found).2)
  ]

  occupy-IsWell : (seats : Seats) (c : ℕ) → IsWell seats → IsWell (occupy q now seats c)
  unfolding occupy
  occupy-IsWell seats c v =
      let account = account_of (accounts q now) c in
      elim (Bool-cases (account == 0)) [
        | inl unknown ↦ rw unknown v
        | inr known ↦ rw known (
            insert-IsWell (q.holder_id, account) _ seats (occupied_seat-IsFiled seats c account v)
              v)
      ]

  occupy_all-IsWell :
      (seats : Seats) (cs : List ℕ) → IsWell seats → IsWell (occupy_all q now seats cs)
  unfolding occupy_all
  occupy_all-IsWell seats [] v = v
  occupy_all-IsWell seats (c ∷ cs) v =
      occupy_all-IsWell (occupy q now seats c) cs (occupy-IsWell seats c v)

  drop_account-IsWell : (seats : Seats) (c : ℕ) → IsWell seats → IsWell (drop_account q now seats c)
  unfolding drop_account
  drop_account-IsWell seats c v =
      let account = account_of (accounts q now) c in
      elim (Bool-cases (account == 0)) [
        | inl unknown ↦ rw unknown (keep-IsWell (stays q now c) seats v)
        | inr known ↦ elim (Bool-cases (elem account (held_accounts q now))) [
          | inl mine ↦ rw (known, mine) v
          | inr free ↦ rw (known, free) (erase-IsWell (q.holder_id, account) seats v)
        ]
      ]

  choose_limited-IsWell :
      (seats : Seats) (current released : ℕ)
      → IsWell seats
      → IsWell (choose_limited q now seats current released).1
  unfolding choose_limited
  choose_limited-IsWell seats current released v =
      elim (Bool-cases (current_fits q now seats current)) [
        | inl fits ↦ rw fits (occupy-IsWell seats current v)
        | inr moves ↦ elim (Option-cases (first_free q now seats released q.ranked)) [
          | inl nothing ↦ rw (moves, choose_limited, nothing) v
          | inr (c, found) ↦ rw (moves, choose_limited, found) (occupy-IsWell seats c v)
        ]
      ]

  choose_unlimited-IsWell :
      (seats : Seats) (current released : ℕ)
      → IsWell seats
      → IsWell (choose_unlimited q now seats current released).1
  unfolding choose_unlimited
  choose_unlimited-IsWell seats current released v =
      let kept =
        if not (current == 0) && not (account_of (accounts q now) current == 0)
        then current
        else first_other q now released q.ranked in
      elim (Bool-cases (kept == 0)) [
        | inl nothing ↦ rw nothing v
        | inr something ↦ rw something (occupy-IsWell seats kept v)
      ]

  choose_pinned-IsWell :
      (seats : Seats) (current : ℕ) → IsWell seats → IsWell (choose_pinned q now seats current).1
  unfolding choose_pinned
  choose_pinned-IsWell seats current v =
      let c = if q.pinned_credential_id == 0 then current else q.pinned_credential_id in
      elim (Bool-cases (c == 0)) [
        | inl nothing ↦ rw nothing v
        | inr something ↦ rw something (occupy-IsWell seats c v)
      ]

  choose_seats-IsWell : (seats : Seats) → IsWell seats → IsWell (choose_seats q now seats).1
  unfolding choose_seats
  choose_seats-IsWell expired v =
      let seats = occupy_all q now expired (held q now) in
      let w = occupy_all-IsWell expired (held q now) v in
      let current = q.current_credential_id in
      let released = if q.release_current then current else 0 in
      let dropping = not (released == 0) in
      let dropped = drop_account q now seats released in
      let seats' = if dropping then dropped else seats in
      let current' = if dropping then 0 else current in
      let w' = if_both IsWell dropping dropped seats (drop_account-IsWell seats released w) w in
      if_both {A = SeatChoice × Seats} (λ r. IsWell r.1) q.pinned _ _
        (choose_pinned-IsWell seats current w)
        (if_both {A = SeatChoice × Seats} (λ r. IsWell r.1) (q.max_concurrent == 0) _ _
          (choose_unlimited-IsWell seats' current' released w')
          (choose_limited-IsWell seats' current' released w'))

choose-IsWell :
    (book : Book) (q : Request) (now : ℕ) → IsWell book.seats → IsWell (choose book q now).1.seats
unfolding choose
choose-IsWell book q now v =
    choose_seats-IsWell q now (expire book now q.ttl_seconds).seats
      (expire-IsWell book now q.ttl_seconds v)

-- The calls on a book, with the time of each.
pub data Call : Type 0 where
  chooses : Request → Call
  begins : ℕ → ℕ → ℕ → ℕ → ℕ → Call
  ends : ℕ → ℕ → ℕ → ℕ → ℕ → Bool → Call
  releases : ℕ → ℕ → Call
  holds : ℕ → ℕ → ℕ → ℕ → Call
  notes : ℕ → Call
  counts : ℕ → Call

unfoldable pub step : Book → ℕ × Call → Book
step book (now, chooses q) = (choose book q now).1
step book (now, begins h a c boot hs) = begin_call book h a c boot hs now
step book (now, ends h a c hs boot recreate) = end_call book h a c hs boot recreate now
step book (now, releases h a) = release_idle book h a
step book (now, holds h a c until) = hold book h a c until now
step book (now, notes boot) = note_boot book boot now
step book (now, counts ttl) = expire book now ttl

unfoldable pub run : Book → List (ℕ × Call) → Book
run book [] = book
run book (c ∷ cs) = run (step book c) cs

step-IsWell : (book : Book) (c : ℕ × Call) → IsWell book.seats → IsWell (step book c).seats
unfolding step
step-IsWell book (now, chooses q) v = choose-IsWell book q now v
step-IsWell book (now, begins h a c boot hs) v = begin_call-IsWell book h a c boot hs now v
step-IsWell book (now, ends h a c hs boot recreate) v =
    end_call-IsWell book h a c hs boot recreate now v
step-IsWell book (now, releases h a) v = release_idle-IsWell book h a v
step-IsWell book (now, holds h a c until) v = hold-IsWell book h a c until now v
step-IsWell book (now, notes boot) v = rw (note_boot_seats book boot now) v
step-IsWell book (now, counts ttl) v = expire-IsWell book now ttl v

run_from-IsWell :
    (book : Book) (cs : List (ℕ × Call)) → IsWell book.seats → IsWell (run book cs).seats
unfolding run
run_from-IsWell book [] v = v
run_from-IsWell book (c ∷ cs) v = run_from-IsWell (step book c) cs (step-IsWell book c v)

-- After any sequence of calls on the empty book, a holder has at most one seat on an account, each
-- seat is filed under its own holder and account, and counts the calls of a process in one entry.
pub run-IsWell :
    (cs : List (ℕ × Call))
    → Distinct (run empty_book cs).seats × All (λ e. IsFiled e.0 e.1) (run empty_book cs).seats
unfolding empty_book
run-IsWell cs =
    let v = run_from-IsWell empty_book cs (record { distinct = tt; filed = tt }) in
    (v.distinct, v.filed)
