-- ===== src/Seats/Calls.antt =====
-- Calls on a seat: `begin_call`, `end_call`, `release_idle` and `hold`.
use cursor_pulse.Base.{
  ℕ, ◌+◌, ◌-◌, Bool, not, ◌||◌, none, some, ltb, leb, ◌==◌, if◌then◌else◌, or_else, max,
}
use cursor_pulse.Base.Dict.{Dict, lookup, insert, erase, nat_eq, pair_eq}
use cursor_pulse.Seats.Book.{Seat, Seats, Book, has_calls, new_seat, note_boot}

unfoldable pub seat_or_new : Seats → ℕ → ℕ → ℕ → ℕ → Seat
seat_or_new seats holder account credential now =
    or_else (lookup (holder, account) seats) (new_seat holder account credential now)

-- `boot` may be the empty text, which counts its calls and is no process.
unfoldable pub begin_call : Book → ℕ → ℕ → ℕ → ℕ → ℕ → ℕ → Book
unfolding seat_or_new
begin_call book holder account credential boot hold_seconds now =
    let noted = note_boot book boot now in
    let seat = seat_or_new noted.seats holder account credential now in
    let begun = record seat {
      credential_id = credential;
      seen_at = now;
      hold_seconds = max seat.hold_seconds hold_seconds;
      inflight = insert boot (or_else (lookup boot seat.inflight) 0 + 1) seat.inflight;
    } in
    if account == 0
    then book
    else record noted { seats = insert (holder, account) begun noted.seats }

-- One call less; `left` is negative or 0 for a process without calls.
unfoldable pub drop_call : ℕ → Dict ℕ ℕ → Dict ℕ ℕ
drop_call boot inflight =
    let calls = or_else (lookup boot inflight) 0 in
    if ltb 1 calls then insert boot (calls - 1) inflight else erase boot inflight

unfoldable pub end_seat : Seat → ℕ → ℕ → ℕ → Seat
end_seat seat boot hold_seconds now = record seat {
  inflight = drop_call boot seat.inflight;
  seen_at = now;
  hold_until = max seat.hold_until (now + max hold_seconds 0);
}

unfoldable pub end_call : Book → ℕ → ℕ → ℕ → ℕ → ℕ → Bool → ℕ → Book
unfolding end_seat
end_call book holder account credential hold_seconds boot recreate now =
    let noted = note_boot book boot now in
    if account == 0 then book else elim (lookup (holder, account) noted.seats) [
      | some seat ↦ record noted {
        seats = insert (holder, account) (end_seat seat boot hold_seconds now) noted.seats;
      }
      | none ↦ if not recreate then noted else record noted {
        seats =
            insert (holder, account)
              (end_seat (new_seat holder account credential now) boot hold_seconds now) noted.seats;
      }
    ]

unfoldable pub release_idle : Book → ℕ → ℕ → Book
release_idle book holder account = elim (lookup (holder, account) book.seats) [
  | none ↦ book
  | some seat ↦
      if has_calls seat.inflight
      then book
      else record book { seats = erase (holder, account) book.seats }
]

unfoldable pub hold : Book → ℕ → ℕ → ℕ → ℕ → ℕ → Book
unfolding seat_or_new
hold book holder account credential hold_until now =
    let seat = seat_or_new book.seats holder account credential now in
    let held = record seat { hold_until = max seat.hold_until hold_until } in
    if account == 0 || leb hold_until now
    then book
    else record book { seats = insert (holder, account) held book.seats }
