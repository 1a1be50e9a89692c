-- ===== src/Seats/Inflight.antt =====
-- The calls in progress on a seat.
use cursor_pulse.Base.{
  ℕ, ◌+◌, ◌-◌, ◌<◌, ◌≡◌, ◌≢◌, Bool, true, ◌&&◌, [], none, some, arith, Option-cases, inl, inr, ◌==◌,
  if◌then◌else◌, if_both, or_else, max,
}
use cursor_pulse.Base.Dict.{
  Dict, lookup, insert, nat_eq, pair_eq, Distinct, lookup-insert, lookup-erase_ne,
  lookup-erase_self, lookup-keep-some,
}
use cursor_pulse.Seats.Book.{
  Seat, Seats, Book, has_calls, new_seat, note_boot, alive, expire, dead_boots, reap_dead_boots,
  max_inflight_seconds,
}
use cursor_pulse.Seats.Calls.{seat_or_new, begin_call, end_call, end_seat, drop_call, release_idle}
use cursor_pulse.Seats.Keyed.{IsWell, found-IsFiled}

abbrev calls_in : Seats → ℕ → ℕ → ℕ → ℕ
calls_in seats holder account boot = elim (lookup (holder, account) seats) [
  | none ↦ 0
  | some s ↦ or_else (lookup boot s.inflight) 0
]

-- How many calls the book counts for a holder on an account in a process.
abbrev pub calls_on : Book → ℕ → ℕ → ℕ → ℕ
calls_on book = calls_in book.seats

calls_in-insert :
    (seats : Seats) (h a h' a' b' : ℕ) (s : Seat)
    → calls_in (insert (h, a) s seats) h' a' b'
      ≡ (if h' == h && a' == a then or_else (lookup b' s.inflight) 0 else calls_in seats h' a' b')
calls_in-insert seats h a h' a' b' s = ground (arith, lookup-insert (h, a) (h', a') s seats)

note_boot_seats : (book : Book) (boot now : ℕ) → (note_boot book boot now).seats ≡ book.seats
unfolding note_boot
note_boot_seats book boot now = ground arith

seat_or_new_calls :
    (seats : Seats) (h a c now b : ℕ)
    → or_else (lookup b (seat_or_new seats h a c now).inflight) 0 ≡ calls_in seats h a b
unfolding seat_or_new new_seat
seat_or_new_calls seats h a c now b = ground arith

lookup-drop_call :
    (boot j : ℕ) (d : Dict ℕ ℕ)
    → Distinct d
    → or_else (lookup j (drop_call boot d)) 0
      ≡ (if j == boot then or_else (lookup boot d) 0 - 1 else or_else (lookup j d) 0)
unfolding drop_call
lookup-drop_call boot j d u = ground (
  arith,
  lookup-insert boot j (or_else (lookup boot d) 0 - 1) d,
  lookup-erase_self boot d u,
  lookup-erase_ne boot j d,
)

-- A call that begins on an account is counted once, for its holder, account and process only.
pub begin_call_counts :
    (book : Book) (h a c boot hs now : ℕ)
    → a ≢ 0
    → (h' a' b' : ℕ)
    → calls_on (begin_call book h a c boot hs now) h' a' b' ≡ (
        if h' == h && a' == a && b' == boot
        then calls_on book h a boot + 1
        else calls_on book h' a' b')
unfolding begin_call
begin_call_counts book h a c boot hs now known h' a' b' =
    let seats = (note_boot book boot now).seats in
    let seat = seat_or_new seats h a c now in
    let calls = or_else (lookup boot seat.inflight) 0 + 1 in
    let begun = record seat {
      credential_id = c;
      seen_at = now;
      hold_seconds = max seat.hold_seconds hs;
      inflight = insert boot calls seat.inflight;
    } in
    ground (
      arith,
      note_boot_seats book boot now,
      calls_in-insert seats h a h' a' b' begun,
      lookup-insert boot b' calls seat.inflight,
      seat_or_new_calls seats h a c now b',
      seat_or_new_calls seats h a c now boot,
    )

end_seat_calls :
    (s : Seat) (boot hs now j : ℕ)
    → Distinct s.inflight
    → or_else (lookup j (end_seat s boot hs now).inflight) 0 ≡ (
        if j == boot
        then or_else (lookup boot s.inflight) 0 - 1
        else or_else (lookup j s.inflight) 0)
unfolding end_seat
end_seat_calls s boot hs now j u = lookup-drop_call boot j s.inflight u

end_fresh :
    (h a c boot hs now j : ℕ)
    → or_else (lookup j (end_seat (new_seat h a c now) boot hs now).inflight) 0 ≡ 0
unfolding end_seat new_seat drop_call
end_fresh h a c boot hs now j = ground arith

-- A call that ends takes one from the count of its holder, account and process, if there is one, and
-- from no other, also where the seat is gone or is made anew.
pub end_call_counts :
    (book : Book) (h a c hs boot : ℕ) (recreate : Bool) (now : ℕ)
    → IsWell book.seats
    → a ≢ 0
    → (h' a' b' : ℕ)
    → calls_on (end_call book h a c hs boot recreate now) h' a' b' ≡ (
        if h' == h && a' == a && b' == boot
        then calls_on book h a boot - 1
        else calls_on book h' a' b')
unfolding end_call
end_call_counts book h a c hs boot recreate now v known h' a' b' =
    let seats = (note_boot book boot now).seats in
    let w : IsWell seats = rw (note_boot_seats book boot now) v in
    let fresh = new_seat h a c now in
    elim (Option-cases (lookup (h, a) seats)) [
      | inr (s, found) ↦ ground (
        arith,
        found,
        note_boot_seats book boot now,
        calls_in-insert seats h a h' a' b' (end_seat s boot hs now),
        end_seat_calls s boot hs now b' (found-IsFiled (h, a) s seats w found).2,
      )
      | inl gone ↦ ground (
        arith,
        gone,
        note_boot_seats book boot now,
        calls_in-insert seats h a h' a' b' (end_seat fresh boot hs now),
        end_fresh h a c boot hs now b',
      )
    ]

-- When a call begins and ends, the counts of all calls in progress are as they were, whatever the
-- credentials, the hold times, and the moments of the two.
pub end_call-begin_call :
    (book : Book) (h a c c' boot hs hs' : ℕ) (recreate : Bool) (now later : ℕ)
    → IsWell (begin_call book h a c boot hs now).seats
    → a ≢ 0
    → (h' a' b' : ℕ)
    → calls_on
        (end_call (begin_call book h a c boot hs now) h a c' hs' boot recreate later)
        h'
        a'
        b'
      ≡ calls_on book h' a' b'
end_call-begin_call book h a c c' boot hs hs' recreate now later v known h' a' b' = ground (
  arith,
  end_call_counts (begin_call book h a c boot hs now) h a c' hs' boot recreate later v known h' a'
      b',
  begin_call_counts book h a c boot hs now known h' a' b',
  begin_call_counts book h a c boot hs now known h a boot,
)

alive_busy :
    (s : Seat) (now ttl : ℕ)
    → has_calls s.inflight ≡ true
    → now < s.seen_at + max_inflight_seconds
    → alive s now ttl ≡ true
unfolding alive
alive_busy s now ttl busy recent = ground arith

-- A seat with a call in progress, seen less than two hours ago, stays as it is when the book expires
-- while no process is dead, whatever the time to live, and when its holder moves to another account.
pub expire-keeps :
    (book : Book) (k : ℕ × ℕ) (s : Seat) (now ttl : ℕ)
    → lookup k book.seats ≡ some s
    → has_calls s.inflight ≡ true
    → now < s.seen_at + max_inflight_seconds
    → dead_boots book.boots now ≡ []
    → (lookup k (expire book now ttl).seats ≡ some s)
      × (lookup k (release_idle book k.0 k.1).seats ≡ some s)
unfolding expire reap_dead_boots release_idle
expire-keeps book k s now ttl found busy recent quiet = (
  rw quiet (
      if_both (λ (b : Book). lookup k b.seats ≡ some s) (ttl == 0) _ _ found
        (lookup-keep-some (λ e. alive e.1 now ttl) k s book.seats found
          (alive_busy s now ttl busy recent))),
  ground arith,
)
