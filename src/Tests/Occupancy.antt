-- ===== src/Tests/Occupancy.antt =====
-- The book of seats at concrete inputs.
use cursor_pulse.Base.{
  ℕ, ◌+◌, ◌-◌, ◌*◌, ◌≤◌, ◌≡◌, ◌↔◌, refl, true, false, ◌==◌, ◌&&◌, if◌then◌else◌, List, [], ◌∷◌,
  none, some, arith, All, max,
}
use cursor_pulse.Base.Dict.{Distinct, lookup, nat_eq, pair_eq}
use cursor_pulse.Seats.Book.{
  Seat, Seats, Book, second, max_inflight_seconds, has_calls, dead_boots, on_account, empty_book,
  expire,
}
use cursor_pulse.Seats.Keyed.{IsWell, IsFiled}
use cursor_pulse.Seats.Choice.{Request, choose, current_fits}
use cursor_pulse.Seats.Calls.{begin_call, end_call, release_idle}
use cursor_pulse.Seats.Capacity.{Agrees, choose_capacity}
use cursor_pulse.Seats.Refusal.{IsShut, choose-none}
use cursor_pulse.Seats.Operations.{Call, chooses, begins, ends, run, run-IsWell}
use cursor_pulse.Seats.Inflight.{
  calls_on, begin_call_counts, end_call_counts, end_call-begin_call, expire-keeps,
}

abbrev taken : Seat
taken = record {
  holder_id = 2;
  account_id = 100;
  credential_id = 10;
  seen_at = 5 * second;
  inflight = (77, 1) ∷ [];
  hold_until = 0;
  hold_seconds = 0;
}

-- Holder 2 has a call in progress on account 100.
abbrev busy : Book
busy = record { seats = ((2, 100), taken) ∷ []; boots = []; cp_restored = true }

-- Holder 1 asks for a seat, one holder to an account.
abbrev asking : Request
asking = record {
  holder_id = 1;
  ranked = (10, 100) ∷ (11, 101) ∷ [];
  account_by_credential = [];
  current_credential_id = 0;
  release_current = false;
  pinned = false;
  pinned_credential_id = 0;
  max_concurrent = 1;
  ttl_seconds = 600 * second;
  held_credential_ids = [];
}

abbrev now : ℕ
now = 6 * second

asking-Agrees : Agrees asking now
unfolding cursor_pulse.Seats.Choice.accounts cursor_pulse.Seats.Choice.set_defaults
asking-Agrees = (refl, (refl, tt))

choose_capacity_example :
    on_account 100 (choose busy asking now).1.seats ≤ max (on_account 100 busy.seats) 1
choose_capacity_example = choose_capacity busy asking now refl (omega arith) refl asking-Agrees 100

choose_run : (choose busy asking now).0.assigned_credential_id ≡ some 11
unfolding choose cursor_pulse.Seats.Choice.choose_seats cursor_pulse.Seats.Choice.choose_limited
    cursor_pulse.Seats.Choice.full cursor_pulse.Seats.Choice.first_free
    cursor_pulse.Seats.Choice.accounts cursor_pulse.Seats.Choice.set_defaults
    cursor_pulse.Seats.Choice.others_on cursor_pulse.Seats.Choice.current_fits
    cursor_pulse.Seats.Choice.held cursor_pulse.Seats.Choice.occupy_all expire
    cursor_pulse.Seats.Book.alive cursor_pulse.Seats.Book.reap_dead_boots dead_boots
choose_run = refl

choose-none_run : ((choose busy asking now).0.assigned_credential_id ≡ none) ↔ (
    (current_fits asking now (expire busy now (600 * second)).seats 0 ≡ false)
    × All (λ p. IsShut asking now (expire busy now (600 * second)).seats p.1) asking.ranked)
choose-none_run = choose-none busy asking now refl refl (omega arith) refl

abbrev calls : List (ℕ × Call)
calls = (1, chooses asking) ∷ (2, begins 1 100 10 77 0) ∷ (3, ends 1 100 10 0 77 true) ∷ []

run-IsWell_example :
    Distinct (run empty_book calls).seats × All (λ e. IsFiled e.0 e.1) (run empty_book calls).seats
run-IsWell_example = run-IsWell calls

busy-IsWell : IsWell busy.seats
busy-IsWell = record { distinct = (refl, tt); filed = ((refl, refl, (refl, tt)), tt) }

begin_call_counts_run : calls_on (begin_call busy 2 100 10 77 0 now) 2 100 77 ≡ (
    if 2 == 2 && 100 == 100 && 77 == 77 then calls_on busy 2 100 77 + 1 else calls_on busy 2 100 77)
begin_call_counts_run = begin_call_counts busy 2 100 10 77 0 now (omega arith) 2 100 77

end_call_counts_run : calls_on (end_call busy 2 100 10 0 77 false now) 2 100 77 ≡ (
    if 2 == 2 && 100 == 100 && 77 == 77 then calls_on busy 2 100 77 - 1 else calls_on busy 2 100 77)
end_call_counts_run =
    end_call_counts busy 2 100 10 0 77 false now busy-IsWell (omega arith) 2 100 77

begun-IsWell : IsWell (begin_call busy 2 100 10 77 0 now).seats
unfolding begin_call cursor_pulse.Seats.Book.note_boot cursor_pulse.Seats.Calls.seat_or_new
    cursor_pulse.Seats.Book.new_seat
begun-IsWell = record { distinct = (refl, tt); filed = ((refl, refl, (refl, tt)), tt) }

end_call-begin_call_run :
    calls_on (end_call (begin_call busy 2 100 10 77 0 now) 2 100 10 0 77 true (7 * second)) 2 100 77
    ≡ calls_on busy 2 100 77
end_call-begin_call_run =
    end_call-begin_call busy 2 100 10 10 77 0 0 true now (7 * second) begun-IsWell (omega arith) 2
      100 77

expire-keeps_run :
    (lookup (2, 100) (expire busy now 1).seats ≡ some taken)
    × (lookup (2, 100) (release_idle busy 2 100).seats ≡ some taken)
unfolding dead_boots
expire-keeps_run = expire-keeps busy (2, 100) taken now 1 refl refl (omega arith) refl
