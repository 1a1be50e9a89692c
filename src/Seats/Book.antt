-- ===== src/Seats/Book.antt =====
-- The book of seats: `Seat`, `OccupancyBook`, and the expiry of seats and of data-plane processes.
-- Ids are numbers, 0 the empty text; times and durations are microseconds, on a clock that starts
-- at 0, and settings are not negative.
use cursor_pulse.Base.{
  ℕ, suc, ◌+◌, ◌*◌, Bool, true, false, not, ◌&&◌, [], ◌∷◌, none, some, ltb, leb, ◌==◌,
  if◌then◌else◌, is_some, is_nil, any, keep, max,
}
use cursor_pulse.Base.Dict.{Dict, lookup, insert, erase, nat_eq, pair_eq}

abbrev pub second : ℕ
second = 1_000_000

abbrev pub max_inflight_seconds : ℕ
max_inflight_seconds = 2 * 3600 * second

abbrev pub boot_stale_seconds : ℕ
boot_stale_seconds = 180 * second

pub record Seat : Type 0 where
  pub holder_id : ℕ
  pub account_id : ℕ
  pub credential_id : ℕ
  pub seen_at : ℕ
  pub inflight : Dict ℕ ℕ
  pub hold_until : ℕ
  pub hold_seconds : ℕ

abbrev pub Seats : Type 0
Seats = Dict (ℕ × ℕ) Seat

pub record Book : Type 0 where
  pub seats : Seats
  pub boots : Dict ℕ ℕ
  pub cp_restored : Bool

-- `any(self.inflight.values())`
abbrev pub has_calls : Dict ℕ ℕ → Bool
has_calls = any λ b. ltb 0 b.1

unfoldable pub alive : Seat → ℕ → ℕ → Bool
alive s now ttl =
    if has_calls s.inflight && ltb now (s.seen_at + max_inflight_seconds)
    then true
    else if ltb now s.hold_until
    then true
    else ltb now (s.seen_at + ttl)

-- `Seat(holder_id=…, account_id=…, credential_id=…, seen_at=…)`
unfoldable pub new_seat : ℕ → ℕ → ℕ → ℕ → Seat
new_seat holder account credential now = record {
  holder_id = holder;
  account_id = account;
  credential_id = credential;
  seen_at = now;
  inflight = [];
  hold_until = 0;
  hold_seconds = 0;
}

unfoldable pub empty_book : Book
empty_book = record { seats = []; boots = []; cp_restored = false }

unfoldable reset : Book → Book
unfolding empty_book
reset book = empty_book

unfoldable pub note_boot : Book → ℕ → ℕ → Book
note_boot book boot now =
    if boot == 0 then book else record book { boots = insert boot now book.boots }

-- The processes that have not been seen for too long.
unfoldable pub dead_boots : Dict ℕ ℕ → ℕ → Dict ℕ ℕ
dead_boots boots now = keep (λ b. leb (b.1 + boot_stale_seconds) now) boots

-- The inner loop of the reaping, over the keys of `inflight` that are dead.
unfoldable pub reap_calls : Dict ℕ ℕ → Dict ℕ ℕ → Seat → Seat
reap_calls dead [] s = s
reap_calls dead ((boot, calls) ∷ rest) s =
    let next : Seat = elim (lookup boot dead) [
      | none ↦ s
      | some seen ↦ record s {
        inflight = erase boot s.inflight;
        hold_until = max s.hold_until (seen + s.hold_seconds);
      }
    ] in
    reap_calls dead rest next

unfoldable pub reap_seat : Dict ℕ ℕ → Seat → Seat
unfolding reap_calls
reap_seat dead s = reap_calls dead s.inflight s

-- A change of every value of the dictionary in place.
abbrev pub map_values : (Seat → Seat) → Seats → Seats
map_values f [] = []
map_values f ((k, s) ∷ seats) = (k, f s) ∷ map_values f seats

unfoldable pub reap_dead_boots : Book → ℕ → Book
reap_dead_boots book now =
    let dead = dead_boots book.boots now in
    if is_nil dead then book else record book {
      seats = map_values (reap_seat dead) book.seats;
      boots = keep (λ b. not (is_some (lookup b.0 dead))) book.boots;
    }

unfoldable pub expire : Book → ℕ → ℕ → Book
expire book now ttl =
    let reaped = reap_dead_boots book now in
    if ttl == 0
    then reaped
    else record reaped { seats = keep (λ e. alive e.1 now ttl) reaped.seats }

-- How many seats there are on an account.
unfoldable pub on_account : ℕ → Seats → ℕ
on_account account [] = 0
on_account account ((k, s) ∷ seats) = (if k.1 == account then 1 else 0) + on_account account seats

-- The loop of `count_by_account`.
unfoldable pub count_loop : Seats → Dict ℕ ℕ → Dict ℕ ℕ
count_loop [] counts = counts
count_loop ((k, s) ∷ seats) counts =
    count_loop seats (insert k.1 (suc (elim (lookup k.1 counts) [ none ↦ 0 | some n ↦ n ])) counts)

unfoldable pub count_by_account : Book → ℕ → ℕ → Dict ℕ ℕ × Book
unfolding count_loop
count_by_account book ttl now =
    let book' = expire book now ttl in (count_loop book'.seats [], book')
