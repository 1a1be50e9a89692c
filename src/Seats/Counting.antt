-- ===== src/Seats/Counting.antt =====
-- How many seats there are on an account when the book changes.
use cursor_pulse.Base.{
  ℕ, ◌+◌, ◌≤◌, ◌≡◌, refl, Bool, [], ◌∷◌, none, arith, ◌==◌, if◌then◌else◌, is_some, keep,
}
use cursor_pulse.Base.Dict.{lookup, insert, erase, pair_eq}
use cursor_pulse.Seats.Book.{
  Seat, Seats, Book, on_account, map_values, reap_dead_boots, reap_seat, expire, dead_boots, alive,
}
use cursor_pulse.Seats.Choice.{others_on}

pub on_account-insert :
    (b h a : ℕ) (s : Seat) (seats : Seats)
    → on_account b (insert (h, a) s seats)
      ≡ on_account b seats + (if is_some (lookup (h, a) seats) then 0 else if a == b then 1 else 0)
unfolding on_account
on_account-insert b h a s [] = ground arith
on_account-insert b h a s ((k, t) ∷ seats) = ground (arith, on_account-insert b h a s seats)

pub on_account-others :
    (h a : ℕ) (seats : Seats)
    → lookup (h, a) seats ≡ none
    → on_account a seats ≡ others_on h a seats
unfolding on_account others_on
on_account-others h a [] e = refl
on_account-others h a ((k, t) ∷ seats) e = ground (arith, on_account-others h a seats)

pub on_account-erase-le :
    (b : ℕ) (k : ℕ × ℕ) (seats : Seats) → on_account b (erase k seats) ≤ on_account b seats
unfolding on_account
on_account-erase-le b k [] = omega arith
on_account-erase-le b k ((j, t) ∷ seats) = ground (arith, on_account-erase-le b k seats)

pub on_account-keep-le :
    (b : ℕ) (p : (ℕ × ℕ) × Seat → Bool) (seats : Seats)
    → on_account b (keep p seats) ≤ on_account b seats
unfolding on_account
on_account-keep-le b p [] = omega arith
on_account-keep-le b p (e ∷ seats) = ground (arith, on_account-keep-le b p seats)

on_account-map_values :
    (b : ℕ) (f : Seat → Seat) (seats : Seats)
    → on_account b (map_values f seats) ≡ on_account b seats
unfolding on_account
on_account-map_values b f [] = refl
on_account-map_values b f ((k, t) ∷ seats) = ground (arith, on_account-map_values b f seats)

on_account-reap :
    (b : ℕ) (book : Book) (now : ℕ)
    → on_account b (reap_dead_boots book now).seats ≡ on_account b book.seats
unfolding reap_dead_boots
on_account-reap b book now =
    ground (arith, on_account-map_values b (reap_seat (dead_boots book.boots now)) book.seats)

-- Expiry adds no seat.
pub on_account-expire-le :
    (b : ℕ) (book : Book) (now ttl : ℕ)
    → on_account b (expire book now ttl).seats ≤ on_account b book.seats
unfolding expire
on_account-expire-le b book now ttl = ground (
  arith,
  on_account-reap b book now,
  on_account-keep-le b (λ e. alive e.1 now ttl) (reap_dead_boots book now).seats,
)
