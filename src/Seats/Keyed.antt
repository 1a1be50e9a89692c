-- ===== src/Seats/Keyed.antt =====
-- The book stays well formed: one seat for a holder and an account, filed under its own ids.
use cursor_pulse.Base.{
  ℕ, ◌≡◌, refl, Bool, [], ◌∷◌, none, some, arith, Bool-cases, Option-cases, inl, inr, ◌==◌, is_nil,
  All, All-keep, keep,
}
use cursor_pulse.Base.Dict.{
  Dict, lookup, insert, erase, nat_eq, pair_eq, Distinct, insert-Distinct, erase-Distinct,
  keep-Distinct, All-insert, All-erase, All-lookup,
}
use cursor_pulse.Seats.Book.{
  Seat, Seats, Book, map_values, reap_calls, reap_seat, reap_dead_boots, dead_boots, alive, expire,
}

-- A seat under a key belongs to it, and counts each process once.
abbrev pub IsFiled : ℕ × ℕ → Seat → Type 0
IsFiled k s = (s.holder_id ≡ k.0) × (s.account_id ≡ k.1) × Distinct s.inflight

pub record IsWell (seats : Seats) : Type 0 where
  pub distinct : Distinct seats
  pub filed : All (λ e. IsFiled e.0 e.1) seats

pub insert-IsWell :
    (k : ℕ × ℕ) (s : Seat) (seats : Seats) → IsFiled k s → IsWell seats → IsWell (insert k s seats)
insert-IsWell k s seats f v = record {
  distinct = insert-Distinct k s seats v.distinct;
  filed = All-insert IsFiled k s seats v.filed f;
}

pub erase-IsWell : (k : ℕ × ℕ) (seats : Seats) → IsWell seats → IsWell (erase k seats)
erase-IsWell k seats v = record {
  distinct = erase-Distinct k seats v.distinct;
  filed = All-erase IsFiled k seats v.filed;
}

pub keep-IsWell : (p : (ℕ × ℕ) × Seat → Bool) (seats : Seats) → IsWell seats → IsWell (keep p seats)
keep-IsWell p seats v = record {
  distinct = keep-Distinct p seats v.distinct;
  filed = All-keep (λ e. IsFiled e.0 e.1) p seats v.filed;
}

-- The seat that a lookup finds is filed.
pub found-IsFiled :
    (k : ℕ × ℕ) (s : Seat) (seats : Seats) → IsWell seats → lookup k seats ≡ some s → IsFiled k s
found-IsFiled k s seats v e = All-lookup IsFiled k s seats v.filed e

reap_calls-IsFiled :
    (k : ℕ × ℕ) (dead calls : Dict ℕ ℕ) (s : Seat)
    → IsFiled k s
    → IsFiled k (reap_calls dead calls s)
unfolding reap_calls
reap_calls-IsFiled k dead [] s f = f
reap_calls-IsFiled k dead ((boot, n) ∷ rest) s f = elim (Option-cases (lookup boot dead)) [
  | inl live ↦ rw (live, reap_calls) (reap_calls-IsFiled k dead rest s f)
  | inr (seen, gone) ↦
      rw (gone, reap_calls)
        (reap_calls-IsFiled k dead rest _ (f.0, f.1, erase-Distinct boot s.inflight f.2))
]

module _ (f : Seat → Seat) (good : (k : ℕ × ℕ) (s : Seat) → IsFiled k s → IsFiled k (f s)) where
  lookup-map_values :
      (k : ℕ × ℕ) (seats : Seats) → lookup k seats ≡ none → lookup k (map_values f seats) ≡ none
  lookup-map_values k [] e = refl
  lookup-map_values k ((j, s) ∷ seats) e = ground (arith, lookup-map_values k seats)

  map_values-Distinct : (seats : Seats) → Distinct seats → Distinct (map_values f seats)
  map_values-Distinct [] d = tt
  map_values-Distinct ((k, s) ∷ seats) d =
      (lookup-map_values k seats d.0, map_values-Distinct seats d.1)

  map_values-IsFiled :
      (seats : Seats)
      → All (λ e. IsFiled e.0 e.1) seats
      → All (λ e. IsFiled e.0 e.1) (map_values f seats)
  map_values-IsFiled [] a = tt
  map_values-IsFiled ((k, s) ∷ seats) a = (good k s a.0, map_values-IsFiled seats a.1)

  map_values-IsWell : (seats : Seats) → IsWell seats → IsWell (map_values f seats)
  map_values-IsWell seats v = record {
    distinct = map_values-Distinct seats v.distinct;
    filed = map_values-IsFiled seats v.filed;
  }

reap-IsWell : (book : Book) (now : ℕ) → IsWell book.seats → IsWell (reap_dead_boots book now).seats
unfolding reap_dead_boots reap_seat
reap-IsWell book now v = elim (Bool-cases (is_nil (dead_boots book.boots now))) [
  | inl quiet ↦ rw quiet v
  | inr some_dead ↦ rw some_dead (
      map_values-IsWell (reap_seat (dead_boots book.boots now))
        (λ k s f. reap_calls-IsFiled k (dead_boots book.boots now) s.inflight s f) book.seats v)
]

pub expire-IsWell :
    (book : Book) (now ttl : ℕ) → IsWell book.seats → IsWell (expire book now ttl).seats
unfolding expire
expire-IsWell book now ttl v = elim (Bool-cases (ttl == 0)) [
  | inl off ↦ rw off (reap-IsWell book now v)
  | inr on ↦ rw on (
      keep-IsWell (λ e. alive e.1 now ttl) (reap_dead_boots book now).seats
        (reap-IsWell book now v))
]
