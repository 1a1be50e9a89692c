-- ===== src/Tests/Assignment.antt =====
-- The seat that goes with a key at a concrete input.
use mathlib.Core.Path.{subst}
use cursor_pulse.Base.{ℕ, ◌≤◌, ◌≡◌, refl, true, false, List, [], ◌∷◌, none, some, arith, All, max}
use cursor_pulse.Base.Text.{codes}
use cursor_pulse.Loans.{Credential, Ledger, get_credential}
use cursor_pulse.Keys.{ProxyKey, quota, active}
use cursor_pulse.Keys.Answer.{Answer, authorize_proxy_key_row}
use cursor_pulse.Seats.Book.{Book, Seat, on_account}
use cursor_pulse.Seating.{Selection, Slot, is_pinned, apply_seat}
use cursor_pulse.Seating.Owner.{
  Holder, member_holder, loan_holder, key_holder, anonymous, member_of_answer,
}
use cursor_pulse.Seating.Agreement.{IsFiled}
use cursor_pulse.Seating.Limit.{apply_seat_capacity}

abbrev credential : ℕ → ℕ → Credential
credential id account = record {
  id = id;
  account_id = account;
  remote_key_id = 0;
  key_hash = none;
  is_loan_key = false;
  is_active = true;
  sync_enabled = true;
  has_value = true;
}

abbrev ledger : Ledger
ledger = record { loans = []; credentials = credential 10 100 ∷ credential 11 101 ∷ [] }

abbrev key : ProxyKey
key = record {
  id = 1;
  key_hash = 4;
  member_id = 7;
  mode = quota;
  coding_plan_vendor = none;
  window_5h_cost_limit_cents = none;
  window_7d_cost_limit_cents = none;
  status = active;
  suspended_reason = none;
  expires_at = none;
  ide_key_hash = none;
}

abbrev taken : Seat
taken = record {
  holder_id = 8;
  account_id = 100;
  credential_id = 10;
  seen_at = 40;
  inflight = (77, 1) ∷ [];
  hold_until = 0;
  hold_seconds = 0;
}

abbrev busy : Book
busy = record { seats = ((8, 100), taken) ∷ []; boots = []; cp_restored = true }

abbrev slot : Slot
slot = record {
  current_credential_id = 0;
  release_current = false;
  quota_pool = codes "api";
  held_credential_ids = [];
}

abbrev one_each : ℕ → Selection
one_each member_id = record { max_concurrent_users = 1; concurrent_ttl_seconds = 100 }

abbrev order : List (ℕ × ℕ)
order = (10, 100) ∷ (11, 101) ∷ []

abbrev by_member : Holder → ℕ
by_member (member_holder id) = id
by_member (loan_holder id) = id
by_member (key_holder id) = id
by_member anonymous = 0

abbrev answer : Answer
answer = authorize_proxy_key_row key 50

order-IsFiled : (o : List (ℕ × ℕ)) → some order ≡ some o → All (IsFiled ledger.credentials) o
unfolding get_credential
order-IsFiled o e =
    let same : order ≡ o = cc in subst (All (IsFiled ledger.credentials)) same (refl, (refl, tt))

apply_seat_capacity_example :
    on_account 100
      (apply_seat one_each
        (λ m p. some order)
        (λ a. none)
        by_member
        (key ∷ [])
        ledger
        busy
        answer
        slot
        50).1.seats
    ≤ max (on_account 100 busy.seats) 1
unfolding is_pinned authorize_proxy_key_row member_of_answer
apply_seat_capacity_example =
    apply_seat_capacity one_each (λ m p. some order) (λ a. none) by_member (key ∷ []) ledger
      ((omega arith, tt), (tt, tt)) (λ m p o e. order-IsFiled o e) busy answer slot 50 100 refl refl
      (omega arith)
