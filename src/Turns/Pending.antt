-- ===== src/Turns/Pending.antt =====
-- The messages that wait: what is left of them when one is handled.
use cursor_pulse.Base.{
  ℕ, ◌≤◌, ◌≡◌, ◌≢◌, refl, sym, ap, ◌∙◌, Bool, not, List, [], ◌∷◌, none, arith, ◌==◌, if◌then◌else◌,
  keep, All, All-keep, Bool-cases, inl, inr, leb, leb→le, All-mono,
}
use cursor_pulse.Base.Sorting.{place, sort_by, IsSorted, sort_by-IsSorted}
use cursor_pulse.Base.Keyed.{HasKeys, keep-HasKeys, sort_by-HasKeys}
use cursor_pulse.Turns.{
  ChatMessage, created, is_unhandled, mark_message_handled, list_pending_user_messages,
}

abbrev pub message_id : ChatMessage → ℕ
message_id m = m.id

place_front :
    (x : ChatMessage) (ms : List ChatMessage)
    → All (λ y. created x ≤ created y) ms
    → place created x ms ≡ x ∷ ms
unfolding place
place_front x [] a = refl
place_front x (y ∷ ms) a = ground arith

module _ (p : ChatMessage → Bool) where
  keep-place :
      (x : ChatMessage) (ms : List ChatMessage)
      → IsSorted created ms
      → keep p (place created x ms) ≡ (if p x then place created x (keep p ms) else keep p ms)
  unfolding place
  keep-place x [] s = refl
  keep-place x (y ∷ ms) s = elim (Bool-cases (leb (created x) (created y))) [
    | inl first ↦
        let le : created x ≤ created y = leb→le (created x) (created y) first in
        let above =
          All-mono (λ z. created y ≤ created z) (λ z. created x ≤ created z) (λ z h. omega arith) ms
            s.0 in
        let front =
          place_front x (keep p (y ∷ ms))
            (All-keep (λ z. created x ≤ created z) p (y ∷ ms) (le, above)) in
        elim (Bool-cases (p x)) [
          | inl kept ↦ rw (first, kept) (sym front)
          | inr dropped ↦ rw (first, dropped) refl
        ]
    | inr after ↦ ground (arith, keep-place x ms s.1)
  ]

  -- A stable sort and a filter may change places.
  keep-sort_by : (ms : List ChatMessage) → keep p (sort_by created ms) ≡ sort_by created (keep p ms)
  unfolding sort_by
  keep-sort_by [] = refl
  keep-sort_by (m ∷ ms) =
      let moved = keep-place m (sort_by created ms) (sort_by-IsSorted created ms) in
      ground (arith, keep-sort_by ms)

abbrev other_id : ℕ → ChatMessage → Bool
other_id id m = not (m.id == id)

keep-mark_message_handled :
    (session_id id now : ℕ) (ms : List ChatMessage)
    → keep (is_unhandled session_id) (mark_message_handled id now ms)
      ≡ keep (other_id id) (keep (is_unhandled session_id) ms)
unfolding mark_message_handled
keep-mark_message_handled session_id id now [] = refl
keep-mark_message_handled session_id id now (m ∷ ms) =
    ground (arith, keep-mark_message_handled session_id id now ms)

keep-other_id :
    (id : ℕ) (ms : List ChatMessage) → All (λ n. n.id ≢ id) ms → keep (other_id id) ms ≡ ms
keep-other_id id [] a = refl
keep-other_id id (m ∷ ms) a = ground (arith, keep-other_id id ms a.1)

-- Handling the first message that waits leaves the rest in their order.
pub list_pending-mark :
    (ms rest : List ChatMessage) (m : ChatMessage) (session_id now : ℕ)
    → HasKeys message_id ms
    → list_pending_user_messages ms session_id none ≡ m ∷ rest
    → list_pending_user_messages (mark_message_handled m.id now ms) session_id none ≡ rest
unfolding list_pending_user_messages
list_pending-mark ms rest m session_id now keyed first =
    let waiting = keep (is_unhandled session_id) ms in
    let k =
      sort_by-HasKeys message_id created waiting
        (keep-HasKeys message_id (is_unhandled session_id) ms keyed) in
    let k' : HasKeys message_id (m ∷ rest) = rw first at k in
    let drop_first : keep (other_id m.id) (m ∷ rest) ≡ rest =
      ground (arith, keep-other_id m.id rest k'.0) in
    ap (sort_by created) (keep-mark_message_handled session_id m.id now ms)
    ∙ sym (keep-sort_by (other_id m.id) waiting)
    ∙ ap (keep (other_id m.id)) first
    ∙ drop_first
