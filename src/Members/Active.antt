-- ===== src/Members/Active.antt =====
-- How many memberships of a member are active, as the table is written.
use cursor_pulse.Base.{
  ℕ, ◌+◌, ◌≤◌, ◌≡◌, refl, ap, ◌∙◌, true, List, [], ◌∷◌, ◌++◌, none, some, arith, ◌==◌,
  if◌then◌else◌, sum_by, sum_by-append, Bool-cases, inl, inr,
}
use cursor_pulse.Members.{Membership, is_active_of, active_membership}
use cursor_pulse.Members.Changes.{write_row, get_membership}

-- How many active memberships a member has.
abbrev pub active_of : ℕ → List Membership → ℕ
active_of member_id = sum_by (λ m. if is_active_of member_id m then 1 else 0)

pub active_of-append :
    (j : ℕ) (ms : List Membership) (m : Membership)
    → active_of j (ms ++ m ∷ []) ≡ active_of j ms + (if is_active_of j m then 1 else 0)
active_of-append j ms m =
    sum_by-append (λ n. if is_active_of j n then 1 else 0) ms (m ∷ []) ∙ omega arith

pub active_membership-none :
    (j : ℕ) (ms : List Membership) → active_membership j ms ≡ none → active_of j ms ≡ 0
unfolding active_membership
active_membership-none j [] e = refl
active_membership-none j (m ∷ ms) e = ground (arith, active_membership-none j ms)

-- A row that stays with its member and becomes no more active than it was.
pub active_of-write :
    (j : ℕ) (n : Membership) (ms : List Membership) (m : Membership)
    → get_membership n.id ms ≡ some m
    → n.member_id ≡ m.member_id
    → (n.is_active ≡ true → m.is_active ≡ true)
    → active_of j (write_row n ms) ≤ active_of j ms
unfolding get_membership write_row
active_of-write j n [] m found same less = cc
active_of-write j n (k ∷ ms) m found same less = elim (Bool-cases (k.id == n.id)) [
  | inl here ↦
      let found' : some k ≡ some m = rw here at found in
      let is : k ≡ m = cc in
      let e : is_active_of j k ≡ is_active_of j m = ap (is_active_of j) is in
      elim (Bool-cases n.is_active) [
        | inl live ↦ ground (arith, less live)
        | inr dead ↦ ground arith
      ]
  | inr other ↦ rw other (omega (arith, active_of-write j n ms m (rw other at found) same less))
]
