-- ===== src/Spend/Resets.antt =====
-- When a limit frees up again.
use cursor_pulse.Base.{
  ℕ, ◌+◌, ◌-◌, ◌≤◌, ◌<◌, ◌≡◌, refl, List, [], ◌∷◌, some, arith, Bool-cases, inl, inr, All, ltb,
  sum_by, keep,
}
use cursor_pulse.Base.Sorting.{IsSorted}
use cursor_pulse.Spend.Window.{Event, event_ts, event_cents, resets_loop, usage_resets_at}

-- What the events in the window that ends at `now` cost together.
abbrev pub used_at : ℕ → ℕ → List Event → ℕ
used_at window now events = sum_by event_cents (keep (λ e. ltb now (e.0 + window)) events)

module _ (window limit : ℕ) where
  used_at-le : (s : ℕ) (events : List Event) → used_at window s events ≤ sum_by event_cents events
  used_at-le s [] = omega arith
  used_at-le s (e ∷ events) = ground (arith, used_at-le s events)

  -- Before the oldest event leaves, all are in the window.
  used_at-All :
      (s ts : ℕ) (events : List Event)
      → s < ts + window
      → All (λ e. ts ≤ event_ts e) events
      → used_at window s events ≡ sum_by event_cents events
  used_at-All s ts [] h a = refl
  used_at-All s ts (e ∷ events) h a = ground (arith, used_at-All s ts events h a.1)

  -- What the loop finds on the events that are left is the moment at which their cost in the
  -- window falls below the limit, and it comes after the oldest of them has left.
  abbrev IsReset : List Event → ℕ → Type 0
  IsReset events t =
      ((s : ℕ) → t ≤ s → used_at window s events < limit)
      × ((s : ℕ) → s < t → limit ≤ used_at window s events)
      × ((ts : ℕ) → All (λ e. ts ≤ event_ts e) events → ts + window ≤ t)

  resets_loop-IsReset :
      (sum dropped : ℕ) (events : List Event) (t : ℕ)
      → sum ≡ dropped + sum_by event_cents events
      → limit ≤ sum_by event_cents events
      → IsSorted event_ts events
      → resets_loop window limit sum dropped events ≡ some t
      → IsReset events t
  unfolding resets_loop
  resets_loop-IsReset sum dropped [] t total over sorted h = cc
  resets_loop-IsReset sum dropped ((ts, cents) ∷ events) t total over sorted h =
      elim (Bool-cases (ltb (sum - (dropped + cents)) limit)) [
        | inl under ↦
            let e : t ≡ ts + window = ground arith in
            (
              λ s le. ground (arith, used_at-le s events),
              λ s lt. ground (arith, used_at-All s ts events (omega arith) sorted.0),
              λ m a. omega arith,
            )
        | inr still ↦
            let (after, before, late) =
              resets_loop-IsReset sum (dropped + cents) events t (omega arith) (ground arith)
                sorted.1 (ground arith) in
            let gone : ts + window ≤ t = late ts sorted.0 in
            (
              λ s le. ground (arith, after s le),
              λ s lt. ground (arith, before s lt),
              λ m a. late m a.1,
            )
      ]

  resets_loop_finds :
      (sum dropped : ℕ) (events : List Event)
      → 0 < limit
      → sum ≡ dropped + sum_by event_cents events
      → limit ≤ sum_by event_cents events
      → (t : ℕ) × (resets_loop window limit sum dropped events ≡ some t)
  unfolding resets_loop
  resets_loop_finds sum dropped [] positive total over = absurd (omega arith)
  resets_loop_finds sum dropped ((ts, cents) ∷ events) positive total over =
      elim (Bool-cases (ltb (sum - (dropped + cents)) limit)) [
        | inl under ↦ (ts + window, rw under)
        | inr still ↦
            rw still
              (resets_loop_finds sum (dropped + cents) events positive (omega arith) (ground arith))
      ]

-- Where the events of a window, oldest first, reach a positive limit, `usage_resets_at` returns a
-- time `t`, and it is exactly the time at which the limit frees up: with no further usage, what the
-- window holds is below the limit at every time from `t` on, and at or above it at every time before.
pub usage_resets_at_exact :
    (events : List Event) (limit window : ℕ)
    → IsSorted event_ts events
    → 0 < limit
    → limit ≤ sum_by event_cents events
    → (t : ℕ) × (usage_resets_at events limit window ≡ some t)
      × ((s : ℕ) → t ≤ s → used_at window s events < limit)
      × ((s : ℕ) → s < t → limit ≤ used_at window s events)
unfolding usage_resets_at
usage_resets_at_exact events limit window sorted positive over =
    let sum = sum_by event_cents events in
    let (t, found) = resets_loop_finds window limit sum 0 events positive (omega arith) over in
    let (after, before, _) =
      resets_loop-IsReset window limit sum 0 events t (omega arith) over sorted found in
    (t, rw (found, usage_resets_at), after, before)
