-- ===== src/Limits/Exact.antt =====
-- The deque of the sliding window against the whole history of what it let through.
use cursor_pulse.Base.{
  ℕ, ◌+◌, ◌≤◌, ◌<◌, ◌≡◌, ◌≢◌, refl, sym, ap, ◌∙◌, Bool, true, false, List, [], ◌∷◌, ◌++◌, arith,
  Bool-cases, inl, inr, ltb, leb, ◌==◌, if◌then◌else◌, length, length-append, keep, keep-append,
  All, All-append, All-mono,
}
use cursor_pulse.Limits.Window.{SlidingWindow, drop_old, try_acquire}

-- The decisions on a list of attempts.
unfoldable pub attempts : SlidingWindow → List ℕ → List Bool
attempts w [] = []
attempts w (ts ∷ times) = let (answer, w') = try_acquire w ts in answer.0 ∷ attempts w' times

-- How many of the times lie in the window that ends at `ts`.
abbrev pub recent : ℕ → ℕ → List ℕ → ℕ
recent window ts times = length (keep (λ t. ltb ts (t + window)) times)

-- The specification keeps every time that was let through: an attempt passes exactly when fewer than
-- `limit` of them lie in the window that ends at it.
pub spec : ℕ → ℕ → List ℕ → List ℕ → List Bool
spec limit window history [] = []
spec limit window history (ts ∷ times) =
    let passes = ltb (recent window ts history) limit in
    passes ∷ spec limit window (if passes then history ++ ts ∷ [] else history) times

-- Each time is at or after the one before.
abbrev pub Rising : ℕ → List ℕ → Type 0
Rising last [] = Unit
Rising last (ts ∷ times) = (last ≤ ts) × Rising ts times

module _ (window : ℕ) where
  recent-append :
      (s : ℕ) (xs ys : List ℕ)
      → recent window s (xs ++ ys) ≡ recent window s xs + recent window s ys
  recent-append s xs ys =
      ap length (keep-append (λ t. ltb s (t + window)) xs ys)
      ∙ length-append (keep (λ t. ltb s (t + window)) xs) (keep (λ t. ltb s (t + window)) ys)

  -- What is dropped is in no later window.
  recent-drop_old :
      (ts s : ℕ) (events : List ℕ)
      → ts ≤ s
      → recent window s (drop_old window ts events) ≡ recent window s events
  unfolding drop_old
  recent-drop_old ts s [] le = refl
  recent-drop_old ts s (e ∷ events) le = ground (arith, recent-drop_old ts s events le)

  recent_all :
      (ts e : ℕ) (events : List ℕ)
      → ts < e + window
      → Rising e events
      → recent window ts events ≡ length events
  recent_all ts e [] lt r = refl
  recent_all ts e (f ∷ events) lt r = ground (arith, recent_all ts f events (omega arith) r.1)

  -- What is left is all in the window.
  length-drop_old :
      (ts last : ℕ) (events : List ℕ)
      → Rising last events
      → length (drop_old window ts events) ≡ recent window ts events
  unfolding drop_old
  length-drop_old ts last [] r = refl
  length-drop_old ts last (e ∷ events) r =
      ground (arith, length-drop_old ts e events r.1, recent_all ts e events)

  Rising-mono : (m n : ℕ) (times : List ℕ) → m ≤ n → Rising n times → Rising m times
  Rising-mono m n [] le r = tt
  Rising-mono m n (t ∷ times) le r = (omega arith, r.1)

  drop_old-Rising :
      (ts last : ℕ) (events : List ℕ) → Rising last events → Rising last (drop_old window ts events)
  unfolding drop_old
  drop_old-Rising ts last [] r = tt
  drop_old-Rising ts last (e ∷ events) r = elim (Bool-cases (leb (e + window) ts)) [
    | inl old ↦ rw old (drop_old-Rising ts last events (Rising-mono last e events r.0 r.1))
    | inr new ↦ rw new r
  ]

  drop_old-All :
      (ts m : ℕ) (events : List ℕ)
      → All (λ e. e ≤ m) events
      → All (λ e. e ≤ m) (drop_old window ts events)
  unfolding drop_old
  drop_old-All ts m [] a = tt
  drop_old-All ts m (e ∷ events) a = elim (Bool-cases (leb (e + window) ts)) [
    | inl old ↦ rw old (drop_old-All ts m events a.1)
    | inr new ↦ rw new a
  ]

  Rising-append :
      (last ts : ℕ) (events : List ℕ)
      → Rising last events
      → All (λ e. e ≤ ts) events
      → last ≤ ts
      → Rising last (events ++ ts ∷ [])
  Rising-append last ts [] r a le = (le, tt)
  Rising-append last ts (e ∷ events) r a le = (r.0, Rising-append e ts events r.1 a.1 a.0)

  -- The deque shows the same as the history to every window from `last` on.
  record Agrees (last : ℕ) (events history : List ℕ) : Type 0 where
    same : (s : ℕ) → last ≤ s → recent window s events ≡ recent window s history
    rising : Rising 0 events
    past : All (λ e. e ≤ last) events

  drop_old-Agrees :
      (last ts : ℕ) (events history : List ℕ)
      → last ≤ ts
      → Agrees last events history
      → Agrees ts (drop_old window ts events) history
  drop_old-Agrees last ts events history le v = record {
    same = λ s later. recent-drop_old ts s events later ∙ v.same s (omega arith);
    rising = drop_old-Rising ts 0 events v.rising;
    past =
        drop_old-All ts ts events
          (All-mono (λ e. e ≤ last) (λ e. e ≤ ts) (λ e h. omega arith) events v.past);
  }

  append-Agrees :
      (ts : ℕ) (events history : List ℕ)
      → Agrees ts events history
      → Agrees ts (events ++ ts ∷ []) (history ++ ts ∷ [])
  append-Agrees ts events history v = record {
    same = λ s later.
        recent-append s events (ts ∷ [])
        ∙ ap (λ (n : ℕ). n + recent window s (ts ∷ [])) (v.same s later)
        ∙ sym (recent-append s history (ts ∷ []));
    rising = Rising-append 0 ts events v.rising v.past (omega arith);
    past = All-append (λ e. e ≤ ts) events (ts ∷ []) v.past (omega arith, tt);
  }

  attempts-spec :
      (limit last : ℕ) (events history times : List ℕ)
      → limit ≢ 0
      → Rising last times
      → Agrees last events history
      → attempts (record { limit = limit; window_seconds = window; events = events }) times
        ≡ spec limit window history times
  unfolding attempts spec try_acquire
  attempts-spec limit last events history [] on r v = refl
  attempts-spec limit last events history (ts ∷ times) on r v =
      let kept = drop_old window ts events in
      let v' = drop_old-Agrees last ts events history r.0 v in
      let count : length kept ≡ recent window ts history =
        length-drop_old ts 0 events v.rising ∙ v.same ts r.0 in
      let active : (limit == 0) ≡ false = ground arith in
      elim (Bool-cases (leb limit (length kept))) [
        | inl refused ↦
            let e : ltb (recent window ts history) limit ≡ false = ground arith in
            rw (active, refused, e)
              (ap (◌∷◌ false) (attempts-spec limit ts kept history times on r.1 v'))
        | inr passed ↦
            let e : ltb (recent window ts history) limit ≡ true = ground arith in
            rw (active, passed, e)
              (ap (◌∷◌ true) (
                attempts-spec limit ts (kept ++ ts ∷ []) (history ++ ts ∷ []) times on r.1
                  (append-Agrees ts kept history v')))
      ]

-- On attempts at times that never fall, a fresh window with a positive limit lets an attempt through
-- exactly when fewer than the limit of all the attempts let through before lie in the window that
-- ends at it: dropping old events loses nothing that counts.
pub attempts_exact :
    (limit window : ℕ) (times : List ℕ)
    → limit ≢ 0
    → Rising 0 times
    → attempts (record { limit = limit; window_seconds = window; events = [] }) times
      ≡ spec limit window [] times
attempts_exact limit window times on r =
    attempts-spec window limit 0 [] [] times on r
      (record { same = λ s le. refl; rising = tt; past = tt })
