-- ===== src/Limits/Window.antt =====
-- `_SlidingWindow` and `WebRateLimitRegistry`. A limit below 0 acts as 0; team 0 is the empty text,
-- which the registry files under "__global__".
use cursor_pulse.Base.{
  ℕ, ◌+◌, ◌-◌, ◌*◌, ◌/◌, Bool, true, false, List, [], ◌∷◌, ◌++◌, Option, none, some, leb, ◌==◌,
  if◌then◌else◌, length, max,
}
use cursor_pulse.Base.Dict.{Dict, lookup, insert, nat_eq}

pub record SlidingWindow : Type 0 where
  pub limit : ℕ
  pub window_seconds : ℕ
  pub events : List ℕ

unfoldable configure : SlidingWindow → ℕ → SlidingWindow
configure w limit = record w { limit = max 0 limit }

-- `while events and events[0] <= cutoff: events.popleft()`, with the cutoff `ts - window`.
unfoldable pub drop_old : ℕ → ℕ → List ℕ → List ℕ
drop_old window ts [] = []
drop_old window ts (e ∷ events) =
    let rest = drop_old window ts events in if leb (e + window) ts then rest else e ∷ events

-- A second, in the clock's unit.
abbrev pub second : ℕ
second = 1_000_000

-- `max(1, math.ceil(window - (ts - events[0])))`, in whole seconds.
unfoldable pub retry_after : ℕ → ℕ → List ℕ → ℕ
retry_after window ts [] = 1
retry_after window ts (e ∷ events) = max 1 ((e + window - ts + (second - 1)) / second)

unfoldable pub try_acquire : SlidingWindow → ℕ → (Bool × Option ℕ) × SlidingWindow
try_acquire w ts =
    let events = drop_old w.window_seconds ts w.events in
    if w.limit == 0
    then ((true, none), w)
    else if leb w.limit (length events)
    then ((false, some (retry_after w.window_seconds ts events)), record w { events = events })
    else ((true, none), record w { events = events ++ ts ∷ [] })

abbrev pub Registry : Type 0
Registry = Dict ℕ SlidingWindow

-- The limiter of a team, made or configured anew.
unfoldable limiter_for : Registry → ℕ → ℕ → SlidingWindow
limiter_for by_team team limit = elim (lookup team by_team) [
  | none ↦ record { limit = limit; window_seconds = 60 * second; events = [] }
  | some w ↦ configure w limit
]

unfoldable check : Registry → ℕ → ℕ → ℕ → (Bool × Option ℕ) × Registry
check by_team team limit ts =
    let (answer, w) = try_acquire (limiter_for by_team team limit) ts in
    (answer, insert team w by_team)
