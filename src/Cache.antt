-- ===== src/Cache.antt =====
-- pulse/util/ttl_cache.py: `TTLCache`, with its clock as arguments. Keys are numbers, a setting below 1
-- acts as 1 or 0, and the lock makes each method one step.
pub mod Bound
use cursor_pulse.Base.{
  ℕ, ◌+◌, ◌-◌, Bool, true, false, not, List, [], ◌∷◌, Option, none, some, ltb, leb, ◌==◌,
  if◌then◌else◌, keep, length, take, max,
}
use cursor_pulse.Base.Dict.{Dict, lookup, insert, erase, nat_eq}
use cursor_pulse.Base.Sorting.{sort_by}

-- `self._entries`: when a value was stored, and the value.
abbrev pub Entries {ℓ} : Type ℓ → Type ℓ
Entries V = Dict ℕ (ℕ × V)

module _ {ℓ} {V : Type ℓ} where
  abbrev pub stored_at : ℕ × (ℕ × V) → ℕ
  stored_at (key, (time, value)) = time

  -- `time.monotonic() - entry[0] > ttl_seconds`
  abbrev pub is_stale : ℕ → ℕ → ℕ × (ℕ × V) → Bool
  is_stale ttl now e = ltb (stored_at e + ttl) now

  pop : ℕ → Entries V → Entries V
  pop key entries = erase key entries

  pub get : Entries V → ℕ → ℕ → ℕ → Option V × Entries V
  unfolding pop
  get entries key ttl now = if ttl == 0 then (none, entries) else elim (lookup key entries) [
    | none ↦ (none, entries)
    | some (time, value) ↦
        if ltb (time + ttl) now then (none, pop key entries) else (some value, entries)
  ]

  -- The loop that pops the oldest entries.
  pub pop_all : Entries V → Entries V → Entries V
  pop_all [] entries = entries
  pop_all ((key, entry) ∷ oldest) entries = pop_all oldest (erase key entries)

  pub sweep_locked : ℕ → ℕ → ℕ → Entries V → Entries V
  unfolding pop_all
  sweep_locked max_entries ttl now entries =
      let fresh = if ltb 0 ttl then keep (λ e. not (is_stale ttl now e)) entries else entries in
      pop_all (take (length fresh - max_entries) (sort_by stored_at fresh)) fresh

  -- `swept` is the time at which the sweep reads the clock.
  pub put : ℕ → Entries V → ℕ → V → ℕ → ℕ → ℕ → Entries V
  unfolding sweep_locked
  put max_entries entries key value ttl now swept =
      let entries' = insert key (now, value) entries in
      if ltb max_entries (length entries')
      then sweep_locked max_entries ttl swept entries'
      else entries'

  unfoldable pub clear : Entries V → Entries V
  clear entries = []

-- `self.max_entries = max(1, int(max_entries))`
unfoldable max_entries_of : ℕ → ℕ
max_entries_of n = max 1 n
