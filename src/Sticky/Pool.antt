-- ===== src/Sticky/Pool.antt =====
-- `list_cp_pool_entries` of pulse/openai_proxy/pool.py: the accounts that a gateway key may be given. A
-- percentage is its whole part, which lies below a whole number exactly when it does; `place` is the place
-- that `cp_rank_key` gives a credential without load, and `decrypts` says which values can be decrypted.
use cursor_pulse.Base.{
  ℕ, ◌≡◌, Bool, true, not, ◌&&◌, List, [], ◌∷◌, Option, none, some, arith, ltb, ◌==◌, if◌then◌else◌,
  keep, elem, any, max, All, All-mono, Bool-cases, inl, inr,
}
use cursor_pulse.Base.Sorting.{sort_by, All-sort_by}
use cursor_pulse.Base.Text.{Text, strip, lower, text_eq, is_empty}
use cursor_pulse.Keys.Store.{is_cp_vendor}
use cursor_pulse.Sticky.{Entry}

pub record PoolSnapshot : Type 0 where
  pub total_pct : Option ℕ
  pub tiers : List (Option ℕ)

-- A credential with its account, its vendor and the latest snapshot of the account.
pub record PoolRow : Type 0 where
  pub credential_id : ℕ
  pub account_id : ℕ
  pub vendor_slug : Text
  pub vendor_is_active : Bool
  pub cp_proxy_enabled : Bool
  pub is_deleted : Bool
  pub is_active : Bool
  pub is_primary : Bool
  pub bound_at : ℕ
  pub snapshot : Option PoolSnapshot

abbrev max_tier_pct : ℕ
max_tier_pct = 95

-- The largest of the tiers that say how much is used.
unfoldable max_pct : List (Option ℕ) → Option ℕ
max_pct [] = none
max_pct (none ∷ tiers) = max_pct tiers
max_pct (some pct ∷ tiers) = elim (max_pct tiers) [ none ↦ some pct | some m ↦ some (max pct m) ]

unfoldable pub tier_pressure : Option PoolSnapshot → ℕ
unfolding max_pct
tier_pressure none = 50
tier_pressure (some s) = elim s.total_pct [
  | some pct ↦ pct
  | none ↦ elim (max_pct s.tiers) [ none ↦ 50 | some pct ↦ pct ]
]

-- The conditions of the query.
abbrev pub is_served : Text → PoolRow → Bool
is_served slug r =
    text_eq r.vendor_slug slug
    && r.vendor_is_active
    && r.cp_proxy_enabled
    && not r.is_deleted
    && r.is_active
    && r.is_primary

-- The first row of each account, unless its account is nearly used up.
unfoldable pool_loop : List ℕ → List PoolRow → List PoolRow
pool_loop seen [] = []
pool_loop seen (r ∷ rows) =
    let skipped = pool_loop seen rows in
    let rest = pool_loop (r.account_id ∷ seen) rows in
    if elem r.account_id seen
    then skipped
    else if ltb (tier_pressure r.snapshot) max_tier_pct
    then r ∷ rest
    else rest

module _ (place : ℕ → ℕ) (decrypts : ℕ → Bool) (encryption_key : Text) where
  -- With `include_api_keys`: an entry whose value cannot be decrypted is left out.
  unfoldable entries_of : List PoolRow → List Entry
  entries_of [] = []
  entries_of (r ∷ rows) =
      let rest = entries_of rows in
      let has_key = not (is_empty (strip encryption_key)) in
      if has_key && not (decrypts r.credential_id)
      then rest
      else record { credential_id = r.credential_id; account_id = r.account_id; has_key = has_key }
        ∷ rest

  unfoldable pub list_cp_pool_entries : Text → List PoolRow → List Entry
  unfolding pool_loop entries_of
  list_cp_pool_entries vendor_slug rows =
      let slug = lower (strip vendor_slug) in
      if not (is_cp_vendor slug)
      then []
      else entries_of (
          sort_by (λ r. place r.credential_id)
            (pool_loop [] (sort_by (λ r. r.bound_at) (keep (is_served slug) rows))))

-- A row that is served, of an account that is not nearly used up.
abbrev pub is_usable : Text → PoolRow → Bool
is_usable slug r = is_served slug r && ltb (tier_pressure r.snapshot) max_tier_pct

-- An entry comes from such a row.
abbrev pub is_listed : Text → List PoolRow → Entry → Bool
is_listed slug rows e =
    any
      (λ r. r.credential_id == e.credential_id && r.account_id == e.account_id && is_usable slug r)
      rows

abbrev is_row : Text → List PoolRow → PoolRow → Bool
is_row slug rows r =
    any
      (λ x. x.credential_id == r.credential_id && x.account_id == r.account_id && is_usable slug x)
      rows

-- What has to be shown of a row that the query gives.
abbrev Backs : Text → List PoolRow → PoolRow → Type 0
Backs slug rows r = ltb (tier_pressure r.snapshot) max_tier_pct ≡ true → is_row slug rows r ≡ true

Backs-All : (slug : Text) (rows : List PoolRow) → All (Backs slug rows) (keep (is_served slug) rows)
Backs-All slug [] = tt
Backs-All slug (r ∷ rows) = elim (Bool-cases (is_served slug r)) [
  | inl served ↦ rw served (
    λ room. ground (arith, served, room),
    All-mono (Backs slug rows) (Backs slug (r ∷ rows)) (λ x h room. ground (arith, h room)) _
        (Backs-All slug rows),
  )
  | inr other ↦ rw other (
      All-mono (Backs slug rows) (Backs slug (r ∷ rows)) (λ x h room. ground (arith, h room)) _
        (Backs-All slug rows))
]

pool_loop-All :
    (slug : Text) (all : List PoolRow) (seen : List ℕ) (rows : List PoolRow)
    → All (Backs slug all) rows
    → All (λ r. is_row slug all r ≡ true) (pool_loop seen rows)
unfolding pool_loop
pool_loop-All slug all seen [] backs = tt
pool_loop-All slug all seen (r ∷ rows) backs = elim (Bool-cases (elem r.account_id seen)) [
  | inl again ↦ rw again (pool_loop-All slug all seen rows backs.1)
  | inr fresh ↦ elim (Bool-cases (ltb (tier_pressure r.snapshot) max_tier_pct)) [
    | inl room ↦
        rw (fresh, room) (backs.0 room, pool_loop-All slug all (r.account_id ∷ seen) rows backs.1)
    | inr full ↦ rw (fresh, full) (pool_loop-All slug all (r.account_id ∷ seen) rows backs.1)
  ]
]

entries_of-All :
    (place : ℕ → ℕ) (decrypts : ℕ → Bool) (encryption_key slug : Text) (all rows : List PoolRow)
    → All (λ r. is_row slug all r ≡ true) rows
    → All (λ e. is_listed slug all e ≡ true) (entries_of place decrypts encryption_key rows)
unfolding entries_of
entries_of-All place decrypts encryption_key slug all [] backs = tt
entries_of-All place decrypts encryption_key slug all (r ∷ rows) backs =
    let rest = entries_of-All place decrypts encryption_key slug all rows backs.1 in
    elim (Bool-cases (not (is_empty (strip encryption_key)) && not (decrypts r.credential_id))) [
      | inl closed ↦ rw closed rest
      | inr opened ↦ rw opened (backs.0, rest)
    ]

-- Every entry comes from a row of the vendor that may be given, of an account with room.
pub list_cp_pool_entries-All :
    (place : ℕ → ℕ) (decrypts : ℕ → Bool) (encryption_key vendor_slug : Text) (rows : List PoolRow)
    → All
        (λ e. is_listed (lower (strip vendor_slug)) rows e ≡ true)
        (list_cp_pool_entries place decrypts encryption_key vendor_slug rows)
unfolding list_cp_pool_entries
list_cp_pool_entries-All place decrypts encryption_key vendor_slug rows =
    let slug = lower (strip vendor_slug) in
    let served = keep (is_served slug) rows in
    let bound = λ (r : PoolRow). r.bound_at in
    elim (Bool-cases (not (is_cp_vendor slug))) [
      | inl other ↦ rw other tt
      | inr known ↦ rw known (
          entries_of-All place decrypts encryption_key slug rows _ (
            All-sort_by (λ r. place r.credential_id) (λ r. is_row slug rows r ≡ true)
              (pool_loop [] (sort_by bound served))
              (pool_loop-All slug rows [] (sort_by bound served)
                (All-sort_by bound (Backs slug rows) served (Backs-All slug rows)))))
    ]
