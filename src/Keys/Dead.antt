-- ===== src/Keys/Dead.antt =====
-- The rows of a key that is revoked, under each change of the table.
use cursor_pulse.Base.{
  ℕ, ◌<◌, ◌≡◌, refl, sym, ap, ◌∙◌, Bool, true, false, not, ◌&&◌, ◌||◌, List, [], ◌∷◌, Option, some,
  arith, ◌==◌, if◌then◌else◌, any, any-append, Bool-cases, Option-cases, inl, inr,
}
use cursor_pulse.Base.Outcome.{Outcome, raised, returned, ◌>>=◌}
use cursor_pulse.Base.Text.{Text}
use cursor_pulse.Keys.{ProxyKey, KeyMode, KeyStatus, active, suspended, revoked, get_key}
use cursor_pulse.Keys.Store.{
  KeyStore, KeyError, NewKey, add_key, record_event, resume_key, rotate_ide_key,
  get_or_issue_ide_key, update_key, is_suspended,
}
use cursor_pulse.Keys.Handlers.{
  Given, is_revoked, the_key, the_cp_key, requires, is_coding_plan, given_some, revoke, resume,
  edited, update,
}
use cursor_pulse.Keys.Answer.{is_key_active}
use cursor_pulse.Keys.Backed.{KeyMode-cases}

is_suspended-alive : (s : KeyStatus) → is_suspended s ≡ true → is_revoked s ≡ false
is_suspended-alive active e = refl
is_suspended-alive suspended e = refl
is_suspended-alive revoked e = ground arith

pub is_active-alive : (s : KeyStatus) → is_key_active s ≡ true → is_revoked s ≡ false
is_active-alive active e = refl
is_active-alive suspended e = ground arith
is_active-alive revoked e = ground arith

module _ (id : ℕ) where
  -- No row of the key is anything but revoked, and no new key gets its id.
  abbrev pub is_alive : ProxyKey → Bool
  is_alive k = k.id == id && not (is_revoked k.status)

  abbrev pub IsDead : KeyStore → Type 0
  IsDead store = (any is_alive store.keys ≡ false) × (id < store.next_id)

  abbrev pub Kept : Outcome KeyError KeyStore → Type 0
  Kept (raised e) = Unit
  Kept (returned store) = IsDead store

  pub requires-Kept :
      (may : Bool) (call : Outcome KeyError KeyStore) → Kept call → Kept (requires may call)
  requires-Kept true call k = k
  requires-Kept false call k = tt

  pub unless-Kept :
      (b : Bool) (e : KeyError) (call : Outcome KeyError KeyStore)
      → Kept call
      → Kept (if b then raised e else call)
  unless-Kept true e call k = tt
  unless-Kept false e call k = k

  pub the_key-Kept :
      (store : KeyStore) (j : ℕ) (f : ProxyKey → Outcome KeyError KeyStore)
      → ((k : ProxyKey) → get_key j store.keys ≡ some k → Kept (f k))
      → Kept (the_key store j >>= f)
  unfolding the_key
  the_key-Kept store j f each = elim (Option-cases (get_key j store.keys)) [
    | inl missing ↦ rw (missing, the_key) tt
    | inr (k, found) ↦ rw (found, the_key) (each k found)
  ]

  pub the_cp_key-Kept :
      (store : KeyStore) (j : ℕ) (f : ProxyKey → Outcome KeyError KeyStore)
      → ((k : ProxyKey) → get_key j store.keys ≡ some k → Kept (f k))
      → Kept (the_cp_key store j >>= f)
  unfolding the_cp_key
  the_cp_key-Kept store j f each = elim (Option-cases (get_key j store.keys)) [
    | inl missing ↦ rw (missing, the_cp_key) tt
    | inr (k, found) ↦ elim (Bool-cases (is_coding_plan k.mode)) [
      | inl plan ↦ rw (found, plan, the_cp_key) (each k found)
      | inr other ↦ rw (found, other, the_cp_key) tt
    ]
  ]

  pub any-head :
      (k : ProxyKey) (keys : List ProxyKey) → any is_alive (k ∷ keys) ≡ false → is_alive k ≡ false
  any-head k keys dead = ground (arith, dead)

  pub any-tail :
      (k : ProxyKey) (keys : List ProxyKey)
      → any is_alive (k ∷ keys) ≡ false
      → any is_alive keys ≡ false
  any-tail k keys dead = ground (arith, dead)

  any-get_key :
      (j : ℕ) (keys : List ProxyKey) (k : ProxyKey)
      → get_key j keys ≡ some k
      → any is_alive keys ≡ false
      → is_alive k ≡ false
  unfolding get_key
  any-get_key j [] k found dead = ground arith
  any-get_key j (y ∷ keys) k found dead = elim (Bool-cases (y.id == j)) [
    | inl here ↦
        let found' : some y ≡ some k = rw here at found in
        let is_y : y ≡ k = cc in ap is_alive (sym is_y) ∙ any-head y keys dead
    | inr later ↦ any-get_key j keys k (rw later at found) (any-tail y keys dead)
  ]

  -- A change of the rows with one id.
  any-update_key :
      (f : ProxyKey → ProxyKey) (j : ℕ) (keys : List ProxyKey)
      → ((k : ProxyKey) → (f k).id ≡ k.id)
      → ((k : ProxyKey) → j ≡ id → is_revoked k.status ≡ true → is_revoked (f k).status ≡ true)
      → any is_alive keys ≡ false
      → any is_alive (update_key f j keys) ≡ false
  any-update_key f j [] same stays dead = refl
  any-update_key f j (k ∷ keys) same stays dead =
      let rest = any-update_key f j keys same stays (any-tail k keys dead) in
      let first = any-head k keys dead in
      elim (Bool-cases (k.id == j)) [
        | inl here ↦ rw (here, rest) (ground (arith, same k, stays k, first))
        | inr other ↦ rw (other, rest, first) refl
      ]

  pub add_key-IsDead :
      (store : KeyStore) (new : NewKey) (mode : KeyMode) (vendor : Option Text)
      → IsDead store
      → IsDead (add_key store new mode vendor)
  unfolding add_key
  add_key-IsDead store new mode vendor dead =
      (any-append is_alive store.keys _ ∙ ground (arith, dead), omega arith)

  pub revoke-IsDead : (store : KeyStore) (k : ProxyKey) → IsDead store → IsDead (revoke store k)
  unfolding revoke record_event
  revoke-IsDead store k dead =
      (any-update_key _ k.id store.keys (λ y. refl) (λ y here e. refl) dead.0, dead.1)

  pub resume-Kept :
      (store : KeyStore) (j : ℕ) (k : ProxyKey)
      → get_key j store.keys ≡ some k
      → IsDead store
      → Kept (resume store k)
  unfolding resume resume_key record_event
  resume-Kept store j k found dead = elim (Bool-cases (is_suspended k.status)) [
    | inr other ↦ rw (other, resume, resume_key) tt
    | inl idle ↦
        rw (idle, resume, resume_key)
          (
            any-update_key _ k.id store.keys (λ y. refl)
                (λ y here e. ground (
                  arith,
                  is_suspended-alive k.status idle,
                  any-get_key j store.keys k found dead.0,
                ))
                dead.0,
            dead.1,
          )
  ]

  edited-same :
      (a b t : Given) (k : ProxyKey)
      → ((edited a b t k).id ≡ k.id) × ((edited a b t k).status ≡ k.status)
  unfolding edited
  edited-same a b t k = ground arith

  pub update-Kept :
      (store : KeyStore) (j : ℕ) (a b t : Given) → IsDead store → Kept (update store j a b t)
  unfolding update
  update-Kept store j a b t dead = the_key-Kept store j _ λ k found.
      unless-Kept (is_revoked k.status) _ _ (
        unless-Kept (not (is_coding_plan k.mode) && (given_some a || given_some b)) _
          (returned (record store { keys = update_key (edited a b t) k.id store.keys }))
          (
            any-update_key (edited a b t) k.id store.keys (λ y. (edited-same a b t y).0)
                (λ y here e. ap is_revoked (edited-same a b t y).1 ∙ e) dead.0,
            dead.1,
          ))

  pub rotate_ide_key-Kept :
      (store : KeyStore) (k : ProxyKey) (h : ℕ) → IsDead store → Kept (rotate_ide_key store k h)
  unfolding rotate_ide_key
  rotate_ide_key-Kept store k h dead = elim (KeyMode-cases k.mode) [
    | inl plan ↦ rw (plan, rotate_ide_key) tt
    | inr own ↦
        rw (own, rotate_ide_key)
          (
            any-update_key (λ y. record y { ide_key_hash = some h }) k.id store.keys (λ y. refl)
                (λ y here e. e) dead.0,
            dead.1,
          )
  ]

  pub get_or_issue_ide_key-Kept :
      (store : KeyStore) (k : ProxyKey) (h : ℕ) (has_ide_key : Bool)
      → IsDead store
      → Kept (get_or_issue_ide_key store k h has_ide_key)
  unfolding get_or_issue_ide_key
  get_or_issue_ide_key-Kept store k h has_ide_key dead = elim (KeyMode-cases k.mode) [
    | inl plan ↦ rw (plan, get_or_issue_ide_key) tt
    | inr own ↦ elim (Bool-cases has_ide_key) [
      | inl kept ↦ rw (own, kept, get_or_issue_ide_key) dead
      | inr new ↦ rw (own, new, get_or_issue_ide_key) (rotate_ide_key-Kept store k h dead)
    ]
  ]
