-- ===== src/Keys/Owner.antt =====
-- What a user who may not write can change.
use cursor_pulse.Base.{
  ℕ, ◌≡◌, ◌≢◌, refl, sym, ap, ◌∙◌, Bool, true, false, not, List, [], ◌∷◌, map, none, some, arith,
  ◌==◌, ==_iff, if◌then◌else◌, keep, All, Bool-cases, Option-cases, inl, inr,
}
use cursor_pulse.Base.Keyed.{HasKeys}
use cursor_pulse.Base.Outcome.{Outcome, raised, returned}
use cursor_pulse.Keys.{ProxyKey, get_key}
use cursor_pulse.Keys.Store.{
  KeyStore, KeyError, bad_request, forbidden, unprocessable, update_key, rotate_ide_key,
  get_or_issue_ide_key,
}
use cursor_pulse.Keys.Handlers.{
  User, Call, create_proxy_key, create_cp_proxy_key, client_setup_ide, client_setup,
  update_proxy_key, revoke_proxy_key, revoke_cp_proxy_key, resume_proxy_key, resume_cp_proxy_key,
  rotate_proxy_key_ide, is_coding_plan, can_reveal_key, the_key, requires, rotate, handle, step,
}
use cursor_pulse.Keys.Backed.{KeyMode-cases}

abbrev pub key_id : ProxyKey → ℕ
key_id k = k.id

abbrev pub is_other : ℕ → ProxyKey → Bool
is_other member_id k = not (k.member_id == member_id)

-- A row but for the hash of its IDE key.
abbrev pub without_ide : ProxyKey → ProxyKey
without_ide k = record k { ide_key_hash = none }

abbrev with_ide : ℕ → ProxyKey → ProxyKey
with_ide h k = record k { ide_key_hash = some h }

with_ide-without :
    (h id : ℕ) (keys : List ProxyKey)
    → map without_ide (update_key (with_ide h) id keys) ≡ map without_ide keys
with_ide-without h id [] = refl
with_ide-without h id (k ∷ keys) = ground (arith, with_ide-without h id keys)

-- Where no row has the id, nothing changes.
update_key-none :
    (f : ProxyKey → ProxyKey) (id : ℕ) (keys : List ProxyKey)
    → All (λ k. k.id ≢ id) keys
    → update_key f id keys ≡ keys
update_key-none f id [] absent = refl
update_key-none f id (k ∷ keys) absent =
    ground (arith, absent.0, update_key-none f id keys absent.1)

get_key-id : (id : ℕ) (keys : List ProxyKey) (k : ProxyKey) → get_key id keys ≡ some k → k.id ≡ id
unfolding get_key
get_key-id id [] k found = ground arith
get_key-id id (y ∷ keys) k found = elim (Bool-cases (y.id == id)) [
  | inl here ↦
      let found' : some y ≡ some k = rw here at found in
      let is_y : y ≡ k = cc in ap key_id (sym is_y) ∙ (==_iff y.id id).0 here
  | inr later ↦ get_key-id id keys k (rw later at found)
]

update_key-other :
    (h id member_id : ℕ) (keys : List ProxyKey) (k : ProxyKey)
    → HasKeys key_id keys
    → get_key id keys ≡ some k
    → is_other member_id k ≡ false
    → keep (is_other member_id) (update_key (with_ide h) id keys) ≡ keep (is_other member_id) keys
unfolding get_key
update_key-other h id member_id [] k keyed found own = refl
update_key-other h id member_id (y ∷ keys) k keyed found own = elim (Bool-cases (y.id == id)) [
  | inl here ↦
      let found' : some y ≡ some k = rw here at found in
      let is_y : y ≡ k = cc in
      let own' : is_other member_id y ≡ false = ap (is_other member_id) is_y ∙ own in
      let at_id : y.id ≡ id = (==_iff y.id id).0 here in
      let rest = update_key-none (with_ide h) id keys (rw at_id at keyed.0) in
      rw (here, own', rest) refl
  | inr later ↦
      rw later
        (ground (arith, update_key-other h id member_id keys k keyed.1 (rw later at found) own))
]

-- The changes that a user who may only read can make.
abbrev pub IsOwn : User → KeyStore → KeyStore → Type 0
IsOwn user store after =
    (map without_ide after.keys ≡ map without_ide store.keys)
    × (keep (is_other user.member_id) after.keys ≡ keep (is_other user.member_id) store.keys)
    × (after.events ≡ store.events)
    × (after.next_id ≡ store.next_id)

module _ (has_member : ℕ → Bool) (has_addresses : Bool) (store : KeyStore) (user : User)
    (reader : user.may_write ≡ false) where
  abbrev OwnOutcome : Outcome KeyError KeyStore → Type 0
  OwnOutcome o = IsOwn user store (elim o [ raised e ↦ store | returned after ↦ after ])

  requires-IsOwn :
      (may : Bool) (call : Outcome KeyError KeyStore)
      → OwnOutcome call
      → OwnOutcome (requires may call)
  requires-IsOwn true call own = own
  requires-IsOwn false call own = (refl, refl, refl, refl)

  denied-IsOwn : (call : Outcome KeyError KeyStore) → OwnOutcome (requires user.may_write call)
  denied-IsOwn call = rw reader (refl, refl, refl, refl)

  unless-IsOwn :
      (b : Bool) (e : KeyError) (call : Outcome KeyError KeyStore)
      → (b ≡ false → OwnOutcome call)
      → OwnOutcome (if b then raised e else call)
  unless-IsOwn true e call f = (refl, refl, refl, refl)
  unless-IsOwn false e call f = f refl

  can_reveal-own :
      (k : ProxyKey) → not (can_reveal_key user k) ≡ false → is_other user.member_id k ≡ false
  can_reveal-own k shown = ground (arith, reader)

  rotate_ide_key-IsOwn :
      (k : ProxyKey) (h : ℕ)
      → map without_ide (update_key (with_ide h) k.id store.keys) ≡ map without_ide store.keys
      → keep (is_other user.member_id) (update_key (with_ide h) k.id store.keys)
        ≡ keep (is_other user.member_id) store.keys
      → OwnOutcome (rotate_ide_key store k h)
  unfolding rotate_ide_key
  rotate_ide_key-IsOwn k h same others = elim (KeyMode-cases k.mode) [
    | inl plan ↦ rw (plan, rotate_ide_key) (refl, refl, refl, refl)
    | inr own ↦ rw (own, rotate_ide_key) (same, others, refl, refl)
  ]

  get_or_issue-IsOwn :
      (k : ProxyKey) (h : ℕ) (has_ide_key : Bool)
      → OwnOutcome (rotate_ide_key store k h)
      → OwnOutcome (get_or_issue_ide_key store k h has_ide_key)
  unfolding get_or_issue_ide_key
  get_or_issue-IsOwn k h has_ide_key issued = elim (KeyMode-cases k.mode) [
    | inl plan ↦ rw (plan, get_or_issue_ide_key) (refl, refl, refl, refl)
    | inr own ↦ elim (Bool-cases has_ide_key) [
      | inl kept ↦ rw (own, kept, get_or_issue_ide_key) (refl, refl, refl, refl)
      | inr new ↦ rw (own, new, get_or_issue_ide_key) issued
    ]
  ]

  -- The IDE key of a row found under the id and shown to the user.
  issue-IsOwn :
      (id h : ℕ) (k : ProxyKey)
      → HasKeys key_id store.keys
      → get_key id store.keys ≡ some k
      → not (can_reveal_key user k) ≡ false
      → OwnOutcome (rotate_ide_key store k h)
  issue-IsOwn id h k keyed found shown =
      rotate_ide_key-IsOwn k h (with_ide-without h k.id store.keys) (
        update_key-other h k.id user.member_id store.keys k keyed
          (ap (λ j. get_key j store.keys) (get_key-id id store.keys k found) ∙ found)
          (can_reveal-own k shown))

  client_setup-IsOwn :
      (id h : ℕ) (has_ide_key : Bool)
      → HasKeys key_id store.keys
      → OwnOutcome (client_setup has_member has_addresses store user id h has_ide_key)
  unfolding client_setup the_key
  client_setup-IsOwn id h has_ide_key keyed = elim (Option-cases (get_key id store.keys)) [
    | inl missing ↦ rw (missing, client_setup, the_key) (refl, refl, refl, refl)
    | inr (k, found) ↦
        rw (found, client_setup, the_key)
          (unless-IsOwn (not (can_reveal_key user k)) forbidden _ λ shown.
            unless-IsOwn (not has_addresses) unprocessable _ λ e.
              unless-IsOwn (is_coding_plan k.mode) bad_request _
                λ own. get_or_issue-IsOwn k h has_ide_key (issue-IsOwn id h k keyed found shown))
  ]

  rotate-IsOwn :
      (id h : ℕ)
      → HasKeys key_id store.keys
      → OwnOutcome (rotate has_member has_addresses store user id h)
  unfolding rotate the_key rotate_ide_key
  rotate-IsOwn id h keyed = elim (Option-cases (get_key id store.keys)) [
    | inl missing ↦ rw (missing, rotate, the_key) (refl, refl, refl, refl)
    | inr (k, found) ↦
        rw (found, rotate, the_key)
          (unless-IsOwn (not (can_reveal_key user k)) forbidden _ λ shown.
            unless-IsOwn (is_coding_plan k.mode) bad_request _ λ own.
              unless-IsOwn (not has_addresses) unprocessable _
                λ e. issue-IsOwn id h k keyed found shown)
  ]

  -- On a store with unique ids, a route called by a user without the permission to write leaves every
  -- key but its IDE hash, all of the keys of other members, and the events as they were.
  pub step-IsOwn :
      (call : Call)
      → HasKeys key_id store.keys
      → IsOwn user store (step has_member has_addresses store user call)
  unfolding step handle
  step-IsOwn (create_proxy_key m h a b t vendor) keyed = denied-IsOwn _
  step-IsOwn (create_cp_proxy_key m h a b vendor) keyed = denied-IsOwn _
  step-IsOwn (update_proxy_key j a b t) keyed = denied-IsOwn _
  step-IsOwn (revoke_proxy_key j) keyed = denied-IsOwn _
  step-IsOwn (revoke_cp_proxy_key j) keyed = denied-IsOwn _
  step-IsOwn (resume_proxy_key j) keyed = denied-IsOwn _
  step-IsOwn (resume_cp_proxy_key j) keyed = denied-IsOwn _
  step-IsOwn (rotate_proxy_key_ide j h) keyed =
      requires-IsOwn user.may_read _ (rotate-IsOwn j h keyed)
  step-IsOwn (client_setup_ide j h has_ide_key) keyed =
      requires-IsOwn user.may_read _ (client_setup-IsOwn j h has_ide_key keyed)
