-- ===== src/Keys/Revoked.antt =====
-- A revoked key stays revoked, whatever is asked for afterwards.
use cursor_pulse.Base.{
  ℕ, ◌<◌, ◌≡◌, ◌≢◌, refl, sym, ap, ◌∙◌, Bool, true, false, not, ◌||◌, List, [], ◌∷◌, Option, none,
  some, arith, ◌==◌, ==_iff, is_some, any, All, Bool-cases, Option-cases, inl, inr,
}
use mathlib.Core.Path.{subst}
use cursor_pulse.Base.Outcome.{Outcome, raised, returned}
use cursor_pulse.Base.Text.{Text, strip, lower}
use cursor_pulse.Loans.{KeyLoan, Ledger}
use cursor_pulse.Keys.{ProxyKey, quota, coding_plan, revoked, get_key}
use cursor_pulse.Keys.Store.{
  KeyStore, KeyError, create_key, create_coding_plan_key, record_event, rotate_ide_key, update_key,
  is_cp_vendor,
}
use cursor_pulse.Keys.Handlers.{
  revoke_cp, resume_cp, User, Call, create_proxy_key, create_cp_proxy_key, client_setup_ide,
  client_setup, update_proxy_key, revoke_proxy_key, revoke_cp_proxy_key, resume_proxy_key,
  resume_cp_proxy_key, rotate_proxy_key_ide, is_revoked, the_key, is_coding_plan, can_reveal_key,
  revoke, create, rotate, handle, step, run,
}
use cursor_pulse.Keys.Authorize.{authorize_status}
use cursor_pulse.Keys.Backed.{is_ok, is_live_key}
use cursor_pulse.Keys.Safety.{authorize_status-IsBacked}
use cursor_pulse.Keys.Dead.{
  is_active-alive, requires-Kept, unless-Kept, the_key-Kept, the_cp_key-Kept, any-head, any-tail,
  add_key-IsDead, revoke-IsDead, resume-Kept, update-Kept, rotate_ide_key-Kept,
  get_or_issue_ide_key-Kept, IsDead, is_alive, Kept,
}

module _ (id : ℕ) (has_member : ℕ → Bool) (has_addresses : Bool) where
  rotate-Kept :
      (store : KeyStore) (user : User) (j h : ℕ)
      → IsDead id store
      → Kept id (rotate has_member has_addresses store user j h)
  unfolding rotate rotate_ide_key
  rotate-Kept store user j h dead = the_key-Kept id store j _ λ k found.
      unless-Kept id (not (can_reveal_key user k)) _ _ (
        unless-Kept id (is_coding_plan k.mode) _ _
          (unless-Kept id (not has_addresses) _ _ (rotate_ide_key-Kept id store k h dead)))

  client_setup-Kept :
      (store : KeyStore) (user : User) (j h : ℕ) (has_ide_key : Bool)
      → IsDead id store
      → Kept id (client_setup has_member has_addresses store user j h has_ide_key)
  unfolding client_setup
  client_setup-Kept store user j h has_ide_key dead = the_key-Kept id store j _ λ k found.
      unless-Kept id (not (can_reveal_key user k)) _ _ (
        unless-Kept id (not has_addresses) _ _ (
          unless-Kept id (is_coding_plan k.mode) _ _
            (get_or_issue_ide_key-Kept id store k h has_ide_key dead)))

  create-Kept :
      (store : KeyStore) (m h : ℕ) (a b t : Option ℕ) (vendor : Option Text)
      → IsDead id store
      → Kept id (create has_member has_addresses store m h a b t vendor)
  unfolding create create_key create_coding_plan_key
  create-Kept store m h a b t none dead =
      unless-Kept id (not (has_member m)) _ _
        (unless-Kept id (is_some a || is_some b) _ _ (add_key-IsDead id store _ quota none dead))
  create-Kept store m h a b t (some vendor) dead =
      let known = is_cp_vendor (lower (strip vendor)) in
      unless-Kept id (not (has_member m)) _ _ (elim (Bool-cases known) [
        | inl ours ↦
            rw (ours, create_coding_plan_key)
              (add_key-IsDead id store _ coding_plan (some (lower (strip vendor))) dead)
        | inr other ↦ rw (other, create_coding_plan_key) tt
      ])

  handle-Kept :
      (store : KeyStore) (user : User) (call : Call)
      → IsDead id store
      → Kept id (handle has_member has_addresses store user call)
  unfolding handle revoke_cp resume_cp
  handle-Kept store user (create_proxy_key m h a b t vendor) dead =
      requires-Kept id user.may_write _ (create-Kept store m h a b t vendor dead)
  handle-Kept store user (create_cp_proxy_key m h a b vendor) dead =
      requires-Kept id user.may_write _ (create-Kept store m h a b none (some vendor) dead)
  handle-Kept store user (update_proxy_key j a b t) dead =
      requires-Kept id user.may_write _ (update-Kept id store j a b t dead)
  handle-Kept store user (revoke_proxy_key j) dead =
      requires-Kept id user.may_write _
        (the_key-Kept id store j _ λ k found. revoke-IsDead id store k dead)
  handle-Kept store user (revoke_cp_proxy_key j) dead = requires-Kept id user.may_write _ (
      the_cp_key-Kept id store j _ λ k found. elim (Bool-cases (is_revoked k.status)) [
        | inl done ↦ rw done dead
        | inr live ↦ rw live (revoke-IsDead id store k dead)
      ])
  handle-Kept store user (resume_proxy_key j) dead =
      requires-Kept id user.may_write _
        (the_key-Kept id store j _ λ k found. resume-Kept id store j k found dead)
  handle-Kept store user (resume_cp_proxy_key j) dead =
      requires-Kept id user.may_write _
        (the_cp_key-Kept id store j _ λ k found. resume-Kept id store j k found dead)
  handle-Kept store user (rotate_proxy_key_ide j h) dead =
      requires-Kept id user.may_read _ (rotate-Kept store user j h dead)
  handle-Kept store user (client_setup_ide j h has_ide_key) dead =
      requires-Kept id user.may_read _ (client_setup-Kept store user j h has_ide_key dead)

  outcome-Kept :
      (o : Outcome KeyError KeyStore) (store : KeyStore)
      → IsDead id store
      → Kept id o
      → IsDead id (elim o [ raised e ↦ store | returned after ↦ after ])
  outcome-Kept (raised e) store dead k = dead
  outcome-Kept (returned after) store dead k = k

  run-IsDead :
      (calls : List (User × Call)) (store : KeyStore)
      → IsDead id store
      → IsDead id (run has_member has_addresses store calls)
  unfolding run step
  run-IsDead [] store dead = dead
  run-IsDead ((user, call) ∷ calls) store dead = run-IsDead calls _ (
      outcome-Kept (handle has_member has_addresses store user call) store dead
        (handle-Kept store user call dead))

any-live_alive :
    (now id : ℕ) (keys : List ProxyKey)
    → any (is_alive id) keys ≡ false
    → any (is_live_key now id) keys ≡ false
any-live_alive now id [] dead = refl
any-live_alive now id (k ∷ keys) dead = ground (
  arith,
  any-head id k keys dead,
  any-live_alive now id keys (any-tail id k keys dead),
  is_active-alive k.status,
)

-- Where every row of a key is revoked, no text is accepted in its name.
authorize_status-dead :
    (decrypt : Text → ℕ → Option Text) (candidates : KeyLoan → Option (List ℕ))
    (encryption_key : Text) (hash : Text → ℕ) (plaintext : Option Text) (keys : List ProxyKey)
    (ledger : Ledger) (now id : ℕ)
    → any (is_alive id) keys ≡ false
    → let answer =
        authorize_status decrypt candidates encryption_key hash plaintext keys ledger now in
      is_ok answer.status ≡ true → answer.proxy_key_id ≢ some id
authorize_status-dead decrypt candidates encryption_key hash plaintext keys ledger now id dead e
      named =
    let answer =
      authorize_status decrypt candidates encryption_key hash plaintext keys ledger now in
    let backed =
      authorize_status-IsBacked decrypt candidates encryption_key hash plaintext keys ledger now
        e in
    let live = rw named at backed in ground (arith, live, any-live_alive now id keys dead)

any-update_revoked :
    (id : ℕ) (keys : List ProxyKey)
    → any (is_alive id) (update_key (λ k. record k { status = revoked }) id keys) ≡ false
any-update_revoked id [] = refl
any-update_revoked id (k ∷ keys) = ground (arith, any-update_revoked id keys)

revoked-IsDead :
    (id : ℕ) (store : KeyStore) (k : ProxyKey)
    → k.id ≡ id
    → id < store.next_id
    → IsDead id (revoke store k)
unfolding revoke record_event
revoked-IsDead id store k is_id below = (rw is_id (any-update_revoked id store.keys), below)

get_key-below :
    (id next : ℕ) (keys : List ProxyKey) (k : ProxyKey)
    → All (λ k. k.id < next) keys
    → get_key id keys ≡ some k
    → (k.id ≡ id) × (id < next)
unfolding get_key
get_key-below id next [] k low found = ground arith
get_key-below id next (y ∷ keys) k low found = elim (Bool-cases (y.id == id)) [
  | inl here ↦
      let found' : some y ≡ some k = rw here at found in
      let is_y : y ≡ k = cc in
      (ap (λ (z : ProxyKey). z.id) (sym is_y) ∙ (==_iff y.id id).0 here, ground (arith, low.0))
  | inr later ↦ get_key-below id next keys k low.1 (rw later at found)
]

module _ (has_member : ℕ → Bool) (has_addresses : Bool) where
  handle-revoked :
      (store after : KeyStore) (user : User) (id : ℕ)
      → All (λ k. k.id < store.next_id) store.keys
      → handle has_member has_addresses store user (revoke_proxy_key id) ≡ returned after
      → IsDead id after
  unfolding handle the_key
  handle-revoked store after user id low done = elim (Bool-cases user.may_write) [
    | inr denied ↦ ground (arith, rw (denied, handle) at done)
    | inl may ↦ elim (Option-cases (get_key id store.keys)) [
      | inl missing ↦ ground (arith, rw (may, missing, handle, the_key) at done)
      | inr (k, found) ↦
          let (is_id, below) = get_key-below id store.next_id store.keys k low found in
          let done' = rw (may, found, handle, the_key) at done in
          let same : revoke store k ≡ after = cc in
          subst (IsDead id) same (revoked-IsDead id store k is_id below)
    ]
  ]

  -- After the route that revokes a key has returned, on a store whose ids are below the next one, no
  -- sequence of calls of the routes by any users leads to a store where some text of a key is accepted
  -- in the name of that key.
  pub authorize_status-revoke_proxy_key :
      (decrypt : Text → ℕ → Option Text) (candidates : KeyLoan → Option (List ℕ))
      (encryption_key : Text) (hash : Text → ℕ) (plaintext : Option Text) (ledger : Ledger)
      (now : ℕ) (store after : KeyStore) (user : User) (id : ℕ) (calls : List (User × Call))
      → All (λ k. k.id < store.next_id) store.keys
      → handle has_member has_addresses store user (revoke_proxy_key id) ≡ returned after
      → let answer =
          authorize_status decrypt candidates encryption_key hash plaintext
            (run has_member has_addresses after calls).keys
            ledger
            now in
        is_ok answer.status ≡ true → answer.proxy_key_id ≢ some id
  authorize_status-revoke_proxy_key decrypt candidates encryption_key hash plaintext ledger now
        store after user id calls low done =
      authorize_status-dead decrypt candidates encryption_key hash plaintext
        (run has_member has_addresses after calls).keys ledger now id
        (run-IsDead id has_member has_addresses calls after
          (handle-revoked store after user id low done)).0
