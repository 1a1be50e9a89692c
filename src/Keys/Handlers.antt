-- ===== src/Keys/Handlers.antt =====
-- The routes of pulse/web/proxy_keys_api.py and pulse/web/openai_proxy_api.py that change a key. A route
-- that raises leaves the store as it was; the bodies are those that pass their own checks.
use cursor_pulse.Base.{
  ℕ, Bool, true, false, not, ◌&&◌, ◌||◌, List, [], ◌∷◌, Option, none, some, ◌==◌, if◌then◌else◌,
  is_some,
}
use cursor_pulse.Base.Outcome.{Outcome, raised, returned, ◌>>=◌}
use cursor_pulse.Base.Text.{Text}
use cursor_pulse.Keys.{
  ProxyKey, KeyMode, quota, coding_plan, KeyStatus, active, suspended, revoked, get_key,
}
use cursor_pulse.Keys.Store.{
  key_revoked, KeyStore, KeyError, bad_request, forbidden, not_found, conflict, unprocessable,
  usd_to_cents, update_key, create_key, create_coding_plan_key, record_event, resume_key,
  rotate_ide_key, get_or_issue_ide_key,
}

-- Who asks, and the permissions `proxy:write` and `proxy:read`.
pub record User : Type 0 where
  pub member_id : ℕ
  pub may_write : Bool
  pub may_read : Bool

-- A limit in dollars or a time, where the body has it.
abbrev pub Given : Type 0
Given = Option (Option ℕ)

pub data Call : Type 0 where
  create_proxy_key :
      (member_id key_hash : ℕ) (window_5h window_7d expires_at : Option ℕ)
      (coding_plan_vendor : Option Text)
      → Call
  create_cp_proxy_key :
      (member_id key_hash : ℕ) (window_5h window_7d : Option ℕ) (coding_plan_vendor : Text) → Call
  update_proxy_key : (id : ℕ) (window_5h window_7d expires_at : Given) → Call
  revoke_proxy_key revoke_cp_proxy_key resume_proxy_key resume_cp_proxy_key : ℕ → Call
  rotate_proxy_key_ide : (id ide_hash : ℕ) → Call
  client_setup_ide : (id ide_hash : ℕ) (has_ide_key : Bool) → Call

abbrev pub is_revoked : KeyStatus → Bool
is_revoked active = false
is_revoked suspended = false
is_revoked revoked = true

abbrev pub is_coding_plan : KeyMode → Bool
is_coding_plan quota = false
is_coding_plan coding_plan = true

-- `_get_key`
unfoldable pub the_key : KeyStore → ℕ → Outcome KeyError ProxyKey
the_key store id = elim (get_key id store.keys) [ none ↦ raised not_found | some k ↦ returned k ]

-- `_get_cp_proxy_key`
unfoldable pub the_cp_key : KeyStore → ℕ → Outcome KeyError ProxyKey
the_cp_key store id = elim (get_key id store.keys) [
  | none ↦ raised not_found
  | some k ↦ if is_coding_plan k.mode then returned k else raised not_found
]

abbrev pub can_reveal_key : User → ProxyKey → Bool
can_reveal_key user key =
    if user.may_write then true else user.may_read && key.member_id == user.member_id

-- `require_capability`
abbrev pub requires : Bool → Outcome KeyError KeyStore → Outcome KeyError KeyStore
requires may call = if may then call else raised forbidden

unfoldable pub revoke : KeyStore → ProxyKey → KeyStore
revoke store key =
    record_event
      (record store { keys = update_key (λ k. record k { status = revoked }) key.id store.keys })
      key_revoked key.id none

unfoldable pub resume : KeyStore → ProxyKey → Outcome KeyError KeyStore
resume store key =
    let (resumed, after) = resume_key store key in
    if not resumed then raised conflict else returned after

abbrev pub given_some : Given → Bool
given_some none = false
given_some (some value) = is_some value

abbrev pub given_cents : Option ℕ → Given → Option ℕ
given_cents old none = old
given_cents old (some usd) = usd_to_cents usd

abbrev pub given_time : Option ℕ → Given → Option ℕ
given_time old none = old
given_time old (some t) = t

-- The fields that `update_proxy_key` sets.
unfoldable pub edited : Given → Given → Given → ProxyKey → ProxyKey
edited window_5h window_7d expires_at k =
    let timed = record k { expires_at = given_time k.expires_at expires_at } in
    elim k.mode [
      | quota ↦ timed
      | coding_plan ↦ record timed {
        window_5h_cost_limit_cents = given_cents k.window_5h_cost_limit_cents window_5h;
        window_7d_cost_limit_cents = given_cents k.window_7d_cost_limit_cents window_7d;
      }
    ]

unfoldable pub update : KeyStore → ℕ → Given → Given → Given → Outcome KeyError KeyStore
update store id window_5h window_7d expires_at = do
  key ← the_key store id
  if is_revoked key.status
      then raised conflict
      else if not (is_coding_plan key.mode) && (given_some window_5h || given_some window_7d)
      then raised bad_request
      else returned (record store {
        keys = update_key (edited window_5h window_7d expires_at) key.id store.keys;
      })

unfoldable pub revoke_cp : KeyStore → ℕ → Outcome KeyError KeyStore
revoke_cp store id = the_cp_key store id >>= λ key.
    returned (if is_revoked key.status then store else revoke store key)

unfoldable pub resume_cp : KeyStore → ℕ → Outcome KeyError KeyStore
resume_cp store id = the_cp_key store id >>= resume store

-- `has_member` and `has_addresses` read the members and the team's addresses.
module _ (has_member : ℕ → Bool) (has_addresses : Bool) where
  unfoldable pub create :
      KeyStore → ℕ → ℕ → Option ℕ → Option ℕ → Option ℕ → Option Text → Outcome KeyError KeyStore
  create store member_id key_hash window_5h window_7d expires_at coding_plan_vendor =
      if not (has_member member_id) then raised bad_request else elim coding_plan_vendor [
        | some vendor ↦
            create_coding_plan_key store
              (record {
                key_hash = key_hash;
                member_id = member_id;
                window_5h_cost_limit_cents = usd_to_cents window_5h;
                window_7d_cost_limit_cents = usd_to_cents window_7d;
                expires_at = expires_at;
              })
              vendor
        | none ↦
            if is_some window_5h || is_some window_7d
            then raised bad_request
            else returned (
                create_key store (record {
                  key_hash = key_hash;
                  member_id = member_id;
                  window_5h_cost_limit_cents = none;
                  window_7d_cost_limit_cents = none;
                  expires_at = expires_at;
                }))
      ]

  unfoldable pub rotate : KeyStore → User → ℕ → ℕ → Outcome KeyError KeyStore
  rotate store user id ide_hash = do
    key ← the_key store id
    if not (can_reveal_key user key)
        then raised forbidden
        else if is_coding_plan key.mode
        then raised bad_request
        else if not has_addresses
        then raised unprocessable
        else rotate_ide_key store key ide_hash

  -- `client_setup` with the kind `ide`; any other kind changes nothing.
  unfoldable pub client_setup : KeyStore → User → ℕ → ℕ → Bool → Outcome KeyError KeyStore
  client_setup store user id ide_hash has_ide_key = do
    key ← the_key store id
    if not (can_reveal_key user key)
        then raised forbidden
        else if not has_addresses
        then raised unprocessable
        else if is_coding_plan key.mode
        then raised bad_request
        else get_or_issue_ide_key store key ide_hash has_ide_key

  unfoldable pub handle : KeyStore → User → Call → Outcome KeyError KeyStore
  handle store user (create_proxy_key member_id key_hash window_5h window_7d expires_at vendor) =
      requires user.may_write
        (create store member_id key_hash window_5h window_7d expires_at vendor)
  handle store user (create_cp_proxy_key member_id key_hash window_5h window_7d vendor) =
      requires user.may_write
        (create store member_id key_hash window_5h window_7d none (some vendor))
  handle store user (update_proxy_key id window_5h window_7d expires_at) =
      requires user.may_write (update store id window_5h window_7d expires_at)
  handle store user (revoke_proxy_key id) =
      requires user.may_write (the_key store id >>= λ key. returned (revoke store key))
  handle store user (revoke_cp_proxy_key id) = requires user.may_write (revoke_cp store id)
  handle store user (resume_proxy_key id) =
      requires user.may_write (the_key store id >>= resume store)
  handle store user (resume_cp_proxy_key id) = requires user.may_write (resume_cp store id)
  handle store user (rotate_proxy_key_ide id ide_hash) =
      requires user.may_read (rotate store user id ide_hash)
  handle store user (client_setup_ide id ide_hash has_ide_key) =
      requires user.may_read (client_setup store user id ide_hash has_ide_key)

  -- The store after a route.
  unfoldable pub step : KeyStore → User → Call → KeyStore
  step store user call = elim (handle store user call) [ raised e ↦ store | returned after ↦ after ]

  unfoldable pub run : KeyStore → List (User × Call) → KeyStore
  run store [] = store
  run store ((user, call) ∷ calls) = run (step store user call) calls
