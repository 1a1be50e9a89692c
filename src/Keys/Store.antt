-- ===== src/Keys/Store.antt =====
-- pulse/proxy/key_crud.py, with `_issue_new` and `_validate_parent` of pulse/proxy/ide_keys.py: what
-- changes a key's row. A row gets the next free number as its id; its name and hints are not kept.
use cursor_pulse.Base.{
  ℕ, suc, ◌*◌, Bool, true, false, not, ◌||◌, List, [], ◌∷◌, ◌++◌, map, Option, none, some, ◌==◌,
  if◌then◌else◌,
}
use cursor_pulse.Base.Outcome.{Outcome, raised, returned}
use cursor_pulse.Base.Text.{Text, codes, strip, lower, text_eq}
use cursor_pulse.Keys.{ProxyKey, KeyMode, quota, coding_plan, KeyStatus, active, suspended, revoked}

pub data EventType : Type 0 where
  key_suspended key_resumed key_revoked : EventType

pub record ProxyEvent : Type 0 where
  pub event_type : EventType
  pub proxy_key_id : ℕ
  pub detail : Option Text

pub record KeyStore : Type 0 where
  pub keys : List ProxyKey
  pub events : List ProxyEvent
  pub next_id : ℕ

-- A ValueError, and the errors of the requests with their codes.
pub data KeyError : Type 0 where
  unsupported_vendor not_quota : KeyError
  bad_request forbidden not_found conflict unprocessable : KeyError

unfoldable pub usd_to_cents : Option ℕ → Option ℕ
usd_to_cents none = none
usd_to_cents (some usd) = some (usd * 100)

unfoldable pub is_cp_vendor : Text → Bool
is_cp_vendor vendor =
    text_eq vendor (codes "glm")
    || text_eq vendor (codes "minimax")
    || text_eq vendor (codes "kimi")

abbrev pub is_suspended : KeyStatus → Bool
is_suspended active = false
is_suspended suspended = true
is_suspended revoked = false

abbrev pub update_key : (ProxyKey → ProxyKey) → ℕ → List ProxyKey → List ProxyKey
update_key f id = map (λ k. if k.id == id then f k else k)

-- The arguments that `create_key` and `create_coding_plan_key` share; the hash is of the new text.
pub record NewKey : Type 0 where
  pub key_hash : ℕ
  pub member_id : ℕ
  pub window_5h_cost_limit_cents : Option ℕ
  pub window_7d_cost_limit_cents : Option ℕ
  pub expires_at : Option ℕ

unfoldable pub add_key : KeyStore → NewKey → KeyMode → Option Text → KeyStore
add_key store new mode vendor = record store {
  keys =
      store.keys
      ++ record {
        id = store.next_id;
        key_hash = new.key_hash;
        member_id = new.member_id;
        mode = mode;
        coding_plan_vendor = vendor;
        window_5h_cost_limit_cents = new.window_5h_cost_limit_cents;
        window_7d_cost_limit_cents = new.window_7d_cost_limit_cents;
        status = active;
        suspended_reason = none;
        expires_at = new.expires_at;
        ide_key_hash = none;
      }
        ∷ [];
  next_id = suc store.next_id;
}

unfoldable pub create_key : KeyStore → NewKey → KeyStore
create_key store new = add_key store new quota none

unfoldable pub create_coding_plan_key : KeyStore → NewKey → Text → Outcome KeyError KeyStore
create_coding_plan_key store new coding_plan_vendor =
    let vendor = lower (strip coding_plan_vendor) in
    if is_cp_vendor vendor
    then returned (add_key store new coding_plan (some vendor))
    else raised unsupported_vendor

unfoldable pub record_event : KeyStore → EventType → ℕ → Option Text → KeyStore
record_event store event_type id detail = record store {
  events =
      store.events ++ record { event_type = event_type; proxy_key_id = id; detail = detail } ∷ [];
}

-- The three below are given the row.
unfoldable pub suspend_key : KeyStore → ProxyKey → Text → KeyStore
suspend_key store key reason =
    let change =
      λ (k : ProxyKey). record k { status = suspended; suspended_reason = some reason } in
    if is_suspended key.status
    then store
    else record_event (record store { keys = update_key change key.id store.keys }) key_suspended
        key.id (some reason)

unfoldable pub resume_key : KeyStore → ProxyKey → Bool × KeyStore
resume_key store key =
    let change = λ (k : ProxyKey). record k { status = active; suspended_reason = none } in
    if not (is_suspended key.status) then (false, store) else (
      true,
      record_event (record store { keys = update_key change key.id store.keys }) key_resumed key.id
          none,
    )

unfoldable pub rotate_ide_key : KeyStore → ProxyKey → ℕ → Outcome KeyError KeyStore
rotate_ide_key store key ide_hash =
    let change = λ (k : ProxyKey). record k { ide_key_hash = some ide_hash } in
    elim key.mode [
      | coding_plan ↦ raised not_quota
      | quota ↦ returned (record store { keys = update_key change key.id store.keys })
    ]

-- `has_ide_key` says that the stored IDE key is there and can be deciphered.
unfoldable pub get_or_issue_ide_key : KeyStore → ProxyKey → ℕ → Bool → Outcome KeyError KeyStore
get_or_issue_ide_key store key ide_hash has_ide_key = elim key.mode [
  | coding_plan ↦ raised not_quota
  | quota ↦ if has_ide_key then returned store else rotate_ide_key store key ide_hash
]
