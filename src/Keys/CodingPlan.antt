-- ===== src/Keys/CodingPlan.antt =====
-- pulse/openai_proxy/authorize.py: the keys of the OpenAI gateway, and `window_usage_cost` of
-- pulse/proxy/usage.py. Times are microseconds since an origin that lies more than 7 days before any row.
use cursor_pulse.Base.{
  ℕ, ◌-◌, ◌≡◌, ◌⊎◌, refl, sym, Bool, true, false, not, ◌&&◌, ◌||◌, List, [], ◌∷◌, Option, none,
  some, arith, ◌==◌, ltb, leb, if◌then◌else◌, keep, sum_by, Bool-cases, Option-cases, inl, inr,
}
use cursor_pulse.Base.Text.{Text, codes, strip, lower, starts_with, text_or_empty, is_empty}
use cursor_pulse.Keys.{ProxyKey, KeyStatus, active, suspended, revoked}
use cursor_pulse.Keys.Answer.{find_key_by_hash, is_past, is_key_active, reason_text}
use cursor_pulse.Keys.Store.{is_cp_vendor}
use cursor_pulse.Keys.Handlers.{is_coding_plan}

pub record KeyUsage : Type 0 where
  pub proxy_key_id : ℕ
  pub ts : ℕ
  pub cost_cents : ℕ

abbrev pub window_5h : ℕ
window_5h = 18_000_000_000

abbrev pub window_7d : ℕ
window_7d = 604_800_000_000

unfoldable pub window_usage_cost : List KeyUsage → ℕ → ℕ → ℕ → ℕ
window_usage_cost table id window now =
    sum_by (λ row. row.cost_cents)
      (keep (λ row. row.proxy_key_id == id && leb (now - window) row.ts) table)

pub data PkcpStatus : Type 0 where
  ok invalid soft_suspended window_limited : PkcpStatus

pub data PkcpReason : Type 0 where
  unknown_key not_coding_plan_key is_revoked is_expired : PkcpReason
  window_5h_exceeded window_7d_exceeded : PkcpReason
  suspended_for : Text → PkcpReason

pub record PkcpAnswer : Type 0 where
  pub status : PkcpStatus
  pub proxy_key_id : Option ℕ
  pub coding_plan_vendor : Option Text
  pub reason : Option PkcpReason

abbrev refused : PkcpReason → PkcpAnswer
refused reason = record {
  status = invalid;
  proxy_key_id = none;
  coding_plan_vendor = none;
  reason = some reason;
}

abbrev pub vendor_of : ProxyKey → Text
vendor_of key = lower (strip (text_or_empty key.coding_plan_vendor))

abbrev about : ProxyKey → PkcpStatus → Option PkcpReason → PkcpAnswer
about key status reason = record {
  status = status;
  proxy_key_id = some key.id;
  coding_plan_vendor = if is_empty (vendor_of key) then none else some (vendor_of key);
  reason = reason;
}

-- Whether a limit, where there is one, is reached.
abbrev pub is_reached : Option ℕ → ℕ → Bool
is_reached none used = false
is_reached (some limit) used = leb limit used

module _ (table : List KeyUsage) (now : ℕ) where
  abbrev pub used_in : ProxyKey → ℕ → ℕ
  used_in key window = window_usage_cost table key.id window now

  -- From the limits on.
  unfoldable pub authorize_windows : ProxyKey → PkcpAnswer
  authorize_windows key =
      if is_reached key.window_5h_cost_limit_cents (used_in key window_5h)
      then about key window_limited (some window_5h_exceeded)
      else if is_reached key.window_7d_cost_limit_cents (used_in key window_7d)
      then about key window_limited (some window_7d_exceeded)
      else about key ok none

  -- From the row of the key on.
  unfoldable pub authorize_pkcp_row : ProxyKey → PkcpAnswer
  authorize_pkcp_row key =
      if not (is_coding_plan key.mode) || not (is_cp_vendor (vendor_of key))
      then about key invalid (some not_coding_plan_key)
      else elim key.status [
        | revoked ↦ about key invalid (some is_revoked)
        | suspended ↦
            if is_past key.expires_at now
            then about key invalid (some is_expired)
            else about key soft_suspended (some (suspended_for (reason_text key.suspended_reason)))
        | active ↦
            if is_past key.expires_at now
            then about key invalid (some is_expired)
            else authorize_windows key
      ]

  unfoldable pub authorize_pkcp : (Text → ℕ) → List ProxyKey → Option Text → PkcpAnswer
  authorize_pkcp hash keys plaintext =
      let text = strip (text_or_empty plaintext) in
      if not (starts_with text (codes "pkcp_"))
      then refused unknown_key
      else elim (find_key_by_hash (hash text) keys) [
        | none ↦ refused unknown_key
        | some key ↦ authorize_pkcp_row key
      ]

abbrev pub is_ok : PkcpStatus → Bool
is_ok ok = true
is_ok invalid = false
is_ok soft_suspended = false
is_ok window_limited = false

-- What each row of the table adds to the cost of a key since a time, and whether it stays below a limit.
abbrev pub cost_since : List KeyUsage → ℕ → ℕ → ℕ
cost_since table id since =
    sum_by (λ row. if row.proxy_key_id == id && leb since row.ts then row.cost_cents else 0) table

abbrev pub stays_below : Option ℕ → ℕ → Bool
stays_below none used = true
stays_below (some limit) used = ltb used limit

abbrev pub may_call : List KeyUsage → ℕ → ProxyKey → Bool
may_call table now key =
    is_coding_plan key.mode
    && is_cp_vendor (vendor_of key)
    && (is_key_active key.status && not (is_past key.expires_at now))
    && stays_below key.window_5h_cost_limit_cents (cost_since table key.id (now - window_5h))
    && stays_below key.window_7d_cost_limit_cents (cost_since table key.id (now - window_7d))

window_usage_cost_lem :
    (id window now : ℕ) (table : List KeyUsage)
    → window_usage_cost table id window now ≡ cost_since table id (now - window)
unfolding window_usage_cost
window_usage_cost_lem id window now [] = refl
window_usage_cost_lem id window now (row ∷ table) =
    ground (arith, window_usage_cost_lem id window now table)

is_reached-not :
    (limit : Option ℕ) (used : ℕ) → not (is_reached limit used) ≡ stays_below limit used
is_reached-not none used = refl
is_reached-not (some limit) used = ground arith

authorize_windows-ok :
    (table : List KeyUsage) (now : ℕ) (key : ProxyKey)
    → is_ok (authorize_windows table now key).status ≡ (
        stays_below key.window_5h_cost_limit_cents (cost_since table key.id (now - window_5h))
        && stays_below key.window_7d_cost_limit_cents (cost_since table key.id (now - window_7d)))
unfolding authorize_windows
authorize_windows-ok table now key =
    let short = window_usage_cost_lem key.id window_5h now table in
    let long = window_usage_cost_lem key.id window_7d now table in
    let below_5h =
      is_reached-not key.window_5h_cost_limit_cents (used_in table now key window_5h) in
    let below_7d =
      is_reached-not key.window_7d_cost_limit_cents (used_in table now key window_7d) in
    rw (sym short, sym long, sym below_5h, sym below_7d) (ground arith)

KeyStatus-cases : (s : KeyStatus) → (s ≡ active) ⊎ ((s ≡ suspended) ⊎ (s ≡ revoked))
KeyStatus-cases active = inl refl
KeyStatus-cases suspended = inr (inl refl)
KeyStatus-cases revoked = inr (inr refl)

authorize_pkcp_row-ok :
    (table : List KeyUsage) (now : ℕ) (key : ProxyKey)
    → is_ok (authorize_pkcp_row table now key).status ≡ may_call table now key
unfolding authorize_pkcp_row
authorize_pkcp_row-ok table now key =
    let limits = authorize_windows-ok table now key in
    elim (Bool-cases (is_coding_plan key.mode)) [
      | inr other ↦ rw (other, authorize_pkcp_row) refl
      | inl own ↦ elim (Bool-cases (is_cp_vendor (vendor_of key))) [
        | inr other ↦ rw (own, other, authorize_pkcp_row) refl
        | inl served ↦ elim (KeyStatus-cases key.status) [
          | inl live ↦ elim (Bool-cases (is_past key.expires_at now)) [
            | inl past ↦ rw (own, served, live, past, authorize_pkcp_row) refl
            | inr ahead ↦ rw (own, served, live, ahead, authorize_pkcp_row) limits
          ]
          | inr (inl idle) ↦ elim (Bool-cases (is_past key.expires_at now)) [
            | inl past ↦ rw (own, served, idle, past, authorize_pkcp_row) refl
            | inr ahead ↦ rw (own, served, idle, ahead, authorize_pkcp_row) refl
          ]
          | inr (inr done) ↦ rw (own, served, done, authorize_pkcp_row) refl
        ]
      ]
    ]

-- A text of the gateway's kind is accepted exactly where its hash is that of a key for a coding plan of
-- a vendor that is served, the key is active and not past its time, and the costs of its rows in the
-- last 5 hours and in the last 7 days are below its limits.
pub authorize_pkcp_exact :
    (table : List KeyUsage) (now : ℕ) (hash : Text → ℕ) (keys : List ProxyKey)
    (plaintext : Option Text)
    → is_ok (authorize_pkcp table now hash keys plaintext).status ≡ (
        starts_with (strip (text_or_empty plaintext)) (codes "pkcp_")
        && elim (find_key_by_hash (hash (strip (text_or_empty plaintext))) keys) [
          | none ↦ false
          | some key ↦ may_call table now key
        ])
unfolding authorize_pkcp
authorize_pkcp_exact table now hash keys plaintext =
    let text = strip (text_or_empty plaintext) in
    elim (Bool-cases (starts_with text (codes "pkcp_"))) [
      | inr other ↦ rw (other, authorize_pkcp) refl
      | inl ours ↦ elim (Option-cases (find_key_by_hash (hash text) keys)) [
        | inl missing ↦ rw (ours, missing, authorize_pkcp) refl
        | inr (key, found) ↦ rw (ours, found, authorize_pkcp) (authorize_pkcp_row-ok table now key)
      ]
    ]
