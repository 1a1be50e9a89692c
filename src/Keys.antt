-- ===== src/Keys.antt =====
-- pulse/proxy/key_crud.py and pulse/proxy/ide_keys.py: the proxy keys of the members. A key's text is
-- its hash, a number; the generators of new keys and the encryption are outside the program, so a new
-- hash is an argument, and what is stored encrypted is not kept.
pub mod Answer
pub mod Authorize
pub mod Backed
pub mod Safety
pub mod Ended
pub mod Store
pub mod Handlers
pub mod Dead
pub mod Revoked
pub mod Owner
pub mod CodingPlan
use cursor_pulse.Base.{
  ℕ, suc, Bool, true, false, not, ◌&&◌, List, [], ◌∷◌, ◌++◌, map, Option, none, some, ◌==◌,
  if◌then◌else◌,
}
use cursor_pulse.Base.Text.{Text}

pub data KeyStatus : Type 0 where
  active suspended revoked : KeyStatus

pub data KeyMode : Type 0 where
  quota coding_plan : KeyMode

pub record ProxyKey : Type 0 where
  pub id : ℕ
  pub key_hash : ℕ
  pub member_id : ℕ
  pub mode : KeyMode
  pub coding_plan_vendor : Option Text
  pub window_5h_cost_limit_cents : Option ℕ
  pub window_7d_cost_limit_cents : Option ℕ
  pub status : KeyStatus
  pub suspended_reason : Option Text
  pub expires_at : Option ℕ
  pub ide_key_hash : Option ℕ

unfoldable pub get_key : ℕ → List ProxyKey → Option ProxyKey
get_key id [] = none
get_key id (k ∷ keys) = if k.id == id then some k else get_key id keys
