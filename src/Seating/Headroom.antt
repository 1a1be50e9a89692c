-- ===== src/Seating/Headroom.antt =====
-- pulse/tool_center/snapshot_headroom.py and pulse/tool_center/quota_pool.py: whether an account has room
-- left in a pool of its quota. A percentage is its whole part, which lies below 100 exactly when it does.
use cursor_pulse.Base.{ℕ, Bool, true, ◌&&◌, ◌||◌, Option, none, some, ltb, if◌then◌else◌}
use cursor_pulse.Base.Text.{Text, strip, is_empty, text_or_empty}
use cursor_pulse.Billing.{is_auto_composer_model, is_likely_byok_model}

pub data QuotaPoolKind : Type 0 where
  auto api unknown : QuotaPoolKind

-- The columns of `AccountQuotaSnapshot` that are read here.
pub record QuotaSnapshot : Type 0 where
  pub auto_pct : Option ℕ
  pub api_pct : Option ℕ

abbrev pub pct_quota_ok : Option ℕ → Bool
pct_quota_ok none = true
pct_quota_ok (some pct) = ltb pct 100

unfoldable snapshot_has_any_pool_headroom : QuotaSnapshot → Bool
snapshot_has_any_pool_headroom s = pct_quota_ok s.auto_pct || pct_quota_ok s.api_pct

unfoldable pub snapshot_quota_ok_for_pool : QuotaPoolKind → QuotaSnapshot → Bool
snapshot_quota_ok_for_pool auto s = pct_quota_ok s.auto_pct
snapshot_quota_ok_for_pool api s = pct_quota_ok s.api_pct
snapshot_quota_ok_for_pool unknown s = pct_quota_ok s.auto_pct && pct_quota_ok s.api_pct

unfoldable quota_pool_for_model : Option Text → QuotaPoolKind
quota_pool_for_model model =
    if is_empty (strip (text_or_empty model))
    then unknown
    else if is_auto_composer_model model || is_likely_byok_model model
    then auto
    else api
