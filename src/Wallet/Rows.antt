-- ===== src/Wallet/Rows.antt =====
-- The rows of pulse/storage/models.py that the wallets stand on, and the reports of the audit.
use cursor_pulse.Base.{ℕ, Bool, true, false, List, Option}
use cursor_pulse.Base.Int.{ℤ}
use cursor_pulse.Base.Dict.{Dict}
use cursor_pulse.Base.Text.{Text}

pub data Kind : Type 0 where
  grant adjust refund charge : Kind

abbrev pub is_charge : Kind → Bool
is_charge Kind.charge = true
is_charge Kind.grant = false
is_charge Kind.adjust = false
is_charge Kind.refund = false

pub record CreditTransaction : Type 0 where
  pub id : ℕ
  pub member_id : ℕ
  pub kind : Kind
  pub amount_cents : ℤ
  pub balance_after_cents : ℤ
  pub usage_id : Option ℕ
  pub ref_transaction_id : Option ℕ
  pub actor_member_id : Option ℕ
  pub note : Option Text

pub record Wallets : Type 0 where
  pub accounts : Dict ℕ ℤ
  pub transactions : List CreditTransaction
  pub next_id : ℕ

pub data CreditError : Type 0 where
  amount_not_positive amount_zero note_missing not_a_charge already_refunded : CreditError

-- The columns of `ProxyKeyUsage` that a charge reads; no cost is 0.
pub record UsageRow : Type 0 where
  pub id : ℕ
  pub usage_cap_pool : Option Text
  pub cost_cents : Option ℤ

pub record Mismatch : Type 0 where
  pub member_id : ℕ
  pub balance_cents : ℤ
  pub sum_amount_cents : ℤ
  pub delta : ℤ
