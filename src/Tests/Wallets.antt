-- ===== src/Tests/Wallets.antt =====
-- The wallets at concrete inputs.
use cursor_pulse.Base.{ℕ, ◌≡◌, ◌↔◌, refl, List, [], ◌∷◌, none, some}
use cursor_pulse.Base.Dict.{nat_eq}
use cursor_pulse.Base.Int.{pos, negsuc, neg, ◌+ℤ◌}
use cursor_pulse.Base.Text.{codes, strip}
use cursor_pulse.Wallet.{
  Kind, CreditTransaction, Wallets, UsageRow, ok, err, already_refunded, read_balance, sum_amounts,
  find_id, charge_usage, refund_charge, reconcile, post, is_unpaid, find_usage,
}
use cursor_pulse.Wallet.Audit.{Balanced, Covered, reconcile-nil}
use cursor_pulse.Wallet.Once.{charge_usage_once, refund_charge_once}
use cursor_pulse.Wallet.Runs.{Operation, grants, charges, refunds, run, no_wallets, reconcile-run}

abbrev usage_row : UsageRow
usage_row = record { id = 9; usage_cap_pool = some (codes "api"); cost_cents = some (pos 120) }

abbrev operations : List Operation
operations = grants 7 (pos 500) none none ∷ charges 7 usage_row ∷ refunds 2 none none ∷ []

reconcile-run_example :
    ((m : ℕ)
      → read_balance (run no_wallets operations) m
        ≡ sum_amounts m (run no_wallets operations).transactions)
    × (reconcile (run no_wallets operations) ≡ [])
reconcile-run_example = reconcile-run operations

-- A wallet whose balance the transactions do not explain.
abbrev drifted : Wallets
drifted = record { accounts = (7, pos 500) ∷ []; transactions = []; next_id = 1 }

reconcile-nil_example : (reconcile drifted ≡ []) ↔ (Balanced drifted × Covered drifted)
reconcile-nil_example = reconcile-nil drifted (refl, tt)

abbrev charge_row : CreditTransaction
charge_row = record {
  id = 1;
  member_id = 7;
  kind = Kind.charge;
  amount_cents = negsuc 119;
  balance_after_cents = negsuc 119;
  usage_id = some 9;
  ref_transaction_id = none;
  actor_member_id = none;
  note = none;
}

abbrev charged : Wallets
charged = record { accounts = (7, negsuc 119) ∷ []; transactions = charge_row ∷ []; next_id = 2 }

charge_run : charge_usage no_wallets 7 usage_row ≡ (some charge_row, charged)
unfolding charge_usage no_wallets is_unpaid find_usage post neg ◌+ℤ◌ strip
charge_run = refl

charge_usage_once_example : charge_usage charged 8 usage_row ≡ (some charge_row, charged)
charge_usage_once_example = charge_usage_once no_wallets charged 7 8 usage_row charge_row charge_run

abbrev refund_row : CreditTransaction
refund_row = record {
  id = 2;
  member_id = 7;
  kind = Kind.refund;
  amount_cents = pos 120;
  balance_after_cents = pos 0;
  usage_id = none;
  ref_transaction_id = some 1;
  actor_member_id = none;
  note = none;
}

abbrev refunded : Wallets
refunded = record {
  accounts = (7, pos 0) ∷ [];
  transactions = charge_row ∷ refund_row ∷ [];
  next_id = 3;
}

refund_run : refund_charge charged 1 none none ≡ ok (refund_row, refunded)
unfolding refund_charge find_id post neg ◌+ℤ◌
refund_run = refl

refund_charge_once_example :
    ((original : CreditTransaction) × (find_id 1 charged.transactions ≡ some original)
      × (refund_row.member_id ≡ original.member_id)
      × (refund_row.amount_cents ≡ neg original.amount_cents))
    × (refund_charge refunded 1 (some 3) none ≡ err already_refunded)
refund_charge_once_example =
    refund_charge_once charged refunded 1 none (some 3) none none refund_row refund_run
