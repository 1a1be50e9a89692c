-- ===== src/Wallet.antt =====
-- pulse/proxy/credit.py: the members' credit wallets, with the two tables that the module keeps: an
-- account's balance, and the transactions that made it. Ids are numbers; a row's timestamps are left
-- out, and so is the race that `_ensure_account` guards against, since one session is modelled.
mod Rows
pub use Rows.{
  Kind, CreditTransaction, Wallets, CreditError, amount_not_positive, amount_zero, note_missing,
  not_a_charge, already_refunded, UsageRow, Mismatch, is_charge,
}
pub mod Posting
pub mod Audit
pub mod Once
pub mod Runs
use cursor_pulse.Base.{
  ℕ, zero, suc, ◌+◌, ◌≡◌, Bool, true, false, not, ◌&&◌, ◌||◌, List, [], ◌∷◌, ◌++◌, Option, none,
  some, ◌==◌, if◌then◌else◌, or_else, is_some, any,
}
use cursor_pulse.Base.Int.{ℤ, pos, ◌+ℤ◌, ◌-ℤ◌, neg, leb_ℤ, ◌==ℤ◌}
use cursor_pulse.Base.Dict.{Dict, lookup, insert, nat_eq}
use cursor_pulse.Base.Text.{Text, codes, strip, text_eq, is_empty, text_or_empty}

-- Every operation raises before it writes.
pub data Result {ℓ} (A : Type ℓ) : Type ℓ where
  ok : A → Result A
  err : CreditError → Result A

pub read_balance : Wallets → ℕ → ℤ
read_balance w member_id = or_else (lookup member_id w.accounts) (pos 0)

ensure_account : Wallets → ℕ → Wallets
ensure_account w member_id =
    if is_some (lookup member_id w.accounts)
    then w
    else record w { accounts = insert member_id (pos 0) w.accounts }

-- The UPDATE statement changes the row of the member, and no row if there is none.
update_balance : Wallets → ℕ → ℤ → Wallets
update_balance w member_id delta = elim (lookup member_id w.accounts) [
  | none ↦ w
  | some balance ↦ record w { accounts = insert member_id (balance +ℤ delta) w.accounts }
]

pub apply_delta : Wallets → ℕ → ℤ → Wallets × ℤ
unfolding ensure_account update_balance read_balance
apply_delta w member_id delta =
    let w' = update_balance (ensure_account w member_id) member_id delta in
    (w', read_balance w' member_id)

-- `session.add(txn)` and `flush`, which gives the row its id.
add_transaction : Wallets → CreditTransaction → Wallets
add_transaction w txn = record w {
  transactions = w.transactions ++ txn ∷ [];
  next_id = suc w.next_id;
}

-- The three statements that end every operation.
unfoldable pub post :
    Wallets
    → Kind
    → ℕ
    → ℤ
    → Option ℕ
    → Option ℕ
    → Option ℕ
    → Option Text
    → CreditTransaction × Wallets
unfolding apply_delta add_transaction
post w kind member_id amount usage_id ref actor note =
    let (w', balance) = apply_delta w member_id amount in
    let txn : CreditTransaction = record {
      id = w.next_id;
      member_id = member_id;
      kind = kind;
      amount_cents = amount;
      balance_after_cents = balance;
      usage_id = usage_id;
      ref_transaction_id = ref;
      actor_member_id = actor;
      note = note;
    } in
    (txn, add_transaction w' txn)

unfoldable pub grant :
    Wallets → ℕ → ℤ → Option ℕ → Option Text → Result (CreditTransaction × Wallets)
grant w member_id amount actor note =
    if leb_ℤ amount (pos 0)
    then err amount_not_positive
    else ok (post w Kind.grant member_id amount none none actor note)

pub adjust : Wallets → ℕ → ℤ → Option ℕ → Text → Result (CreditTransaction × Wallets)
adjust w member_id amount actor note =
    if amount ==ℤ pos 0
    then err amount_zero
    else if is_empty (strip note)
    then err note_missing
    else ok (post w Kind.adjust member_id amount none none actor (some (strip note)))

-- `session.get(CreditTransaction, id)`
unfoldable pub find_id : ℕ → List CreditTransaction → Option CreditTransaction
find_id id [] = none
find_id id (t ∷ txns) = if t.id == id then some t else find_id id txns

-- SQL's `column = value`, which NULL never meets.
abbrev pub holds : Option ℕ → ℕ → Bool
holds none n = false
holds (some m) n = m == n

unfoldable pub find_usage : ℕ → List CreditTransaction → Option CreditTransaction
find_usage id [] = none
find_usage id (t ∷ txns) = if holds t.usage_id id then some t else find_usage id txns

abbrev pub has_refund : ℕ → List CreditTransaction → Bool
has_refund id = any λ t. holds t.ref_transaction_id id

unfoldable pub refund_charge :
    Wallets → ℕ → Option ℕ → Option Text → Result (CreditTransaction × Wallets)
refund_charge w txn_id actor note = elim (find_id txn_id w.transactions) [
  | none ↦ err not_a_charge
  | some original ↦
      if not (is_charge original.kind)
      then err not_a_charge
      else if has_refund txn_id w.transactions
      then err already_refunded
      else ok (
          post w Kind.refund original.member_id (neg original.amount_cents) none (some txn_id) actor
            note)
]

-- The two tests for a row that no wallet pays.
unfoldable pub is_unpaid : UsageRow → Bool
is_unpaid row =
    text_eq (strip (text_or_empty row.usage_cap_pool)) (codes "skip")
    || or_else row.cost_cents (pos 0) ==ℤ pos 0

unfoldable pub charge_usage : Wallets → ℕ → UsageRow → Option CreditTransaction × Wallets
charge_usage w member_id row =
    let cost = or_else row.cost_cents (pos 0) in
    if is_unpaid row then (none, w) else elim (find_usage row.id w.transactions) [
      | some existing ↦ (some existing, w)
      | none ↦
          let (txn, w') = post w Kind.charge member_id (neg cost) (some row.id) none none none in
          (some txn, w')
    ]

-- SQL's SUM over a member's transactions; over none it is 0.
pub sum_amounts : ℕ → List CreditTransaction → ℤ
sum_amounts member_id [] = pos 0
sum_amounts member_id (t ∷ txns) =
    let rest = sum_amounts member_id txns in
    if t.member_id == member_id then t.amount_cents +ℤ rest else rest

-- The loop over the accounts.
pub account_mismatches : List CreditTransaction → Dict ℕ ℤ → List Mismatch
unfolding sum_amounts
account_mismatches txns [] = []
account_mismatches txns ((member_id, balance) ∷ accounts) =
    let summed = sum_amounts member_id txns in
    let rest = account_mismatches txns accounts in
    if summed ==ℤ balance
    then rest
    else record {
      member_id = member_id;
      balance_cents = balance;
      sum_amount_cents = summed;
      delta = balance -ℤ summed;
    }
      ∷ rest

-- SQL's DISTINCT, in the order of the first rows.
pub distinct_members : List CreditTransaction → List ℕ → List ℕ
distinct_members [] seen = []
distinct_members (t ∷ txns) seen =
    let known = distinct_members txns seen in
    let new = distinct_members txns (t.member_id ∷ seen) in
    if any (λ m. m == t.member_id) seen then known else t.member_id ∷ new

-- The loop over the members that have transactions.
pub orphan_mismatches : Wallets → List ℕ → List Mismatch
unfolding sum_amounts
orphan_mismatches w [] = []
orphan_mismatches w (member_id ∷ members) =
    let rest = orphan_mismatches w members in
    let summed = sum_amounts member_id w.transactions in
    if is_some (lookup member_id w.accounts)
    then rest
    else record {
      member_id = member_id;
      balance_cents = pos 0;
      sum_amount_cents = summed;
      delta = neg summed;
    }
      ∷ rest

pub reconcile : Wallets → List Mismatch
unfolding account_mismatches distinct_members orphan_mismatches
reconcile w =
    account_mismatches w.transactions w.accounts
    ++ orphan_mismatches w (distinct_members w.transactions [])
