-- ===== src/Wallet/Once.antt =====
-- A usage row is charged once and a charge is refunded once.
use cursor_pulse.Base.{
  ℕ, ◌<◌, ◌≡◌, true, false, List, [], ◌∷◌, ◌++◌, Option, none, some, arith, ◌⊎◌, or_else,
  Bool-cases, Option-cases, inl, inr, any-append, All,
}
use cursor_pulse.Base.Int.{pos, neg}
use cursor_pulse.Base.Text.{Text}
use cursor_pulse.Wallet.{
  CreditTransaction, Wallets, Kind, ok, err, already_refunded, UsageRow, post, refund_charge,
  charge_usage, find_id, find_usage, holds, has_refund, is_charge, is_unpaid,
}
use cursor_pulse.Wallet.Posting.{post_row, post_ref, post_usage}

find_usage-append :
    (id : ℕ) (t : CreditTransaction) (txns : List CreditTransaction)
    → find_usage id txns ≡ none
    → holds t.usage_id id ≡ true
    → find_usage id (txns ++ t ∷ []) ≡ some t
unfolding find_usage
find_usage-append id t [] e h = rw h
find_usage-append id t (x ∷ txns) e h = ground (arith, find_usage-append id t txns)

find_id-append :
    (id : ℕ) (t x : CreditTransaction) (txns : List CreditTransaction)
    → find_id id txns ≡ some x
    → find_id id (txns ++ t ∷ []) ≡ some x
unfolding find_id
find_id-append id t x [] e = cc
find_id-append id t x (y ∷ txns) e = ground (arith, find_id-append id t x txns)

find_id_new :
    (n : ℕ) (t : CreditTransaction) (txns : List CreditTransaction)
    → All (λ x. x.id < n) txns
    → t.id ≡ n
    → find_id n (txns ++ t ∷ []) ≡ some t
unfolding find_id
find_id_new n t [] a e = ground arith
find_id_new n t (x ∷ txns) a e = ground (arith, find_id_new n t txns a.1 e)

pub find_id-lt :
    (id n : ℕ) (x : CreditTransaction) (txns : List CreditTransaction)
    → All (λ t. t.id < n) txns
    → find_id id txns ≡ some x
    → id < n
unfolding find_id
find_id-lt id n x [] a e = cc
find_id-lt id n x (y ∷ txns) a e = ground (arith, find_id-lt id n x txns a.1)

module _ (w w' : Wallets) (m : ℕ) (row : UsageRow) (t : CreditTransaction) where
  abbrev charged : CreditTransaction × Wallets
  charged = post w Kind.charge m (neg (or_else row.cost_cents (pos 0))) (some row.id) none none none

  -- A charge that returns a transaction has found it or posted it.
  charge_usage_cases :
      charge_usage w m row ≡ (some t, w')
      → (is_unpaid row ≡ false)
        × ((find_usage row.id w.transactions ≡ some t) × (w' ≡ w)
            ⊎ (find_usage row.id w.transactions ≡ none) × (t ≡ charged.0) × (w' ≡ charged.1))
  unfolding charge_usage
  charge_usage_cases e = elim (Bool-cases (is_unpaid row)) [
    | inl unpaid ↦ ground arith
    | inr paid ↦ elim (Option-cases (find_usage row.id w.transactions)) [
      | inl new ↦ (paid, inr (new, ground arith, ground arith))
      | inr (x, old) ↦ (paid, inl (ground arith, ground arith))
    ]
  ]

  charge_usage_found :
      charge_usage w m row ≡ (some t, w') → find_usage row.id w'.transactions ≡ some t
  charge_usage_found e = elim ((charge_usage_cases e).1) [
    | inl (old, same) ↦ rw same old
    | inr (new, is, after) ↦
        let (rows, _, _, _) =
          post_row w Kind.charge m (neg (or_else row.cost_cents (pos 0))) (some row.id) none none
            none in
        let own =
          post_usage w Kind.charge m (neg (or_else row.cost_cents (pos 0))) (some row.id) none none
            none in
        rw (after, is, rows)
          (find_usage-append row.id charged.0 w.transactions new (rw own (ground arith)))
  ]

-- Charging a usage row that has been charged changes nothing and returns the first transaction,
-- whichever member the second call names.
pub charge_usage_once :
    (w w' : Wallets) (m m' : ℕ) (row : UsageRow) (t : CreditTransaction)
    → charge_usage w m row ≡ (some t, w')
    → charge_usage w' m' row ≡ (some t, w')
unfolding charge_usage
charge_usage_once w w' m m' row t e =
    rw ((charge_usage_cases w w' m row t e).0, charge_usage_found w w' m row t e)

module _ (w w' : Wallets) (id : ℕ) (actor : Option ℕ) (note : Option Text)
    (t : CreditTransaction) where
  abbrev refunded : CreditTransaction → CreditTransaction × Wallets
  refunded original =
      post w Kind.refund original.member_id (neg original.amount_cents) none (some id) actor note

  refund_charge_cases :
      refund_charge w id actor note ≡ ok (t, w')
      → (original : CreditTransaction) × (find_id id w.transactions ≡ some original)
        × (is_charge original.kind ≡ true)
        × (has_refund id w.transactions ≡ false)
        × (t ≡ (refunded original).0)
        × (w' ≡ (refunded original).1)
  unfolding refund_charge
  refund_charge_cases e = elim (Option-cases (find_id id w.transactions)) [
    | inl gone ↦ ground arith
    | inr (x, found) ↦ (x, found, ground arith, ground arith, ground arith, ground arith)
  ]

refund_charge_refused :
    (w : Wallets) (id : ℕ) (actor : Option ℕ) (remark : Option Text) (x : CreditTransaction)
    → find_id id w.transactions ≡ some x
    → is_charge x.kind ≡ true
    → has_refund id w.transactions ≡ true
    → refund_charge w id actor remark ≡ err already_refunded
unfolding refund_charge
refund_charge_refused w id actor remark x found is known = ground arith

-- A refund that goes through is made to the member that was charged, for the amount of the charge,
-- and a second refund of the same charge is refused, whatever its actor and note.
pub refund_charge_once :
    (w w' : Wallets) (id : ℕ) (actor actor' : Option ℕ) (note note' : Option Text)
    (t : CreditTransaction)
    → refund_charge w id actor note ≡ ok (t, w')
    → ((original : CreditTransaction) × (find_id id w.transactions ≡ some original)
        × (t.member_id ≡ original.member_id)
        × (t.amount_cents ≡ neg original.amount_cents))
      × (refund_charge w' id actor' note' ≡ err already_refunded)
refund_charge_once w w' id actor actor' note note' t e =
    let (x, found, is, first, made, after) = refund_charge_cases w w' id actor note t e in
    let (rows, mine, amount, _) =
      post_row w Kind.refund x.member_id (neg x.amount_cents) none (some id) actor note in
    let ref = post_ref w Kind.refund x.member_id (neg x.amount_cents) none (some id) actor note in
    let txn = (post w Kind.refund x.member_id (neg x.amount_cents) none (some id) actor note).0 in
    let again : find_id id (w.transactions ++ txn ∷ []) ≡ some x =
      find_id-append id txn x w.transactions found in
    let known : has_refund id (w.transactions ++ txn ∷ []) ≡ true =
      rw (any-append (λ t. holds t.ref_transaction_id id) w.transactions (txn ∷ []), ref)
        (ground arith) in
    (
      (x, found, rw made mine, rw made amount),
      refund_charge_refused w' id actor' note' x (rw (after, rows) again) is
          (rw (after, rows) known),
    )
