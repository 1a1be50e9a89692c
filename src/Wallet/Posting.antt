-- ===== src/Wallet/Posting.antt =====
-- Every operation posts one transaction and keeps the balances equal to the transactions' sums.
use cursor_pulse.Base.{
  ℕ, suc, ◌≤◌, ◌<◌, ◌≡◌, refl, ap, Bool, false, List, [], ◌∷◌, ◌++◌, Option, none, some, arith,
  Bool-cases, inl, inr, ◌==◌, ==_iff, if◌then◌else◌, or_else, any, any-append, All, All-mono,
  All-append,
}
use cursor_pulse.Base.Int.{ℤ, pos, ◌+ℤ◌, int_laws}
use cursor_pulse.Base.Dict.{lookup, insert, lookup-insert, Distinct, insert-Distinct, nat_eq}
use cursor_pulse.Base.Text.{Text}
use cursor_pulse.Wallet.{
  CreditTransaction, Wallets, Kind, read_balance, apply_delta, post, sum_amounts, has_refund, holds,
}

abbrev pub of_member : ℕ → CreditTransaction → Bool
of_member m t = t.member_id == m

-- Balances equal the sums of the transactions, no member has transactions without an account, and
-- ids and the references to them lie below the next id.
pub record IsSound (w : Wallets) : Type 0 where
  pub distinct : Distinct w.accounts
  pub balanced : (m : ℕ) → read_balance w m ≡ sum_amounts m w.transactions
  pub covered : (m : ℕ) → lookup m w.accounts ≡ none → any (of_member m) w.transactions ≡ false
  pub fresh : All (λ t. t.id < w.next_id) w.transactions
  pub backward : (n : ℕ) → w.next_id ≤ n → has_refund n w.transactions ≡ false

sum_amounts-append :
    (m : ℕ) (xs ys : List CreditTransaction)
    → sum_amounts m (xs ++ ys) ≡ sum_amounts m xs +ℤ sum_amounts m ys
unfolding sum_amounts
sum_amounts-append m [] ys = omega int_laws
sum_amounts-append m (t ∷ xs) ys = grind (int_laws, sum_amounts-append m xs ys)

lookup-apply_delta :
    (w : Wallets) (m j : ℕ) (delta : ℤ)
    → lookup j (apply_delta w m delta).0.accounts
      ≡ (if j == m then some (read_balance w m +ℤ delta) else lookup j w.accounts)
unfolding apply_delta
lookup-apply_delta w m j delta = ground (
  arith,
  lookup-insert m m (pos 0) w.accounts,
  lookup-insert m j (pos 0) w.accounts,
  lookup-insert m j (pos 0 +ℤ delta) (insert m (pos 0) w.accounts),
  lookup-insert m j (or_else (lookup m w.accounts) (pos 0) +ℤ delta) w.accounts,
)

-- The balance of the member moves by the amount, and no other does.
read_balance-apply_delta :
    (w : Wallets) (m j : ℕ) (delta : ℤ)
    → read_balance (apply_delta w m delta).0 j
      ≡ (if j == m then read_balance w m +ℤ delta else read_balance w j)
unfolding read_balance
read_balance-apply_delta w m j delta = ground (arith, lookup-apply_delta w m j delta)

apply_delta-Distinct :
    (w : Wallets) (m : ℕ) (delta : ℤ)
    → Distinct w.accounts
    → Distinct (apply_delta w m delta).0.accounts
unfolding apply_delta
apply_delta-Distinct w m delta d = ground (
  arith,
  insert-Distinct m (pos 0) w.accounts d,
  lookup-insert m m (pos 0) w.accounts,
  insert-Distinct m (pos 0 +ℤ delta) (insert m (pos 0) w.accounts),
  insert-Distinct m (or_else (lookup m w.accounts) (pos 0) +ℤ delta) w.accounts d,
)

apply_delta_rest :
    (w : Wallets) (m : ℕ) (delta : ℤ)
    → ((apply_delta w m delta).0.transactions ≡ w.transactions)
      × ((apply_delta w m delta).0.next_id ≡ w.next_id)
      × ((apply_delta w m delta).1 ≡ read_balance (apply_delta w m delta).0 m)
unfolding apply_delta
apply_delta_rest w m delta = ground arith

module _ (w : Wallets) (kind : Kind) (m : ℕ) (amount : ℤ) (usage_id ref actor : Option ℕ)
    (note : Option Text) where
  abbrev pub posted : CreditTransaction × Wallets
  posted = post w kind m amount usage_id ref actor note

  post_balance :
      (j : ℕ)
      → read_balance posted.1 j ≡ (if j == m then read_balance w m +ℤ amount else read_balance w j)
  unfolding post read_balance
  post_balance j = read_balance-apply_delta w m j amount

  -- The row that a posting adds, and the balance that it records.
  pub post_row :
      (posted.1.transactions ≡ w.transactions ++ posted.0 ∷ [])
      × (posted.0.member_id ≡ m)
      × (posted.0.amount_cents ≡ amount)
      × (posted.0.balance_after_cents ≡ read_balance posted.1 m)
  unfolding post read_balance
  post_row =
      let (same, _, read) = apply_delta_rest w m amount in
      (ap (λ (txns : List CreditTransaction). txns ++ posted.0 ∷ []) same, refl, refl, read)

  post_lookup :
      (j : ℕ)
      → lookup j posted.1.accounts
        ≡ (if j == m then some (read_balance w m +ℤ amount) else lookup j w.accounts)
  unfolding post
  post_lookup j = lookup-apply_delta w m j amount

  pub post_ref : posted.0.ref_transaction_id ≡ ref
  unfolding post
  post_ref = refl

  pub post_usage : posted.0.usage_id ≡ usage_id
  unfolding post
  post_usage = refl

  pub post_kind : posted.0.kind ≡ kind
  unfolding post
  post_kind = refl

  post_note : posted.0.note ≡ note
  unfolding post
  post_note = refl

  post_ids : (posted.0.id ≡ w.next_id) × (posted.1.next_id ≡ suc w.next_id)
  unfolding post
  post_ids = (refl, ap suc (apply_delta_rest w m amount).1)

  post-Distinct : Distinct w.accounts → Distinct posted.1.accounts
  unfolding post
  post-Distinct d = apply_delta-Distinct w m amount d

  post_balanced :
      ((j : ℕ) → read_balance w j ≡ sum_amounts j w.transactions)
      → (j : ℕ) → read_balance posted.1 j ≡ sum_amounts j posted.1.transactions
  unfolding sum_amounts
  post_balanced balanced j =
      let (rows, mine, amount_of, _) = post_row in
      let row = sum_amounts-append j w.transactions (posted.0 ∷ []) in
      rw (rows, row, post_balance j)
        (elim (Bool-cases (j == m)) [
          | inl e ↦ grind (int_laws, balanced j, (==_iff j m).0 e, mine, amount_of)
          | inr e ↦ grind (int_laws, balanced j, e, mine)
        ])

  post_covered :
      ((j : ℕ) → lookup j w.accounts ≡ none → any (of_member j) w.transactions ≡ false)
      → (j : ℕ) → lookup j posted.1.accounts ≡ none
      → any (of_member j) posted.1.transactions ≡ false
  post_covered covered j none_yet =
      let (rows, mine, _, _) = post_row in
      rw (rows, any-append (of_member j) w.transactions (posted.0 ∷ []), mine)
        (ground (arith, post_lookup j, covered j))

  post_fresh :
      All (λ t. t.id < w.next_id) w.transactions
      → All (λ t. t.id < posted.1.next_id) posted.1.transactions
  post_fresh fresh =
      let (rows, _, _, _) = post_row in
      let (own, next) = post_ids in
      rw rows (
        All-append (λ t. t.id < posted.1.next_id) w.transactions (posted.0 ∷ [])
          (All-mono (λ t. t.id < w.next_id) (λ t. t.id < posted.1.next_id)
            (λ t h. omega (arith, next)) w.transactions fresh)
          (omega (arith, own, next), tt))

  post_backward :
      ((n : ℕ) → w.next_id ≤ n → has_refund n w.transactions ≡ false)
      → ((n : ℕ) → w.next_id ≤ n → holds ref n ≡ false)
      → (n : ℕ) → posted.1.next_id ≤ n
      → has_refund n posted.1.transactions ≡ false
  post_backward backward known n le =
      let (rows, _, _, _) = post_row in
      let (_, next) = post_ids in
      rw
        (
          rows,
          any-append (λ t. holds t.ref_transaction_id n) w.transactions (posted.0 ∷ []),
          post_ref,
        )
        (ground (arith, backward n (omega (arith, next)), known n (omega (arith, next))))

  pub post-IsSound : ((n : ℕ) → w.next_id ≤ n → holds ref n ≡ false) → IsSound w → IsSound posted.1
  post-IsSound known v = record {
    distinct = post-Distinct v.distinct;
    balanced = post_balanced v.balanced;
    covered = post_covered v.covered;
    fresh = post_fresh v.fresh;
    backward = post_backward v.backward known;
  }
