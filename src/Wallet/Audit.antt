-- ===== src/Wallet/Audit.antt =====
-- `reconcile` reports nothing exactly when the two tables agree.
use cursor_pulse.Base.{
  ℕ, ◌≡◌, ◌↔◌, refl, sym, Bool, true, false, List, [], ◌∷◌, ◌++◌, none, arith, Bool-cases,
  Option-cases, inl, inr, ◌==◌, ==_iff, is_some, any, All,
}
use cursor_pulse.Base.Int.{ℤ, pos, ◌==ℤ◌, ==ℤ-eq, eq-==ℤ}
use cursor_pulse.Base.Dict.{Dict, lookup, Distinct, nat_eq, All-lookup, All-of_lookup}
use cursor_pulse.Wallet.{
  CreditTransaction, Wallets, read_balance, sum_amounts, account_mismatches, distinct_members,
  orphan_mismatches, reconcile,
}
use cursor_pulse.Wallet.Posting.{of_member}

abbrev pub Covered : Wallets → Type 0
Covered w = (m : ℕ) → lookup m w.accounts ≡ none → any (of_member m) w.transactions ≡ false

abbrev pub Balanced : Wallets → Type 0
Balanced w = (m : ℕ) → read_balance w m ≡ sum_amounts m w.transactions

account_mismatches-nil :
    (txns : List CreditTransaction) (d : Dict ℕ ℤ)
    → (account_mismatches txns d ≡ []) ↔ All (λ i. sum_amounts i.0 txns ≡ i.1) d
unfolding account_mismatches
account_mismatches-nil txns [] = (λ e. tt, λ a. refl)
account_mismatches-nil txns ((m, b) ∷ d) =
    let ih = account_mismatches-nil txns d in
    elim (Bool-cases (sum_amounts m txns ==ℤ b)) [
      | inl same ↦ rw same (λ e. (==ℤ-eq _ _ same, ih.0 e), λ a. ih.1 a.1)
      | inr other ↦ rw other (λ e. cc, λ a. cc (eq-==ℤ _ _ a.0))
    ]

orphan_mismatches-nil :
    (w : Wallets) (members : List ℕ)
    → (orphan_mismatches w members ≡ []) ↔ All (λ m. is_some (lookup m w.accounts) ≡ true) members
unfolding orphan_mismatches
orphan_mismatches-nil w [] = (λ e. tt, λ a. refl)
orphan_mismatches-nil w (m ∷ members) =
    let ih = orphan_mismatches-nil w members in
    elim (Bool-cases (is_some (lookup m w.accounts))) [
      | inl same ↦ rw same (λ e. (refl, ih.0 e), λ a. ih.1 a.1)
      | inr other ↦ rw other (λ e. cc, λ a. cc)
    ]

module _ (p : ℕ → Bool) where
  seen_member :
      (n : ℕ) (seen : List ℕ)
      → All (λ m. p m ≡ true) seen
      → any (λ m. m == n) seen ≡ true
      → p n ≡ true
  seen_member n [] a h = cc
  seen_member n (m ∷ seen) a h = elim (Bool-cases (m == n)) [
    | inl e ↦ rw (← (==_iff m n).0 e) a.0
    | inr e ↦ seen_member n seen a.1 (ground arith)
  ]

  distinct_members-All :
      (txns : List CreditTransaction) (seen : List ℕ)
      → All (λ m. p m ≡ true) seen
      → All (λ m. p m ≡ true) (distinct_members txns seen) ↔ All (λ t. p t.member_id ≡ true) txns
  unfolding distinct_members
  distinct_members-All [] seen a = (λ h. tt, λ h. tt)
  distinct_members-All (t ∷ txns) seen a = elim (Bool-cases (any (λ m. m == t.member_id) seen)) [
    | inl known ↦
        let ih = distinct_members-All txns seen a in
        rw (known, distinct_members, All)
          (λ h. (seen_member t.member_id seen a known, ih.0 h), λ h. ih.1 h.1)
    | inr new ↦
        rw (new, distinct_members, All)
          (
            λ h. (h.0, (distinct_members-All txns (t.member_id ∷ seen) (h.0, a)).0 h.1),
            λ h. (h.0, (distinct_members-All txns (t.member_id ∷ seen) (h.0, a)).1 h.1),
          )
  ]

sum_amounts_none :
    (m : ℕ) (txns : List CreditTransaction)
    → any (of_member m) txns ≡ false
    → sum_amounts m txns ≡ pos 0
unfolding sum_amounts
sum_amounts_none m [] h = refl
sum_amounts_none m (t ∷ txns) h = ground (arith, sum_amounts_none m txns)

is_some-All :
    (w : Wallets) (txns : List CreditTransaction)
    → ((m : ℕ) → lookup m w.accounts ≡ none → any (of_member m) txns ≡ false)
      ↔ All (λ t. is_some (lookup t.member_id w.accounts) ≡ true) txns
is_some-All w [] = (λ h. tt, λ h m e. refl)
is_some-All w (t ∷ txns) =
    let ih = is_some-All w txns in
    (
      (λ h. (ground (arith, h t.member_id), ih.0 (λ m e. ground (arith, h m e)))),
      λ h m e. elim (Bool-cases (t.member_id == m)) [
        | inl own ↦ ground (arith, h.0, e, (==_iff t.member_id m).0 own)
        | inr other ↦ rw other (ih.1 h.1 m e)
      ],
    )

append-nil_inv {ℓ} : {A : Type ℓ} (xs ys : List A) → (xs ++ ys ≡ []) ↔ ((xs ≡ []) × (ys ≡ []))
append-nil_inv [] ys = (λ e. (refl, e), λ h. h.1)
append-nil_inv (x ∷ xs) ys = (λ e. cc, λ h. cc)

-- On wallets with one account row for each member, the audit reports nothing exactly when every
-- balance equals the sum of the member's transactions and every member with transactions has an
-- account.
pub reconcile-nil :
    (w : Wallets) → Distinct w.accounts → (reconcile w ≡ []) ↔ (Balanced w × Covered w)
unfolding reconcile read_balance
reconcile-nil w distinct =
    let txns = w.transactions in
    let sums = account_mismatches-nil txns w.accounts in
    let orphans = orphan_mismatches-nil w (distinct_members txns []) in
    let members = distinct_members-All (λ m. is_some (lookup m w.accounts)) txns [] tt in
    let covers = is_some-All w txns in
    let both =
      append-nil_inv (account_mismatches txns w.accounts)
        (orphan_mismatches w (distinct_members txns [])) in
    (
      (λ e.
          let (none_wrong, none_orphan) = both.0 e in
          let covered = covers.1 (members.0 (orphans.0 none_orphan)) in
          (
            (λ m. elim (Option-cases (lookup m w.accounts)) [
              | inl gone ↦ rw gone (sym (sum_amounts_none m txns (covered m gone)))
              | inr (b, found) ↦ rw found (
                  sym (
                    All-lookup (λ k v. sum_amounts k txns ≡ v) m b w.accounts (sums.0 none_wrong)
                      found))
            ]),
            covered,
          )),
      λ h. both.1 (
        sums.1 (
            All-of_lookup (λ k v. sum_amounts k txns ≡ v) w.accounts distinct
              (λ k v found. ground (arith, h.0 k, found))),
        orphans.1 (members.1 (covers.0 h.1)),
      ),
    )
