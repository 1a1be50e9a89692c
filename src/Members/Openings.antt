-- ===== src/Members/Openings.antt =====
-- The opening credits that a sequence of postings grants.
use cursor_pulse.Base.{
  ℕ, ◌+◌, ◌≡◌, refl, ap, ◌∙◌, false, List, [], ◌∷◌, Option, none, some, arith, if◌then◌else◌,
  or_else, any, sum_by, sum_by-append, Bool-cases, Option-cases, inl, inr,
}
use cursor_pulse.Base.Int.{ℤ, pos, neg}
use cursor_pulse.Base.Text.{Text}
use cursor_pulse.Wallet.{
  Kind, CreditTransaction, Wallets, UsageRow, post, refund_charge, charge_usage, find_id,
  find_usage, has_refund, is_charge, is_unpaid,
}
use cursor_pulse.Wallet.Posting.{post_row, post_kind}
use cursor_pulse.Wallet.Runs
use cursor_pulse.Wallet.Runs.{Operation, after, no_wallets, no_wallets-IsSound, step-IsSound}
use cursor_pulse.Members.{is_opening, is_grant}

-- How many opening credits a member has been granted.
abbrev pub openings_of : ℕ → List CreditTransaction → ℕ
openings_of member_id = sum_by (λ t. if is_opening member_id t then 1 else 0)

pub openings-any :
    (m : ℕ) (txns : List CreditTransaction)
    → any (is_opening m) txns ≡ false
    → openings_of m txns ≡ 0
openings-any m [] e = refl
openings-any m (t ∷ txns) e = ground (arith, openings-any m txns)

-- Another posting than a grant adds no opening credit.
pub openings-post :
    (w : Wallets) (kind : Kind) (m : ℕ) (amount : ℤ) (usage_id ref actor : Option ℕ)
    (remark : Option Text) (j : ℕ)
    → openings_of j (post w kind m amount usage_id ref actor remark).1.transactions
      ≡ openings_of j w.transactions
        + (if is_opening j (post w kind m amount usage_id ref actor remark).0 then 1 else 0)
openings-post w kind m amount usage_id ref actor remark j =
    let (rows, _, _, _) = post_row w kind m amount usage_id ref actor remark in
    rw rows (
      sum_by-append (λ t. if is_opening j t then 1 else 0) w.transactions
        ((post w kind m amount usage_id ref actor remark).0 ∷ [])
      ∙ omega arith)

openings-post_other :
    (w : Wallets) (kind : Kind) (m : ℕ) (amount : ℤ) (usage_id ref actor : Option ℕ)
    (remark : Option Text) (j : ℕ)
    → is_grant kind ≡ false
    → openings_of j (post w kind m amount usage_id ref actor remark).1.transactions
      ≡ openings_of j w.transactions
openings-post_other w kind m amount usage_id ref actor remark j other =
    let txn = (post w kind m amount usage_id ref actor remark).0 in
    let kept : is_grant txn.kind ≡ false =
      ap is_grant (post_kind w kind m amount usage_id ref actor remark) ∙ other in
    ground (arith, openings-post w kind m amount usage_id ref actor remark j, kept)

pub openings-refund :
    (w : Wallets) (id : ℕ) (actor : Option ℕ) (remark : Option Text) (j : ℕ)
    → openings_of j (Runs.step w (Operation.refunds id actor remark)).transactions
      ≡ openings_of j w.transactions
unfolding Runs.step refund_charge
openings-refund w id actor remark j = elim (Option-cases (find_id id w.transactions)) [
  | inl gone ↦ rw (gone, after, refund_charge) refl
  | inr (x, found) ↦ elim (Bool-cases (is_charge x.kind)) [
    | inr bad ↦ rw (found, after, refund_charge, bad) refl
    | inl good ↦ elim (Bool-cases (has_refund id w.transactions)) [
      | inl before ↦ rw (found, after, refund_charge, good, before) refl
      | inr first ↦
          rw (found, after, refund_charge, good, first)
            (openings-post_other w Kind.refund x.member_id (neg x.amount_cents) none (some id) actor
              remark j refl)
    ]
  ]
]

pub openings-charge :
    (w : Wallets) (m : ℕ) (row : UsageRow) (j : ℕ)
    → openings_of j (charge_usage w m row).1.transactions ≡ openings_of j w.transactions
unfolding charge_usage
openings-charge w m row j = elim (Bool-cases (is_unpaid row)) [
  | inl unpaid ↦ rw unpaid refl
  | inr paid ↦ elim (Option-cases (find_usage row.id w.transactions)) [
    | inr (x, old) ↦ rw (paid, old) refl
    | inl new ↦
        rw (paid, new)
          (openings-post_other w Kind.charge m (neg (or_else row.cost_cents (pos 0))) (some row.id)
            none none none j refl)
  ]
]
