-- ===== src/Wallet/Runs.antt =====
-- Any sequence of operations on empty wallets.
use cursor_pulse.Base.{
  ℕ, ◌≡◌, refl, List, [], ◌∷◌, Option, none, some, arith, Bool-cases, Option-cases, inl, inr,
}
use cursor_pulse.Base.Int.{ℤ, pos, neg, leb_ℤ, ◌==ℤ◌}
use cursor_pulse.Base.Text.{Text, strip, is_empty}
use cursor_pulse.Wallet.{
  CreditTransaction, Wallets, Kind, Result, ok, err, UsageRow, read_balance, sum_amounts, grant,
  adjust, refund_charge, charge_usage, find_id, find_usage, has_refund, is_charge, is_unpaid,
  reconcile,
}
use cursor_pulse.Wallet.Posting.{IsSound, post-IsSound}
use cursor_pulse.Wallet.Audit.{reconcile-nil}
use cursor_pulse.Wallet.Once.{find_id-lt}

pub data Operation : Type 0 where
  grants : ℕ → ℤ → Option ℕ → Option Text → Operation
  adjusts : ℕ → ℤ → Option ℕ → Text → Operation
  refunds : ℕ → Option ℕ → Option Text → Operation
  charges : ℕ → UsageRow → Operation

-- An operation that raises leaves the wallets as they were.
abbrev pub after : Wallets → Result (CreditTransaction × Wallets) → Wallets
after w (ok (t, w')) = w'
after w (err e) = w

unfoldable pub step : Wallets → Operation → Wallets
step w (grants m amount actor note) = after w (grant w m amount actor note)
step w (adjusts m amount actor note) = after w (adjust w m amount actor note)
step w (refunds id actor note) = after w (refund_charge w id actor note)
step w (charges m row) = (charge_usage w m row).1

unfoldable pub run : Wallets → List Operation → Wallets
unfolding step
run w [] = w
run w (op ∷ ops) = run (step w op) ops

unfoldable pub no_wallets : Wallets
no_wallets = record { accounts = []; transactions = []; next_id = 1 }

pub no_wallets-IsSound : IsSound no_wallets
unfolding no_wallets read_balance sum_amounts
no_wallets-IsSound = record {
  distinct = tt;
  balanced = λ j. refl;
  covered = λ j e. refl;
  fresh = tt;
  backward = λ n le. refl;
}

grant-IsSound :
    (w : Wallets) (m : ℕ) (amount : ℤ) (actor : Option ℕ) (note : Option Text)
    → IsSound w
    → IsSound (after w (grant w m amount actor note))
unfolding grant
grant-IsSound w m amount actor note v = elim (Bool-cases (leb_ℤ amount (pos 0))) [
  | inl bad ↦ rw bad v
  | inr good ↦ rw good (post-IsSound w Kind.grant m amount none none actor note (λ n le. refl) v)
]

adjust-IsSound :
    (w : Wallets) (m : ℕ) (amount : ℤ) (actor : Option ℕ) (note : Text)
    → IsSound w
    → IsSound (after w (adjust w m amount actor note))
unfolding adjust
adjust-IsSound w m amount actor note v = elim (Bool-cases (amount ==ℤ pos 0)) [
  | inl bad ↦ rw bad v
  | inr good ↦ elim (Bool-cases (is_empty (strip note))) [
    | inl bare ↦ rw (good, bare) v
    | inr told ↦
        rw (good, told)
          (post-IsSound w Kind.adjust m amount none none actor (some (strip note)) (λ n le. refl) v)
  ]
]

refund_charge-IsSound :
    (w : Wallets) (id : ℕ) (actor : Option ℕ) (note : Option Text)
    → IsSound w
    → IsSound (after w (refund_charge w id actor note))
unfolding refund_charge
refund_charge-IsSound w id actor note v = elim (Option-cases (find_id id w.transactions)) [
  | inl gone ↦ rw (gone, after, refund_charge) v
  | inr (x, found) ↦ elim (Bool-cases (is_charge x.kind)) [
    | inr bad ↦ rw (found, after, refund_charge, bad) v
    | inl good ↦ elim (Bool-cases (has_refund id w.transactions)) [
      | inl done ↦ rw (found, after, refund_charge, good, done) v
      | inr first ↦
          let below = find_id-lt id w.next_id x w.transactions v.fresh found in
          rw (found, after, refund_charge, good, first)
            (post-IsSound w Kind.refund x.member_id (neg x.amount_cents) none (some id) actor note
              (λ n le. ground arith) v)
    ]
  ]
]

charge_usage-IsSound :
    (w : Wallets) (m : ℕ) (row : UsageRow) → IsSound w → IsSound (charge_usage w m row).1
unfolding charge_usage
charge_usage-IsSound w m row v = elim (Bool-cases (is_unpaid row)) [
  | inl unpaid ↦ rw unpaid v
  | inr paid ↦ elim (Option-cases (find_usage row.id w.transactions)) [
    | inr (x, old) ↦ rw (paid, old) v
    | inl new ↦
        rw (paid, new)
          (post-IsSound w Kind.charge m _ (some row.id) none none none (λ n le. refl) v)
  ]
]

-- Every operation keeps the wallets sound.
pub step-IsSound : (w : Wallets) (op : Operation) → IsSound w → IsSound (step w op)
unfolding step
step-IsSound w (grants m amount actor note) v = grant-IsSound w m amount actor note v
step-IsSound w (adjusts m amount actor note) v = adjust-IsSound w m amount actor note v
step-IsSound w (refunds id actor note) v = refund_charge-IsSound w id actor note v
step-IsSound w (charges m row) v = charge_usage-IsSound w m row v

run-IsSound : (w : Wallets) (ops : List Operation) → IsSound w → IsSound (run w ops)
unfolding run
run-IsSound w [] v = v
run-IsSound w (op ∷ ops) v = run-IsSound (step w op) ops (step-IsSound w op v)

-- After any sequence of grants, adjustments, charges and refunds on empty wallets, those that are
-- refused included, every balance equals the sum of its member's transactions and the audit reports
-- nothing.
pub reconcile-run :
    (ops : List Operation)
    → ((m : ℕ)
        → read_balance (run no_wallets ops) m ≡ sum_amounts m (run no_wallets ops).transactions)
      × (reconcile (run no_wallets ops) ≡ [])
reconcile-run ops =
    let v = run-IsSound no_wallets ops no_wallets-IsSound in
    (v.balanced, (reconcile-nil (run no_wallets ops) v.distinct).1 (v.balanced, v.covered))
