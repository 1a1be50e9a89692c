-- ===== src/Lending/Refusal.antt =====
-- What is left when a loan cannot be moved.
use cursor_pulse.Base.{
  ℕ, ◌≡◌, refl, Bool, true, false, not, ◌&&◌, List, any, Option, arith, ◌==◌, inl, inr, is_some,
  if_both,
}
use cursor_pulse.Base.Text.{Text}
use cursor_pulse.Loans.{KeyLoan, Ledger}
use cursor_pulse.Lending.{World, Fresh, Effect}
use cursor_pulse.Lending.Accounts.{Lender}
use cursor_pulse.Lending.Remote.{Made, create_loan_credential}
use cursor_pulse.Lending.Issue.{is_auto}
use cursor_pulse.Lending.Reassign.{
  Reassignment, write_loan, convert_pinned_loan_to_pool, pin_auto_wander_on_current_account,
  write_move, check_move, move_loan, reassign_loan, check_reassign, reassign_loan_source,
}
use cursor_pulse.Lending.Checks.{Outcome-cases}
use cursor_pulse.Lending.Balance.{
  keys_after, has_text, lists_new, fails, with_remote_key-unchanged, with_remote_key-keys,
}

-- The tables are as they were, and with the keys of `ids` at Cursor before, so are the keys there.
abbrev pub IsClean : List ℕ → Ledger → Effect → Type 0
IsClean ids ledger e = (e.ledger ≡ ledger) × (keys_after ids e.calls ≡ ids)

module _ (world : World) (ids : List ℕ) (ledger : Ledger) where
  write_loan-IsClean :
      (f : KeyLoan → KeyLoan) (loan : KeyLoan) (after : Ledger)
      → fails (write_loan world f loan ledger after) ≡ true
      → IsClean ids ledger (write_loan world f loan ledger after)
  unfolding write_loan
  write_loan-IsClean f loan after e = (ground (arith, e), ground (arith, e))

  convert-IsClean :
      (loan : KeyLoan)
      → fails (convert_pinned_loan_to_pool world loan ledger) ≡ true
      → IsClean ids ledger (convert_pinned_loan_to_pool world loan ledger)
  unfolding convert_pinned_loan_to_pool write_loan
  convert-IsClean loan e = (ground (arith, e), ground (arith, e))

  pin-IsClean :
      (call : Reassignment) (loan : KeyLoan)
      → fails (pin_auto_wander_on_current_account world call loan ledger) ≡ true
      → IsClean ids ledger (pin_auto_wander_on_current_account world call loan ledger)
  unfolding pin_auto_wander_on_current_account write_loan
  pin-IsClean call loan e = (ground (arith, e), ground (arith, e))

  write_move-unchanged :
      (fresh : Fresh) (auto_revoke : Option Bool) (lender : Lender) (loan : KeyLoan) (made : Made)
      → fails (write_move world fresh auto_revoke lender loan ledger made) ≡ true
      → (write_move world fresh auto_revoke lender loan ledger made).ledger ≡ ledger
  unfolding write_move create_loan_credential write_loan
  write_move-unchanged fresh auto_revoke lender loan made e = ground (arith, e)

module _ (world : World) (ids : List ℕ)
    (texts : (token : ℕ) (name : Text)
      → has_text (world.client.create_user_api_key token name) ≡ true)
    (lists : (token : ℕ) (name : Text)
      → lists_new name
          (world.client.new_key_id token name)
          (world.client.list_user_api_keys token name)
        ≡ true)
    (again : (key : Text) → is_some (world.client.again key) ≡ true)
    (unused : (token : ℕ) (name : Text)
      → any (λ k. k == world.client.new_key_id token name) ids ≡ false)
    (fresh : Fresh) (call : Reassignment) (ledger : Ledger) where
  move_loan-IsClean :
      (loan : KeyLoan)
      → fails (move_loan world fresh call loan ledger) ≡ true
      → IsClean ids ledger (move_loan world fresh call loan ledger)
  unfolding move_loan
  move_loan-IsClean loan e = elim (Outcome-cases (check_move world call ledger)) [
    | inl (x, refused) ↦ (rw (refused, move_loan) refl, rw (refused, move_loan) refl)
    | inr (lender, granted) ↦
        let e' = rw (granted, move_loan) at e in
        (
          rw (granted, move_loan)
              (with_remote_key-unchanged (λ t. t) world ledger lender _ _
                (write_move-unchanged world ids ledger fresh call.auto_revoke_on_reset lender loan)
                e'),
          rw (granted, move_loan)
              (with_remote_key-keys world ids texts lists again unused lender _ ledger _ e'),
        )
  ]

  reassign_loan-IsClean :
      (loan : KeyLoan)
      → fails (reassign_loan world fresh call loan ledger) ≡ true
      → IsClean ids ledger (reassign_loan world fresh call loan ledger)
  unfolding reassign_loan
  reassign_loan-IsClean loan =
      let Clean = λ (e : Effect). fails e ≡ true → IsClean ids ledger e in
      if_both Clean (is_auto call.lender_mode) _ _
        (if_both Clean loan.is_pool _ _ (λ e. (refl, refl)) (convert-IsClean world ids ledger loan))
        (if_both Clean (call.new_source_account_id == 0) _ _ (λ e. (refl, refl))
          (if_both Clean (not loan.is_pool && loan.source_account_id == call.new_source_account_id)
            _ _ (pin-IsClean world ids ledger call loan) (move_loan-IsClean loan)))

  -- Where each key made at Cursor comes with its text, has an id that is not 0 and none of `ids`, and is
  -- the first of its name in the list that follows, and where a token is given a second time: with the
  -- keys of `ids` at Cursor and each revocation carried out there, a call of `reassign_loan_source` that
  -- raises leaves the tables and the keys at Cursor as they were.
  pub reassign_loan_source-IsClean :
      fails (reassign_loan_source world fresh call ledger) ≡ true
      → IsClean ids ledger (reassign_loan_source world fresh call ledger)
  unfolding reassign_loan_source
  reassign_loan_source-IsClean e = elim (Outcome-cases (check_reassign world call ledger)) [
    | inl (x, refused) ↦
        (rw (refused, reassign_loan_source) refl, rw (refused, reassign_loan_source) refl)
    | inr (loan, granted) ↦
        rw (granted, reassign_loan_source)
          (reassign_loan-IsClean loan (rw (granted, reassign_loan_source) at e))
  ]
