-- ===== src/Tests/Moves.antt =====
-- A loan of the same office moves to another account.
use cursor_pulse.Base.{◌≡◌, ◌⊎◌, refl, true, false, List, [], ◌∷◌, length, none, some, arith}
use cursor_pulse.Base.Outcome.{returned}
use cursor_pulse.Base.Text.{codes, strip}
use cursor_pulse.Loans.{KeyLoan, Credential, Ledger, get_loan, get_credential}
use cursor_pulse.Keys.Answer.{first, is_hash}
use cursor_pulse.Lending.{World, Fresh, make_key, drop_key}
use cursor_pulse.Lending.Accounts.{
  burn_status, active_loan_count, get_account, get_member, get_primary_credential,
  account_loan_deadline, check_account, check_lender,
}
use cursor_pulse.Lending.Remote.{
  loan_key_name, resolve_remote_key_id, revoke_remote_key_best_effort, make_remote_key, list_made,
  create_loan_credential,
}
use cursor_pulse.Lending.Issue.{or_revoke, with_remote_key}
use cursor_pulse.Lending.Reassign.{
  finalize_reassign_old_remote_revoke, reassign_pending, pending_revoke, old_credential,
  Reassignment, reassign_loan_source, check_reassign, validate_reassign_loan, reassign_loan,
  move_loan, check_move, write_move, write_loan, moved_loan, pinned_loan,
}
use cursor_pulse.Lending.Alias.{Lets, answer_to}
use cursor_pulse.Lending.Moved.{authorize_status-reassign_loan_source}
use cursor_pulse.Lending.Finalize.{finalize-reassign_pending}
use cursor_pulse.Lending.Balance.{keys_after, fails}
use cursor_pulse.Lending.Refusal.{IsClean, reassign_loan_source-IsClean}
use cursor_pulse.Tests.Lending.{
  credential, client, world, fresh, lent, texts, lists, ids, unused, is_pka,
}

-- The loan moves from account 4 to account 3.
abbrev lent_tables : Ledger
lent_tables = record {
  loans = lent ∷ [];
  credentials =
      credential 1 3 ∷ credential 2 4 ∷ record (credential 8 4) { is_loan_key = true } ∷ [];
}

abbrev call : Reassignment
call = record {
  team_id = 1;
  loan_id = 9;
  new_source_account_id = 3;
  enforce_loan_cap = true;
  lender_mode = codes "manual";
  auto_revoke_on_reset = none;
}

abbrev next : Fresh
next = record fresh { credential_id = 11 }

abbrev moved : KeyLoan
moved = record lent { source_account_id = 3; credential_id = 11 }

move_checked : check_reassign world call lent_tables ≡ returned lent
unfolding check_reassign validate_reassign_loan get_loan
move_checked = refl

move_done : (reassign_loan_source world next call lent_tables).result ≡ returned moved
unfolding reassign_loan_source check_reassign validate_reassign_loan get_loan reassign_loan
    move_loan check_move check_account check_lender get_account get_member get_primary_credential
    first with_remote_key make_remote_key list_made or_revoke write_move create_loan_credential
    write_loan moved_loan pinned_loan account_loan_deadline burn_status active_loan_count
    resolve_remote_key_id loan_key_name
move_done = refl

alias_found :
    first
      (λ (k : KeyLoan). is_hash k.alias_key_hash (length (strip (codes "pka_ab"))))
      lent_tables.loans
    ≡ some lent
unfolding first strip
alias_found = refl

authorize_status-reassign_loan_source_example :
    Lets world.decrypt
      (λ l. none)
      (codes "secret")
      length
      (codes "pka_ab")
      []
      50
      (answer_to world.decrypt
        (λ l. none)
        (codes "secret")
        length
        (codes "pka_ab")
        []
        50
        (reassign_loan_source world next call lent_tables).ledger)
      9
      11
      (codes "key")
authorize_status-reassign_loan_source_example =
    authorize_status-reassign_loan_source world.decrypt (λ l. none) (codes "secret") length
      (codes "pka_ab") [] 50 world next call lent lent_tables moved (codes "key") move_done
      move_checked refl refl is_pka alias_found (omega arith, (omega arith, (omega arith, tt)))
      (omega arith) refl refl

abbrev broken : World
broken = record world { flush_fails = true }

move_fails : fails (reassign_loan_source broken next call lent_tables) ≡ true
unfolding reassign_loan_source check_reassign validate_reassign_loan get_loan reassign_loan
    move_loan check_move check_account check_lender get_account get_member get_primary_credential
    first with_remote_key make_remote_key list_made or_revoke write_move create_loan_credential
    write_loan burn_status active_loan_count resolve_remote_key_id loan_key_name
move_fails = refl

-- Key 77 is made and then revoked.
new_revoked :
    (reassign_loan_source broken next call lent_tables).calls
    ≡ make_key (codes "pulse-loan-Li-Na") 77 ∷ drop_key 77 ∷ []
unfolding reassign_loan_source check_reassign validate_reassign_loan get_loan reassign_loan
    move_loan check_move check_account check_lender get_account get_member get_primary_credential
    first with_remote_key make_remote_key list_made or_revoke write_move create_loan_credential
    write_loan burn_status active_loan_count resolve_remote_key_id loan_key_name
    revoke_remote_key_best_effort
new_revoked = refl

-- No key of the list has the name of the new one: another key is revoked, and 77 stays.
abbrev unlisted : World
unlisted = record broken {
  client = record client {
    list_user_api_keys = λ token name. some (record { id = 55; name = codes "other" } ∷ []);
  };
}

other_revoked : keys_after ids (reassign_loan_source unlisted next call lent_tables).calls ≡ 77 ∷ []
unfolding reassign_loan_source check_reassign validate_reassign_loan get_loan reassign_loan
    move_loan check_move check_account check_lender get_account get_member get_primary_credential
    first with_remote_key make_remote_key list_made or_revoke write_move create_loan_credential
    write_loan burn_status active_loan_count resolve_remote_key_id loan_key_name
    revoke_remote_key_best_effort
other_revoked = refl

reassign_loan_source-IsClean_example :
    IsClean ids lent_tables (reassign_loan_source broken next call lent_tables)
reassign_loan_source-IsClean_example =
    reassign_loan_source-IsClean broken ids texts lists (λ key. refl) unused next call lent_tables
      move_fails

-- The key of the loan at account 4 is number 55.
abbrev keyed_tables : List Credential
keyed_tables =
    credential 2 4 ∷ record (credential 8 4) { is_loan_key = true; remote_key_id = 55 } ∷ []

old_key_revoked :
    finalize_reassign_old_remote_revoke world
      (λ id. true)
      (reassign_pending call lent keyed_tables)
      (record { loans = []; credentials = keyed_tables })
    ≡ (true, drop_key 55 ∷ [])
unfolding finalize_reassign_old_remote_revoke reassign_pending pending_revoke old_credential
    get_primary_credential get_credential first
old_key_revoked = refl

finalize-reassign_pending_example :
    let done =
      finalize_reassign_old_remote_revoke world
        (λ id. true)
        (reassign_pending call lent keyed_tables)
        (record { loans = []; credentials = keyed_tables }) in
    ((done.0 ≡ false) × (done.1 ≡ []))
    ⊎ ((c : Credential) × (get_credential 8 keyed_tables ≡ some c)
        × (c.is_active ≡ true)
        × (done.1 ≡ drop_key c.remote_key_id ∷ []))
finalize-reassign_pending_example =
    finalize-reassign_pending world (λ id. true) call lent keyed_tables
      (record { loans = []; credentials = keyed_tables })
