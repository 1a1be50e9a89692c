-- ===== src/Tests/Sessions.antt =====
-- Turns, loans and the cache at concrete inputs.
use cursor_pulse.Base.{
  ℕ, ◌+◌, ◌≤◌, ◌≡◌, ◌≢◌, refl, ◌⊎◌, true, false, ◌==◌, if◌then◌else◌, [], ◌∷◌, map, Option, none,
  some, arith, length, ltb,
}
use cursor_pulse.Base.Dict.{Distinct, nat_eq}
use cursor_pulse.Base.Sorting.{sort_by}
use cursor_pulse.Jobs.{session_process, add_job, has_job_for}
use cursor_pulse.Turns.{
  ChatSession, ChatMessage, Inbox, end_turn, may_schedule, try_schedule_next_turn,
  session_has_active_process_job, is_turn_running, list_pending_user_messages, schedule_first,
  begin_turn,
}
use cursor_pulse.Turns.Schedule.{
  waiting, try_schedule_next_turn_cases, try_schedule_next_turn_once,
  try_schedule_next_turn-end_turn, session_has_active-add_job,
}
use cursor_pulse.Turns.Recovery.{
  recover_stale_turn_if_needed, is_stale_turn, IsTaken, recover_stale_turn_cases,
  session_has_processing_job, turn_started_at, reset_stale_turn,
}
use cursor_pulse.Loans.{
  KeyLoan, proxy_alias, active, Ledger, is_due, expired_loan, expire_loans_on_reset,
}
use cursor_pulse.Loans.Expiry.{expire_loans_on_reset_exact}
use cursor_pulse.Cache.{Entries, put, get}
use cursor_pulse.Cache.Bound.{put_bound, get-put}

abbrev message : ℕ → ℕ → ChatMessage
message id time = record {
  id = id;
  session_id = 5;
  from_user = true;
  created_at = time;
  handled_at = none;
}

abbrev idle_session : ChatSession
idle_session = record { id = 5; is_open = true; turn = none }

abbrev inbox : Inbox
inbox = record { session = idle_session; messages = message 2 20 ∷ message 1 10 ∷ []; jobs = [] }

try_schedule_next_turn_cases_example :
    (((may_schedule inbox ≡ false) ⊎ (waiting inbox ≡ []))
      × ((try_schedule_next_turn inbox 90 30).0 ≡ false)
      × ((try_schedule_next_turn inbox 90 30).1 ≡ inbox))
    ⊎ ((m : ChatMessage) × (waiting inbox ≡ m ∷ waiting (try_schedule_next_turn inbox 90 30).1)
        × (may_schedule inbox ≡ true)
        × ((try_schedule_next_turn inbox 90 30).0 ≡ true)
        × ((try_schedule_next_turn inbox 90 30).1.session.turn
            ≡ some (record {
              is_running = true;
              trigger_message_id = some m.id;
              started_at = some 30;
            }))
        × (m.id ≢ 0
            → has_job_for session_process m.id (try_schedule_next_turn inbox 90 30).1.jobs ≡ true))
try_schedule_next_turn_cases_example =
    try_schedule_next_turn_cases inbox 90 30 ((omega arith, tt), (tt, tt))

inbox-scheduled : (try_schedule_next_turn inbox 90 30).0 ≡ true
unfolding try_schedule_next_turn may_schedule is_turn_running session_has_active_process_job
    list_pending_user_messages schedule_first begin_turn sort_by
inbox-scheduled = refl

try_schedule_next_turn_once_run :
    try_schedule_next_turn (try_schedule_next_turn inbox 90 30).1 91 40
    ≡ (false, (try_schedule_next_turn inbox 90 30).1)
try_schedule_next_turn_once_run = try_schedule_next_turn_once inbox 90 91 30 40 inbox-scheduled

abbrev running : Inbox
running = record inbox {
  session = record idle_session {
    turn = some (record { is_running = true; trigger_message_id = some 0; started_at = some 5 });
  };
}

running-waits : (end_turn running).0 ≡ message 1 10 ∷ message 2 20 ∷ []
unfolding end_turn list_pending_user_messages sort_by
running-waits = refl

try_schedule_next_turn-end_turn_run :
    ((try_schedule_next_turn (end_turn running).1 90 30).0 ≡ true)
    × ((try_schedule_next_turn (end_turn running).1 90 30).1.session.turn
        ≡ some (record { is_running = true; trigger_message_id = some 1; started_at = some 30 }))
unfolding session_has_active_process_job
try_schedule_next_turn-end_turn_run =
    try_schedule_next_turn-end_turn running 90 30 (message 1 10) (message 2 20 ∷ []) refl refl
      running-waits

session_has_active-add_job_example :
    session_has_active_process_job (add_job session_process 5 1 90 30 []) 5
    ≡ session_has_active_process_job [] 5
session_has_active-add_job_example = session_has_active-add_job [] session_process 5 1 90 30 5

abbrev loan : ℕ → ℕ → KeyLoan
loan id day = record {
  id = id;
  source_account_id = 3;
  credential_id = 0;
  is_pool = false;
  created_at = id;
  revoked_at = none;
  status = active;
  auto_revoke_on_reset = true;
  expires_on = some day;
  alias_key_hash = some id;
  ide_key_hash = none;
  borrower_member_id = 7;
  baseline_used_cents = 0;
  source_bound_at = none;
  delivery_mode = proxy_alias;
  lends_auto = false;
  usage_cap_rules = none;
  usage_cap_period = none;
  auto_cost_limit_cents = none;
  api_cost_limit_cents = none;
}

abbrev ledger : Ledger
ledger = record { loans = loan 1 20 ∷ loan 2 40 ∷ []; credentials = [] }

abbrev never : ℕ → Option ℕ
never account = none

expire_loans_on_reset_exact_example :
    (expire_loans_on_reset (λ c. true) never never 30 1000 ledger 0).1.loans
    ≡ map (λ l. if is_due never never 30 0 l then expired_loan 1000 l else l) ledger.loans
expire_loans_on_reset_exact_example =
    expire_loans_on_reset_exact (λ c. true) never never 30 1000 0 ledger
      ((omega arith, tt), (tt, tt))

abbrev entries : Entries ℕ
entries = (1, (10, 100)) ∷ (2, (20, 200)) ∷ []

put_bound_example :
    Distinct (put 2 entries 3 300 0 30 31) × (length (put 2 entries 3 300 0 30 31) ≤ 2)
put_bound_example = put_bound 2 entries 3 300 0 30 31 (refl, (refl, tt))

get-put_run :
    (get (put 3 entries 3 300 0 30 31) 3 50 60).0
    ≡ (if 50 == 0 then none else if ltb (30 + 50) 60 then none else some 300)
get-put_run = get-put 3 entries 3 300 0 50 30 31 60 (omega arith)

-- The turn started at 10 and no worker is on it.
abbrev stale_inbox : Inbox
stale_inbox = record inbox {
  session = record {
    id = 5;
    is_open = true;
    turn = some (record { is_running = true; trigger_message_id = some 1; started_at = some 10 });
  };
}

recover_stale_turn_cases_example :
    let (recovered, after) = recover_stale_turn_if_needed stale_inbox 50 90 100 in
    ((is_stale_turn stale_inbox 50 100 ≡ false) × (recovered ≡ false) × (after ≡ stale_inbox))
    ⊎ ((is_stale_turn stale_inbox 50 100 ≡ true)
        × (recovered ≡ true)
        × (((is_turn_running after.session ≡ false)
              × (waiting after ≡ waiting stale_inbox)
              × ((may_schedule after ≡ false) ⊎ (waiting stale_inbox ≡ [])))
            ⊎ IsTaken stale_inbox after 100))
recover_stale_turn_cases_example =
    recover_stale_turn_cases stale_inbox 50 90 100 ((omega arith, tt), (tt, tt))

stale-recovered : (recover_stale_turn_if_needed stale_inbox 50 90 100).0 ≡ true
unfolding recover_stale_turn_if_needed is_turn_running session_has_processing_job turn_started_at
    reset_stale_turn
stale-recovered = refl
