-- ===== src/Turns/Schedule.antt =====
-- When a turn is scheduled, and what the check for jobs sees.
use cursor_pulse.Base.{
  ℕ, ◌≡◌, ◌≢◌, refl, ◌⊎◌, true, false, ◌&&◌, List, [], ◌∷◌, Option, none, some, arith, ◌==◌,
  any-append, Bool-cases, inl, inr,
}
use cursor_pulse.Base.Keyed.{HasKeys}
use cursor_pulse.Jobs.{
  JobType, session_process, BackgroundJob, same_type, add_job, counts_as_added, pending,
  has_job_for,
}
use cursor_pulse.Turns.{
  Turn, ChatMessage, Inbox, is_turn_running, begin_turn, end_turn, idle_turn,
  list_pending_user_messages, may_schedule, schedule_first, try_schedule_next_turn,
  session_has_active_process_job, is_active,
}
use cursor_pulse.Turns.Pending.{message_id, list_pending-mark}

abbrev pub waiting : Inbox → List ChatMessage
waiting inbox = list_pending_user_messages inbox.messages inbox.session.id none

has_job_for-add_job :
    (session message new_id now : ℕ) (table : List BackgroundJob)
    → message ≢ 0
    → has_job_for session_process message (add_job session_process session message new_id now table)
      ≡ true
unfolding add_job has_job_for
has_job_for-add_job session message new_id now table real =
    let p = λ (j : BackgroundJob).
      same_type j.job_type session_process && counts_as_added j.status && j.message_id == message in
    let row : BackgroundJob = record {
      id = new_id;
      job_type = session_process;
      session_id = session;
      message_id = message;
      status = pending;
      created_at = now;
    } in
    ground (arith, any-append p table (row ∷ []))

List-cases :
    (ms : List ChatMessage)
    → (ms ≡ []) ⊎ ((m : ChatMessage) × (rest : List ChatMessage) × (ms ≡ m ∷ rest))
List-cases [] = inl refl
List-cases (m ∷ rest) = inr (m, rest, refl)

try_schedule-refused :
    (inbox : Inbox) (new_id now : ℕ)
    → may_schedule inbox ≡ false
    → try_schedule_next_turn inbox new_id now ≡ (false, inbox)
unfolding try_schedule_next_turn
try_schedule-refused inbox new_id now e = rw e refl

-- What the code reads with a limit of one is the first of all that wait.
try_schedule-none :
    (inbox : Inbox) (new_id now : ℕ)
    → waiting inbox ≡ []
    → try_schedule_next_turn inbox new_id now ≡ (false, inbox)
unfolding try_schedule_next_turn list_pending_user_messages schedule_first
try_schedule-none inbox new_id now e = ground (arith, e)

try_schedule-first :
    (inbox : Inbox) (new_id now : ℕ) (m : ChatMessage) (rest : List ChatMessage)
    → may_schedule inbox ≡ true
    → waiting inbox ≡ m ∷ rest
    → try_schedule_next_turn inbox new_id now ≡ schedule_first inbox new_id now (m ∷ [])
unfolding try_schedule_next_turn list_pending_user_messages
try_schedule-first inbox new_id now m rest may e = rw (may, e) refl

schedule_first-shut :
    (inbox : Inbox) (new_id now : ℕ) (m : ChatMessage)
    → may_schedule (schedule_first inbox new_id now (m ∷ [])).1 ≡ false
unfolding schedule_first begin_turn may_schedule is_turn_running
schedule_first-shut inbox new_id now m = ground arith

-- On a table of messages with unique ids, either a turn may not be scheduled or no message waits,
-- and `try_schedule_next_turn` returns false and changes nothing; or it returns true, the session's
-- turn is running on the oldest message that waits, exactly the others still wait, in their order,
-- and, unless its id is empty, the table has a job for that message.
pub try_schedule_next_turn_cases :
    (inbox : Inbox) (new_id now : ℕ)
    → HasKeys message_id inbox.messages
    → let (scheduled, after) = try_schedule_next_turn inbox new_id now in
      (((may_schedule inbox ≡ false) ⊎ (waiting inbox ≡ []))
        × (scheduled ≡ false)
        × (after ≡ inbox))
      ⊎ ((m : ChatMessage) × (waiting inbox ≡ m ∷ waiting after)
          × (may_schedule inbox ≡ true)
          × (scheduled ≡ true)
          × (after.session.turn
              ≡ some (record {
                is_running = true;
                trigger_message_id = some m.id;
                started_at = some now;
              }))
          × (m.id ≢ 0 → has_job_for session_process m.id after.jobs ≡ true))
unfolding schedule_first begin_turn
try_schedule_next_turn_cases inbox new_id now keyed = elim (Bool-cases (may_schedule inbox)) [
  | inl may ↦ elim (List-cases (waiting inbox)) [
    | inl bare ↦ rw (try_schedule-none inbox new_id now bare) (inl (inr bare, refl, refl))
    | inr (m, rest, e) ↦
        let left = list_pending-mark inbox.messages rest m inbox.session.id now keyed e in
        rw (try_schedule-first inbox new_id now m rest may e) (
          inr (
            m,
            rw left e,
            may,
            refl,
            refl,
            has_job_for-add_job inbox.session.id m.id new_id now inbox.jobs,
          ))
  ]
  | inr shut ↦ rw (try_schedule-refused inbox new_id now shut) (inl (inl shut, refl, refl))
]

-- While a turn runs, no second one is scheduled: after a schedule that returned true, the next one
-- returns false and changes nothing.
pub try_schedule_next_turn_once :
    (inbox : Inbox) (new_id new_id' now later : ℕ)
    → (try_schedule_next_turn inbox new_id now).0 ≡ true
    → let after = (try_schedule_next_turn inbox new_id now).1 in
      try_schedule_next_turn after new_id' later ≡ (false, after)
unfolding schedule_first begin_turn
try_schedule_next_turn_once inbox new_id new_id' now later e =
    elim (Bool-cases (may_schedule inbox)) [
      | inl may ↦ elim (List-cases (waiting inbox)) [
        | inl bare ↦ cc (try_schedule-none inbox new_id now bare)
        | inr (m, rest, some_wait) ↦ rw (try_schedule-first inbox new_id now m rest may some_wait) (
            try_schedule-refused (schedule_first inbox new_id now (m ∷ [])).1 new_id' later
              (schedule_first-shut inbox new_id now m))
      ]
      | inr shut ↦ cc (try_schedule-refused inbox new_id now shut)
    ]

pub idle_turn-stops : (turn : Option Turn) → (idle_turn turn).is_running ≡ false
unfolding idle_turn
idle_turn-stops none = refl
idle_turn-stops (some turn) = refl

may_schedule-end_turn :
    (inbox : Inbox)
    → inbox.session.is_open ≡ true
    → session_has_active_process_job inbox.jobs inbox.session.id ≡ false
    → may_schedule (end_turn inbox).1 ≡ true
unfolding end_turn may_schedule is_turn_running
may_schedule-end_turn inbox open_session idle =
    rw (open_session, idle, idle_turn-stops inbox.session.turn) refl

-- A message that arrives while a turn runs is taken up when it ends: if `end_turn` returns messages,
-- the session is open and no job of it is active, then the next schedule returns true, with the
-- first of these messages as its trigger.
pub try_schedule_next_turn-end_turn :
    (inbox : Inbox) (new_id now : ℕ) (m : ChatMessage) (rest : List ChatMessage)
    → inbox.session.is_open ≡ true
    → session_has_active_process_job inbox.jobs inbox.session.id ≡ false
    → (end_turn inbox).0 ≡ m ∷ rest
    → ((try_schedule_next_turn (end_turn inbox).1 new_id now).0 ≡ true)
      × ((try_schedule_next_turn (end_turn inbox).1 new_id now).1.session.turn
          ≡ some
              (record { is_running = true; trigger_message_id = some m.id; started_at = some now }))
unfolding end_turn idle_turn schedule_first begin_turn
try_schedule_next_turn-end_turn inbox new_id now m rest open_session idle e =
    rw
      (try_schedule-first (end_turn inbox).1 new_id now m rest
        (may_schedule-end_turn inbox open_session idle) e)
      (refl, refl)

-- The check for an active job of a session never sees a job that `add_job` has just put into the
-- table, whatever its type and session.
pub session_has_active-add_job :
    (jobs : List BackgroundJob) (t : JobType) (session message new_id now session_id : ℕ)
    → session_has_active_process_job (add_job t session message new_id now jobs) session_id
      ≡ session_has_active_process_job jobs session_id
unfolding session_has_active_process_job add_job
session_has_active-add_job jobs t session message new_id now session_id =
    let p = λ (j : BackgroundJob).
      same_type j.job_type session_process && is_active j.status && j.session_id == session_id in
    let row : BackgroundJob = record {
      id = new_id;
      job_type = t;
      session_id = session;
      message_id = message;
      status = pending;
      created_at = now;
    } in
    ground (arith, any-append p jobs (row ∷ []))
