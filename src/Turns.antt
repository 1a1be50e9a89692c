-- ===== src/Turns.antt =====
-- assistant_platform/conversation/turn_inbox.py: when a session works on a message, and which message
-- it takes next. One session is modelled with the tables of messages and of jobs; a job's payload
-- keeps the ids of its session and message. Ids and times are numbers.
pub mod Pending
pub mod Schedule
pub mod Recovery
use cursor_pulse.Base.{
  ℕ, ◌+◌, Bool, true, false, not, ◌&&◌, ◌||◌, List, [], ◌∷◌, Option, none, some, ◌==◌,
  if◌then◌else◌, is_some, keep, any, take, max, is_nil,
}
use cursor_pulse.Base.Sorting.{sort_by}
use cursor_pulse.Jobs.{
  JobType, session_process, JobStatus, pending, queued, processing, done, failed, BackgroundJob,
  same_type, add_job,
}

-- The entry `turn` of the session's state.
pub record Turn : Type 0 where
  pub is_running : Bool
  pub trigger_message_id : Option ℕ
  pub started_at : Option ℕ

pub record ChatSession : Type 0 where
  pub id : ℕ
  pub is_open : Bool
  pub turn : Option Turn

pub record ChatMessage : Type 0 where
  pub id : ℕ
  pub session_id : ℕ
  pub from_user : Bool
  pub created_at : ℕ
  pub handled_at : Option ℕ

pub record Inbox : Type 0 where
  pub session : ChatSession
  pub messages : List ChatMessage
  pub jobs : List BackgroundJob

unfoldable pub is_turn_running : ChatSession → Bool
is_turn_running session = elim session.turn [ none ↦ false | some turn ↦ turn.is_running ]

abbrev pub created : ChatMessage → ℕ
created m = m.created_at

abbrev pub is_unhandled : ℕ → ChatMessage → Bool
is_unhandled session_id m = m.session_id == session_id && m.from_user && not (is_some m.handled_at)

pub mark_message_handled : ℕ → ℕ → List ChatMessage → List ChatMessage
mark_message_handled id now [] = []
mark_message_handled id now (m ∷ messages) =
    (if m.id == id then record m { handled_at = some now } else m)
    ∷ mark_message_handled id now messages

-- `none` stands for no limit.
unfoldable pub list_pending_user_messages : List ChatMessage → ℕ → Option ℕ → List ChatMessage
list_pending_user_messages messages session_id limit =
    let rows = sort_by created (keep (is_unhandled session_id) messages) in
    elim limit [ none ↦ rows | some n ↦ take n rows ]

unfoldable pub begin_turn : Inbox → ℕ → ℕ → Inbox
begin_turn inbox id now =
    let turn : Turn = record {
      is_running = true;
      trigger_message_id = some id;
      started_at = some now;
    } in
    record inbox {
      session = record inbox.session { turn = some turn };
      messages = mark_message_handled id now inbox.messages;
    }

pub idle_turn : Option Turn → Turn
idle_turn none = record { is_running = false; trigger_message_id = none; started_at = none }
idle_turn (some turn) = record turn { is_running = false; started_at = none }

unfoldable pub end_turn : Inbox → List ChatMessage × Inbox
end_turn inbox =
    let session = record inbox.session { turn = some (idle_turn inbox.session.turn) } in
    (list_pending_user_messages inbox.messages session.id none, record inbox { session = session })

-- `status IN ('queued', 'processing')`
abbrev pub is_active : JobStatus → Bool
is_active queued = true
is_active processing = true
is_active pending = false
is_active done = false
is_active failed = false

unfoldable pub session_has_active_process_job : List BackgroundJob → ℕ → Bool
session_has_active_process_job jobs session_id =
    any
      (λ j.
        same_type j.job_type session_process && is_active j.status && j.session_id == session_id)
      jobs

-- The tests before the messages are read.
unfoldable pub may_schedule : Inbox → Bool
may_schedule inbox =
    inbox.session.is_open
    && not (is_turn_running inbox.session)
    && not (session_has_active_process_job inbox.jobs inbox.session.id)

-- From the first pending message on; the id of the new job is an argument.
unfoldable pub schedule_first : Inbox → ℕ → ℕ → List ChatMessage → Bool × Inbox
schedule_first inbox new_id now [] = (false, inbox)
schedule_first inbox new_id now (m ∷ rest) =
    let begun = begin_turn inbox m.id now in
    (
      true,
      record begun { jobs = add_job session_process inbox.session.id m.id new_id now begun.jobs },
    )

unfoldable pub try_schedule_next_turn : Inbox → ℕ → ℕ → Bool × Inbox
try_schedule_next_turn inbox new_id now =
    if may_schedule inbox
    then schedule_first inbox new_id now
        (list_pending_user_messages inbox.messages inbox.session.id (some 1))
    else (false, inbox)

-- `TurnInbox.drain_unconsumed`
unfoldable drain_unconsumed : Inbox → ℕ → List ChatMessage
drain_unconsumed inbox max_per_drain =
    list_pending_user_messages inbox.messages inbox.session.id (some (max 1 max_per_drain))

-- `TurnInbox.mark_consumed`
unfoldable mark_consumed : Inbox → ℕ → ℕ → Inbox
mark_consumed inbox id now = record inbox { messages = mark_message_handled id now inbox.messages }
