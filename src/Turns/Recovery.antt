-- ===== src/Turns/Recovery.antt =====
-- assistant_platform/conversation/turn_recovery.py: a turn that has run for too long is ended, and a job
-- whose worker is gone is offered again. The audit rows and the log are left out.
use cursor_pulse.Base.{
  ℕ, suc, ◌-◌, ◌≡◌, ◌≢◌, refl, ap, ◌∙◌, ◌⊎◌, Bool, true, false, not, ◌&&◌, List, [], ◌∷◌, map,
  Option, none, some, arith, ltb, ◌==◌, if◌then◌else◌, any, keep, length, Bool-cases, inl, inr,
}
use cursor_pulse.Base.Keyed.{HasKeys}
use cursor_pulse.Jobs.{
  JobType, session_process, session_close, reply_send, noop_phase0, other_type, JobStatus, pending,
  queued, processing, done, failed, BackgroundJob, has_job_for,
}
use cursor_pulse.Turns.{
  ChatSession, ChatMessage, Inbox, is_turn_running, end_turn, idle_turn, may_schedule,
  try_schedule_next_turn,
}
use cursor_pulse.Turns.Pending.{message_id}
use cursor_pulse.Turns.Schedule.{idle_turn-stops, waiting, try_schedule_next_turn_cases}

-- `_ACTIVE_JOB_TYPES`
abbrev pub is_active_type : JobType → Bool
is_active_type session_process = true
is_active_type session_close = true
is_active_type reply_send = true
is_active_type noop_phase0 = false
is_active_type (other_type n) = false

abbrev pub is_processing : JobStatus → Bool
is_processing pending = false
is_processing queued = false
is_processing processing = true
is_processing done = false
is_processing failed = false

unfoldable pub session_has_processing_job : List BackgroundJob → ℕ → Bool
session_has_processing_job jobs session_id =
    any (λ j. is_processing j.status && j.session_id == session_id && is_active_type j.job_type)
      jobs

unfoldable pub turn_started_at : ChatSession → Option ℕ
turn_started_at session = elim session.turn [ none ↦ none | some turn ↦ turn.started_at ]

unfoldable pub reset_stale_turn : Inbox → ℕ → ℕ → Bool × Inbox
reset_stale_turn inbox new_id now =
    let ended = (end_turn inbox).1 in (true, (try_schedule_next_turn ended new_id now).1)

-- Times are microseconds; `new_id` is for the job that may be added.
unfoldable pub recover_stale_turn_if_needed : Inbox → ℕ → ℕ → ℕ → Bool × Inbox
recover_stale_turn_if_needed inbox timeout new_id now =
    if not (is_turn_running inbox.session)
    then (false, inbox)
    else if session_has_processing_job inbox.jobs inbox.session.id
    then (false, inbox)
    else elim (turn_started_at inbox.session) [
      | none ↦ (false, inbox)
      | some started ↦
          if not (ltb timeout (now - started))
          then (false, inbox)
          else reset_stale_turn inbox new_id now
    ]

-- The loop of `recover_stale_turns` over the open sessions, on the tables that they share.
unfoldable pub recover_loop :
    ℕ
    → ℕ
    → List ChatSession
    → ℕ
    → List ChatMessage
    → List BackgroundJob
    → ℕ × (List ChatSession × (List ChatMessage × List BackgroundJob))
recover_loop timeout now [] new_id messages jobs = (0, ([], (messages, jobs)))
recover_loop timeout now (session ∷ sessions) new_id messages jobs =
    let inbox : Inbox = record { session = session; messages = messages; jobs = jobs } in
    let (hit, after) = recover_stale_turn_if_needed inbox timeout new_id now in
    let (count, rest) = recover_loop timeout now sessions (suc new_id) after.messages after.jobs in
    ((if hit then suc count else count), (after.session ∷ rest.0, rest.1))

unfoldable pub recover_stale_turns :
    ℕ
    → ℕ
    → List ChatSession
    → ℕ
    → List ChatMessage
    → List BackgroundJob
    → ℕ × (List ChatSession × (List ChatMessage × List BackgroundJob))
recover_stale_turns timeout now sessions new_id messages jobs =
    recover_loop timeout now (keep (λ s. s.is_open) sessions) new_id messages jobs

-- `updated_at` is the column of that name.
unfoldable pub is_stuck : (BackgroundJob → ℕ) → ℕ → ℕ → BackgroundJob → Bool
is_stuck updated_at timeout now job =
    is_processing job.status && not (ltb (now - timeout) (updated_at job))

unfoldable pub recover_stale_processing_jobs :
    (BackgroundJob → ℕ) → ℕ → ℕ → List BackgroundJob → ℕ × List BackgroundJob
recover_stale_processing_jobs updated_at timeout now jobs = (
  length (keep (is_stuck updated_at timeout now) jobs),
  map (λ j. if is_stuck updated_at timeout now j then record j { status = pending } else j) jobs,
)

-- A turn that runs without a job in progress for longer than the timeout.
abbrev pub is_stale_turn : Inbox → ℕ → ℕ → Bool
is_stale_turn inbox timeout now =
    is_turn_running inbox.session
    && not (session_has_processing_job inbox.jobs inbox.session.id)
    && elim (turn_started_at inbox.session) [
      | none ↦ false
      | some started ↦ ltb timeout (now - started)
    ]

recover_stale_turn-exact :
    (inbox : Inbox) (timeout new_id now : ℕ)
    → recover_stale_turn_if_needed inbox timeout new_id now ≡ (
        if is_stale_turn inbox timeout now
        then reset_stale_turn inbox new_id now
        else (false, inbox))
unfolding recover_stale_turn_if_needed
recover_stale_turn-exact inbox timeout new_id now = ground arith

end_turn-idle : (inbox : Inbox) → is_turn_running (end_turn inbox).1.session ≡ false
unfolding end_turn is_turn_running idle_turn
end_turn-idle inbox = idle_turn-stops inbox.session.turn

end_turn-waiting : (inbox : Inbox) → waiting (end_turn inbox).1 ≡ waiting inbox
unfolding end_turn
end_turn-waiting inbox = refl

-- A new turn is on a message, and the others wait as before.
abbrev pub IsTaken : Inbox → Inbox → ℕ → Type 0
IsTaken inbox after now =
    (m : ChatMessage) × (waiting inbox ≡ m ∷ waiting after)
    × (after.session.turn
        ≡ some
            (record { is_running = true; trigger_message_id = some m.id; started_at = some now }))
    × (m.id ≢ 0 → has_job_for session_process m.id after.jobs ≡ true)

-- On a table of messages with unique ids: a turn that is not stale is left as it is, and the function
-- returns false. A stale turn is ended and the function returns true; then either nothing may be
-- scheduled or no message waits, and the session is idle and the same messages wait, or a new turn that
-- starts now runs on the oldest message that waits, for which there is a job unless its id is empty.
pub recover_stale_turn_cases :
    (inbox : Inbox) (timeout new_id now : ℕ)
    → HasKeys message_id inbox.messages
    → let (recovered, after) = recover_stale_turn_if_needed inbox timeout new_id now in
      ((is_stale_turn inbox timeout now ≡ false) × (recovered ≡ false) × (after ≡ inbox))
      ⊎ ((is_stale_turn inbox timeout now ≡ true)
          × (recovered ≡ true)
          × (((is_turn_running after.session ≡ false)
                × (waiting after ≡ waiting inbox)
                × ((may_schedule after ≡ false) ⊎ (waiting inbox ≡ [])))
              ⊎ IsTaken inbox after now))
unfolding reset_stale_turn end_turn
recover_stale_turn_cases inbox timeout new_id now keyed =
    elim (Bool-cases (is_stale_turn inbox timeout now)) [
      | inr fresh ↦
          let left : recover_stale_turn_if_needed inbox timeout new_id now ≡ (false, inbox) =
            recover_stale_turn-exact inbox timeout new_id now ∙ rw fresh refl in
          rw left (inl (fresh, refl, refl))
      | inl stale ↦
          let reset : recover_stale_turn_if_needed inbox timeout new_id now
              ≡ reset_stale_turn inbox new_id now =
            recover_stale_turn-exact inbox timeout new_id now ∙ rw stale refl in
          rw reset (
            inr (
              stale,
              refl,
              elim (try_schedule_next_turn_cases (end_turn inbox).1 new_id now keyed) [
                | inl (why, e, same) ↦ inl (
                  ap (λ (i : Inbox). is_turn_running i.session) same ∙ end_turn-idle inbox,
                  ap waiting same,
                  elim why [ inl shut ↦ inl (ap may_schedule same ∙ shut) | inr bare ↦ inr bare ],
                )
                | inr (m, takes, may, e, runs, job) ↦ inr (m, takes, runs, job)
              ],
            ))
    ]
