-- ===== src/Jobs.antt =====
-- The assistant's background jobs: assistant_platform/jobs/claim.py and `add_job` of
-- assistant_platform/storage/repository.py. One worker's transaction is modelled at a time, as
-- BEGIN IMMEDIATE makes them; ids, sessions and messages are numbers, 0 for an absent one.
pub mod Claiming
use cursor_pulse.Base.{
  ℕ, zero, suc, ◌+◌, ◌*◌, Bool, true, false, not, ◌&&◌, ◌||◌, List, [], ◌∷◌, ◌++◌, Option, none,
  some, ltb, ◌==◌, if◌then◌else◌, keep, any, elem, length, take, is_nil,
}
use cursor_pulse.Base.Sorting.{sort_by}

pub data JobType : Type 0 where
  session_process session_close reply_send noop_phase0 : JobType
  other_type : ℕ → JobType

-- `queued` is a status that `_session_has_active_process_job` asks for.
pub data JobStatus : Type 0 where
  pending queued processing done failed : JobStatus

pub record BackgroundJob : Type 0 where
  pub id : ℕ
  pub job_type : JobType
  pub session_id : ℕ
  pub message_id : ℕ
  pub status : JobStatus
  pub created_at : ℕ

abbrev pub type_number : JobType → ℕ
type_number session_process = 0
type_number session_close = 1
type_number reply_send = 2
type_number noop_phase0 = 3
type_number (other_type n) = n + 4

abbrev pub same_type : JobType → JobType → Bool
same_type a b = type_number a == type_number b

abbrev pub is_pending : JobStatus → Bool
is_pending pending = true
is_pending queued = false
is_pending processing = false
is_pending done = false
is_pending failed = false

-- The types that `_SESSION_LOCK_JOB_TYPES` holds.
abbrev pub locks_session : JobType → Bool
locks_session session_process = true
locks_session session_close = true
locks_session reply_send = false
locks_session noop_phase0 = false
locks_session (other_type n) = false

abbrev pub type_priority : JobType → ℕ
type_priority reply_send = 0
type_priority session_process = 1
type_priority noop_phase0 = 2
type_priority session_close = 10
type_priority (other_type n) = 5

abbrev pub priority : BackgroundJob → ℕ
priority job = type_priority job.job_type

abbrev pub job_created : BackgroundJob → ℕ
job_created job = job.created_at

abbrev pub job_id : BackgroundJob → ℕ
job_id job = job.id

-- `jobs.sort(key=_job_sort_key)`: three stable sorts, the last by the first part of the key.
pub sort_jobs : List BackgroundJob → List BackgroundJob
sort_jobs jobs = sort_by priority (sort_by job_created (sort_by job_id jobs))

-- `job_type IN (…)`; with no set every type is allowed.
abbrev pub is_allowed : Option (List JobType) → JobType → Bool
is_allowed none t = true
is_allowed (some types) t = any (same_type t) types

-- The oldest hundred pending jobs of the allowed types, in the order in which they are tried.
pub claim_window : Option (List JobType) → List BackgroundJob → List BackgroundJob
claim_window allowed table = sort_jobs (
    take 100 (
      sort_by job_created (keep (λ j. is_pending j.status && is_allowed allowed j.job_type) table)))

abbrev pub is_blocked : List ℕ → BackgroundJob → Bool
is_blocked blocked job =
    locks_session job.job_type && not (job.session_id == 0) && elem job.session_id blocked

-- The rows that `UPDATE … WHERE id = … AND status = 'pending'` meets.
abbrev pub meets : ℕ → BackgroundJob → Bool
meets id job = job.id == id && is_pending job.status

unfoldable pub set_processing : ℕ → List BackgroundJob → List BackgroundJob
set_processing id [] = []
set_processing id (job ∷ table) =
    (if meets id job then record job { status = processing } else job) ∷ set_processing id table

unfoldable pub row_count : ℕ → List BackgroundJob → ℕ
row_count id table = length (keep (meets id) table)

-- The loop over the window. A job that is not claimed leaves the table to be rolled back.
pub claim_loop :
    List ℕ → List BackgroundJob → List BackgroundJob → Option BackgroundJob × List BackgroundJob
claim_loop blocked table [] = (none, table)
claim_loop blocked table (job ∷ jobs) =
    let rest = claim_loop blocked table jobs in
    if is_blocked blocked job
    then rest
    else if not (row_count job.id table == 1)
    then rest
    else (some (record job { status = processing }), set_processing job.id table)

pub claim_next_job :
    List ℕ → Option (List JobType) → List BackgroundJob → Option BackgroundJob × List BackgroundJob
claim_next_job blocked allowed table =
    let claimed = claim_loop blocked table (claim_window allowed table) in
    elim allowed [ none ↦ claimed | some types ↦ if is_nil types then (none, table) else claimed ]

-- The statuses that `find_session_process_job` and `find_reply_send_job` look at.
abbrev pub counts_as_added : JobStatus → Bool
counts_as_added pending = true
counts_as_added processing = true
counts_as_added done = true
counts_as_added queued = false
counts_as_added failed = false

unfoldable pub has_job_for : JobType → ℕ → List BackgroundJob → Bool
has_job_for t message =
    any λ j. same_type j.job_type t && counts_as_added j.status && j.message_id == message

abbrev pub is_deduplicated : JobType → Bool
is_deduplicated reply_send = true
is_deduplicated session_process = true
is_deduplicated session_close = false
is_deduplicated noop_phase0 = false
is_deduplicated (other_type n) = false

-- `add_job`; the id and the time of the new row are arguments.
unfoldable pub add_job : JobType → ℕ → ℕ → ℕ → ℕ → List BackgroundJob → List BackgroundJob
add_job t session message new_id now table =
    let row : BackgroundJob = record {
      id = new_id;
      job_type = t;
      session_id = session;
      message_id = message;
      status = pending;
      created_at = now;
    } in
    if is_deduplicated t && not (message == 0) && has_job_for t message table
    then table
    else table ++ row ∷ []
