-- ===== src/Tests/Throttles.antt =====
-- The rate limits and the queue of jobs at concrete inputs.
use cursor_pulse.Base.{
  ℕ, ◌+◌, ◌≤◌, ◌≡◌, refl, ◌⊎◌, true, false, if◌then◌else◌, List, [], ◌∷◌, none, some, arith, All,
  any, leb,
}
use cursor_pulse.Base.Dict.{pair_beq}
use cursor_pulse.Limits.Window.{try_acquire, drop_old}
use cursor_pulse.Limits.Exact.{attempts, spec, attempts_exact}
use cursor_pulse.Limits.Login.{
  Attempts, counted, login_keys, check_login_allowed, record_login_attempt,
  check_login_allowed_exact, record_login_attempt_counts,
}
use cursor_pulse.Jobs.{
  JobType, session_process, session_close, reply_send, BackgroundJob, pending, processing,
  is_pending, is_allowed, is_blocked, row_count, set_processing, claim_window, claim_next_job,
  priority,
}
use cursor_pulse.Jobs.Claiming.{IsKeyed, claim_next_job_cases}

abbrev times : List ℕ
times = 1 ∷ 2 ∷ 3 ∷ 12 ∷ []

attempts_exact_example :
    attempts (record { limit = 2; window_seconds = 10; events = [] }) times ≡ spec 2 10 [] times
attempts_exact_example =
    attempts_exact 2 10 times (omega arith)
      (omega arith, (omega arith, (omega arith, (omega arith, tt))))

attempts_run :
    attempts (record { limit = 2; window_seconds = 10; events = [] }) times
    ≡ true ∷ true ∷ false ∷ true ∷ []
unfolding attempts try_acquire drop_old
attempts_run = refl

abbrev seen : Attempts
seen = ((0, 4), 1 ∷ 2 ∷ []) ∷ []

check_login_allowed_exact_example :
    ((check_login_allowed seen 5 4 3).0 ≡ any (λ k. leb 20 (counted seen 3 k)) (login_keys 5 4))
    × ((later : ℕ) (j : ℕ × ℕ)
        → 3 ≤ later
        → counted (check_login_allowed seen 5 4 3).1 later j ≡ counted seen later j)
check_login_allowed_exact_example = check_login_allowed_exact seen 5 4 3

record_login_attempt_counts_run :
    counted (record_login_attempt seen 5 4 3) 9 (0, 4)
    ≡ counted seen 9 (0, 4) + (if any (pair_beq (0, 4)) (login_keys 5 4) then 1 else 0)
record_login_attempt_counts_run =
    record_login_attempt_counts seen 5 4 3 9 (0, 4) (omega arith) (omega arith)

abbrev job : ℕ → JobType → ℕ → BackgroundJob
job id t session = record {
  id = id;
  job_type = t;
  session_id = session;
  message_id = id;
  status = pending;
  created_at = id;
}

abbrev jobs : List BackgroundJob
jobs = job 1 session_close 8 ∷ job 2 session_process 9 ∷ job 3 reply_send 8 ∷ []

jobs-IsKeyed : IsKeyed jobs
unfolding row_count
jobs-IsKeyed = (refl, (refl, (refl, tt)))

claim_next_job_cases_example :
    ((claim_next_job (9 ∷ []) none jobs ≡ (none, jobs))
      × All (λ k. is_blocked (9 ∷ []) k ≡ true) (claim_window none jobs))
    ⊎ ((j : BackgroundJob) × (claim_next_job (9 ∷ []) none jobs
          ≡ (some (record j { status = processing }), set_processing j.id jobs))
        × (is_pending j.status ≡ true)
        × (is_allowed none j.job_type ≡ true)
        × (is_blocked (9 ∷ []) j ≡ false)
        × (row_count j.id jobs ≡ 1)
        × All
            (λ k. (is_blocked (9 ∷ []) k ≡ true) ⊎ (priority j ≤ priority k))
            (claim_window none jobs))
claim_next_job_cases_example = claim_next_job_cases (9 ∷ []) none jobs jobs-IsKeyed (λ e. cc)
