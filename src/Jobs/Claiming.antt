-- ===== src/Jobs/Claiming.antt =====
-- Which job `claim_next_job` takes.
use cursor_pulse.Base.{
  ℕ, ◌≤◌, ◌≡◌, ◌≢◌, refl, ◌∙◌, true, false, ◌&&◌, List, [], ◌∷◌, Option, none, some, arith, ◌⊎◌,
  Bool-cases, inl, inr, if◌then◌else◌, keep, All, All-take, All-mono,
}
use cursor_pulse.Base.Sorting.{sort_by, sort_by-IsSorted, IsSorted, All-sort_by}
use cursor_pulse.Jobs.{
  JobType, processing, BackgroundJob, is_pending, is_allowed, priority, job_created, job_id,
  sort_jobs, claim_window, is_blocked, row_count, set_processing, claim_loop, claim_next_job,
}

-- An update by the id of a row and the status `pending` meets that row alone, or none if the row is
-- not pending: ids are a primary key.
abbrev pub IsKeyed : List BackgroundJob → Type 0
IsKeyed table = All (λ j. row_count j.id table ≡ (if is_pending j.status then 1 else 0)) table

-- A pending job of an allowed type, which an update of the table by its id meets once.
abbrev IsCandidate : Option (List JobType) → List BackgroundJob → BackgroundJob → Type 0
IsCandidate allowed table j =
    (is_pending j.status ≡ true)
    × (is_allowed allowed j.job_type ≡ true)
    × (row_count j.id table ≡ 1)

keep-candidates :
    (allowed : Option (List JobType)) (table rows : List BackgroundJob)
    → All (λ j. row_count j.id table ≡ (if is_pending j.status then 1 else 0)) rows
    → All
        (IsCandidate allowed table)
        (keep (λ j. is_pending j.status && is_allowed allowed j.job_type) rows)
keep-candidates allowed table [] a = tt
keep-candidates allowed table (j ∷ rows) a =
    elim (Bool-cases (is_pending j.status && is_allowed allowed j.job_type)) [
      | inl fits ↦
          rw fits
            ((ground arith, ground arith, ground arith), keep-candidates allowed table rows a.1)
      | inr other ↦ rw other (keep-candidates allowed table rows a.1)
    ]

claim_window-candidates :
    (allowed : Option (List JobType)) (table : List BackgroundJob)
    → IsKeyed table
    → All (IsCandidate allowed table) (claim_window allowed table)
unfolding claim_window sort_jobs
claim_window-candidates allowed table keyed =
    let P = IsCandidate allowed table in
    let rows =
      keep (λ (j : BackgroundJob). is_pending j.status && is_allowed allowed j.job_type) table in
    let oldest =
      All-take P 100 (sort_by job_created rows)
        (All-sort_by job_created P rows (keep-candidates allowed table table keyed)) in
    All-sort_by priority P _ (All-sort_by job_created P _ (All-sort_by job_id P _ oldest))

claim_window-IsSorted :
    (allowed : Option (List JobType)) (table : List BackgroundJob)
    → IsSorted priority (claim_window allowed table)
unfolding claim_window sort_jobs
claim_window-IsSorted allowed table = sort_by-IsSorted priority _

-- What a claim from a list of jobs is: the first that is not blocked, if there is one.
record IsFirst (blocked : List ℕ) (allowed : Option (List JobType))
    (table jobs : List BackgroundJob) (j : BackgroundJob) : Type 0 where
  candidate : IsCandidate allowed table j
  free : is_blocked blocked j ≡ false
  first : All (λ k. (is_blocked blocked k ≡ true) ⊎ (priority j ≤ priority k)) jobs

module _ (blocked : List ℕ) (allowed : Option (List JobType)) (table : List BackgroundJob) where
  claim_loop_cases :
      (jobs : List BackgroundJob)
      → All (IsCandidate allowed table) jobs
      → IsSorted priority jobs
      → ((claim_loop blocked table jobs ≡ (none, table))
          × All (λ k. is_blocked blocked k ≡ true) jobs)
        ⊎ ((j : BackgroundJob) × (claim_loop blocked table jobs
              ≡ (some (record j { status = processing }), set_processing j.id table))
            × IsFirst blocked allowed table jobs j)
  unfolding claim_loop
  claim_loop_cases [] a s = inl (refl, tt)
  claim_loop_cases (k ∷ jobs) a s = elim (Bool-cases (is_blocked blocked k)) [
    | inl busy ↦ elim (claim_loop_cases jobs a.1 s.1) [
      | inl (e, all) ↦ inl (rw (busy, claim_loop) e, (busy, all))
      | inr (j, e, f) ↦ inr (
        j,
        rw (busy, claim_loop) e,
        record { candidate = f.candidate; free = f.free; first = (inl busy, f.first) },
      )
    ]
    | inr free ↦ inr (
      k,
      ground (arith, a.0.2),
      record {
        candidate = a.0;
        free = free;
        first = (
          inr (omega arith),
          All-mono (λ y. priority k ≤ priority y)
              (λ y. (is_blocked blocked y ≡ true) ⊎ (priority k ≤ priority y)) (λ y h. inr h) jobs
              s.0,
        );
      },
    )
  ]

-- The test for an empty set of types lets a claim through.
claim_passes :
    (blocked : List ℕ) (allowed : Option (List JobType)) (table : List BackgroundJob)
    → allowed ≢ some []
    → claim_next_job blocked allowed table ≡ claim_loop blocked table (claim_window allowed table)
unfolding claim_next_job
claim_passes blocked none table h = refl
claim_passes blocked (some []) table h = absurd (h refl)
claim_passes blocked (some (t ∷ types)) table h = refl

-- On a table with unique ids, and unless an empty set of types is given, `claim_next_job` either
-- claims nothing, changes nothing, and every job of its window is blocked; or it claims a job that is
-- pending, of an allowed type and not blocked, whose priority is no worse than that of any job of the
-- window that is not blocked, and sets the status of that job alone.
pub claim_next_job_cases :
    (blocked : List ℕ) (allowed : Option (List JobType)) (table : List BackgroundJob)
    → IsKeyed table
    → allowed ≢ some []
    → ((claim_next_job blocked allowed table ≡ (none, table))
        × All (λ k. is_blocked blocked k ≡ true) (claim_window allowed table))
      ⊎ ((j : BackgroundJob) × (claim_next_job blocked allowed table
            ≡ (some (record j { status = processing }), set_processing j.id table))
          × (is_pending j.status ≡ true)
          × (is_allowed allowed j.job_type ≡ true)
          × (is_blocked blocked j ≡ false)
          × (row_count j.id table ≡ 1)
          × All
              (λ k. (is_blocked blocked k ≡ true) ⊎ (priority j ≤ priority k))
              (claim_window allowed table))
claim_next_job_cases blocked allowed table keyed some_types =
    elim (claim_loop_cases blocked allowed table (claim_window allowed table)
      (claim_window-candidates allowed table keyed) (claim_window-IsSorted allowed table)) [
        | inl (e, all) ↦ inl (claim_passes blocked allowed table some_types ∙ e, all)
        | inr (j, e, f) ↦ inr (
          j,
          claim_passes blocked allowed table some_types ∙ e,
          f.candidate.0,
          f.candidate.1,
          f.free,
          f.candidate.2,
          f.first,
        )
      ]
