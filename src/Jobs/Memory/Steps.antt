-- ===== src/Jobs/Memory/Steps.antt =====
-- The methods that change a stored job, by what the job is.
use async_job_processing_pip.Prelude.{
  ℕ, String, ◌≡◌, refl, true, false, none, some, arith, ◌==◌, nat_eq, if◌then◌else◌, Option-cases,
  Bool-cases, inl, inr, ◌⊎◌,
}
use async_job_processing_pip.Prelude.Dict.{get, put, get-put}
use async_job_processing_pip.Core.Json.{Payload, field, empty, str}
use async_job_processing_pip.Core.Enums.{status_value, is_pending}
use async_job_processing_pip.Core.Errors.{
  Raised, Result-cases, ok, err, raise, not_found_error, conflict_error,
}
use async_job_processing_pip.Text.{truthy}
use async_job_processing_pip.Calendar.{Instant}
use async_job_processing_pip.Scheduling.{next_cron_run}
use async_job_processing_pip.Jobs.{Uuid, Clock, JobRecord}
use async_job_processing_pip.Jobs.Memory.{
  Memory, store, is_claimable, claimed, claim_job, succeeded_with, mark_succeeded, next_job,
  create_next_recurring_job, failed_with, mark_failed_attempt, cancelled_at, cancel_job,
}

-- The stored job after a write.
pub get-store :
    (i j : Uuid) (job : JobRecord) (m : Memory)
    → get j (store i job m).jobs ≡ (if i == j then some job else get j m.jobs)
unfolding store
get-store i j job m = get-put i j job m.jobs

module _ (clock : Clock) (i : Uuid) (m : Memory) where
  module _ {job : JobRecord} (stored : get i m.jobs ≡ some job) where
    pub claim_job_some :
        (worker_id : String)
        → m.drain_enabled ≡ false
        → is_claimable (clock 0) job ≡ true
        → claim_job clock i worker_id m
          ≡ (some (claimed (clock 0) worker_id job), store i (claimed (clock 0) worker_id job) m)
    unfolding claim_job
    claim_job_some worker_id d c = ground (arith, stored)

    pub mark_succeeded_some :
        (result : Payload)
        → mark_succeeded clock i result m ≡ (
          ok (succeeded_with (clock 0) result job),
          store i (succeeded_with (clock 0) result job) m,
        )
    unfolding mark_succeeded
    mark_succeeded_some result = ground (arith, stored)

    pub mark_failed_attempt_some :
        (error : String) (backoff : ℕ)
        → mark_failed_attempt clock i error backoff m ≡ (
          ok (failed_with (clock 0) error backoff job),
          store i (failed_with (clock 0) error backoff job) m,
        )
    unfolding mark_failed_attempt
    mark_failed_attempt_some error backoff = ground (arith, stored)

  -- A claim answers with a job exactly where claiming is not drained and the stored job is pending and
  -- due; then that job is stored as running under the worker, with one attempt more, and it is the
  -- answer. In every other case the answer is nothing and the state is unchanged.
  pub claim_job_cases :
      (worker_id : String)
      → (claim_job clock i worker_id m ≡ (none, m))
          × ((m.drain_enabled ≡ true)
              ⊎ (get i m.jobs ≡ none)
              ⊎ ((job : JobRecord) × (get i m.jobs ≡ some job)
                  × (is_claimable (clock 0) job ≡ false)))
        ⊎ ((job : JobRecord) × (get i m.jobs ≡ some job)
            × (m.drain_enabled ≡ false)
            × (is_claimable (clock 0) job ≡ true)
            × (claim_job clock i worker_id m ≡ (
              some (claimed (clock 0) worker_id job),
              store i (claimed (clock 0) worker_id job) m,
            )))
  unfolding claim_job
  claim_job_cases worker_id = elim (Bool-cases m.drain_enabled) [
    | inl d ↦ inl (rw d, inl d)
    | inr d ↦ elim (Option-cases (get i m.jobs)) [
      | inl missing ↦ inl (ground (arith, missing), inr (inl missing))
      | inr (job, stored) ↦ elim (Bool-cases (is_claimable (clock 0) job)) [
        | inl c ↦ inr (job, stored, d, c, ground (arith, stored))
        | inr c ↦ inl (ground (arith, stored), inr (inr (job, stored, c)))
      ]
    ]
  ]

  -- Cancelling changes a pending job alone: it is answered as cancelled and stored so. Of a job in any
  -- other state the answer is a conflict that names its status, of an unknown one that there is none,
  -- and both leave the state as it was.
  pub cancel_job_cases :
      (get i m.jobs ≡ none) × (cancel_job clock i m ≡ (raise (not_found_error "Job not found"), m))
      ⊎ ((job : JobRecord) × (get i m.jobs ≡ some job)
          × (is_pending job.status ≡ false)
          × (cancel_job clock i m ≡ (
            raise (
                conflict_error "Only pending jobs can be cancelled"
                  (field "status" (str (status_value job.status)) empty)),
            m,
          )))
      ⊎ ((job : JobRecord) × (get i m.jobs ≡ some job)
          × (is_pending job.status ≡ true)
          × (cancel_job clock i m
              ≡ (ok (cancelled_at (clock 0) job), store i (cancelled_at (clock 0) job) m)))
  unfolding cancel_job
  cancel_job_cases = elim (Option-cases (get i m.jobs)) [
    | inl missing ↦ inl (missing, ground (arith, missing))
    | inr (job, stored) ↦ elim (Bool-cases (is_pending job.status)) [
      | inl p ↦ inr (inr (job, stored, p, ground (arith, stored, p)))
      | inr p ↦ inr (inl (job, stored, p, ground (arith, stored, p)))
    ]
  ]

module _ (clock : Clock) (fresh : Uuid) (job : JobRecord) (m : Memory) where
  pub create_next_none :
      truthy job.recurring_cron ≡ none → create_next_recurring_job clock fresh job m ≡ (ok none, m)
  unfolding create_next_recurring_job
  create_next_none h = ground (arith, h)

  pub create_next_refused :
      {cron : String} {x : Raised}
      → truthy job.recurring_cron ≡ some cron
      → next_cron_run cron (clock 0) ≡ err x
      → create_next_recurring_job clock fresh job m ≡ (err x, m)
  unfolding create_next_recurring_job
  create_next_refused h n = ground (arith, h, n)

  pub create_next_some :
      {cron : String} {t : Instant}
      → truthy job.recurring_cron ≡ some cron
      → next_cron_run cron (clock 0) ≡ ok t
      → create_next_recurring_job clock fresh job m
        ≡ (ok (some (next_job clock fresh t job)), store fresh (next_job clock fresh t job) m)
  unfolding create_next_recurring_job
  create_next_some h n = ground (arith, h, n)

  -- What the jobs are after any attempt to follow a recurring job up.
  pub create_next-jobs :
      ((create_next_recurring_job clock fresh job m).1.jobs ≡ m.jobs)
      ⊎ ((t : Instant) × ((create_next_recurring_job clock fresh job m).1.jobs
            ≡ put fresh (next_job clock fresh t job) m.jobs))
  unfolding store
  create_next-jobs = elim (Option-cases (truthy job.recurring_cron)) [
    | inl once ↦ inl (rw (create_next_none once) refl)
    | inr (cron, recurs) ↦ elim (Result-cases (next_cron_run cron (clock 0))) [
      | inl (t, next) ↦ inr (t, rw (create_next_some recurs next) refl)
      | inr (x, refused) ↦ inl (rw (create_next_refused recurs refused) refl)
    ]
  ]
