-- ===== src/Jobs/Memory/Records.antt =====
-- The records of the in-memory repository of app/jobs/repositories.py between two calls.
use async_job_processing_pip.Prelude.{
  ℕ, ◌+◌, ◌≤◌, ◌<◌, String, ◌≡◌, ◌⊎◌, Bool, true, false, arith, ◌==◌, is_some,
}
use async_job_processing_pip.Calendar.{Instant}
use async_job_processing_pip.Core.Json.{Payload}
use async_job_processing_pip.Core.Enums.{JobStatus, dead_lettered, cancelled, status_eq, is_pending}
use async_job_processing_pip.Jobs.{Uuid, Clock, JobCreate, JobRecord}
use async_job_processing_pip.Jobs.Memory.{
  new_job, next_job, is_claimable, claimed, succeeded_with, is_exhausted, failed_with, cancelled_at,
}

-- A job that no worker will take again.
abbrev pub is_terminal : JobStatus → Bool
is_terminal JobStatus.succeeded = true
is_terminal dead_lettered = true
is_terminal cancelled = true
is_terminal _ = false

pub record IsConsistent (job : JobRecord) : Type 0 where
  pub lock_owner : is_some job.locked_by ≡ (job.status == JobStatus.running)
  pub lock_time : is_some job.locked_at ≡ (job.status == JobStatus.running)
  pub attempts : job.attempt_count ≤ job.max_retries + 1
  pub attempts_left : is_pending job.status ≡ true → job.attempt_count ≤ job.max_retries
  pub attempts_used : job.status ≡ dead_lettered → job.attempt_count ≡ job.max_retries + 1
  pub attempt_running : job.status ≡ JobStatus.running → 0 < job.attempt_count
  pub processed : is_some job.processed_at ≡ is_terminal job.status
  pub resulted : job.status ≡ JobStatus.succeeded → is_some job.result ≡ true

pub new_job-IsConsistent :
    (clock : Clock) (fresh : Uuid) (request : JobCreate)
    → IsConsistent (new_job clock fresh request)
unfolding new_job is_pending
new_job-IsConsistent clock fresh request = ground arith

pub next_job-IsConsistent :
    (clock : Clock) (fresh : Uuid) (t : Instant) (job : JobRecord)
    → IsConsistent (next_job clock fresh t job)
unfolding next_job is_pending
next_job-IsConsistent clock fresh t job = ground arith

module _ (now : Instant) {job : JobRecord} (h : IsConsistent job) where
  pub claimed-IsConsistent :
      (worker_id : String) → is_claimable now job ≡ true → IsConsistent (claimed now worker_id job)
  unfolding claimed is_claimable is_pending
  claimed-IsConsistent worker_id g = ground arith

  pub succeeded_with-IsConsistent :
      (result : Payload)
      → job.status ≡ JobStatus.running
      → IsConsistent (succeeded_with now result job)
  unfolding succeeded_with is_pending
  succeeded_with-IsConsistent result r = ground arith

  -- Whether the attempt fails, or the step after a success.
  pub failed_with-IsConsistent :
      (error : String) (backoff : ℕ)
      → (job.status ≡ JobStatus.running) ⊎ (job.status ≡ JobStatus.succeeded)
      → IsConsistent (failed_with now error backoff job)
  unfolding failed_with is_exhausted is_pending
  failed_with-IsConsistent error backoff r = ground arith

  pub cancelled_at-IsConsistent : is_pending job.status ≡ true → IsConsistent (cancelled_at now job)
  unfolding cancelled_at is_pending
  cancelled_at-IsConsistent p = ground arith
