-- ===== src/Jobs/Sql/Branches.antt =====
-- What the calls of the two repositories of app/jobs/repositories.py answer, branch by branch.
use async_job_processing_pip.Prelude.{
  ℕ, ◌≡◌, true, false, none, some, arith, String, nat_eq, string_eq,
}
use async_job_processing_pip.Prelude.Dict.{get}
use async_job_processing_pip.Text.{truthy}
use async_job_processing_pip.Scheduling.{next_cron_run}
use async_job_processing_pip.Calendar.{Instant}
use async_job_processing_pip.Core.Enums.{AttemptStatus, status_eq, is_pending}
use async_job_processing_pip.Core.Errors.{Raised, ok, err, raise, not_found_error}
use async_job_processing_pip.Jobs.{Uuid, Clock, JobCreate, JobRecord}
use async_job_processing_pip.Jobs.Memory
use async_job_processing_pip.Jobs.Memory.{
  Memory, values, store, remember, new_job, known_as, at_key, replayed, modify, cancel,
  newest_first, with_status, with_handler, succeeded_with, failed_with, cancelled_at, next_job,
  add_recurring, is_claimable, claimed, try_claim,
}
use async_job_processing_pip.Jobs.Sql
use async_job_processing_pip.Jobs.Sql.{
  Database, JobAttempt, write_job, same_key, find_row, existing, is_duplicate, insert_job,
  get_drain,
}
use async_job_processing_pip.Jobs.Sql.Writes
use async_job_processing_pip.Jobs.Sql.Writes.{
  is_attempt, finish, finish_attempt, failed_row, next_row, insert_next, read_cancel, write_cancel,
  pending_row, read_claim, claimable_row, write_claim, claimed_job, claim_row, new_attempt,
}
use async_job_processing_pip.Jobs.Sql.Claims.{claim_job_none}

module _ (clock : Clock) (i : Uuid) (db : Database) where
  pub fail_none :
      get i db.jobs ≡ none
      → (error : String) (backoff : ℕ)
      → Writes.mark_failed_attempt clock i error backoff db
        ≡ (raise (not_found_error "Job not found"), db)
  unfolding Writes.mark_failed_attempt Sql.get_job
  fail_none missing error backoff = ground (arith, missing)

  pub cancel_none :
      get i db.jobs ≡ none
      → Writes.cancel_job clock i db ≡ (raise (not_found_error "Job not found"), db)
  unfolding Writes.cancel_job read_cancel Sql.get_job
  cancel_none missing = ground (arith, missing)

  module _ {row : JobRecord} (stored : get i db.jobs ≡ some row) where
    pub fail_some :
        (error : String) (backoff : ℕ)
        → Writes.mark_failed_attempt clock i error backoff db
          ≡ finish
              (clock 1)
              AttemptStatus.failed
              (some error)
              (failed_row (clock 0) error backoff row)
              db
    unfolding Writes.mark_failed_attempt Sql.get_job
    fail_some error backoff = ground (arith, stored)

    pub cancel_some :
        is_pending row.status ≡ true
        → Writes.cancel_job clock i db
          ≡ (ok (cancelled_at (clock 0) row), write_job (cancelled_at (clock 0) row) db)
    unfolding Writes.cancel_job read_cancel write_cancel pending_row Sql.get_job
    cancel_some pending = ground (arith, stored, pending)

    pub cancel_busy :
        is_pending row.status ≡ false → Writes.cancel_job clock i db ≡ (pending_row row, db)
    unfolding Writes.cancel_job read_cancel pending_row Sql.get_job
    cancel_busy busy = ground (arith, stored, busy)

module _ (clock : Clock) (i : Uuid) (m : Memory) where
  pub mark_failed_attempt_none :
      get i m.jobs ≡ none
      → (error : String) (backoff : ℕ)
      → Memory.mark_failed_attempt clock i error backoff m
        ≡ (raise (not_found_error "Job not found"), m)
  unfolding Memory.mark_failed_attempt
  mark_failed_attempt_none missing error backoff = ground (arith, missing)

  pub cancel_none_memory :
      get i m.jobs ≡ none
      → Memory.cancel_job clock i m ≡ (raise (not_found_error "Job not found"), m)
  unfolding Memory.cancel_job
  cancel_none_memory missing = ground (arith, missing)

  module _ {job : JobRecord} (stored : get i m.jobs ≡ some job) where
    pub cancel_some_memory :
        is_pending job.status ≡ true
        → Memory.cancel_job clock i m
          ≡ (ok (cancelled_at (clock 0) job), store i (cancelled_at (clock 0) job) m)
    unfolding Memory.cancel_job
    cancel_some_memory pending = ground (arith, stored, pending)

    pub cancel_busy_memory :
        is_pending job.status ≡ false → Memory.cancel_job clock i m ≡ (pending_row job, m)
    unfolding Memory.cancel_job pending_row
    cancel_busy_memory busy = ground (arith, stored, busy)

-- The submissions.
module _ (clock : Clock) (fresh : Uuid) (request : JobCreate) (db : Database) where
  pub create_new :
      existing (truthy request.idempotency_key) db ≡ none
      → is_duplicate fresh request.idempotency_key db ≡ false
      → Sql.create_job clock fresh request db
        ≡ (ok (new_job clock fresh request, false), write_job (new_job clock fresh request) db)
  unfolding Sql.create_job insert_job new_job
  create_new unknown free = ground (arith, unknown, free)

  pub create_known :
      {row : JobRecord}
      → existing (truthy request.idempotency_key) db ≡ some row
      → Sql.create_job clock fresh request db ≡ (ok (row, true), db)
  unfolding Sql.create_job
  create_known known = ground (arith, known)

-- The follow-up of a recurring job.
module _ (clock : Clock) (fresh : Uuid) (job : JobRecord) (db : Database) where
  pub next_none :
      truthy job.recurring_cron ≡ none
      → Writes.create_next_recurring_job clock fresh job db ≡ (ok none, db)
  unfolding Writes.create_next_recurring_job
  next_none once = ground (arith, once)

  pub next_refused :
      {cron : String} {x : Raised}
      → truthy job.recurring_cron ≡ some cron
      → next_cron_run cron (clock 0) ≡ err x
      → Writes.create_next_recurring_job clock fresh job db ≡ (err x, db)
  unfolding Writes.create_next_recurring_job insert_next
  next_refused recurs refused = ground (arith, recurs, refused)

  pub next_some :
      {cron : String} {t : Instant}
      → truthy job.recurring_cron ≡ some cron
      → next_cron_run cron (clock 0) ≡ ok t
      → get fresh db.jobs ≡ none
      → Writes.create_next_recurring_job clock fresh job db
        ≡ (ok (some (next_row clock fresh t job)), write_job (next_row clock fresh t job) db)
  unfolding Writes.create_next_recurring_job insert_next is_duplicate existing
  next_some recurs next free = ground (arith, recurs, next, free)

-- Claims that find nothing to run.
module _ (clock : Clock) (attempt_id i : Uuid) (worker_id : String) where
  pub claim_drained :
      (db : Database)
      → get_drain db ≡ true
      → Writes.claim_job clock attempt_id i worker_id db ≡ (ok none, db)
  unfolding read_claim
  claim_drained db drained =
      claim_job_none clock attempt_id i worker_id db (ground (arith, drained))

  pub claim_missing :
      (db : Database)
      → get_drain db ≡ false
      → get i db.jobs ≡ none
      → Writes.claim_job clock attempt_id i worker_id db ≡ (ok none, db)
  unfolding read_claim claimable_row
  claim_missing db on missing =
      claim_job_none clock attempt_id i worker_id db (ground (arith, on, missing))

  pub claim_drained_memory :
      (m : Memory) → m.drain_enabled ≡ true → Memory.claim_job clock i worker_id m ≡ (none, m)
  unfolding Memory.claim_job
  claim_drained_memory m drained = ground (arith, drained)

  pub claim_missing_memory :
      (m : Memory)
      → m.drain_enabled ≡ false
      → get i m.jobs ≡ none
      → Memory.claim_job clock i worker_id m ≡ (none, m)
  unfolding Memory.claim_job
  claim_missing_memory m on missing = ground (arith, on, missing)

  pub claim_unclaimable_memory :
      (m : Memory) {job : JobRecord}
      → m.drain_enabled ≡ false
      → get i m.jobs ≡ some job
      → is_claimable (clock 0) job ≡ false
      → Memory.claim_job clock i worker_id m ≡ (none, m)
  unfolding Memory.claim_job
  claim_unclaimable_memory m on stored unclaimable = ground (arith, on, stored, unclaimable)
