-- ===== src/Jobs/Service/Process.antt =====
-- One `process_job` call over the in-memory repository and any producer.
use async_job_processing_pip.Prelude.{String, ◌≡◌, refl, true, false, Option, none, some, nat_eq}
use async_job_processing_pip.Prelude.Dict.{get}
use async_job_processing_pip.Core.Json.{Payload}
use async_job_processing_pip.Core.Enums.{status_eq}
use async_job_processing_pip.Core.Errors.{Raised, Result, ok, err}
use async_job_processing_pip.Core.Exec.{pure, continue, handle, ◌>>=◌}
use async_job_processing_pip.Jobs.{Uuid, JobRecord}
use async_job_processing_pip.Jobs.Handlers.{Host, Handler, get_handler}
use async_job_processing_pip.Jobs.Memory.{
  Memory, store, claim_job, succeeded_with, is_exhausted, failed_with, create_next_recurring_job,
}
use async_job_processing_pip.Jobs.Memory.Steps.{mark_succeeded_some, mark_failed_attempt_some}
use async_job_processing_pip.Jobs.Repository.{memory_repository}
use async_job_processing_pip.Jobs.Service.{
  World, backoff_seconds, error_text, run_with_timeout, Run, attempt, fail_attempt, run_claimed,
  process_job,
}
use async_job_processing_pip.Queue.{JobProducer}

abbrev pub with_memory : {P : Type 0} → Memory → World Memory P → World Memory P
with_memory m w = record { repository = m; producer = w.producer }

module _ {P : Type 0} (prod : JobProducer P) (host : Host) (run : Run) where
  -- Nothing to claim: nothing happens.
  pub process_job_skip :
      (i : Uuid) (worker_id : String) (w : World Memory P)
      → claim_job run.claiming i worker_id w.repository ≡ (none, w.repository)
      → process_job memory_repository prod host run i worker_id w ≡ (ok none, w)
  unfolding process_job memory_repository
  process_job_skip i worker_id w h = rw h

  pub process_job_claimed :
      (i : Uuid) (worker_id : String) (w : World Memory P) {job : JobRecord} {m : Memory}
      → claim_job run.claiming i worker_id w.repository ≡ (some job, m)
      → process_job memory_repository prod host run i worker_id w
        ≡ run_claimed memory_repository prod host run (some job) (with_memory m w)
  unfolding process_job memory_repository
  process_job_claimed i worker_id w h = rw h

  pub run_claimed_handled :
      (job : JobRecord) (handler : Handler) (w : World Memory P) {r : Result JobRecord}
      {w' : World Memory P}
      → get_handler job.handler ≡ ok handler
      → attempt memory_repository prod host run job handler w ≡ (r, w')
      → run_claimed memory_repository prod host run (some job) w
        ≡ (handle r (fail_attempt memory_repository prod host run job)
              >>= (λ done. pure (some done)))
            w'
  unfolding run_claimed
  run_claimed_handled job handler w h a = rw h (rw a refl)

  module _ (job : JobRecord) (handler : Handler) (w : World Memory P)
      (stored : get job.id w.repository.jobs ≡ some job) where
    pub attempt_err :
        {x : Raised}
        → run_with_timeout host run.join handler job.payload ≡ err x
        → attempt memory_repository prod host run job handler w ≡ (err x, w)
    unfolding attempt
    attempt_err h = rw h

    -- What the step after the success comes to.
    pub attempt_ok :
        (result : Payload) {r : Result (Option JobRecord)} {m : Memory}
        → run_with_timeout host run.join handler job.payload ≡ ok result
        → create_next_recurring_job run.recurring run.next_id
            (succeeded_with (run.succeeding 0) result job)
            (store job.id (succeeded_with (run.succeeding 0) result job) w.repository)
          ≡ (r, m)
        → attempt memory_repository prod host run job handler w
          ≡ (continue r (λ _. pure (succeeded_with (run.succeeding 0) result job)))
              (with_memory m w)
    unfolding attempt memory_repository
    attempt_ok result h next =
        rw h
          (rw (mark_succeeded_some run.succeeding job.id w.repository stored result) (rw next refl))

  -- The failed attempt of a job with attempts left.
  pub fail_attempt_retry :
      (job stored_job : JobRecord) (exc : Raised) (w : World Memory P)
      → get job.id w.repository.jobs ≡ some stored_job
      → is_exhausted stored_job ≡ false
      → let updated =
          failed_with
            (run.failing 0)
            (error_text host exc)
            (backoff_seconds job.attempt_count)
            stored_job in
        fail_attempt memory_repository prod host run job exc w
        ≡ (ok updated, with_memory (store job.id updated w.repository) w)
  unfolding fail_attempt memory_repository
  fail_attempt_retry job stored_job exc w stored left =
      rw
        (mark_failed_attempt_some run.failing job.id w.repository stored (error_text host exc)
          (backoff_seconds job.attempt_count))
        (unfold failed_with in rw left refl)

  -- The failed attempt of a job with none left.
  pub fail_attempt_last :
      (job stored_job : JobRecord) (exc : Raised) (w : World Memory P) {p : P}
      → get job.id w.repository.jobs ≡ some stored_job
      → is_exhausted stored_job ≡ true
      → prod.publish_dead_letter stored_job.id stored_job.handler stored_job.attempt_count
          w.producer
        ≡ (ok tt, p)
      → let updated =
          failed_with
            (run.failing 0)
            (error_text host exc)
            (backoff_seconds job.attempt_count)
            stored_job in
        fail_attempt memory_repository prod host run job exc w
        ≡ (ok updated, record { repository = store job.id updated w.repository; producer = p })
  unfolding fail_attempt memory_repository
  fail_attempt_last job stored_job exc w stored used sent =
      rw
        (mark_failed_attempt_some run.failing job.id w.repository stored (error_text host exc)
          (backoff_seconds job.attempt_count))
        (unfold failed_with in rw used (rw sent refl))
