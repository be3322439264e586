-- ===== src/Jobs/Service/Recurrence.antt =====
-- What a `process_job` call of app/jobs/service.py does with a recurring job that succeeds.
use async_job_processing_pip.Prelude.{
  ◌+◌, ◌≤◌, String, ◌≡◌, refl, ap, true, false, none, some, arith, ◌==◌, nat_eq,
}
use async_job_processing_pip.Prelude.Dict.{get}
use async_job_processing_pip.Text.{truthy}
use async_job_processing_pip.Core.Json.{Payload}
use async_job_processing_pip.Core.Enums.{JobStatus, queued, status_eq, is_pending}
use async_job_processing_pip.Core.Errors.{Raised, ok, err}
use async_job_processing_pip.Calendar.{Instant}
use async_job_processing_pip.Scheduling.{next_cron_run}
use async_job_processing_pip.Jobs.{Clock, JobRecord}
use async_job_processing_pip.Jobs.Handlers.{Host, Handler}
use async_job_processing_pip.Jobs.Memory.{
  Memory, store, claim_job, is_claimable, claimed, succeeded_with, is_exhausted, failed_with,
  next_job,
}
use async_job_processing_pip.Jobs.Memory.Steps.{
  get-store, claim_job_some, create_next_refused, create_next_some,
}
use async_job_processing_pip.Jobs.Repository.{memory_repository}
use async_job_processing_pip.Jobs.Service.{
  World, backoff_seconds, error_text, run_with_timeout, Run, process_job,
}
use async_job_processing_pip.Jobs.Service.Process.{
  with_memory, fail_attempt_retry, fail_attempt_last,
}
use async_job_processing_pip.Queue.{JobProducer}
use async_job_processing_pip.Jobs.Service.Outcomes.{
  WillRun, as_succeeded, taken, failed_job, runs_ok, runs_err, next_step, succeeded_job,
  after_success,
}

module _ {P : Type 0} (prod : JobProducer P) (host : Host) (run : Run) (worker_id : String)
    (job : JobRecord) (handler : Handler) (w : World Memory P)
    (will : WillRun run job handler w) where
  pub recurring_outcome :
      (result : Payload) (cron : String) (t : Instant)
      → run_with_timeout host run.join handler job.payload ≡ ok result
      → truthy job.recurring_cron ≡ some cron
      → next_cron_run cron (run.recurring 0) ≡ ok t
      → (job.id == run.next_id) ≡ false
      → let done = (succeeded_job prod host run worker_id job handler w will) result in
        let out = process_job memory_repository prod host run job.id worker_id w in
        (out.0 ≡ ok (some done))
        × (get job.id out.1.repository.jobs ≡ some done)
        × (get run.next_id out.1.repository.jobs ≡ some (next_job run.recurring run.next_id t done))
        × (out.1.producer ≡ w.producer)
  unfolding claimed succeeded_with
  recurring_outcome result cron t ran recurs next new =
      let done = (succeeded_job prod host run worker_id job handler w will) result in
      let following = next_job run.recurring run.next_id t done in
      let out = runs_ok prod host run worker_id job handler w will (
        next_step prod host run worker_id job handler w will result ran (
          create_next_some run.recurring run.next_id done
            ((after_success prod host run worker_id job handler w will) result) recurs next)) in
      rw out (
        refl,
        ground (
          arith,
          get-store run.next_id job.id following
              ((after_success prod host run worker_id job handler w will) result),
          get-store job.id job.id done (store job.id (taken run worker_id job) w.repository),
          new,
        ),
        ground (
          arith,
          get-store run.next_id run.next_id following
              ((after_success prod host run worker_id job handler w will) result),
        ),
        refl,
      )

  -- The job that is stored as succeeded.
  succeeded_stored :
      (result : Payload)
      → get
          (taken run worker_id job).id
          ((after_success prod host run worker_id job handler w will) result).jobs
        ≡ some (succeeded_job prod host run worker_id job handler w will result)
  unfolding claimed
  succeeded_stored result = ground (
    arith,
    get-store job.id job.id (succeeded_job prod host run worker_id job handler w will result)
        (store job.id (taken run worker_id job) w.repository),
  )

  -- A refusal of the next run fails the job that has just succeeded.
  pub late_retry :
      (result : Payload) (cron : String) (x : Raised)
      → run_with_timeout host run.join handler job.payload ≡ ok result
      → truthy job.recurring_cron ≡ some cron
      → next_cron_run cron (run.recurring 0) ≡ err x
      → is_exhausted (taken run worker_id job) ≡ false
      → let failed =
          failed_job host run x (succeeded_job prod host run worker_id job handler w will result) in
        process_job memory_repository prod host run job.id worker_id w ≡ (
          ok (some failed),
          with_memory
              (store job.id failed
                ((after_success prod host run worker_id job handler w will) result))
              w,
        )
  unfolding claimed succeeded_with is_exhausted
  late_retry result cron x ran recurs refused left =
      let c = taken run worker_id job in
      let done = (succeeded_job prod host run worker_id job handler w will) result in
      let raised = next_step prod host run worker_id job handler w will result ran (
        create_next_refused run.recurring run.next_id done
          ((after_success prod host run worker_id job handler w will) result) recurs refused) in
      runs_err prod host run worker_id job handler w will raised (
        fail_attempt_retry prod host run c done x
          (with_memory ((after_success prod host run worker_id job handler w will) result) w)
          (succeeded_stored result) left)

  pub late_last :
      (result : Payload) (cron : String) (x : Raised) (p : P)
      → run_with_timeout host run.join handler job.payload ≡ ok result
      → truthy job.recurring_cron ≡ some cron
      → next_cron_run cron (run.recurring 0) ≡ err x
      → is_exhausted (taken run worker_id job) ≡ true
      → prod.publish_dead_letter job.id job.handler (job.attempt_count + 1) w.producer ≡ (ok tt, p)
      → let dead =
          failed_job host run x (succeeded_job prod host run worker_id job handler w will result) in
        process_job memory_repository prod host run job.id worker_id w ≡ (
          ok (some dead),
          record {
            repository =
                store job.id dead
                  ((after_success prod host run worker_id job handler w will) result);
            producer = p;
          },
        )
  unfolding claimed succeeded_with is_exhausted
  late_last result cron x p ran recurs refused used sent =
      let c = taken run worker_id job in
      let done = (succeeded_job prod host run worker_id job handler w will) result in
      let raised = next_step prod host run worker_id job handler w will result ran (
        create_next_refused run.recurring run.next_id done
          ((after_success prod host run worker_id job handler w will) result) recurs refused) in
      runs_err prod host run worker_id job handler w will raised (
        fail_attempt_last prod host run c done x
          (with_memory ((after_success prod host run worker_id job handler w will) result) w)
          (succeeded_stored result) used sent)

-- The job that follows a recurring one at `t`: what it does is the same, and its life begins anew.
abbrev pub follow_up : Run → Instant → JobRecord → JobRecord
follow_up run t job = record {
  id = run.next_id;
  handler = job.handler;
  payload = job.payload;
  status = queued;
  priority = job.priority;
  max_retries = job.max_retries;
  timeout_seconds = job.timeout_seconds;
  attempt_count = 0;
  next_run_at = t;
  run_at = some t;
  recurring_cron = job.recurring_cron;
  locked_by = none;
  locked_at = none;
  kafka_message_key = some run.next_id;
  last_error = none;
  result = none;
  idempotency_key = none;
  created_at = run.recurring 0;
  updated_at = run.recurring 0;
  processed_at = none;
}

module _ {P : Type 0} (prod : JobProducer P) (host : Host) (run : Run) (worker_id : String)
    (job : JobRecord) (handler : Handler) (w : World Memory P)
    (will : WillRun run job handler w) where
  -- A handler that returns, of a recurring job that will be claimed and whose expression has a next run at
  -- `t`, where the drawn id is not the job's own: the job is
  -- succeeded with its result, and under the drawn id there is a queued job of the same handler, payload,
  -- priority, limits and expression that is to run at `t` and has not been attempted.
  pub process_job_recurring :
      (result : Payload) (cron : String) (t : Instant)
      → run_with_timeout host run.join handler job.payload ≡ ok result
      → truthy job.recurring_cron ≡ some cron
      → next_cron_run cron (run.recurring 0) ≡ ok t
      → (job.id == run.next_id) ≡ false
      → let done = as_succeeded run result job in
        let out = process_job memory_repository prod host run job.id worker_id w in
        (out.0 ≡ ok (some done))
        × (get job.id out.1.repository.jobs ≡ some done)
        × (get run.next_id out.1.repository.jobs ≡ some (follow_up run t job))
        × (out.1.producer ≡ w.producer)
  unfolding claimed succeeded_with next_job
  process_job_recurring result cron t ran recurs next new =
      recurring_outcome prod host run worker_id job handler w will result cron t ran recurs next new

  -- Over the in-memory repository, a handler that returned, of a recurring job that has attempts left and
  -- whose expression is refused when the next run is sought: the job that was just stored as succeeded is
  -- failed over again. It keeps its result and has no time of processing, and the next claim, once the job
  -- is due again, hands it to a worker for another attempt.
  pub process_job_late_failure :
      (result : Payload) (cron : String) (x : Raised)
      → run_with_timeout host run.join handler job.payload ≡ ok result
      → truthy job.recurring_cron ≡ some cron
      → next_cron_run cron (run.recurring 0) ≡ err x
      → is_exhausted (taken run worker_id job) ≡ false
      → let out = process_job memory_repository prod host run job.id worker_id w in
        (failed : JobRecord) × (out.0 ≡ ok (some failed))
        × (get job.id out.1.repository.jobs ≡ some failed)
        × (failed.status ≡ JobStatus.failed)
        × (failed.result ≡ some result)
        × (failed.processed_at ≡ none)
        × (failed.attempt_count ≡ job.attempt_count + 1)
        × ((again : Clock) (other : String)
            → failed.next_run_at ≤ again 0
            → (claim_job again job.id other out.1.repository).0
              ≡ some (record failed {
                status = JobStatus.running;
                locked_by = some other;
                locked_at = some (again 0);
                attempt_count = failed.attempt_count + 1;
                updated_at = again 0;
              }))
  unfolding claimed succeeded_with is_exhausted failed_with is_pending is_claimable store
  process_job_late_failure result cron x ran recurs refused left =
      let c = taken run worker_id job in
      let done = (succeeded_job prod host run worker_id job handler w will) result in
      let failed =
        failed_with (run.failing 0) (error_text host x) (backoff_seconds c.attempt_count) done in
      let out =
        late_retry prod host run worker_id job handler w will result cron x ran recurs refused
          left in
      let before = (after_success prod host run worker_id job handler w will) result in
      let stored : get job.id (store job.id failed before).jobs ≡ some failed =
        ground (arith, get-store job.id job.id failed before) in
      (
        failed,
        rw out refl,
        rw out stored,
        rw left refl,
        refl,
        rw left refl,
        refl,
        λ again other due. rw out (
            ap (λ p. p.0)
              (claim_job_some again job.id (store job.id failed before) stored other
                will.not_drained (ground (arith, left, due)))),
      )
