-- ===== src/Jobs/Service/Outcomes.antt =====
-- What a worker's `process_job` call leaves behind, over the in-memory repository.
use async_job_processing_pip.Prelude.{
  ◌+◌, ◌-◌, ◌*◌, ◌^◌, ◌<◌, min, ltb, ap, String, ◌≡◌, refl, ◌∙◌, true, false, Option, none, some,
  arith, ◌==◌, nat_eq, if◌then◌else◌,
}
use async_job_processing_pip.Prelude.Dict.{get}
use async_job_processing_pip.Text.{truthy}
use async_job_processing_pip.Core.Json.{Payload}
use async_job_processing_pip.Core.Enums.{JobStatus, dead_lettered, status_eq}
use async_job_processing_pip.Core.Errors.{Raised, Result, ok, err}
use async_job_processing_pip.Core.Exec.{continue, pure}
use async_job_processing_pip.Jobs.{Uuid, JobRecord}
use async_job_processing_pip.Jobs.Handlers.{Host, Handler, get_handler}
use async_job_processing_pip.Jobs.Memory.{
  Memory, store, is_claimable, claimed, succeeded_with, is_exhausted, failed_with,
  create_next_recurring_job,
}
use async_job_processing_pip.Jobs.Memory.Steps.{get-store, claim_job_some, create_next_none}
use async_job_processing_pip.Jobs.Repository.{memory_repository}
use async_job_processing_pip.Jobs.Service.{
  World, backoff_seconds, error_text, run_with_timeout, Run, attempt, fail_attempt, process_job,
}
use async_job_processing_pip.Jobs.Service.Process.{
  with_memory, process_job_claimed, run_claimed_handled, attempt_err, attempt_ok,
  fail_attempt_retry, fail_attempt_last,
}
use async_job_processing_pip.Queue.{JobProducer}

-- The job is stored, and the call will claim it and find its handler.
pub record WillRun {P : Type 0} (run : Run) (job : JobRecord) (handler : Handler)
    (w : World Memory P) : Type 0 where
  pub stored : get job.id w.repository.jobs ≡ some job
  pub not_drained : w.repository.drain_enabled ≡ false
  pub claimable : is_claimable (run.claiming 0) job ≡ true
  pub handled : get_handler job.handler ≡ ok handler

-- Two writes under one key are the last one.
pub get_twice :
    (i j : Uuid) (a b : JobRecord) (m : Memory)
    → get j (store i b (store i a m)).jobs ≡ (if i == j then some b else get j m.jobs)
get_twice i j a b m = ground (arith, get-store i j b (store i a m), get-store i j a m)

-- The job while it runs, and the state then.
abbrev pub taken : Run → String → JobRecord → JobRecord
taken run worker_id job = claimed (run.claiming 0) worker_id job

abbrev pub while_running : {P : Type 0} → Run → String → JobRecord → World Memory P → World Memory P
while_running run worker_id job w =
    with_memory (store job.id (taken run worker_id job) w.repository) w

-- The job after a failed attempt.
abbrev pub failed_job : Host → Run → Raised → JobRecord → JobRecord
failed_job host run x job =
    failed_with (run.failing 0) (error_text host x) (backoff_seconds job.attempt_count) job

pub taken_stored :
    (run : Run) (worker_id : String) (job : JobRecord) (m : Memory)
    → get (taken run worker_id job).id (store job.id (taken run worker_id job) m).jobs
      ≡ some (taken run worker_id job)
unfolding claimed
taken_stored run worker_id job m =
    ground (arith, get-store job.id job.id (claimed (run.claiming 0) worker_id job) m)

module _ {P : Type 0} (prod : JobProducer P) (host : Host) (run : Run) (worker_id : String)
    (job : JobRecord) (handler : Handler) (w : World Memory P)
    (will : WillRun run job handler w) where
  pub runs_ok :
      {done : JobRecord} {w' : World Memory P}
      → attempt memory_repository prod host run
          (taken run worker_id job)
          handler
          (while_running run worker_id job w)
        ≡ (ok done, w')
      → process_job memory_repository prod host run job.id worker_id w ≡ (ok (some done), w')
  runs_ok a =
      process_job_claimed prod host run job.id worker_id w (
        claim_job_some run.claiming job.id w.repository will.stored worker_id will.not_drained
          will.claimable)
      ∙ run_claimed_handled prod host run (taken run worker_id job) handler
          (while_running run worker_id job w) (unfold claimed in will.handled) a

  pub runs_err :
      {x : Raised} {done : JobRecord} {w' w'' : World Memory P}
      → attempt memory_repository prod host run
          (taken run worker_id job)
          handler
          (while_running run worker_id job w)
        ≡ (err x, w')
      → fail_attempt memory_repository prod host run (taken run worker_id job) x w' ≡ (ok done, w'')
      → process_job memory_repository prod host run job.id worker_id w ≡ (ok (some done), w'')
  runs_err a f =
      process_job_claimed prod host run job.id worker_id w (
        claim_job_some run.claiming job.id w.repository will.stored worker_id will.not_drained
          will.claimable)
      ∙ run_claimed_handled prod host run (taken run worker_id job) handler
          (while_running run worker_id job w) (unfold claimed in will.handled) a
      ∙ rw f refl

  abbrev pub succeeded_job : Payload → JobRecord
  succeeded_job result = succeeded_with (run.succeeding 0) result (taken run worker_id job)

  abbrev pub after_success : Payload → Memory
  after_success result =
      store job.id (succeeded_job result) (store job.id (taken run worker_id job) w.repository)

  pub next_step :
      (result : Payload) {r : Result (Option JobRecord)} {m : Memory}
      → run_with_timeout host run.join handler job.payload ≡ ok result
      → create_next_recurring_job run.recurring run.next_id
          (succeeded_job result)
          (after_success result)
        ≡ (r, m)
      → attempt memory_repository prod host run
          (taken run worker_id job)
          handler
          (while_running run worker_id job w)
        ≡ continue r (λ _. pure (succeeded_job result)) (with_memory m w)
  next_step result ran next =
      attempt_ok prod host run (taken run worker_id job) handler (while_running run worker_id job w)
        (taken_stored run worker_id job w.repository) result (unfold claimed in ran)
        (unfold claimed in next)

  pub attempt_fails :
      (x : Raised)
      → run_with_timeout host run.join handler job.payload ≡ err x
      → attempt memory_repository prod host run
          (taken run worker_id job)
          handler
          (while_running run worker_id job w)
        ≡ (err x, while_running run worker_id job w)
  attempt_fails x ran =
      attempt_err prod host run (taken run worker_id job) handler
        (while_running run worker_id job w) (taken_stored run worker_id job w.repository)
        (unfold claimed in ran)

  pub success_outcome :
      (result : Payload)
      → run_with_timeout host run.join handler job.payload ≡ ok result
      → truthy job.recurring_cron ≡ none
      → let done = succeeded_with (run.succeeding 0) result (taken run worker_id job) in
        let out = process_job memory_repository prod host run job.id worker_id w in
        (out.0 ≡ ok (some done))
        × ((j : Uuid)
            → get j out.1.repository.jobs
              ≡ (if job.id == j then some done else get j w.repository.jobs))
        × (out.1.producer ≡ w.producer)
  success_outcome result ran once =
      let out = runs_ok (
        next_step result ran (
          create_next_none run.recurring run.next_id (succeeded_job result) (after_success result)
            (unfold succeeded_with claimed in once))) in
      rw out (
        refl,
        λ j. get_twice job.id j (taken run worker_id job) (succeeded_job result) w.repository,
        refl,
      )

  pub retry_outcome :
      (x : Raised)
      → run_with_timeout host run.join handler job.payload ≡ err x
      → is_exhausted (taken run worker_id job) ≡ false
      → let failed = failed_job host run x (taken run worker_id job) in
        let out = process_job memory_repository prod host run job.id worker_id w in
        (out.0 ≡ ok (some failed))
        × ((j : Uuid)
            → get j out.1.repository.jobs
              ≡ (if job.id == j then some failed else get j w.repository.jobs))
        × (out.1.producer ≡ w.producer)
        × (out.1.repository.drain_enabled ≡ w.repository.drain_enabled)
  unfolding claimed store
  retry_outcome x ran left =
      let c = taken run worker_id job in
      let m = while_running run worker_id job w in
      let kept = taken_stored run worker_id job w.repository in
      let out =
        runs_err (attempt_fails x ran) (fail_attempt_retry prod host run c c x m kept left) in
      rw out (refl, λ j. get_twice job.id j c (failed_job host run x c) w.repository, refl, refl)

  pub process_job_exhausted :
      (x : Raised) (p : P)
      → run_with_timeout host run.join handler job.payload ≡ err x
      → is_exhausted (taken run worker_id job) ≡ true
      → prod.publish_dead_letter job.id job.handler (job.attempt_count + 1) w.producer ≡ (ok tt, p)
      → let dead = failed_job host run x (taken run worker_id job) in
        let out = process_job memory_repository prod host run job.id worker_id w in
        (out.0 ≡ ok (some dead))
        × (dead.status ≡ dead_lettered)
        × ((j : Uuid)
            → get j out.1.repository.jobs
              ≡ (if job.id == j then some dead else get j w.repository.jobs))
        × (out.1.producer ≡ p)
  unfolding claimed failed_with
  process_job_exhausted x p ran used sent =
      let c = taken run worker_id job in
      let m = while_running run worker_id job w in
      let kept = taken_stored run worker_id job w.repository in
      let out =
        runs_err (attempt_fails x ran) (fail_attempt_last prod host run c c x m kept used sent) in
      rw out
        (refl, rw used refl, λ j. get_twice job.id j c (failed_job host run x c) w.repository, refl)

-- A job that has succeeded: its lock is released, the attempt is counted, the result and the time are kept.
abbrev pub as_succeeded : Run → Payload → JobRecord → JobRecord
as_succeeded run result job = record job {
  status = JobStatus.succeeded;
  result = some result;
  attempt_count = job.attempt_count + 1;
  locked_by = none;
  locked_at = none;
  updated_at = run.succeeding 0;
  processed_at = some (run.succeeding 0);
}

-- A job that failed and may be tried again: its lock is released, the attempt is counted, and the next one
-- waits for a time that doubles with each attempt, from one second to five minutes.
abbrev pub as_failed : Host → Run → Raised → JobRecord → JobRecord
as_failed host run x job = record job {
  status = JobStatus.failed;
  last_error = some (error_text host x);
  attempt_count = job.attempt_count + 1;
  next_run_at = run.failing 0 + min (2 ^ job.attempt_count) 300 * 1_000_000;
  locked_by = none;
  locked_at = none;
  updated_at = run.failing 0;
  processed_at = none;
}

not_exhausted :
    (run : Run) (worker_id : String) (job : JobRecord)
    → job.attempt_count < job.max_retries
    → is_exhausted (taken run worker_id job) ≡ false
unfolding is_exhausted claimed
not_exhausted run worker_id job left = ground (arith, left)

failed_job-left :
    (host : Host) (run : Run) (x : Raised) (worker_id : String) (job : JobRecord)
    → job.attempt_count < job.max_retries
    → failed_job host run x (taken run worker_id job) ≡ as_failed host run x job
unfolding failed_with claimed is_exhausted backoff_seconds
failed_job-left host run x worker_id job left =
    let before : job.attempt_count + 1 - 1 ≡ job.attempt_count = omega arith in
    let more : ltb job.max_retries (job.attempt_count + 1) ≡ false = ground (arith, left) in
    rw (before, more) refl

module _ {P : Type 0} (prod : JobProducer P) (host : Host) (run : Run) (worker_id : String)
    (job : JobRecord) (handler : Handler) (w : World Memory P)
    (will : WillRun run job handler w) where
  -- A handler that returns, of a job that will be claimed and does not recur: the call answers with the job as succeeded,
  -- its result and time kept, the attempt counted and the lock released. It stores it so, touches no other
  -- job and publishes nothing.
  pub process_job_success :
      (result : Payload)
      → run_with_timeout host run.join handler job.payload ≡ ok result
      → truthy job.recurring_cron ≡ none
      → let done = as_succeeded run result job in
        let out = process_job memory_repository prod host run job.id worker_id w in
        (out.0 ≡ ok (some done))
        × ((j : Uuid)
            → get j out.1.repository.jobs
              ≡ (if job.id == j then some done else get j w.repository.jobs))
        × (out.1.producer ≡ w.producer)
  unfolding succeeded_with claimed
  process_job_success result ran once =
      success_outcome prod host run worker_id job handler w will result ran once

  -- An attempt of a job that will be claimed, which fails or times out, with attempts left: the job is failed with the error's text, the
  -- attempt counted and the lock released, to be tried again after `2 ^ n` seconds, or 300 if that is less,
  -- where `n` attempts came before. No other job and no drain switch is touched, nothing is published.
  pub process_job_retry :
      (x : Raised)
      → run_with_timeout host run.join handler job.payload ≡ err x
      → job.attempt_count < job.max_retries
      → let failed = as_failed host run x job in
        let out = process_job memory_repository prod host run job.id worker_id w in
        (out.0 ≡ ok (some failed))
        × ((j : Uuid)
            → get j out.1.repository.jobs
              ≡ (if job.id == j then some failed else get j w.repository.jobs))
        × (out.1.producer ≡ w.producer)
        × (out.1.repository.drain_enabled ≡ w.repository.drain_enabled)
  process_job_retry x ran left =
      let unused = not_exhausted run worker_id job left in
      let same = failed_job-left host run x worker_id job left in
      let (answer, stored, kept, drain) =
        retry_outcome prod host run worker_id job handler w will x ran unused in
      (
        answer ∙ ap (λ j. ok (some j)) same,
        λ j. stored j ∙ ap (λ f. if job.id == j then some f else get j w.repository.jobs) same,
        kept,
        drain,
      )
