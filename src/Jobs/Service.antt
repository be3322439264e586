-- ===== src/Jobs/Service.antt =====
-- `JobService` of app/jobs/service.py, over any repository and any producer.
pub mod Process
pub mod Outcomes
pub mod Recurrence
pub mod Retries
pub mod Endings
pub mod Submissions
use async_job_processing_pip.Prelude.{
  ℕ, suc, ◌+◌, ◌-◌, ◌^◌, String, ◌≡◌, Bool, true, false, Option, none, some, List, [], ◌∷◌, ltb,
  ◌==◌, nat_eq, string_eq, if◌then◌else◌, length, min,
}
use async_job_processing_pip.Prelude.Int.{ℤ, pos}
use async_job_processing_pip.Text.{is_empty, truthy}
use async_job_processing_pip.Core.Json.{Payload, field, empty, int, obj, dump}
use async_job_processing_pip.Core.Enums.{JobStatus, dead_lettered, status_eq}
use async_job_processing_pip.Core.Config.{Settings}
use async_job_processing_pip.Core.Errors.{
  ServiceError, Raised, service_error, transient_job_error, integrity_error, builtin_error, Result,
  ok, err, raise, bad_request_error,
}
use async_job_processing_pip.Core.Exec.{Exec, pure, lift, catch, ◌>>=◌, ◌>>◌}
use async_job_processing_pip.Jobs.{Uuid, Clock, JobCreate, JobRecord, QueueDepth, JobMetrics, Ratio}
use async_job_processing_pip.Jobs.Handlers.{
  Host, Handler, run_handler, get_handler, ensure_supported_handler,
}
use async_job_processing_pip.Jobs.Repository.{JobRepository}
use async_job_processing_pip.Queue.{JobProducer}

-- The state behind the service: the repository's and the producer's.
pub record World (R P : Type 0) : Type 0 where
  pub repository : R
  pub producer : P

unfoldable pub backoff_seconds : ℕ → ℕ
backoff_seconds attempt_count = min (2 ^ (attempt_count - 1)) 300

-- `len(json.dumps(payload, separators=(",", ":")).encode("utf-8"))`
unfoldable pub payload_size : Payload → ℕ
payload_size payload = length (dump (obj payload))

unfoldable pub validate_payload_size : Settings → Payload → Result (Unit {0})
validate_payload_size settings payload =
    if ltb settings.max_payload_bytes (payload_size payload)
    then raise (
        bad_request_error "Payload too large"
          (field "max_payload_bytes" (int (pos settings.max_payload_bytes)) empty))
    else ok tt

-- `str(exc) or exc.__class__.__name__`
class_name : ServiceError → String
class_name e =
    if e.code == "not_found"
    then "NotFoundError"
    else if e.code == "conflict"
    then "ConflictError"
    else if e.code == "bad_request"
    then "BadRequestError"
    else "DependencyUnavailableError"

or_else : String → String → String
or_else s t = if is_empty s then t else s

unfoldable pub error_text : Host → Raised → String
unfolding class_name or_else is_empty
error_text host (service_error e) = or_else (host.shown_error e) (class_name e)
error_text host (transient_job_error m) = or_else m "TransientJobError"
error_text host integrity_error = or_else host.shown_integrity_error "IntegrityError"
error_text host (builtin_error name m) = or_else m name

-- What the child process puts on the queue: the handler's result, or the text of what it raised.
pub data Answer : Type 0 where
  answer_ok : Payload → Answer
  answer_error : String → Answer

unfoldable pub handler_process : Host → Handler → Payload → Answer
handler_process host handler payload = elim (run_handler host handler payload) [
  | ok value ↦ answer_ok value
  | err x ↦ answer_error (error_text host x)
]

-- What the parent meets after `join(timeout_seconds)`: the child still runs, it ended with nothing on the
-- queue, or its answer is there.
pub data Join : Type 0 where
  still_alive ended_silent ended_answered : Join

received : Answer → Result Payload
received (answer_ok value) = ok value
received (answer_error text) = err (transient_job_error text)

unfoldable pub run_with_timeout : Host → Join → Handler → Payload → Result Payload
unfolding handler_process received
run_with_timeout host still_alive handler payload =
    err (transient_job_error "job attempt timed out")
run_with_timeout host ended_silent handler payload =
    err (transient_job_error "job attempt failed without a result")
run_with_timeout host ended_answered handler payload =
    received (handler_process host handler payload)

-- What the environment of one `process_job` call chooses: the clock readings of each repository call,
-- the identifiers drawn, and how the child process ends.
pub record Run : Type 0 where
  pub claiming : Clock
  pub succeeding : Clock
  pub recurring : Clock
  pub failing : Clock
  pub attempt_id : Uuid
  pub next_id : Uuid
  pub join : Join

module _ {R P : Type 0} where
  unfoldable pub on_repository : {A : Type 0} → Exec R A → Exec (World R P) A
  on_repository m w =
      let (r, s) = m w.repository in (r, record { repository = s; producer = w.producer })

  unfoldable pub on_producer : {A : Type 0} → Exec P A → Exec (World R P) A
  on_producer m w =
      let (r, s) = m w.producer in (r, record { repository = w.repository; producer = s })

module _ {R P : Type 0} (prod : JobProducer P) where
  unfoldable pub publish : JobRecord → Exec (World R P) (Unit {0})
  unfolding on_producer
  publish job =
      on_producer
        (prod.publish_job job.id job.handler job.priority job.next_run_at job.attempt_count)

  -- The loop of `publish_due_jobs`.
  unfoldable pub publish_all : List JobRecord → Exec (World R P) (Unit {0})
  unfolding publish
  publish_all [] = pure tt
  publish_all (job ∷ jobs) = do publish job; publish_all jobs

module _ {R P : Type 0} (repo : JobRepository R) (prod : JobProducer P) (settings : Settings) where
  unfoldable pub publish_new : JobRecord × Bool → Exec (World R P) (JobRecord × Bool)
  unfolding publish
  publish_new (job, true) = pure (job, true)
  publish_new (job, false) = do publish prod job; pure (job, false)

  unfoldable pub submit_job : Clock → Uuid → JobCreate → Exec (World R P) (JobRecord × Bool)
  unfolding publish_new on_repository
  submit_job clock fresh request = do
    lift (ensure_supported_handler request.handler)
    lift (validate_payload_size settings request.payload)
    made ← on_repository (repo.create_job clock fresh request)
    publish_new made

  unfoldable pub publish_due_jobs : Clock → ℕ → Exec (World R P) ℕ
  unfolding publish_all
  publish_due_jobs clock limit w =
      let jobs = repo.due_jobs clock limit w.repository in
      (do publish_all prod jobs; pure (length jobs)) w

  unfoldable pub get_job : Uuid → World R P → Result JobRecord
  get_job job_id w = repo.get_job job_id w.repository

  checked_handler : Option String → Result (Unit {0})
  checked_handler none = ok tt
  checked_handler (some handler) = ensure_supported_handler handler

  unfoldable pub list_jobs :
      Option JobStatus → Option String → ℕ → ℕ → World R P → Result (List JobRecord)
  unfolding checked_handler truthy
  list_jobs status handler limit offset w = elim (checked_handler (truthy handler)) [
    | ok _ ↦
        ok (repo.list_jobs status handler (min limit settings.max_page_size) offset w.repository)
    | err x ↦ err x
  ]

  unfoldable pub queue_depth : Clock → World R P → QueueDepth
  queue_depth clock w = repo.queue_depth clock w.repository

  unfoldable pub metrics : World R P → Result JobMetrics
  metrics w = repo.metrics w.repository

  unfoldable pub cancel_job : Clock → Uuid → Exec (World R P) JobRecord
  unfolding on_repository
  cancel_job clock job_id = on_repository (repo.cancel_job clock job_id)

  unfoldable pub set_drain : Clock → Bool → World R P → World R P
  set_drain clock enabled w = record w { repository = repo.set_drain clock enabled w.repository }

  unfoldable pub get_drain : World R P → Bool
  get_drain w = repo.get_drain w.repository

module _ {R P : Type 0} (repo : JobRepository R) (prod : JobProducer P) (host : Host)
    (run : Run) where
  -- The `try` of `process_job`.
  unfoldable pub attempt : JobRecord → Handler → Exec (World R P) JobRecord
  unfolding on_repository
  attempt job handler = do
    result ← lift (run_with_timeout host run.join handler job.payload)
    succeeded ← on_repository (repo.mark_succeeded run.succeeding job.id result)
    on_repository (repo.create_next_recurring_job run.recurring run.next_id succeeded)
    pure succeeded

  dead_letter : JobRecord → Exec (World R P) (Unit {0})
  unfolding on_producer
  dead_letter updated =
      if updated.status == dead_lettered
      then on_producer (prod.publish_dead_letter updated.id updated.handler updated.attempt_count)
      else pure tt

  -- Its `except Exception`.
  unfoldable pub fail_attempt : JobRecord → Raised → Exec (World R P) JobRecord
  unfolding on_repository dead_letter
  fail_attempt job exc = do
    updated ← on_repository (
        repo.mark_failed_attempt run.failing job.id (error_text host exc)
          (backoff_seconds job.attempt_count))
    dead_letter updated
    pure updated

  unfoldable pub run_claimed : Option JobRecord → Exec (World R P) (Option JobRecord)
  unfolding attempt fail_attempt
  run_claimed none = pure none
  run_claimed (some job) = do
    handler ← lift (get_handler job.handler)
    done ← catch (attempt job handler) (fail_attempt job)
    pure (some done)

  unfoldable pub process_job : Uuid → String → Exec (World R P) (Option JobRecord)
  unfolding run_claimed on_repository
  process_job job_id worker_id = do
    job ← on_repository (repo.claim_job run.claiming run.attempt_id job_id worker_id)
    run_claimed job

-- `success_failure_rates`
abbrev no_rate : Ratio
no_rate = record { numerator = 0; denominator = 1 }

unfoldable pub success_failure_rates : JobMetrics → Ratio × Ratio
success_failure_rates metrics =
    let total = metrics.job_success_count + metrics.job_failure_count + metrics.dead_letter_count in
    if total == 0 then (no_rate, no_rate) else (
      record { numerator = metrics.job_success_count; denominator = total },
      record {
        numerator = metrics.job_failure_count + metrics.dead_letter_count;
        denominator = total;
      },
    )
