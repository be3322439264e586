-- ===== src/Api.antt =====
-- The routes of app/main.py over the service: each takes the state to a response and the new state. A
-- response holds the value that the response model is made of.
pub mod Routes
pub mod App
use async_job_processing_pip.Prelude.{
  ℕ, ◌+◌, String, Bool, true, false, ◌&&◌, Option, List, map, min, if◌then◌else◌,
}
use async_job_processing_pip.Prelude.Int.{ℤ}
use async_job_processing_pip.Calendar.{Instant}
use async_job_processing_pip.Core.Config.{Settings}
use async_job_processing_pip.Core.Json.{Json, Payload, field, empty, bool}
use async_job_processing_pip.Core.Enums.{JobStatus}
use async_job_processing_pip.Core.Errors.{
  ServiceError, Raised, service_error, Result, ok, err, dependency_unavailable_error,
}
use async_job_processing_pip.Jobs.{
  Uuid, Clock, JobCreate, JobRecord, PriorityDepth, QueueDepth, Ratio, JobMetrics,
}
use async_job_processing_pip.Jobs.Repository.{JobRepository}
use async_job_processing_pip.Jobs.Service
use async_job_processing_pip.Jobs.Service.{World, success_failure_rates}
use async_job_processing_pip.Queue.{JobProducer}

-- `request_id` aside, which every response carries.
pub record ErrorBody : Type 0 where
  pub code : String
  pub message : String
  pub details : Payload

-- A response with a status code; `crash` is the one that an exception other than a `ServiceError` gets, with
-- the code 500, outside of the middleware.
pub data Response (A : Type 0) : Type 0 where
  reply : ℕ → A → Response A
  failure : ℕ → ErrorBody → Response A
  crash : ErrorBody → Response A

-- `handle_service_error` and `handle_unexpected_error`.
unfoldable pub error_response : {A : Type 0} → Raised → Response A
error_response (service_error e) =
    failure e.status_code (record { code = e.code; message = e.message; details = e.details })
error_response _ = crash (record {
  code = "internal_server_error";
  message = "Unexpected server error";
  details = empty;
})

unfoldable pub respond : {A B : Type 0} → (A → Response B) → Result A → Response B
unfolding error_response
respond f (ok a) = f a
respond f (err x) = error_response x

pub record JobCreateResponse : Type 0 where
  pub id : Uuid
  pub status : JobStatus
  pub idempotent_replay : Bool

-- What a client sees of a job.
pub record JobResponse : Type 0 where
  pub id : Uuid
  pub handler : String
  pub status : JobStatus
  pub priority : ℕ
  pub attempt_count : ℕ
  pub max_retries : ℕ
  pub timeout_seconds : ℕ
  pub run_at : Option Instant
  pub recurring_cron : Option String
  pub next_run_at : Instant
  pub last_error : Option String
  pub result : Option Payload
  pub idempotency_key : Option String
  pub created_at : Instant
  pub updated_at : Instant
  pub processed_at : Option Instant

pub record JobListItem : Type 0 where
  pub id : Uuid
  pub handler : String
  pub status : JobStatus
  pub attempt_count : ℕ
  pub created_at : Instant

pub record JobListResponse : Type 0 where
  pub items : List JobListItem
  pub limit : ℕ
  pub offset : ℕ

pub record QueueDepthPriority : Type 0 where
  pub priority : ℕ
  pub queued : ℕ

pub record QueueDepthResponse : Type 0 where
  pub queued : ℕ
  pub due : ℕ
  pub running : ℕ
  pub dead_lettered : ℕ
  pub by_priority : List QueueDepthPriority

pub record DrainResponse : Type 0 where
  pub drain_enabled : Bool

pub record CancelResponse : Type 0 where
  pub id : Uuid
  pub status : JobStatus

pub record MetricsResponse : Type 0 where
  pub job_success_count : ℕ
  pub job_failure_count : ℕ
  pub job_success_rate : Ratio
  pub job_failure_rate : Ratio
  pub retry_count : ℕ
  pub dead_letter_count : ℕ
  pub job_latency_p50 : ℤ
  pub job_latency_p95 : ℤ
  pub worker_utilization : Ratio

unfoldable pub created : JobRecord × Bool → Response JobCreateResponse
created (job, replay) =
    reply (if replay then 200 else 201)
      (record { id = job.id; status = job.status; idempotent_replay = replay })

unfoldable pub job_response : JobRecord → JobResponse
job_response job = record {
  id = job.id;
  handler = job.handler;
  status = job.status;
  priority = job.priority;
  attempt_count = job.attempt_count;
  max_retries = job.max_retries;
  timeout_seconds = job.timeout_seconds;
  run_at = job.run_at;
  recurring_cron = job.recurring_cron;
  next_run_at = job.next_run_at;
  last_error = job.last_error;
  result = job.result;
  idempotency_key = job.idempotency_key;
  created_at = job.created_at;
  updated_at = job.updated_at;
  processed_at = job.processed_at;
}

unfoldable pub list_item : JobRecord → JobListItem
list_item job = record {
  id = job.id;
  handler = job.handler;
  status = job.status;
  attempt_count = job.attempt_count;
  created_at = job.created_at;
}

unfoldable pub queue_depth_response : QueueDepth → QueueDepthResponse
queue_depth_response depth = record {
  queued = depth.queued;
  due = depth.due;
  running = depth.running;
  dead_lettered = depth.dead_lettered;
  by_priority =
      map (λ (item : PriorityDepth). record { priority = item.priority; queued = item.queued })
        depth.by_priority;
}

unfoldable pub metrics_response : JobMetrics → MetricsResponse
metrics_response m =
    let (success_rate, failure_rate) = success_failure_rates m in
    record {
      job_success_count = m.job_success_count;
      job_failure_count = m.job_failure_count + m.dead_letter_count;
      job_success_rate = success_rate;
      job_failure_rate = failure_rate;
      retry_count = m.retry_count;
      dead_letter_count = m.dead_letter_count;
      job_latency_p50 = m.job_latency_p50;
      job_latency_p95 = m.job_latency_p95;
      worker_utilization = m.worker_utilization;
    }

module _ {R P : Type 0} (repo : JobRepository R) (prod : JobProducer P) (settings : Settings) where
  unfoldable pub create_job :
      Clock → Uuid → JobCreate → World R P → Response JobCreateResponse × World R P
  unfolding respond created
  create_job clock fresh request w =
      let (r, w') = Service.submit_job repo prod settings clock fresh request w in
      (respond created r, w')

  unfoldable pub get_job : Uuid → World R P → Response JobResponse
  unfolding respond job_response
  get_job job_id w =
      respond (λ job. reply 200 (job_response job)) (Service.get_job repo prod settings job_id w)

  unfoldable pub list_jobs :
      Option JobStatus → Option String → ℕ → ℕ → World R P → Response JobListResponse
  unfolding respond list_item
  list_jobs status handler limit offset w =
      respond
        (λ jobs. reply 200 (record {
          items = map list_item jobs;
          limit = min limit settings.max_page_size;
          offset = offset;
        }))
        (Service.list_jobs repo prod settings status handler limit offset w)

  unfoldable pub queue_depth : Clock → World R P → Response QueueDepthResponse
  unfolding queue_depth_response
  queue_depth clock w =
      reply 200 (queue_depth_response (Service.queue_depth repo prod settings clock w))

  unfoldable pub metrics : World R P → Response MetricsResponse
  unfolding respond metrics_response
  metrics w = respond (λ m. reply 200 (metrics_response m)) (Service.metrics repo prod settings w)

  unfoldable pub cancel_job : Clock → Uuid → World R P → Response CancelResponse × World R P
  unfolding respond
  cancel_job clock job_id w =
      let (r, w') = Service.cancel_job repo prod settings clock job_id w in
      (respond (λ (job : JobRecord). reply 200 (record { id = job.id; status = job.status })) r, w')

  unfoldable pub set_drain : Clock → Bool → World R P → Response DrainResponse × World R P
  set_drain clock enabled w = (
    reply 200 (record { drain_enabled = enabled }),
    Service.set_drain repo prod settings clock enabled w,
  )

  unfoldable pub get_drain : World R P → Response DrainResponse
  get_drain w = reply 200 (record { drain_enabled = Service.get_drain repo prod settings w })

-- `readyz`, of whether the database answers and whether Kafka does.
unfoldable pub readyz : Bool → Bool → Response (Unit {0})
unfolding error_response
readyz database_ok kafka_ok =
    if database_ok && kafka_ok
    then reply 200 tt
    else error_response (
        service_error (
          dependency_unavailable_error "Dependency unavailable"
            (field "database" (bool database_ok) (field "kafka" (bool kafka_ok) empty))))
