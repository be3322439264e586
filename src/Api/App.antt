-- ===== src/Api/App.antt =====
-- A request to the application of app/main.py and its response: the identifier that the middleware gives it,
-- the bounds of the query, the route, and the handlers of exceptions.
pub mod Failures
pub mod Identifiers
use async_job_processing_pip.Prelude.{ℕ, String, Bool, true, false, ◌&&◌, Option, none, some}
use async_job_processing_pip.Prelude.Int.{ℤ, pos, leb_ℤ, pos_part}
use async_job_processing_pip.Core.Config.{Settings}
use async_job_processing_pip.Core.Json.{Json, Payload, field, empty}
use async_job_processing_pip.Core.Enums.{JobStatus}
use async_job_processing_pip.Core.Errors.{Result, ok, err}
use async_job_processing_pip.Jobs.{Uuid, Clock, uuid_text}
use async_job_processing_pip.Jobs.Requests.{JobRequest, Validated, valid, invalid, raised, validate}
use async_job_processing_pip.Jobs.Repository.{JobRepository}
use async_job_processing_pip.Jobs.Service.{World}
use async_job_processing_pip.Queue.{JobProducer}
use async_job_processing_pip.Api
use async_job_processing_pip.Api.{
  Response, reply, failure, crash, error_response, readyz, JobCreateResponse, JobResponse,
  JobListResponse, QueueDepthResponse, MetricsResponse, CancelResponse, DrainResponse,
}

-- The routes that use the service, with their arguments as they are read; a body and the page of a list are
-- not yet validated.
pub data Operation : Type 0 where
  post_job : JobRequest → Operation
  get_job : Uuid → Operation
  get_jobs : Option JobStatus → Option String → ℤ → ℤ → Operation
  get_depth get_metrics : Operation
  post_cancel : Uuid → Operation
  post_drain : Bool → Operation
  get_drain : Operation

pub data Route : Type 0 where
  get_healthz get_readyz : Route
  on_service : Operation → Route

-- A request, with the value of the header of `request_id_header`, if it has one.
pub record Request : Type 0 where
  pub request_id : Option String
  pub route : Route

-- What the environment of one request chooses: the clock, the identifiers that are drawn, pydantic's list
-- of errors, and whether a query of the database and `get_job_producer` raise.
pub record Surroundings : Type 0 where
  pub clock : Clock
  pub fresh : Uuid
  pub request_uuid : Uuid
  pub errors : Json
  pub database : Result (Unit {0})
  pub kafka : Result (Unit {0})

-- `ErrorBody` of app/jobs/schemas.py.
pub record ErrorContent : Type 0 where
  pub code : String
  pub message : String
  pub request_id : String
  pub details : Payload

pub data Body : Type 0 where
  healthy ready : Body
  job_created : JobCreateResponse → Body
  one_job : JobResponse → Body
  job_list : JobListResponse → Body
  depth : QueueDepthResponse → Body
  job_metrics : MetricsResponse → Body
  job_cancelled : CancelResponse → Body
  drain_state : DrainResponse → Body

pub data Content : Type 0 where
  answer : Body → Content
  error : ErrorContent → Content

pub record HttpResponse : Type 0 where
  pub status_code : ℕ
  pub request_id_header : Option String
  pub content : Content

unfoldable pub check_database_ready : Result (Unit {0}) → Bool
check_database_ready (ok _) = true
check_database_ready (err _) = false

-- The `try` of `readyz`.
unfoldable pub kafka_ready : Result (Unit {0}) → Bool → Bool
kafka_ready (ok _) reachable = reachable
kafka_ready (err _) reachable = false

unfoldable pub map_response : {A B : Type 0} → (A → B) → Response A → Response B
map_response f (reply status a) = reply status (f a)
map_response f (failure status e) = failure status e
map_response f (crash e) = crash e

-- `handle_validation_error`
unfoldable pub validation_error : {A : Type 0} → Json → Response A
validation_error errors = failure 422 (record {
  code = "validation_error";
  message = "Request validation failed";
  details = field "errors" errors empty;
})

-- `limit: int = Query(ge=1)`, `offset: int = Query(ge=0)`
abbrev pub is_page : ℤ → ℤ → Bool
is_page limit offset = leb_ℤ (pos 1) limit && leb_ℤ (pos 0) offset

module _ {R P : Type 0} (repo : JobRepository R) (prod : JobProducer P) (settings : Settings)
    (env : Surroundings) where
  unfoldable pub submit : Validated → World R P → Response Body × World R P
  unfolding map_response validation_error
  submit (valid request) w =
      let (r, w') = Api.create_job repo prod settings env.clock env.fresh request w in
      (map_response job_created r, w')
  submit invalid w = (validation_error env.errors, w)
  submit (raised x) w = (error_response x, w)

  unfoldable pub list_page : Option JobStatus → Option String → ℤ → ℤ → World R P → Response Body
  unfolding map_response validation_error
  list_page status handler limit offset w = elim (is_page limit offset) [
    | false ↦ validation_error env.errors
    | true ↦
        map_response job_list
          (Api.list_jobs repo prod settings status handler (pos_part limit) (pos_part offset) w)
  ]

  unfoldable pub serve : Operation → World R P → Response Body × World R P
  unfolding submit list_page map_response
  serve (post_job body) w = submit (validate body) w
  serve (get_job i) w = (map_response one_job (Api.get_job repo prod settings i w), w)
  serve (get_jobs status handler limit offset) w = (list_page status handler limit offset w, w)
  serve get_depth w = (map_response depth (Api.queue_depth repo prod settings env.clock w), w)
  serve get_metrics w = (map_response job_metrics (Api.metrics repo prod settings w), w)
  serve (post_cancel i) w =
      let (r, w') = Api.cancel_job repo prod settings env.clock i w in
      (map_response job_cancelled r, w')
  serve (post_drain enabled) w =
      let (r, w') = Api.set_drain repo prod settings env.clock enabled w in
      (map_response drain_state r, w')
  serve get_drain w = (map_response drain_state (Api.get_drain repo prod settings w), w)

  -- `Depends(get_job_service)` comes before the validation, and needs the producer.
  unfoldable pub with_service :
      Result (Unit {0}) → Operation → World R P → Response Body × World R P
  unfolding serve
  with_service (ok _) operation w = serve operation w
  with_service (err x) operation w = (error_response x, w)

  unfoldable pub call : Route → World R P → Response Body × World R P
  unfolding with_service map_response check_database_ready kafka_ready
  call get_healthz w = (reply 200 healthy, w)
  call get_readyz w = (
    map_response (λ _. ready)
        (readyz (check_database_ready env.database)
          (kafka_ready env.kafka (prod.ready w.producer))),
    w,
  )
  call (on_service operation) w = with_service env.kafka operation w

-- `request.headers.get(settings.request_id_header, str(uuid4()))`
unfoldable pub request_id_of : Surroundings → Option String → String
request_id_of env none = uuid_text env.request_uuid
request_id_of env (some given) = given

-- The response, with the identifier in the body of an error and, by the middleware, in the headers; an
-- exception that is no `ServiceError` passes through the middleware before its response is made.
unfoldable pub finished : String → Response Body → HttpResponse
finished request_id (reply status body) = record {
  status_code = status;
  request_id_header = some request_id;
  content = answer body;
}
finished request_id (failure status e) = record {
  status_code = status;
  request_id_header = some request_id;
  content =
      error (record {
        code = e.code;
        message = e.message;
        request_id = request_id;
        details = e.details;
      });
}
finished request_id (crash e) = record {
  status_code = 500;
  request_id_header = none;
  content =
      error (record {
        code = e.code;
        message = e.message;
        request_id = request_id;
        details = e.details;
      });
}

module _ {R P : Type 0} (repo : JobRepository R) (prod : JobProducer P) (settings : Settings)
    (env : Surroundings) where
  unfoldable pub dispatch : Request → World R P → HttpResponse × World R P
  unfolding call finished request_id_of
  dispatch request w =
      let (r, w') = call repo prod settings env request.route w in
      (finished (request_id_of env request.request_id) r, w')
