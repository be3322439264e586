-- ===== src/Examples/Applications.antt =====
-- Requests to the application.
use async_job_processing_pip.Prelude.{◌≡◌, ◌⊎◌, refl, true, none, some, leb, nat_eq}
use async_job_processing_pip.Prelude.Dict.{get}
use async_job_processing_pip.Prelude.Int.{pos}
use async_job_processing_pip.Text.{truthy, is_empty, len, strip}
use async_job_processing_pip.Core.Config.{default_settings}
use async_job_processing_pip.Core.Json.{arr, end, dump}
use async_job_processing_pip.Core.Errors.{Raised, ok, err, dependency_unavailable_error}
use async_job_processing_pip.Jobs.{JobCreate, first_run}
use async_job_processing_pip.Jobs.Handlers.{ensure_supported_handler, get_handler}
use async_job_processing_pip.Jobs.Memory.{new_job, create_job, known_as}
use async_job_processing_pip.Jobs.Repository.{memory_repository}
use async_job_processing_pip.Jobs.Requests.{JobRequest, valid, fields_valid, validated_as, validate}
use async_job_processing_pip.Jobs.Service.{
  validate_payload_size, payload_size, submit_job, publish_new, publish,
}
use async_job_processing_pip.Queue.{fake_producer, unpublished}
use async_job_processing_pip.Api.{respond, error_response}
use async_job_processing_pip.Api
use async_job_processing_pip.Api.App.{
  Surroundings, Request, post_job, on_service, serve, with_service, submit, call, finished,
  map_response, dispatch,
}
use async_job_processing_pip.Api.App.Failures.{dispatch-failed}
use async_job_processing_pip.Examples.Workers.{at, hello}
use async_job_processing_pip.Examples.Queries.{no_kafka}

abbrev surroundings : Surroundings
surroundings = record {
  clock = at 1000;
  fresh = 7;
  request_uuid = 9;
  errors = arr end;
  database = ok tt;
  kafka = ok tt;
}

abbrev body : JobRequest
body = record {
  handler = " echo ";
  payload = hello;
  priority = pos 5;
  max_retries = pos 3;
  timeout_seconds = pos 30;
  run_at = none;
  recurring_cron = none;
  idempotency_key = none;
}

abbrev submission : Request
submission = record { request_id = some "r-1"; route = on_service (post_job body) }

not_published :
    leb 400
      (dispatch memory_repository fake_producer default_settings surroundings submission
        no_kafka).0.status_code
    ≡ true
unfolding dispatch call with_service serve submit validate fields_valid validated_as len strip
    Api.create_job submit_job ensure_supported_handler get_handler validate_payload_size
    payload_size dump memory_repository create_job known_as truthy is_empty new_job first_run
    publish_new publish fake_producer finished map_response respond error_response unpublished
    dependency_unavailable_error
not_published = refl

dispatch-failed_example :
    let out =
      dispatch memory_repository fake_producer default_settings surroundings submission no_kafka in
    (out.1 ≡ no_kafka)
    ⊎ ((b : JobRequest) × (job : JobCreate) × (x : Raised) × (submission.route
          ≡ on_service (post_job b))
        × (validate b ≡ valid job)
        × (fake_producer.publish_job 7 job.handler job.priority
              (new_job (at 1000) 7 job).next_run_at
              0
              no_kafka.producer
            ≡ (err x, out.1.producer))
        × (get 7 out.1.repository.jobs ≡ some (new_job (at 1000) 7 job)))
dispatch-failed_example =
    dispatch-failed fake_producer default_settings surroundings submission no_kafka not_published
