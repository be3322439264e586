-- ===== src/Examples/Requests.antt =====
-- Requests to the routes.
use async_job_processing_pip.Prelude.{
  ◌≡◌, ◌⊎◌, refl, true, false, none, some, List, [], ◌∷◌, nat_eq,
}
use async_job_processing_pip.Prelude.Dict.{get}
use async_job_processing_pip.Text.{truthy, is_empty}
use async_job_processing_pip.Core.Config.{default_settings}
use async_job_processing_pip.Core.Json.{field, empty, str}
use async_job_processing_pip.Core.Enums.{queued, failed, cancelled, status_value}
use async_job_processing_pip.Jobs.{JobRecord, first_run, ensure_aware}
use async_job_processing_pip.Jobs.Memory.{Memory, new_job, known_as}
use async_job_processing_pip.Jobs.Repository.{memory_repository}
use async_job_processing_pip.Jobs.Repository.Calls.{Call, perform_all}
use async_job_processing_pip.Jobs.Service.{World}
use async_job_processing_pip.Queue.{FakeJobProducer, fake_producer}
use async_job_processing_pip.Api.{reply, failure, create_job, cancel_job}
use async_job_processing_pip.Api.Routes.{create_job-twice, cancel_job-status}
use async_job_processing_pip.Examples.Workers.{at, request, fake, world}
use async_job_processing_pip.Examples.Queries.{empty_world, echo_supported, payload_small}

key_given : truthy (request "echo" 3).idempotency_key ≡ some "key"
unfolding truthy is_empty
key_given = refl

key_unknown : known_as (some "key") empty_world.repository ≡ none
unfolding known_as get
key_unknown = refl

abbrev published_once : FakeJobProducer
published_once = record fake {
  published =
      record { job_id = 7; handler = "echo"; priority = 5; due_at = 1000; attempt = 0 } ∷ [];
}

-- The job is claimed before the request is sent again.
abbrev between : List Call
between = Call.claim (at 1500) 70 7 "worker" ∷ []

create_job-twice_example :
    let first =
      create_job memory_repository fake_producer default_settings
        (at 1000)
        7
        (request "echo" 3)
        empty_world in
    let later : World Memory FakeJobProducer = record {
      repository = (perform_all memory_repository between first.1.repository).1;
      producer = fake;
    } in
    let second =
      create_job memory_repository fake_producer default_settings
        (at 2000)
        8
        (request "echo" 3)
        later in
    (first.0 ≡ reply 201 (record { id = 7; status = queued; idempotent_replay = false }))
    × (job : JobRecord) × (get 7 later.repository.jobs ≡ some job)
    × (second.0 ≡ reply 200 (record { id = 7; status = job.status; idempotent_replay = true }))
    × (second.1 ≡ later)
unfolding fake_producer new_job first_run ensure_aware
create_job-twice_example =
    create_job-twice fake_producer default_settings empty_world (at 1000) (at 2000) 7 8
      (request "echo" 3) "key" published_once fake between key_given echo_supported payload_small
      key_unknown refl

cancel_job-status_example :
    let w = world "echo" 3 in
    let out = cancel_job memory_repository fake_producer default_settings (at 2000) 7 w in
    ((get 7 w.repository.jobs ≡ none)
      × (out ≡ (
        failure 404 (record { code = "not_found"; message = "Job not found"; details = empty }),
        w,
      )))
    ⊎ ((j : JobRecord) × (get 7 w.repository.jobs ≡ some j)
        × ¬ ((j.status ≡ queued) ⊎ (j.status ≡ failed))
        × (out ≡ (
          failure 409 (record {
            code = "conflict";
            message = "Only pending jobs can be cancelled";
            details = field "status" (str (status_value j.status)) empty;
          }),
          w,
        )))
    ⊎ ((j : JobRecord) × (get 7 w.repository.jobs ≡ some j)
        × ((j.status ≡ queued) ⊎ (j.status ≡ failed))
        × (out.0 ≡ reply 200 (record { id = j.id; status = cancelled }))
        × (get 7 out.1.repository.jobs
            ≡ some (record j { status = cancelled; updated_at = 2000; processed_at = some 2000 })))
cancel_job-status_example =
    cancel_job-status fake_producer default_settings (world "echo" 3) (at 2000) 7
