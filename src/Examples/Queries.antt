-- ===== src/Examples/Queries.antt =====
-- Queries, submissions and publishing on a store of two jobs.
use mathlib.Core.List.{Perm}
use async_job_processing_pip.Prelude.{
  ◌+◌, ◌≤◌, ◌<◌, ◌≡◌, ◌⊎◌, ◌&&◌, leb, refl, false, min, some, List, [], ◌∷◌, ◌++◌, map, ◌==◌,
  nat_eq, length, take, drop, keep, count,
}
use async_job_processing_pip.Prelude.Int.{pos, ◌≤ℤ◌}
use async_job_processing_pip.Prelude.Dict.{get}
use async_job_processing_pip.Text.{truthy, is_empty}
use async_job_processing_pip.Sorting.Laws.{AreOrdered}
use async_job_processing_pip.Core.Json.{field, empty, int, dump}
use async_job_processing_pip.Core.Config.{Settings, default_settings}
use async_job_processing_pip.Core.Enums.{queued, is_pending}
use async_job_processing_pip.Core.Errors.{Raised, ok, err, service_error, bad_request_error}
use async_job_processing_pip.Jobs.{JobRecord, JobMetrics}
use async_job_processing_pip.Jobs.Handlers.{ensure_supported_handler, get_handler}
use async_job_processing_pip.Jobs.Memory.{
  Memory, initial, values, known_as, list_jobs, due_jobs, queue_depth,
}
use async_job_processing_pip.Jobs.Memory.Metrics.{metrics}
use async_job_processing_pip.Jobs.Memory.Queries.{is_listed, due_jobs-IsSorted, list_jobs-IsSorted}
use async_job_processing_pip.Jobs.Memory.Depth.{queued_at, queue_depth-exact}
use async_job_processing_pip.Jobs.Memory.Rates.{metrics-ok}
use async_job_processing_pip.Jobs.Repository.{memory_repository}
use async_job_processing_pip.Jobs.Service.{
  World, validate_payload_size, payload_size, publish_due_jobs,
}
use async_job_processing_pip.Jobs.Service.Submissions.{as_published, publish_due_jobs-published}
use async_job_processing_pip.Queue.{FakeJobProducer, fake_producer}
use async_job_processing_pip.Examples.Workers.{at, request, job, fake, world}

abbrev two_jobs : Memory
two_jobs = record {
  jobs = (7, job "echo" 3) ∷ (8, job "sleep" 3) ∷ [];
  idempotency = [];
  drain_enabled = false;
}

abbrev two_due : List JobRecord
two_due =
    keep (λ (j : JobRecord). is_pending j.status && leb j.next_run_at 2000) (values two_jobs.jobs)

due_jobs-IsSorted_example :
    (left_out : List JobRecord) × Perm (due_jobs (at 2000) 1 two_jobs ++ left_out) two_due
    × AreOrdered
        (λ a b.
          (b.priority < a.priority) ⊎ ((a.priority ≡ b.priority) × (a.created_at ≤ b.created_at)))
        (due_jobs (at 2000) 1 two_jobs ++ left_out)
    × (length (due_jobs (at 2000) 1 two_jobs) ≡ min 1 (length two_due))
due_jobs-IsSorted_example = due_jobs-IsSorted (at 2000) 1 two_jobs

list_jobs-IsSorted_example :
    (all : List JobRecord) × (list_jobs (some queued) (some "echo") 10 0 two_jobs
      ≡ take 10 (drop 0 all))
    × Perm all (keep (is_listed (some queued) (truthy (some "echo"))) (values two_jobs.jobs))
    × AreOrdered (λ a b. b.created_at ≤ a.created_at) all
list_jobs-IsSorted_example = list_jobs-IsSorted (some queued) (some "echo") 10 0 two_jobs

queue_depth-exact_example :
    let depth = queue_depth (at 2000) two_jobs in
    let pending = keep (λ (j : JobRecord). is_pending j.status) (values two_jobs.jobs) in
    (queued_at 5 depth.by_priority ≡ count (λ j. j.priority == 5) pending)
    × (depth.queued ≡ length pending)
    × (depth.due ≤ depth.queued)
    × (depth.queued + depth.running + depth.dead_lettered ≤ length (values two_jobs.jobs))
queue_depth-exact_example = queue_depth-exact (at 2000) two_jobs 5

metrics-ok_example :
    (v : JobMetrics) × (metrics two_jobs ≡ ok v)
    × (v.job_latency_p50 ≤ℤ v.job_latency_p95)
    × (v.worker_utilization.numerator ≤ v.worker_utilization.denominator)
    × (0 < v.worker_utilization.denominator)
metrics-ok_example = metrics-ok two_jobs

abbrev pub empty_world : World Memory FakeJobProducer
empty_world = record { repository = initial; producer = fake }

abbrev pub no_kafka : World Memory FakeJobProducer
no_kafka = record { repository = initial; producer = record fake { available = false } }

pub echo_supported : ensure_supported_handler "echo" ≡ ok tt
unfolding ensure_supported_handler get_handler
echo_supported = refl

pub payload_small : validate_payload_size default_settings (request "echo" 3).payload ≡ ok tt
unfolding validate_payload_size payload_size dump
payload_small = refl

key_known :
    known_as (truthy (request "echo" 3).idempotency_key) (world "echo" 3).repository ≡ some 7
unfolding known_as truthy is_empty get
key_known = refl

seven_stored : get 7 (world "echo" 3).repository.jobs ≡ some (job "echo" 3)
unfolding get
seven_stored = refl

abbrev tiny : Settings
tiny = record default_settings { max_payload_bytes = 3 }

abbrev too_large : Raised
too_large =
    service_error
      (bad_request_error "Payload too large" (field "max_payload_bytes" (int (pos 3)) empty))

payload_refused : validate_payload_size tiny (request "echo" 3).payload ≡ err too_large
unfolding validate_payload_size payload_size dump
payload_refused = refl

abbrev two_jobs_world : World Memory FakeJobProducer
two_jobs_world = record { repository = two_jobs; producer = fake }

publish_due_jobs-published_example :
    let call = publish_due_jobs memory_repository fake_producer default_settings (at 2000) 1 in
    (due : List JobRecord) × (left_out : List JobRecord) × Perm (due ++ left_out) two_due
    × AreOrdered
        (λ a b.
          (b.priority < a.priority) ⊎ ((a.priority ≡ b.priority) × (a.created_at ≤ b.created_at)))
        (due ++ left_out)
    × (length due ≡ min 1 (length two_due))
    × (call two_jobs_world ≡ (
      ok (length due),
      record { repository = two_jobs; producer = record fake { published = map as_published due } },
    ))
    × (call (call two_jobs_world).1 ≡ (
      ok (length due),
      record {
        repository = two_jobs;
        producer = record fake { published = map as_published due ++ map as_published due };
      },
    ))
publish_due_jobs-published_example =
    publish_due_jobs-published default_settings (at 2000) 1 two_jobs_world refl
