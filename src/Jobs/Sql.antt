-- ===== src/Jobs/Sql.antt =====
-- `SqlAlchemyJobRepository` of app/jobs/repositories.py over the tables of app/db/models.py. A row of
-- `jobs` is the record that `_record_from_model` makes of it: its identifier and its status are stored as
-- text and read back, and its times have a zone. A method is the transaction that it commits; a claim is
-- also given as its read and its write, between which other sessions may commit.
pub mod Writes
pub mod Claims
pub mod Inserts
pub mod Sessions
pub mod Index
pub mod Repository
pub mod Agreement
pub mod Branches
pub mod Alike
pub mod Refinement
use async_job_processing_pip.Prelude.{
  ℕ, ◌+◌, ◌-◌, ◌*◌, String, Bool, true, false, ◌&&◌, ◌||◌, not, Option, none, some, List, [], ◌∷◌,
  ◌++◌, map, ltb, leb, ◌==◌, nat_eq, string_eq, if◌then◌else◌, length, take, drop, keep, count, any,
  is_some,
}
use async_job_processing_pip.Prelude.Dict.{Dict, get, put}
use async_job_processing_pip.Text.{truthy}
use async_job_processing_pip.Sorting.{sorted}
use async_job_processing_pip.Scheduling.{next_cron_run}
use async_job_processing_pip.Calendar.{Instant, micros_per_second}
use async_job_processing_pip.Core.Json.{Payload, field, empty, str}
use async_job_processing_pip.Core.Enums.{
  JobStatus, AttemptStatus, queued, dead_lettered, cancelled, status_eq, status_value, is_pending,
}
use async_job_processing_pip.Core.Errors.{
  Result, ok, err, raise, integrity_error, not_found_error, conflict_error, ◌>>=◌,
}
use async_job_processing_pip.Jobs.{Uuid, Clock, JobCreate, JobRecord, QueueDepth, JobMetrics}
use async_job_processing_pip.Jobs.Memory.{
  values, with_status, with_handler, newest_first, is_due, most_urgent_first, tally, as_depth,
  is_claimable, is_exhausted, new_job, succeeded_with, cancelled_at,
}
use async_job_processing_pip.Jobs.Memory.Metrics.{
  latency_percentiles, worker_utilization, count_status,
}

pub record JobAttempt : Type 0 where
  pub id : Uuid
  pub job_id : Uuid
  pub attempt_number : ℕ
  pub status : AttemptStatus
  pub started_at : Instant
  pub finished_at : Option Instant
  pub error : Option String
  pub worker_id : Option String

-- `drain` is the row of `ops_settings` under "drain_enabled", if there is one.
pub record Database : Type 0 where
  pub jobs : Dict Uuid JobRecord
  pub attempts : List JobAttempt
  pub drain : Option Bool

unfoldable pub write_job : JobRecord → Database → Database
write_job job db = record db { jobs = put job.id job db.jobs }

unfoldable pub same_key : Option String → String → Bool
same_key none key = false
same_key (some k) key = k == key

unfoldable pub find_row : String → List JobRecord → Option JobRecord
find_row key [] = none
find_row key (row ∷ rows) =
    let rest = find_row key rows in if same_key row.idempotency_key key then some row else rest

-- `select(Job).where(Job.idempotency_key == key)`, if there is a key.
unfoldable pub existing : Option String → Database → Option JobRecord
unfolding find_row same_key
existing none db = none
existing (some key) db = find_row key (values db.jobs)

-- Whether an insert breaks the primary key or `uq_jobs_idempotency_key`.
unfoldable pub is_duplicate : Uuid → Option String → Database → Bool
unfolding existing
is_duplicate job_id key db = is_some (get job_id db.jobs) || is_some (existing key db)

-- The insert, its commit, and the handling of an `IntegrityError`.
unfoldable pub insert_job : JobRecord → Database → Result (JobRecord × Bool) × Database
unfolding existing is_duplicate write_job truthy
insert_job job db =
    if is_duplicate job.id job.idempotency_key db
    then elim (existing (truthy job.idempotency_key) db) [
      | some row ↦ (ok (row, true), db)
      | none ↦ (err integrity_error, db)
    ]
    else (ok (job, false), write_job job db)

unfoldable pub create_job :
    Clock → Uuid → JobCreate → Database → Result (JobRecord × Bool) × Database
unfolding existing insert_job truthy
create_job clock fresh request db = elim (existing (truthy request.idempotency_key) db) [
  | some row ↦ (ok (row, true), db)
  | none ↦ insert_job (new_job clock fresh request) db
]

-- `get_job`, and `_get_model` too.
unfoldable pub get_job : Uuid → Database → Result JobRecord
get_job job_id db = elim (get job_id db.jobs) [
  | some job ↦ ok job
  | none ↦ raise (not_found_error "Job not found")
]

-- Rows that compare equal may come in any order; here they keep that of their insertion.
unfoldable pub list_jobs : Option JobStatus → Option String → ℕ → ℕ → Database → List JobRecord
unfolding with_status with_handler truthy
list_jobs status handler limit offset db = take limit (
    drop offset
      (sorted newest_first (with_handler (truthy handler) (with_status status (values db.jobs)))))

unfoldable pub due_jobs : Clock → ℕ → Database → List JobRecord
due_jobs clock limit db =
    take limit (sorted most_urgent_first (keep (is_due (clock 0)) (values db.jobs)))

unfoldable pub queue_depth : Clock → Database → QueueDepth
unfolding tally as_depth
queue_depth clock db =
    let pending = keep (λ (job : JobRecord). is_pending job.status) (values db.jobs) in
    record {
      queued = length pending;
      due = count (is_due (clock 0)) (values db.jobs);
      running = count (λ job. job.status == JobStatus.running) (values db.jobs);
      dead_lettered = count (λ job. job.status == dead_lettered) (values db.jobs);
      by_priority = map as_depth (tally pending []);
    }

unfoldable pub attempts_of : List JobRecord → ℕ
attempts_of [] = 0
attempts_of (job ∷ jobs) = job.attempt_count + attempts_of jobs

-- `max(sum(attempt_count - 1), 0)`: a job that was never attempted counts as one less.
unfoldable pub retries_of : List JobRecord → ℕ
unfolding attempts_of
retries_of jobs = attempts_of jobs - length jobs

unfoldable pub metrics : Database → Result JobMetrics
unfolding latency_percentiles worker_utilization retries_of count_status
metrics db = do
  (p50, p95) ← latency_percentiles (values db.jobs)
  ok (record {
    job_success_count = count_status JobStatus.succeeded (values db.jobs);
    job_failure_count = count_status JobStatus.failed (values db.jobs);
    retry_count = retries_of (values db.jobs);
    dead_letter_count = count_status dead_lettered (values db.jobs);
    job_latency_p50 = p50;
    job_latency_p95 = p95;
    worker_utilization =
        worker_utilization (count_status JobStatus.running (values db.jobs))
          (count_status queued (values db.jobs));
  })

unfoldable pub get_drain : Database → Bool
get_drain db = elim db.drain [ none ↦ false | some enabled ↦ enabled ]

unfoldable pub set_drain : Bool → Database → Database
set_drain enabled db = record db { drain = some enabled }
