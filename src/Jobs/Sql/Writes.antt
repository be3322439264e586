-- ===== src/Jobs/Sql/Writes.antt =====
-- The methods of `SqlAlchemyJobRepository` that change a stored job and its attempts.
use async_job_processing_pip.Prelude.{
  ℕ, ◌+◌, ◌*◌, String, Bool, ◌&&◌, Option, none, some, List, [], ◌∷◌, ◌==◌, nat_eq, if◌then◌else◌,
  any,
}
use async_job_processing_pip.Prelude.Dict.{get}
use async_job_processing_pip.Text.{truthy}
use async_job_processing_pip.Scheduling.{next_cron_run}
use async_job_processing_pip.Calendar.{Instant, micros_per_second}
use async_job_processing_pip.Core.Json.{Payload, field, empty, str}
use async_job_processing_pip.Core.Enums.{
  JobStatus, AttemptStatus, queued, dead_lettered, status_value, is_pending,
}
use async_job_processing_pip.Core.Errors.{
  Result, ok, err, raise, integrity_error, conflict_error, ◌>>=◌,
}
use async_job_processing_pip.Jobs.{Uuid, Clock, JobRecord}
use async_job_processing_pip.Jobs.Memory.{is_claimable, is_exhausted, succeeded_with, cancelled_at}
use async_job_processing_pip.Jobs.Sql.{
  Database, JobAttempt, write_job, is_duplicate, get_job, get_drain,
}

-- The guard of `_finish_attempt`.
unfoldable pub is_attempt : Uuid → ℕ → JobAttempt → Bool
is_attempt job_id number attempt = attempt.job_id == job_id && attempt.attempt_number == number

-- What `claim_job` reads: the row, if it is one to claim.
unfoldable pub claimable_row : Instant → Option JobRecord → Option JobRecord
claimable_row now none = none
claimable_row now (some row) = if is_claimable now row then some row else none

unfoldable pub read_claim : Clock → Uuid → Database → Option JobRecord
unfolding claimable_row get_drain
read_claim clock job_id db =
    if get_drain db then none else claimable_row (clock 0) (get job_id db.jobs)

-- The update of the row as it is by then, with the attempt number counted from the row that was read.
unfoldable pub claim_row : Instant → String → ℕ → JobRecord → JobRecord
claim_row now worker_id number row = record row {
  status = JobStatus.running;
  locked_by = some worker_id;
  locked_at = some now;
  attempt_count = number;
  updated_at = now;
}

unfoldable pub new_attempt : Instant → Uuid → Uuid → ℕ → String → JobAttempt
new_attempt now attempt_id job_id number worker_id = record {
  id = attempt_id;
  job_id = job_id;
  attempt_number = number;
  status = AttemptStatus.running;
  started_at = now;
  finished_at = none;
  error = none;
  worker_id = some worker_id;
}

-- What it writes and commits, from the row that it read: `uq_job_attempts_job_attempt` refuses a second
-- attempt of the same number, and then the whole transaction is undone.
unfoldable pub write_claim :
    Clock → Uuid → String → JobRecord → Database → Result JobRecord × Database
unfolding claim_row new_attempt write_job get_job is_attempt
write_claim clock attempt_id worker_id read db =
    let number = read.attempt_count + 1 in
    if any (is_attempt read.id number) db.attempts
    then (err integrity_error, db)
    else elim (get_job read.id db) [
      | err x ↦ (err x, db)
      | ok row ↦ (
        ok (claim_row (clock 0) worker_id number row),
        write_job (claim_row (clock 0) worker_id number row) (record db {
          attempts = new_attempt (clock 0) attempt_id read.id number worker_id ∷ db.attempts;
        }),
      )
    ]

unfoldable pub claimed_job : Result JobRecord × Database → Result (Option JobRecord) × Database
claimed_job (ok job, db) = (ok (some job), db)
claimed_job (err x, db) = (err x, db)

-- `claim_job`, with nothing between its read and its write.
unfoldable pub claim_job :
    Clock → Uuid → Uuid → String → Database → Result (Option JobRecord) × Database
unfolding read_claim write_claim claimed_job
claim_job clock attempt_id job_id worker_id db = elim (read_claim clock job_id db) [
  | none ↦ (ok none, db)
  | some row ↦ claimed_job (write_claim clock attempt_id worker_id row db)
]

-- `_finish_attempt`: of several rows the first is taken; there is at most one.
unfoldable pub finish_attempt :
    Instant → Uuid → ℕ → AttemptStatus → Option String → List JobAttempt → List JobAttempt
unfolding is_attempt
finish_attempt now job_id number status error [] = []
finish_attempt now job_id number status error (attempt ∷ attempts) =
    let rest = finish_attempt now job_id number status error attempts in
    if is_attempt job_id number attempt
    then record attempt { status = status; error = error; finished_at = some now } ∷ attempts
    else attempt ∷ rest

-- The job is written, its current attempt is finished, and both are committed.
unfoldable pub finish :
    Instant → AttemptStatus → Option String → JobRecord → Database → Result JobRecord × Database
unfolding finish_attempt write_job
finish now status error job db = (
  ok job,
  write_job job (record db {
    attempts = finish_attempt now job.id job.attempt_count status error db.attempts;
  }),
)

unfoldable pub mark_succeeded : Clock → Uuid → Payload → Database → Result JobRecord × Database
unfolding finish get_job
mark_succeeded clock job_id result db = elim (get_job job_id db) [
  | err x ↦ (err x, db)
  | ok job ↦ finish (clock 1) AttemptStatus.succeeded none (succeeded_with (clock 0) result job) db
]

-- A time of processing that is there stays, where the job has attempts left.
unfoldable pub failed_row : Instant → String → ℕ → JobRecord → JobRecord
unfolding is_exhausted
failed_row now error backoff_seconds job = record job {
  status = if is_exhausted job then dead_lettered else JobStatus.failed;
  last_error = some error;
  locked_by = none;
  locked_at = none;
  next_run_at = now + backoff_seconds * micros_per_second;
  updated_at = now;
  processed_at = if is_exhausted job then some now else job.processed_at;
}

unfoldable pub mark_failed_attempt :
    Clock → Uuid → String → ℕ → Database → Result JobRecord × Database
unfolding finish get_job failed_row
mark_failed_attempt clock job_id error backoff_seconds db = elim (get_job job_id db) [
  | err x ↦ (err x, db)
  | ok job ↦
      finish (clock 1) AttemptStatus.failed (some error)
        (failed_row (clock 0) error backoff_seconds job) db
]

-- What `cancel_job` reads and tests.
unfoldable pub pending_row : JobRecord → Result JobRecord
pending_row job =
    if is_pending job.status
    then ok job
    else raise (
        conflict_error "Only pending jobs can be cancelled"
          (field "status" (str (status_value job.status)) empty))

unfoldable pub read_cancel : Uuid → Database → Result JobRecord
unfolding get_job pending_row
read_cancel job_id db = do job ← get_job job_id db; pending_row job

-- What it writes and commits, to the row as it is by then.
unfoldable pub write_cancel : Instant → Uuid → Database → Result JobRecord × Database
unfolding write_job get_job
write_cancel now job_id db = elim (get_job job_id db) [
  | err x ↦ (err x, db)
  | ok job ↦ (ok (cancelled_at now job), write_job (cancelled_at now job) db)
]

-- `cancel_job`, with nothing between its read and its write.
unfoldable pub cancel_job : Clock → Uuid → Database → Result JobRecord × Database
unfolding read_cancel write_cancel
cancel_job clock job_id db = elim (read_cancel job_id db) [
  | err x ↦ (err x, db)
  | ok job ↦ write_cancel (clock 0) job_id db
]

-- The row that `create_next_recurring_job` inserts; its search and its times read the clock once each.
unfoldable pub next_row : Clock → Uuid → Instant → JobRecord → JobRecord
next_row clock fresh next_run_at job = record job {
  id = fresh;
  status = queued;
  attempt_count = 0;
  next_run_at = next_run_at;
  run_at = some next_run_at;
  locked_by = none;
  locked_at = none;
  kafka_message_key = some fresh;
  last_error = none;
  result = none;
  idempotency_key = none;
  created_at = clock 1;
  updated_at = clock 1;
  processed_at = none;
}

unfoldable pub insert_next :
    Clock → Uuid → Result Instant → JobRecord → Database → Result (Option JobRecord) × Database
unfolding next_row write_job is_duplicate
insert_next clock fresh (err x) job db = (err x, db)
insert_next clock fresh (ok t) job db =
    if is_duplicate fresh none db
    then (err integrity_error, db)
    else (ok (some (next_row clock fresh t job)), write_job (next_row clock fresh t job) db)

unfoldable pub create_next_recurring_job :
    Clock → Uuid → JobRecord → Database → Result (Option JobRecord) × Database
unfolding insert_next truthy
create_next_recurring_job clock fresh job db = elim (truthy job.recurring_cron) [
  | none ↦ (ok none, db)
  | some cron ↦ insert_next clock fresh (next_cron_run cron (clock 0)) job db
]
