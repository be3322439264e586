-- ===== src/Jobs/Memory.antt =====
-- `InMemoryJobRepository` of app/jobs/repositories.py. Each method takes the state to its result and the
-- new state; under the lock of the source a method is one step. `clock` is what `utc_now()` returns in
-- the call, `fresh` what `uuid4()` does.
pub mod Records
pub mod Steps
pub mod Create
pub mod Metrics
pub mod Queries
pub mod Depth
pub mod Rates
use async_job_processing_pip.Prelude.{
  ℕ, zero, suc, ◌+◌, ◌-◌, ◌*◌, String, Bool, true, false, ◌&&◌, ◌||◌, not, Option, none, some, List,
  [], ◌∷◌, map, ltb, leb, ◌==◌, nat_eq, string_eq, if◌then◌else◌, length, take, drop, keep, count,
}
use async_job_processing_pip.Prelude.Dict.{Dict, get, put}
use async_job_processing_pip.Text.{truthy}
use async_job_processing_pip.Sorting.{sorted}
use async_job_processing_pip.Scheduling.{next_cron_run}
use async_job_processing_pip.Calendar.{Instant, micros_per_second}
use async_job_processing_pip.Core.Json.{Payload, field, empty, str}
use async_job_processing_pip.Core.Enums.{
  JobStatus, queued, dead_lettered, cancelled, status_eq, status_value, is_pending,
}
use async_job_processing_pip.Core.Errors.{
  Result, ok, err, raise, key_error, not_found_error, conflict_error, ◌>>=◌,
}
use async_job_processing_pip.Jobs.{
  Uuid, Clock, ensure_aware, JobCreate, JobRecord, PriorityDepth, QueueDepth, first_run,
}

pub record Memory : Type 0 where
  pub jobs : Dict Uuid JobRecord
  pub idempotency : Dict String Uuid
  pub drain_enabled : Bool

abbrev pub initial : Memory
initial = record { jobs = []; idempotency = []; drain_enabled = false }

-- `d.values()`
abbrev pub values {ℓ κ} : {K : Type ℓ} {V : Type κ} → Dict K V → List V
values [] = []
values ((k, v) ∷ d) = v ∷ values d

-- `self.jobs[job_id]`, where a missing key raises `KeyError`.
unfoldable pub at_key : Uuid → Memory → Result JobRecord
at_key job_id m = elim (get job_id m.jobs) [ none ↦ err key_error | some job ↦ ok job ]

unfoldable pub store : Uuid → JobRecord → Memory → Memory
store job_id job m = record m { jobs = put job_id job m.jobs }

-- The record that `create_job` makes.
unfoldable pub new_job : Clock → Uuid → JobCreate → JobRecord
new_job clock fresh request = record {
  id = fresh;
  handler = request.handler;
  payload = request.payload;
  status = queued;
  priority = request.priority;
  max_retries = request.max_retries;
  timeout_seconds = request.timeout_seconds;
  attempt_count = 0;
  next_run_at = first_run (ensure_aware request.run_at) (clock 0);
  run_at = ensure_aware request.run_at;
  recurring_cron = request.recurring_cron;
  locked_by = none;
  locked_at = none;
  kafka_message_key = some fresh;
  last_error = none;
  result = none;
  idempotency_key = request.idempotency_key;
  created_at = clock 0;
  updated_at = clock 0;
  processed_at = none;
}

-- The id that an idempotency key, if there is one, is known under.
unfoldable pub known_as : Option String → Memory → Option Uuid
known_as none m = none
known_as (some key) m = get key m.idempotency

unfoldable pub remember : Option String → Uuid → Memory → Memory
remember none job_id m = m
remember (some key) job_id m = record m { idempotency = put key job_id m.idempotency }

unfoldable pub replayed : Result JobRecord → Result (JobRecord × Bool)
replayed (ok job) = ok (job, true)
replayed (err x) = err x

unfoldable pub create_job : Clock → Uuid → JobCreate → Memory → Result (JobRecord × Bool) × Memory
unfolding truthy known_as remember store at_key replayed
create_job clock fresh request m = elim (known_as (truthy request.idempotency_key) m) [
  | some job_id ↦ (replayed (at_key job_id m), m)
  | none ↦ (
    ok (new_job clock fresh request, false),
    remember (truthy request.idempotency_key) fresh (store fresh (new_job clock fresh request) m),
  )
]

unfoldable pub get_job : Uuid → Memory → Result JobRecord
get_job job_id m = elim (get job_id m.jobs) [
  | some job ↦ ok job
  | none ↦ raise (not_found_error "Job not found")
]

unfoldable pub with_status : Option JobStatus → List JobRecord → List JobRecord
with_status none jobs = jobs
with_status (some status) jobs = keep (λ job. job.status == status) jobs

unfoldable pub with_handler : Option String → List JobRecord → List JobRecord
with_handler none jobs = jobs
with_handler (some handler) jobs = keep (λ job. job.handler == handler) jobs

-- `key=lambda job: job.created_at, reverse=True`, which is stable too.
abbrev pub newest_first : JobRecord → JobRecord → Bool
newest_first a b = leb b.created_at a.created_at

unfoldable pub list_jobs : Option JobStatus → Option String → ℕ → ℕ → Memory → List JobRecord
unfolding with_status with_handler truthy
list_jobs status handler limit offset m = take limit (
    drop offset
      (with_handler (truthy handler) (with_status status (sorted newest_first (values m.jobs)))))

abbrev pub is_due : Instant → JobRecord → Bool
is_due now job = is_pending job.status && leb job.next_run_at now

-- `key=lambda job: (-job.priority, job.created_at)`
abbrev pub most_urgent_first : JobRecord → JobRecord → Bool
most_urgent_first a b =
    ltb b.priority a.priority || (a.priority == b.priority && leb a.created_at b.created_at)

unfoldable pub due_jobs : Clock → ℕ → Memory → List JobRecord
due_jobs clock limit m =
    take limit (sorted most_urgent_first (keep (is_due (clock 0)) (values m.jobs)))

-- `priorities[p] = priorities.get(p, 0) + 1`
unfoldable pub bump : ℕ → Dict ℕ ℕ → Dict ℕ ℕ
bump p priorities = elim (get p priorities) [
  | none ↦ put p 1 priorities
  | some n ↦ put p (n + 1) priorities
]

unfoldable pub tally : List JobRecord → Dict ℕ ℕ → Dict ℕ ℕ
unfolding bump
tally [] priorities = priorities
tally (job ∷ jobs) priorities = tally jobs (bump job.priority priorities)

-- The order of the pairs of a dictionary, whose first parts differ.
abbrev pair_le : ℕ × ℕ → ℕ × ℕ → Bool
pair_le a b = ltb a.0 b.0 || (a.0 == b.0 && leb a.1 b.1)

unfoldable pub as_depth : ℕ × ℕ → PriorityDepth
as_depth (priority, n) = record { priority = priority; queued = n }

unfoldable pub queue_depth : Clock → Memory → QueueDepth
unfolding tally as_depth
queue_depth clock m =
    let queued_jobs = keep (λ (job : JobRecord). is_pending job.status) (values m.jobs) in
    record {
      queued = length queued_jobs;
      due = count (λ job. leb job.next_run_at (clock 0)) queued_jobs;
      running = count (λ job. job.status == JobStatus.running) (values m.jobs);
      dead_lettered = count (λ job. job.status == dead_lettered) (values m.jobs);
      by_priority = map as_depth (sorted pair_le (tally queued_jobs []));
    }

-- The guard of `claim_job`.
unfoldable pub is_claimable : Instant → JobRecord → Bool
is_claimable now job = is_pending job.status && not (ltb now job.next_run_at)

unfoldable pub claimed : Instant → String → JobRecord → JobRecord
claimed now worker_id job = record job {
  status = JobStatus.running;
  locked_by = some worker_id;
  locked_at = some now;
  attempt_count = job.attempt_count + 1;
  updated_at = now;
}

unfoldable pub try_claim :
    Instant → Uuid → String → Option JobRecord → Memory → Option JobRecord × Memory
try_claim now job_id worker_id none m = (none, m)
try_claim now job_id worker_id (some job) m =
    if is_claimable now job
    then (some (claimed now worker_id job), store job_id (claimed now worker_id job) m)
    else (none, m)

unfoldable pub claim_job : Clock → Uuid → String → Memory → Option JobRecord × Memory
unfolding try_claim store
claim_job clock job_id worker_id m =
    if m.drain_enabled
    then (none, m)
    else try_claim (clock 0) job_id worker_id (get job_id m.jobs) m

-- The record that `create_next_recurring_job` makes.
unfoldable pub next_job : Clock → Uuid → Instant → JobRecord → JobRecord
next_job clock fresh next_run_at job = record {
  id = fresh;
  handler = job.handler;
  payload = job.payload;
  status = queued;
  priority = job.priority;
  max_retries = job.max_retries;
  timeout_seconds = job.timeout_seconds;
  attempt_count = 0;
  next_run_at = next_run_at;
  run_at = some next_run_at;
  recurring_cron = job.recurring_cron;
  locked_by = none;
  locked_at = none;
  kafka_message_key = some fresh;
  last_error = none;
  result = none;
  idempotency_key = none;
  created_at = clock 0;
  updated_at = clock 0;
  processed_at = none;
}

unfoldable pub add_recurring :
    Clock → Uuid → Result Instant → JobRecord → Memory → Result (Option JobRecord) × Memory
add_recurring clock fresh (err x) job m = (err x, m)
add_recurring clock fresh (ok t) job m =
    (ok (some (next_job clock fresh t job)), store fresh (next_job clock fresh t job) m)

unfoldable pub create_next_recurring_job :
    Clock → Uuid → JobRecord → Memory → Result (Option JobRecord) × Memory
unfolding add_recurring store truthy
create_next_recurring_job clock fresh job m = elim (truthy job.recurring_cron) [
  | none ↦ (ok none, m)
  | some cron ↦ add_recurring clock fresh (next_cron_run cron (clock 0)) job m
]

-- A method that reads a job, replaces it and returns the new record, or raises and changes nothing.
unfoldable pub modify : Uuid → (JobRecord → Result JobRecord) → Memory → Result JobRecord × Memory
modify job_id update m = elim (do job ← get_job job_id m; update job) [
  | ok job ↦ (ok job, store job_id job m)
  | err x ↦ (err x, m)
]

unfoldable pub succeeded_with : Instant → Payload → JobRecord → JobRecord
succeeded_with now result job = record job {
  status = JobStatus.succeeded;
  result = some result;
  locked_by = none;
  locked_at = none;
  updated_at = now;
  processed_at = some now;
}

unfoldable pub mark_succeeded : Clock → Uuid → Payload → Memory → Result JobRecord × Memory
unfolding modify get_job store
mark_succeeded clock job_id result = modify job_id (λ job. ok (succeeded_with (clock 0) result job))

unfoldable pub is_exhausted : JobRecord → Bool
is_exhausted job = ltb job.max_retries job.attempt_count

unfoldable pub failed_with : Instant → String → ℕ → JobRecord → JobRecord
unfolding is_exhausted
failed_with now error backoff_seconds job = record job {
  status = if is_exhausted job then dead_lettered else JobStatus.failed;
  last_error = some error;
  locked_by = none;
  locked_at = none;
  next_run_at = now + backoff_seconds * micros_per_second;
  updated_at = now;
  processed_at = if is_exhausted job then some now else none;
}

unfoldable pub mark_failed_attempt : Clock → Uuid → String → ℕ → Memory → Result JobRecord × Memory
unfolding modify get_job store
mark_failed_attempt clock job_id error backoff_seconds =
    modify job_id (λ job. ok (failed_with (clock 0) error backoff_seconds job))

unfoldable pub cancelled_at : Instant → JobRecord → JobRecord
cancelled_at now job = record job { status = cancelled; updated_at = now; processed_at = some now }

unfoldable pub cancel : Instant → JobRecord → Result JobRecord
cancel now job =
    if is_pending job.status
    then ok (cancelled_at now job)
    else raise (
        conflict_error "Only pending jobs can be cancelled"
          (field "status" (str (status_value job.status)) empty))

unfoldable pub cancel_job : Clock → Uuid → Memory → Result JobRecord × Memory
unfolding modify get_job store cancel
cancel_job clock job_id = modify job_id (cancel (clock 0))

unfoldable pub set_drain : Bool → Memory → Memory
set_drain enabled m = record m { drain_enabled = enabled }

unfoldable pub get_drain : Memory → Bool
get_drain m = m.drain_enabled
