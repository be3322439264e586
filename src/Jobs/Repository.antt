-- ===== src/Jobs/Repository.antt =====
-- The `JobRepository` protocol of app/jobs/repositories.py, over the state of an implementation, and the
-- in-memory implementation as one. A call is given what `utc_now()` and `uuid4()` return in it.
pub mod Calls
pub mod Keys
use async_job_processing_pip.Prelude.{ℕ, String, Bool, Option, List}
use async_job_processing_pip.Core.Json.{Payload}
use async_job_processing_pip.Core.Enums.{JobStatus}
use async_job_processing_pip.Core.Errors.{Result, ok}
use async_job_processing_pip.Core.Exec.{Exec}
use async_job_processing_pip.Jobs.{Uuid, Clock, JobCreate, JobRecord, QueueDepth, JobMetrics}
use async_job_processing_pip.Jobs.Memory
use async_job_processing_pip.Jobs.Memory.{Memory}
use async_job_processing_pip.Jobs.Memory.Metrics

pub record JobRepository (R : Type 0) : Type 0 where
  pub create_job : Clock → Uuid → JobCreate → Exec R (JobRecord × Bool)
  pub get_job : Uuid → R → Result JobRecord
  pub list_jobs : Option JobStatus → Option String → ℕ → ℕ → R → List JobRecord
  pub due_jobs : Clock → ℕ → R → List JobRecord
  pub queue_depth : Clock → R → QueueDepth
  pub metrics : R → Result JobMetrics
  pub claim_job : Clock → Uuid → Uuid → String → Exec R (Option JobRecord)
  pub mark_succeeded : Clock → Uuid → Payload → Exec R JobRecord
  pub create_next_recurring_job : Clock → Uuid → JobRecord → Exec R (Option JobRecord)
  pub mark_failed_attempt : Clock → Uuid → String → ℕ → Exec R JobRecord
  pub cancel_job : Clock → Uuid → Exec R JobRecord
  pub set_drain : Clock → Bool → R → R
  pub get_drain : R → Bool

unfoldable pub claim_in_memory : Clock → Uuid → Uuid → String → Exec Memory (Option JobRecord)
claim_in_memory clock fresh job_id worker_id m =
    let (job, m') = Memory.claim_job clock job_id worker_id m in (ok job, m')

unfoldable pub memory_repository : JobRepository Memory
unfolding claim_in_memory
memory_repository = record {
  create_job = Memory.create_job;
  get_job = Memory.get_job;
  list_jobs = Memory.list_jobs;
  due_jobs = Memory.due_jobs;
  queue_depth = Memory.queue_depth;
  metrics = Metrics.metrics;
  claim_job = claim_in_memory;
  mark_succeeded = Memory.mark_succeeded;
  create_next_recurring_job = Memory.create_next_recurring_job;
  mark_failed_attempt = Memory.mark_failed_attempt;
  cancel_job = Memory.cancel_job;
  set_drain = λ clock. Memory.set_drain;
  get_drain = Memory.get_drain;
}
