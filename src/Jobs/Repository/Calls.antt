-- ===== src/Jobs/Repository/Calls.antt =====
-- Calls of the `JobRepository` protocol of app/jobs/repositories.py and what they answer.
use async_job_processing_pip.Prelude.{ℕ, String, Bool, Option, List, [], ◌∷◌, nat_eq}
use async_job_processing_pip.Core.Json.{Payload}
use async_job_processing_pip.Core.Enums.{JobStatus}
use async_job_processing_pip.Core.Errors.{Result}
use async_job_processing_pip.Jobs.{Uuid, Clock, JobCreate, JobRecord}
use async_job_processing_pip.Jobs.Repository.{JobRepository}

-- Each method but `queue_depth` and `metrics`, with its arguments.
pub data Call : Type 0 where
  create : Clock → Uuid → JobCreate → Call
  find : Uuid → Call
  select_jobs : Option JobStatus → Option String → ℕ → ℕ → Call
  select_due : Clock → ℕ → Call
  claim : Clock → Uuid → Uuid → String → Call
  succeed : Clock → Uuid → Payload → Call
  recur : Clock → Uuid → JobRecord → Call
  fail : Clock → Uuid → String → ℕ → Call
  cancel : Clock → Uuid → Call
  drain : Clock → Bool → Call
  ask_drain : Call

pub data Answer : Type 0 where
  created : Result (JobRecord × Bool) → Answer
  one_job : Result JobRecord → Answer
  maybe_job : Result (Option JobRecord) → Answer
  many_jobs : List JobRecord → Answer
  nothing : Answer
  drained : Bool → Answer

module _ {R : Type 0} (repository : JobRepository R) where
  unfoldable pub perform : Call → R → Answer × R
  perform (create clock fresh request) r =
      let (out, r') = repository.create_job clock fresh request r in (created out, r')
  perform (find i) r = (one_job (repository.get_job i r), r)
  perform (select_jobs status handler limit offset) r =
      (many_jobs (repository.list_jobs status handler limit offset r), r)
  perform (select_due clock limit) r = (many_jobs (repository.due_jobs clock limit r), r)
  perform (claim clock attempt_id i worker_id) r =
      let (out, r') = repository.claim_job clock attempt_id i worker_id r in (maybe_job out, r')
  perform (succeed clock i result) r =
      let (out, r') = repository.mark_succeeded clock i result r in (one_job out, r')
  perform (recur clock fresh job) r =
      let (out, r') = repository.create_next_recurring_job clock fresh job r in (maybe_job out, r')
  perform (fail clock i error backoff_seconds) r =
      let (out, r') = repository.mark_failed_attempt clock i error backoff_seconds r in
      (one_job out, r')
  perform (cancel clock i) r = let (out, r') = repository.cancel_job clock i r in (one_job out, r')
  perform (drain clock enabled) r = (nothing, repository.set_drain clock enabled r)
  perform ask_drain r = (drained (repository.get_drain r), r)

  -- One call after another.
  unfoldable pub perform_all : List Call → R → List Answer × R
  perform_all [] r = ([], r)
  perform_all (call ∷ calls) r =
      let (answer, r') = perform call r in
      let (answers, last) = perform_all calls r' in (answer ∷ answers, last)
