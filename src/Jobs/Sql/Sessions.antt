-- ===== src/Jobs/Sql/Sessions.antt =====
-- Sessions of workers and clients on one database, through `SqlAlchemyJobRepository` of
-- app/jobs/repositories.py. What a claim or a cancellation has read is kept until it writes, and any
-- other session may commit in between; the other methods write what they compute in one step.
pub mod Invariant
pub mod Moves
pub mod Calls
pub mod Exclusion
use async_job_processing_pip.Prelude.{
  ℕ, ◌+◌, ◌<◌, String, ◌≡◌, Bool, none, some, List, [], ◌∷◌, ◌++◌,
}
use async_job_processing_pip.Core.Json.{Payload}
use async_job_processing_pip.Core.Errors.{Raised, ok, err}
use async_job_processing_pip.Calendar.{Instant}
use async_job_processing_pip.Jobs.{Uuid, Clock, JobCreate, JobRecord}
use async_job_processing_pip.Jobs.Memory.{new_job}
use async_job_processing_pip.Jobs.System.{times, leave}
use async_job_processing_pip.Jobs.Sql.{Database, insert_job, set_drain}
use async_job_processing_pip.Jobs.Sql.Writes.{
  read_claim, write_claim, read_cancel, write_cancel, mark_succeeded, mark_failed_attempt,
  create_next_recurring_job,
}

-- `claims` holds the rows that were read to be claimed, `cancels` the jobs that were read to be
-- cancelled; `handling` lists the jobs of the `process_job` calls between their claim and
-- `mark_succeeded`, `finishing` those between `mark_succeeded` and their end.
pub record Sessions : Type 0 where
  pub db : Database
  pub claims : List JobRecord
  pub cancels : List Uuid
  pub handling : List Uuid
  pub finishing : List Uuid

-- The `process_job` calls that are at work on a job.
abbrev pub busy : Uuid → Sessions → ℕ
busy i s = times i s.handling + times i s.finishing

abbrev pub opening : Sessions
opening = record {
  db = record { jobs = []; attempts = []; drain = none };
  claims = [];
  cancels = [];
  handling = [];
  finishing = [];
}

pub data Step : Sessions → Sessions → Type 0 where
  insert :
      {s : Sessions} (clock : Clock) (fresh : Uuid) (request : JobCreate)
      → Step s (record s { db = (insert_job (new_job clock fresh request) s.db).1 })
  drain : {s : Sessions} (enabled : Bool) → Step s (record s { db = set_drain enabled s.db })
  begin_claim :
      {s : Sessions} (clock : Clock) (i : Uuid) {row : JobRecord}
      → read_claim clock i s.db ≡ some row
      → Step s (record s { claims = row ∷ s.claims })
  -- The claim commits, and the job is handed to the handler.
  end_claim :
      {s : Sessions} (clock : Clock) (attempt_id : Uuid) (worker_id : String)
      (before : List JobRecord) (row : JobRecord) (after : List JobRecord) {job : JobRecord}
      → s.claims ≡ before ++ (row ∷ after)
      → (write_claim clock attempt_id worker_id row s.db).0 ≡ ok job
      → Step s (record s {
        db = (write_claim clock attempt_id worker_id row s.db).1;
        claims = before ++ after;
        handling = row.id ∷ s.handling;
      })
  -- The claim raises, or its worker dies before it commits.
  lose_claim :
      {s : Sessions} (before : List JobRecord) (row : JobRecord) (after : List JobRecord)
      → s.claims ≡ before ++ (row ∷ after)
      → Step s (record s { claims = before ++ after })
  begin_cancel :
      {s : Sessions} (i : Uuid) {row : JobRecord}
      → read_cancel i s.db ≡ ok row
      → Step s (record s { cancels = i ∷ s.cancels })
  end_cancel :
      {s : Sessions} (now : Instant) (i : Uuid)
      → 0 < times i s.cancels
      → Step s (record s { db = (write_cancel now i s.db).1; cancels = leave i s.cancels })
  succeed :
      {s : Sessions} (clock : Clock) (i : Uuid) (result : Payload)
      → 0 < times i s.handling
      → Step s (record s {
        db = (mark_succeeded clock i result s.db).1;
        handling = leave i s.handling;
        finishing = i ∷ s.finishing;
      })
  fail :
      {s : Sessions} (clock : Clock) (i : Uuid) (error : String) (backoff : ℕ)
      → 0 < times i s.handling
      → Step s (record s {
        db = (mark_failed_attempt clock i error backoff s.db).1;
        handling = leave i s.handling;
      })
  recur :
      {s : Sessions} (clock : Clock) (fresh i : Uuid) (job : JobRecord)
      → 0 < times i s.finishing
      → Step s (record s {
        db = (create_next_recurring_job clock fresh job s.db).1;
        finishing = leave i s.finishing;
      })
  fail_late :
      {s : Sessions} (clock : Clock) (i : Uuid) (error : String) (backoff : ℕ)
      → 0 < times i s.finishing
      → Step s (record s {
        db = (mark_failed_attempt clock i error backoff s.db).1;
        finishing = leave i s.finishing;
      })
  crash_handling : {s : Sessions} (i : Uuid) → Step s (record s { handling = leave i s.handling })
  crash_finishing :
      {s : Sessions} (i : Uuid) → Step s (record s { finishing = leave i s.finishing })

pub data Reachable : Sessions → Type 0 where
  started : Reachable opening
  stepped : {s t : Sessions} → Reachable s → Step s t → Reachable t
