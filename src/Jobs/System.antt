-- ===== src/Jobs/System.antt =====
-- Several workers, the clients and one in-memory repository of app/jobs/repositories.py. The repository
-- takes its lock in each method, so the calls come one after another, in any order.
pub mod Invariant
pub mod Calls
pub mod Exclusion
use async_job_processing_pip.Prelude.{
  ℕ, ◌+◌, ◌<◌, String, ◌≡◌, Bool, none, some, List, [], ◌∷◌, ◌==◌, nat_eq, if◌then◌else◌,
}
use async_job_processing_pip.Prelude.Dict.{get}
use async_job_processing_pip.Core.Json.{Payload}
use async_job_processing_pip.Core.Errors.{Raised, ok, err}
use async_job_processing_pip.Jobs.{Uuid, Clock, JobCreate, JobRecord}
use async_job_processing_pip.Jobs.Memory.{
  Memory, initial, create_job, claim_job, create_next_recurring_job, mark_succeeded,
  mark_failed_attempt, cancel_job, set_drain,
}

-- How often a job stands in a list.
abbrev pub times : Uuid → List Uuid → ℕ
times i [] = 0
times i (j ∷ js) = (if j == i then 1 else 0) + times i js

abbrev pub leave : Uuid → List Uuid → List Uuid
leave i [] = []
leave i (j ∷ js) = let rest = leave i js in if j == i then js else j ∷ rest

-- `handling` lists the jobs of the `process_job` calls between their claim and `mark_succeeded`,
-- `finishing` those between `mark_succeeded` and their end.
pub record System : Type 0 where
  pub memory : Memory
  pub handling : List Uuid
  pub finishing : List Uuid

abbrev pub start : System
start = record { memory = initial; handling = []; finishing = [] }

-- One call of the repository, by a client or by a `process_job` call that has come to it, or the end of a
-- worker's process in the middle of a call.
pub data Step : System → System → Type 0 where
  create :
      {s : System} (clock : Clock) (fresh : Uuid) (request : JobCreate)
      → get fresh s.memory.jobs ≡ none
      → Step s (record s { memory = (create_job clock fresh request s.memory).1 })
  cancel :
      {s : System} (clock : Clock) (i : Uuid)
      → Step s (record s { memory = (cancel_job clock i s.memory).1 })
  drain : {s : System} (enabled : Bool) → Step s (record s { memory = set_drain enabled s.memory })
  claim :
      {s : System} (clock : Clock) (i : Uuid) (worker_id : String) {job : JobRecord}
      → (claim_job clock i worker_id s.memory).0 ≡ some job
      → Step s (record s {
        memory = (claim_job clock i worker_id s.memory).1;
        handling = i ∷ s.handling;
      })
  succeed :
      {s : System} (clock : Clock) (i : Uuid) (result : Payload)
      → 0 < times i s.handling
      → Step s (record {
        memory = (mark_succeeded clock i result s.memory).1;
        handling = leave i s.handling;
        finishing = i ∷ s.finishing;
      })
  fail :
      {s : System} (clock : Clock) (i : Uuid) (error : String) (backoff : ℕ)
      → 0 < times i s.handling
      → Step s (record s {
        memory = (mark_failed_attempt clock i error backoff s.memory).1;
        handling = leave i s.handling;
      })
  recur :
      {s : System} (clock : Clock) (fresh i : Uuid) (job : JobRecord)
      → 0 < times i s.finishing
      → get fresh s.memory.jobs ≡ none
      → Step s (record s {
        memory = (create_next_recurring_job clock fresh job s.memory).1;
        finishing = leave i s.finishing;
      })
  fail_late :
      {s : System} (clock : Clock) (i : Uuid) (error : String) (backoff : ℕ)
      → 0 < times i s.finishing
      → Step s (record s {
        memory = (mark_failed_attempt clock i error backoff s.memory).1;
        finishing = leave i s.finishing;
      })
  crash_handling : {s : System} (i : Uuid) → Step s (record s { handling = leave i s.handling })
  crash_finishing : {s : System} (i : Uuid) → Step s (record s { finishing = leave i s.finishing })

pub data Reachable : System → Type 0 where
  started : Reachable start
  stepped : {s t : System} → Reachable s → Step s t → Reachable t
