-- ===== src/Examples/Submissions.antt =====
-- Submissions, claims and cancellations on a store of one job.
use async_job_processing_pip.Prelude.{
  ◌+◌, ◌*◌, ◌≤◌, ◌≡◌, refl, true, false, min, none, some, List, [], ◌∷◌, nat_eq,
}
use async_job_processing_pip.Prelude.Dict.{get, put}
use async_job_processing_pip.Text.{truthy, is_empty}
use async_job_processing_pip.Core.Enums.{JobStatus, is_pending}
use async_job_processing_pip.Core.Errors.{ok}
use async_job_processing_pip.Jobs.{JobRecord, first_run, ensure_aware}
use async_job_processing_pip.Jobs.Memory.{
  Memory, initial, store, new_job, create_job, is_claimable, claimed, claim_job, known_as, remember,
}
use async_job_processing_pip.Jobs.Memory.Records.{IsConsistent}
use async_job_processing_pip.Jobs.Repository.{memory_repository}
use async_job_processing_pip.Jobs.Repository.Calls.{Call, perform_all}
use async_job_processing_pip.Jobs.Repository.Keys.{create_job-replays}
use async_job_processing_pip.Jobs.Service.{backoff_seconds}
use async_job_processing_pip.Jobs.Service.Retries.{backoff_seconds_bounds}
use async_job_processing_pip.Jobs.System.{
  System, Reachable, started, stepped, create, claim, start, times,
}
use async_job_processing_pip.Jobs.System.Invariant.{one_if}
use async_job_processing_pip.Jobs.System.Exclusion.{at_most_one_worker, Reachable-IsConsistent}
use async_job_processing_pip.Examples.Workers.{request, job, at}

abbrev one_job : Memory
one_job = record {
  jobs = (7, job "echo" 3) ∷ [];
  idempotency = ("key", 7) ∷ [];
  drain_enabled = false;
}

first_accepted : (create_job (at 1000) 7 (request "echo" 3) initial).0 ≡ ok (job "echo" 3, false)
unfolding create_job truthy is_empty known_as get
first_accepted = refl

-- Another submission, and a claim of the first.
abbrev between : List Call
between =
    Call.create (at 1500) 9 (record (request "sleep" 1) { idempotency_key = some "other" })
    ∷ Call.claim (at 2000) 70 7 "worker"
    ∷ []

abbrev by_then : Memory
by_then =
    (perform_all memory_repository between (create_job (at 1000) 7 (request "echo" 3) initial).1).1

key_given : truthy (request "echo" 3).idempotency_key ≡ some "key"
unfolding truthy is_empty
key_given = refl

create_job-replays_example :
    (now : JobRecord) × (get 7 by_then.jobs ≡ some now)
    × (now.id ≡ 7)
    × (create_job (at 2000) 8 (request "always_fail" 0) by_then ≡ (ok (now, true), by_then))
unfolding truthy is_empty new_job
create_job-replays_example =
    create_job-replays (at 1000) 7 (request "echo" 3) initial "key" key_given between (at 2000) 8
      (request "always_fail" 0) refl first_accepted

-- The job of an earlier claim.
abbrev busy : JobRecord
busy = claimed 2000 "worker" (job "echo" 3)

backoff_seconds_bounds_example :
    (1 ≤ backoff_seconds 4)
    × (backoff_seconds 4 ≤ 300)
    × (backoff_seconds 1 ≡ 1)
    × (backoff_seconds 4 ≤ backoff_seconds 5)
    × (backoff_seconds 6 ≡ min (2 * backoff_seconds 5) 300)
backoff_seconds_bounds_example = backoff_seconds_bounds 4

abbrev submitted : System
submitted = record start { memory = (create_job (at 1000) 7 (request "echo" 3) initial).1 }

no_jobs : get 7 initial.jobs ≡ none
unfolding get
no_jobs = refl

submitted_reached : Reachable submitted
submitted_reached = stepped started (create (at 1000) 7 (request "echo" 3) no_jobs)

claim_answers : (claim_job (at 2000) 7 "worker" submitted.memory).0 ≡ some busy
unfolding claim_job create_job truthy is_empty known_as remember store get put is_claimable
    is_pending new_job first_run ensure_aware claimed
claim_answers = refl

abbrev working : System
working = record submitted {
  memory = (claim_job (at 2000) 7 "worker" submitted.memory).1;
  handling = 7 ∷ [];
}

working_reached : Reachable working
working_reached = stepped submitted_reached (claim (at 2000) 7 "worker" claim_answers)

at_most_one_worker_example :
    (times 7 working.handling + times 7 working.finishing ≤ 1)
    × (times 7 working.handling ≤ one_if JobStatus.running (get 7 working.memory.jobs))
    × (times 7 working.finishing ≤ one_if JobStatus.succeeded (get 7 working.memory.jobs))
at_most_one_worker_example = at_most_one_worker working_reached 7

working_stored : get 7 working.memory.jobs ≡ some busy
unfolding claim_job create_job truthy is_empty known_as remember store get put is_claimable
    is_pending new_job first_run ensure_aware claimed
working_stored = refl

Reachable-IsConsistent_example : IsConsistent busy × (busy.id ≡ 7)
Reachable-IsConsistent_example = Reachable-IsConsistent working_reached 7 busy working_stored
