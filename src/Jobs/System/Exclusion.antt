-- ===== src/Jobs/System/Exclusion.antt =====
-- What holds of the repository of app/jobs/repositories.py after any sequence of calls.
use async_job_processing_pip.Prelude.{ℕ, ◌+◌, ◌≤◌, ◌≡◌, Option, none, some, arith, nat_eq}
use async_job_processing_pip.Prelude.Dict.{get}
use async_job_processing_pip.Core.Enums.{JobStatus, status_eq}
use async_job_processing_pip.Jobs.{Uuid, JobRecord}
use async_job_processing_pip.Jobs.Memory.{set_drain}
use async_job_processing_pip.Jobs.Memory.Records.{IsConsistent}
use async_job_processing_pip.Jobs.System.{
  times, leave, System, Step, create, cancel, drain, claim, succeed, fail, recur, fail_late,
  crash_handling, crash_finishing, Reachable, started, stepped,
}
use async_job_processing_pip.Jobs.System.Invariant.{one_if, times-leave, AreSafe, fewer-AreSafe}
use async_job_processing_pip.Jobs.System.Calls.{
  create-AreSafe, recur-AreSafe, cancel-AreSafe, claim-AreSafe, succeed-AreSafe, fail-AreSafe,
  fail_late-AreSafe,
}

step-AreSafe :
    {s t : System}
    → Step s t
    → AreSafe s.memory.jobs s.handling s.finishing
    → AreSafe t.memory.jobs t.handling t.finishing
unfolding set_drain
step-AreSafe {s} (create clock fresh request free) safe =
    create-AreSafe s safe clock fresh request free
step-AreSafe {s} (cancel clock i) safe = cancel-AreSafe s safe clock i
step-AreSafe (drain enabled) safe = safe
step-AreSafe {s} (claim clock i worker_id h) safe = claim-AreSafe s safe clock i worker_id h
step-AreSafe {s} (succeed clock i result h) safe = succeed-AreSafe s safe clock i result h
step-AreSafe {s} (fail clock i error backoff h) safe = fail-AreSafe s safe clock i error backoff h
step-AreSafe {s} (recur clock fresh i job h free) safe = recur-AreSafe s safe clock fresh i job free
step-AreSafe {s} (fail_late clock i error backoff h) safe =
    fail_late-AreSafe s safe clock i error backoff h
step-AreSafe {s} (crash_handling i) safe =
    fewer-AreSafe s.memory.jobs s.handling s.finishing safe (leave i s.handling) s.finishing
      (λ j. omega (arith, times-leave i j s.handling)) (λ j. omega arith)
step-AreSafe {s} (crash_finishing i) safe =
    fewer-AreSafe s.memory.jobs s.handling s.finishing safe s.handling (leave i s.finishing)
      (λ j. omega arith) (λ j. omega (arith, times-leave i j s.finishing))

Reachable-AreSafe : {s : System} → Reachable s → AreSafe s.memory.jobs s.handling s.finishing
unfolding get
Reachable-AreSafe started i = record {
  handled = omega arith;
  finished = omega arith;
  consistent = λ job e. absurd (cc e);
}
Reachable-AreSafe (stepped r step) i = step-AreSafe step (Reachable-AreSafe r) i

one_of :
    (stored : Option JobRecord) {h f : ℕ}
    → h ≤ one_if JobStatus.running stored
    → f ≤ one_if JobStatus.succeeded stored
    → h + f ≤ 1
one_of none a b = omega arith
one_of (some job) a b = ground (arith, a, b)

-- However the calls interleave, and whichever workers die, at most one `process_job` call is at work on a
-- job at any time: one that handles it only while it is stored as running, one that finishes it only while
-- it is stored as succeeded.
pub at_most_one_worker :
    {s : System}
    → Reachable s
    → (i : Uuid)
    → (times i s.handling + times i s.finishing ≤ 1)
      × (times i s.handling ≤ one_if JobStatus.running (get i s.memory.jobs))
      × (times i s.finishing ≤ one_if JobStatus.succeeded (get i s.memory.jobs))
at_most_one_worker {s} r i =
    let safe = Reachable-AreSafe r i in
    (one_of (get i s.memory.jobs) safe.handled safe.finished, safe.handled, safe.finished)

-- Every stored record is under its own id and consistent: it has a lock exactly while it runs, has never
-- more attempts than one and its retries, has some left while it is pending and none once dead-lettered,
-- and has a time of processing exactly when it succeeded, was cancelled or is dead-lettered.
pub Reachable-IsConsistent :
    {s : System}
    → Reachable s
    → (i : Uuid) (job : JobRecord) → get i s.memory.jobs ≡ some job
    → IsConsistent job × (job.id ≡ i)
Reachable-IsConsistent r i job h = (Reachable-AreSafe r i).consistent job h
