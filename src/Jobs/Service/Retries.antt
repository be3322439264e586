-- ===== src/Jobs/Service/Retries.antt =====
-- A job that keeps failing, over the in-memory repository and the fake producer.
use async_job_processing_pip.Prelude.{
  ℕ, zero, suc, ◌+◌, ◌*◌, ◌-◌, ◌^◌, ◌≤◌, min, String, ◌≡◌, refl, ◌∙◌, true, false, some, arith,
  List, [], ◌∷◌, ◌++◌, nat_eq, All, length,
}
use async_job_processing_pip.Prelude.Dict.{get}
use native.Mathlib.Nat.{pow-succ', one-le-pow}
use async_job_processing_pip.Calendar.{Instant, micros_per_second}
use async_job_processing_pip.Core.Json.{Payload}
use async_job_processing_pip.Core.Enums.{dead_lettered, is_pending}
use async_job_processing_pip.Core.Errors.{Raised, ok, err}
use async_job_processing_pip.Jobs.{Uuid, JobRecord}
use async_job_processing_pip.Jobs.Handlers.{Host, Handler, get_handler}
use async_job_processing_pip.Jobs.Memory.{Memory, is_claimable, claimed, is_exhausted, failed_with}
use async_job_processing_pip.Jobs.Repository.{memory_repository}
use async_job_processing_pip.Jobs.Service.{
  World, backoff_seconds, run_with_timeout, Run, process_job,
}
use async_job_processing_pip.Jobs.Service.Outcomes.{
  WillRun, taken, failed_job, retry_outcome, process_job_exhausted,
}
use async_job_processing_pip.Queue.{JobProducer, FakeJobProducer, DeadLetter, fake_producer}

abbrev capped : ℕ → ℕ
capped k = min (2 ^ k) 300

capped_bounds :
    (k : ℕ)
    → (1 ≤ capped k)
      × (capped k ≤ 300)
      × (capped k ≤ capped (suc k))
      × (capped (suc k) ≡ min (2 * capped k) 300)
capped_bounds k =
    let pow = pow-succ' 2 k in
    let one_le = one-le-pow k 2 (omega arith) in
    (omega (arith, pow, one_le), omega arith, omega (arith, pow), omega (arith, pow))

-- The wait before the next attempt lies between one second and five minutes; it is one second after the
-- first attempt, never falls, and doubles with each attempt up to the five minutes.
pub backoff_seconds_bounds :
    (n : ℕ)
    → (1 ≤ backoff_seconds n)
      × (backoff_seconds n ≤ 300)
      × (backoff_seconds 1 ≡ 1)
      × (backoff_seconds n ≤ backoff_seconds (suc n))
      × (backoff_seconds (n + 2) ≡ min (2 * backoff_seconds (n + 1)) 300)
unfolding backoff_seconds
backoff_seconds_bounds zero = (omega arith, omega arith, refl, omega arith, refl)
backoff_seconds_bounds (suc n) =
    let shift : (k : ℕ) → suc k - 1 ≡ k = λ k. omega arith in
    let (a, b, c, _) = capped_bounds n in
    let (_, _, _, d) = capped_bounds (suc n) in
    let one_more : suc n + 1 - 1 ≡ suc n = omega arith in
    let two_more : suc n + 2 - 1 ≡ suc (suc n) = omega arith in
    rw (shift n, shift (suc n), one_more, two_more) (a, b, refl, c, d)

module _ {P : Type 0} (prod : JobProducer P) (host : Host) where
  -- The calls that a worker makes for one job, in their order.
  unfoldable pub process_all : List Run → Uuid → String → World Memory P → World Memory P
  process_all [] i worker_id w = w
  process_all (run ∷ runs) i worker_id w =
      process_all runs i worker_id (process_job memory_repository prod host run i worker_id w).1

-- Every call finds the job due: the first at `due`, each later one five minutes after the failure.
abbrev pub AreTimely : Instant → List Run → Type 0
AreTimely due [] = Unit
AreTimely due (run ∷ runs) =
    (due ≤ run.claiming 0) × AreTimely (run.failing 0 + 300 * micros_per_second) runs

-- Every call's attempt raises.
abbrev pub AllFail : Host → Handler → Payload → List Run → Type 0
AllFail host handler payload =
    All (λ run. (x : Raised) × (run_with_timeout host run.join handler payload ≡ err x))

-- A pending job that the store holds and that workers may claim.
pub record IsWaiting (job : JobRecord) (handler : Handler) (w : World Memory FakeJobProducer)
    : Type 0 where
  pub stored : get job.id w.repository.jobs ≡ some job
  pub pending : is_pending job.status ≡ true
  pub not_drained : w.repository.drain_enabled ≡ false
  pub handled : get_handler job.handler ≡ ok handler
  pub connected : w.producer.available ≡ true

abbrev pub letter : JobRecord → DeadLetter
letter job = record { job_id = job.id; handler = job.handler; attempt = job.max_retries + 1 }

-- The job that is left after the last attempt.
abbrev pub IsDeadLettered : JobRecord → World Memory FakeJobProducer → Type 0
IsDeadLettered job w =
    (dead : JobRecord) × (get job.id w.repository.jobs ≡ some dead)
    × (dead.status ≡ dead_lettered)
    × (dead.attempt_count ≡ job.max_retries + 1)

module _ (host : Host) (worker_id : String) where
  -- The job after the failed attempt of the run.
  abbrev after_failure : Run → Raised → JobRecord → JobRecord
  after_failure run x job = failed_job host run x (taken run worker_id job)

  pub waiting-WillRun :
      {run : Run} {job : JobRecord} {handler : Handler} {w : World Memory FakeJobProducer}
      → IsWaiting job handler w
      → job.next_run_at ≤ run.claiming 0
      → WillRun run job handler w
  unfolding is_claimable
  waiting-WillRun h due = record {
    stored = h.stored;
    not_drained = h.not_drained;
    claimable = ground (arith, h.pending);
    handled = h.handled;
  }

  -- After a failed attempt with attempts left the job waits again, for at most five minutes.
  pub still-IsWaiting :
      (run : Run) (x : Raised) {job : JobRecord} {handler : Handler}
      {w : World Memory FakeJobProducer}
      → IsWaiting job handler w
      → job.next_run_at ≤ run.claiming 0
      → run_with_timeout host run.join handler job.payload ≡ err x
      → is_exhausted (taken run worker_id job) ≡ false
      → let w' = (process_job memory_repository fake_producer host run job.id worker_id w).1 in
        IsWaiting (after_failure run x job) handler w'
        × (w'.producer ≡ w.producer)
        × ((after_failure run x job).next_run_at ≤ run.failing 0 + 300 * micros_per_second)
  unfolding failed_with claimed is_pending
  still-IsWaiting run x {job} {handler} {w} h due ran left =
      let (_, gets, sent, drain) =
        retry_outcome fake_producer host run worker_id job handler w (waiting-WillRun h due) x ran
          left in
      let (_, bound, _, _, _) = backoff_seconds_bounds (job.attempt_count + 1) in
      (
        record {
          stored = ground (arith, gets job.id);
          pending = rw left refl;
          not_drained = drain ∙ h.not_drained;
          handled = h.handled;
          connected = rw sent h.connected;
        },
        sent,
        omega (arith, bound),
      )

  last_attempt :
      (run : Run) (x : Raised) {job : JobRecord} {handler : Handler}
      {w : World Memory FakeJobProducer}
      → IsWaiting job handler w
      → job.next_run_at ≤ run.claiming 0
      → run_with_timeout host run.join handler job.payload ≡ err x
      → job.attempt_count ≡ job.max_retries
      → let w' = (process_job memory_repository fake_producer host run job.id worker_id w).1 in
        IsDeadLettered job w'
        × (w'.producer.dead_letters ≡ w.producer.dead_letters ++ letter job ∷ [])
        × (w'.producer.published ≡ w.producer.published)
  unfolding failed_with claimed is_exhausted fake_producer
  last_attempt run x {job} {handler} {w} h due ran used =
      let p = record w.producer {
        dead_letters =
            w.producer.dead_letters
            ++ record { job_id = job.id; handler = job.handler; attempt = job.attempt_count + 1 }
              ∷ [];
      } in
      let sent : fake_producer.publish_dead_letter job.id job.handler (job.attempt_count + 1)
            w.producer
          ≡ (ok tt, p) =
        rw h.connected refl in
      let (_, dead, gets, out) =
        process_job_exhausted fake_producer host run worker_id job handler w (waiting-WillRun h due)
          x p ran (ground arith) sent in
      (
        (
          failed_job host run x (taken run worker_id job),
          ground (arith, gets job.id),
          dead,
          omega arith,
        ),
        rw out (rw used refl),
        rw out refl,
      )

  -- A waiting job whose every attempt raises, processed when due as often as it has attempts, ends
  -- dead-lettered with all its attempts counted: it has run its first time and `max_retries` more times,
  -- its one dead letter is published, in the last call, and nothing else is.
  pub process_all_dead_letters :
      (runs : List Run) (job : JobRecord) (handler : Handler) (w : World Memory FakeJobProducer)
      → IsWaiting job handler w
      → AreTimely job.next_run_at runs
      → AllFail host handler job.payload runs
      → job.attempt_count ≤ job.max_retries
      → job.attempt_count + length runs ≡ job.max_retries + 1
      → let out = process_all fake_producer host runs job.id worker_id w in
        IsDeadLettered job out
        × (out.producer.dead_letters ≡ w.producer.dead_letters ++ letter job ∷ [])
        × (out.producer.published ≡ w.producer.published)
  unfolding claimed failed_with is_exhausted process_all
  process_all_dead_letters [] job handler w h due fails left total = absurd (omega arith)
  process_all_dead_letters (run ∷ []) job handler w h due fails left total =
      let (x, ran) = fails.0 in last_attempt run x h due.0 ran (omega arith)
  process_all_dead_letters (run ∷ next ∷ runs) job handler w h due fails left total =
      let (x, ran) = fails.0 in
      let (again, sent, soon) = still-IsWaiting run x h due.0 ran (ground arith) in
      let w' = (process_job memory_repository fake_producer host run job.id worker_id w).1 in
      let later : AreTimely (after_failure run x job).next_run_at (next ∷ runs) =
        (omega (arith, soon, due.1.0), due.1.1) in
      let (dead, letters, published) =
        process_all_dead_letters (next ∷ runs) (after_failure run x job) handler w' again later
          fails.1 (omega arith) (omega arith) in
      (dead, letters ∙ rw sent refl, published ∙ rw sent refl)
