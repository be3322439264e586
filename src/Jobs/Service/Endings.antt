-- ===== src/Jobs/Service/Endings.antt =====
-- Every job ends: `process_job` of app/jobs/service.py, called when the job is due, whatever its handler
-- does and however its attempts end.
use async_job_processing_pip.Prelude.{
  ◌+◌, ◌*◌, ◌≤◌, ◌<◌, String, ◌≡◌, ◌⊎◌, inl, inr, refl, sym, ap, subst, false, none, some, arith,
  List, [], ◌∷◌, ◌++◌, nat_eq, All, length, ◌==◌, Bool-cases, Option-cases, beq_refl,
}
use async_job_processing_pip.Prelude.Dict.{get}
use async_job_processing_pip.Text.{truthy}
use async_job_processing_pip.Scheduling.{next_cron_run}
use async_job_processing_pip.Calendar.{Instant, micros_per_second}
use async_job_processing_pip.Core.Json.{Payload}
use async_job_processing_pip.Core.Enums.{JobStatus, dead_lettered, is_pending, status_eq}
use async_job_processing_pip.Core.Errors.{Raised, ok, err, Result-cases}
use async_job_processing_pip.Jobs.{Uuid, JobRecord}
use async_job_processing_pip.Jobs.Handlers.{Host, Handler}
use async_job_processing_pip.Jobs.Memory.{
  Memory, is_claimable, claimed, is_exhausted, failed_with, succeeded_with, claim_job, store,
}
use async_job_processing_pip.Jobs.Memory.Steps.{get-store}
use async_job_processing_pip.Jobs.Repository.{memory_repository}
use async_job_processing_pip.Jobs.Service.{World, run_with_timeout, Run, process_job}
use async_job_processing_pip.Jobs.Service.Process.{process_job_skip}
use async_job_processing_pip.Jobs.Service.Outcomes.{
  taken, failed_job, success_outcome, process_job_exhausted, succeeded_job, after_success,
}
use async_job_processing_pip.Jobs.Service.Recurrence.{recurring_outcome, late_retry, late_last}
use async_job_processing_pip.Jobs.Service.Retries.{
  process_all, AreTimely, IsWaiting, waiting-WillRun, still-IsWaiting, backoff_seconds_bounds,
}
use async_job_processing_pip.Queue.{FakeJobProducer, fake_producer}

-- The job is stored as succeeded or as dead-lettered.
abbrev pub HasEnded : Uuid → World Memory FakeJobProducer → Type 0
HasEnded i w =
    (job : JobRecord) × (get i w.repository.jobs ≡ some job)
    × ((job.status ≡ JobStatus.succeeded) ⊎ (job.status ≡ dead_lettered))

-- The id that a call draws for a follow-up is another one.
abbrev pub AreNew : Uuid → List Run → Type 0
AreNew i = All (λ (run : Run). (i == run.next_id) ≡ false)

-- The job waits again, with one attempt more behind it, and is due within five minutes.
pub record IsNextWait (job : JobRecord) (handler : Handler) (run : Run)
    (w : World Memory FakeJobProducer) : Type 0 where
  pub next : JobRecord
  pub same : next.id ≡ job.id
  pub waiting : IsWaiting next handler w
  pub soon : next.next_run_at ≤ run.failing 0 + 300 * micros_per_second
  pub counted : next.attempt_count ≡ job.attempt_count + 1
  pub retries : next.max_retries ≡ job.max_retries
  pub left : next.attempt_count ≤ next.max_retries

still-AreTimely :
    {due later : Instant} (runs : List Run)
    → due ≤ later
    → AreTimely later runs
    → AreTimely due runs
still-AreTimely [] le timely = tt
still-AreTimely (run ∷ runs) le timely = (omega (arith, le, timely.0), timely.1)

module _ (host : Host) (worker_id : String) where
  abbrev after_call : Run → Uuid → World Memory FakeJobProducer → World Memory FakeJobProducer
  after_call run i w = (process_job memory_repository fake_producer host run i worker_id w).1

  -- A job that has ended stays as it is, in every later call.
  ended_skip :
      (run : Run) (i : Uuid) (w : World Memory FakeJobProducer)
      → HasEnded i w
      → after_call run i w ≡ w
  unfolding claim_job is_claimable is_pending
  ended_skip run i w (job, stored, ended) =
      let idle : is_pending job.status ≡ false = elim ended [
        | inl s ↦ rw s refl
        | inr d ↦ rw d refl
      ] in
      ap (λ p. p.1)
        (process_job_skip fake_producer host run i worker_id w (ground (arith, stored, idle)))

  ended_all :
      (runs : List Run) (i : Uuid) (w : World Memory FakeJobProducer)
      → HasEnded i w
      → HasEnded i (process_all fake_producer host runs i worker_id w)
  unfolding process_all
  ended_all [] i w h = h
  ended_all (run ∷ runs) i w h =
      subst (λ v. HasEnded i (process_all fake_producer host runs i worker_id v))
        (sym (ended_skip run i w h)) (ended_all runs i w h)

  module _ (run : Run) {job : JobRecord} {handler : Handler} {w : World Memory FakeJobProducer}
      (h : IsWaiting job handler w) (due : job.next_run_at ≤ run.claiming 0) where
    -- The dead letter of the last attempt is taken.
    sent_letter :
        (p : FakeJobProducer) × (fake_producer.publish_dead_letter job.id job.handler
            (job.attempt_count + 1)
            w.producer
          ≡ (ok tt, p))
    unfolding fake_producer
    sent_letter = (
      record w.producer {
        dead_letters =
            w.producer.dead_letters
            ++ record { job_id = job.id; handler = job.handler; attempt = job.attempt_count + 1 }
              ∷ [];
      },
      rw h.connected refl,
    )

    -- An attempt that raises.
    raised_once :
        (x : Raised)
        → run_with_timeout host run.join handler job.payload ≡ err x
        → HasEnded job.id (after_call run job.id w)
          ⊎ IsNextWait job handler run (after_call run job.id w)
    unfolding claimed failed_with is_exhausted
    raised_once x ran = elim (Bool-cases (is_exhausted (taken run worker_id job))) [
      | inr left ↦
          let (again, _, soon) = still-IsWaiting host worker_id run x h due ran left in
          inr record {
            next = failed_job host run x (taken run worker_id job);
            same = refl;
            waiting = again;
            soon = soon;
            counted = refl;
            retries = refl;
            left = ground (arith, left);
          }
      | inl used ↦
          let (p, sent) = sent_letter in
          let (_, dead, gets, _) =
            process_job_exhausted fake_producer host run worker_id job handler w
              (waiting-WillRun host worker_id h due) x p ran used sent in
          inl (
            failed_job host run x (taken run worker_id job),
            ground (arith, gets job.id, beq_refl job.id),
            inr dead,
          )
    ]

    -- A handler that returns, where no next run is refused.
    returned_once :
        (result : Payload)
        → run_with_timeout host run.join handler job.payload ≡ ok result
        → truthy job.recurring_cron ≡ none
        → HasEnded job.id (after_call run job.id w)
    unfolding claimed succeeded_with
    returned_once result ran once =
        let (_, gets, _) =
          success_outcome fake_producer host run worker_id job handler w
            (waiting-WillRun host worker_id h due) result ran once in
        (
          succeeded_with (run.succeeding 0) result (taken run worker_id job),
          ground (arith, gets job.id, beq_refl job.id),
          inl refl,
        )

    recurred_once :
        (result : Payload) (cron : String) (t : Instant)
        → run_with_timeout host run.join handler job.payload ≡ ok result
        → truthy job.recurring_cron ≡ some cron
        → next_cron_run cron (run.recurring 0) ≡ ok t
        → (job.id == run.next_id) ≡ false
        → HasEnded job.id (after_call run job.id w)
    unfolding claimed succeeded_with
    recurred_once result cron t ran recurs next new =
        let (_, stored, _, _) =
          recurring_outcome fake_producer host run worker_id job handler w
            (waiting-WillRun host worker_id h due) result cron t ran recurs next new in
        (succeeded_with (run.succeeding 0) result (taken run worker_id job), stored, inl refl)

    -- A handler that returns, and a next run that is refused.
    refused_once :
        (result : Payload) (cron : String) (x : Raised)
        → run_with_timeout host run.join handler job.payload ≡ ok result
        → truthy job.recurring_cron ≡ some cron
        → next_cron_run cron (run.recurring 0) ≡ err x
        → HasEnded job.id (after_call run job.id w)
          ⊎ IsNextWait job handler run (after_call run job.id w)
    unfolding claimed failed_with succeeded_with store is_pending is_exhausted
    refused_once result cron x ran recurs refused =
        let will = waiting-WillRun host worker_id h due in
        let done = succeeded_job fake_producer host run worker_id job handler w will result in
        let m = after_success fake_producer host run worker_id job handler w will result in
        let failed = failed_job host run x done in
        let stored : get job.id (store job.id failed m).jobs ≡ some failed =
          ground (arith, get-store job.id job.id failed m, beq_refl job.id) in
        elim (Bool-cases (is_exhausted (taken run worker_id job))) [
          | inr left ↦
              let out =
                late_retry fake_producer host run worker_id job handler w will result cron x ran
                  recurs refused left in
              let (_, bound, _, _, _) = backoff_seconds_bounds (job.attempt_count + 1) in
              inr (
                subst (IsNextWait job handler run) (sym (ap (λ q. q.1) out)) record {
                  next = failed;
                  same = refl;
                  waiting = record {
                    stored = stored;
                    pending = rw left refl;
                    not_drained = h.not_drained;
                    handled = h.handled;
                    connected = h.connected;
                  };
                  soon = omega (arith, bound);
                  counted = refl;
                  retries = refl;
                  left = ground (arith, left);
                })
          | inl used ↦
              let (p, sent) = sent_letter in
              let out =
                late_last fake_producer host run worker_id job handler w will result cron x p ran
                  recurs refused used sent in
              inl (
                subst (HasEnded job.id) (sym (ap (λ q. q.1) out))
                  (failed, stored, inr (rw used refl)))
        ]

    one_call :
        (job.id == run.next_id) ≡ false
        → HasEnded job.id (after_call run job.id w)
          ⊎ IsNextWait job handler run (after_call run job.id w)
    one_call new = elim (Result-cases (run_with_timeout host run.join handler job.payload)) [
      | inr (x, ran) ↦ raised_once x ran
      | inl (result, ran) ↦ elim (Option-cases (truthy job.recurring_cron)) [
        | inl once ↦ inl (returned_once result ran once)
        | inr (cron, recurs) ↦ elim (Result-cases (next_cron_run cron (run.recurring 0))) [
          | inl (t, next) ↦ inl (recurred_once result cron t ran recurs next new)
          | inr (x, refused) ↦ refused_once result cron x ran recurs refused
        ]
      ]
    ]

  -- A waiting job that is processed when due as often as it has attempts left ends: whatever its handler
  -- does and however its attempts end, it is stored as succeeded or as dead-lettered, and stays so in the
  -- calls that are left.
  pub process_all_ends :
      (runs : List Run) (job : JobRecord) (handler : Handler) (w : World Memory FakeJobProducer)
      → IsWaiting job handler w
      → AreTimely job.next_run_at runs
      → AreNew job.id runs
      → job.max_retries < job.attempt_count + length runs
      → job.attempt_count ≤ job.max_retries
      → HasEnded job.id (process_all fake_producer host runs job.id worker_id w)
  unfolding process_all
  process_all_ends [] job handler w h due new enough left = absurd (omega (arith, enough, left))
  process_all_ends (run ∷ runs) job handler w h due new enough left =
      elim (one_call run h due.0 new.0) [
        | inl ended ↦ ended_all runs job.id (after_call run job.id w) ended
        | inr wait ↦
            let later : AreTimely wait.next.next_run_at runs =
              still-AreTimely runs wait.soon due.1 in
            subst
              (λ i.
                HasEnded i
                  (process_all fake_producer host runs i worker_id (after_call run job.id w)))
              wait.same
              (process_all_ends runs wait.next handler (after_call run job.id w) wait.waiting later
                (subst (λ i. AreNew i runs) (sym wait.same) new.1)
                (omega (arith, enough, wait.counted, wait.retries)) wait.left)
      ]
