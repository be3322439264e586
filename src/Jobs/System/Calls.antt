-- ===== src/Jobs/System/Calls.antt =====
-- The calls of the repository of app/jobs/repositories.py, one by one, on a safe state.
use async_job_processing_pip.Prelude.{
  ℕ, ◌≤◌, ◌<◌, String, ◌≡◌, refl, sym, subst, inl, inr, true, false, none, some, List, ◌∷◌, arith,
  ◌==◌, nat_eq, beq_refl, some-injective,
}
use async_job_processing_pip.Prelude.Dict.{get, put}
use async_job_processing_pip.Core.Enums.{JobStatus, status_eq, is_pending}
use async_job_processing_pip.Core.Json.{Payload}
use async_job_processing_pip.Jobs.{Uuid, Clock, JobCreate, JobRecord}
use async_job_processing_pip.Jobs.Memory.{
  is_claimable, store, new_job, next_job, create_job, create_next_recurring_job, claimed, claim_job,
  succeeded_with, mark_succeeded, failed_with, mark_failed_attempt, cancelled_at, cancel_job,
}
use async_job_processing_pip.Jobs.Memory.Records.{
  IsConsistent, new_job-IsConsistent, next_job-IsConsistent, claimed-IsConsistent,
  succeeded_with-IsConsistent, failed_with-IsConsistent, cancelled_at-IsConsistent,
}
use async_job_processing_pip.Jobs.Memory.Create.{create_job-jobs}
use async_job_processing_pip.Jobs.Memory.Steps.{
  claim_job_cases, mark_succeeded_some, mark_failed_attempt_some, cancel_job_cases,
  create_next-jobs,
}
use async_job_processing_pip.Jobs.System.{times, leave, System}
use async_job_processing_pip.Jobs.System.Invariant.{
  one_if, times-leave, AreSafe, put-AreSafe, fewer-AreSafe, pending_idle, handled_job, finished_job,
  known, unused, idle-AreSafe,
}

module _ (s : System) (safe : AreSafe s.memory.jobs s.handling s.finishing) where
  pub create-AreSafe :
      (clock : Clock) (fresh : Uuid) (request : JobCreate)
      → get fresh s.memory.jobs ≡ none
      → AreSafe (create_job clock fresh request s.memory).1.jobs s.handling s.finishing
  unfolding new_job
  create-AreSafe clock fresh request free =
      let made =
        idle-AreSafe s safe fresh (new_job clock fresh request) (rw free refl) (rw free refl)
          (new_job-IsConsistent clock fresh request) refl in
      elim (create_job-jobs clock fresh request s.memory) [
        | inl old ↦ subst (λ jobs. AreSafe jobs s.handling s.finishing) (sym old) safe
        | inr new ↦ subst (λ jobs. AreSafe jobs s.handling s.finishing) (sym new) made
      ]

  pub recur-AreSafe :
      (clock : Clock) (fresh i : Uuid) (job : JobRecord)
      → get fresh s.memory.jobs ≡ none
      → AreSafe
          (create_next_recurring_job clock fresh job s.memory).1.jobs
          s.handling
          (leave i s.finishing)
  unfolding next_job
  recur-AreSafe clock fresh i job free =
      let fewer =
        fewer-AreSafe s.memory.jobs s.handling s.finishing safe s.handling (leave i s.finishing)
          (λ j. omega arith) (λ j. omega (arith, times-leave i j s.finishing)) in
      let (no_h, no_f) = unused s safe fresh (rw free refl) (rw free refl) in
      let few = times-leave i fresh s.finishing in
      elim (create_next-jobs clock fresh job s.memory) [
        | inl old ↦ subst (λ jobs. AreSafe jobs s.handling (leave i s.finishing)) (sym old) fewer
        | inr (t, new) ↦
            subst (λ jobs. AreSafe jobs s.handling (leave i s.finishing)) (sym new)
              (put-AreSafe s.memory.jobs s.handling s.finishing safe fresh
                (next_job clock fresh t job) s.handling (leave i s.finishing)
                record {
                  handled = omega (arith, no_h);
                  finished = omega (arith, no_f, few);
                  consistent = λ other e.
                      subst (λ k. IsConsistent k × (k.id ≡ fresh)) (some-injective e)
                        (next_job-IsConsistent clock fresh t job, refl);
                }
                (λ j _. omega arith) (λ j _. omega (arith, times-leave i j s.finishing)))
      ]

  pub cancel-AreSafe :
      (clock : Clock) (i : Uuid)
      → AreSafe (cancel_job clock i s.memory).1.jobs s.handling s.finishing
  unfolding store
  cancel-AreSafe clock i = elim (cancel_job_cases clock i s.memory) [
    | inl (_, same) ↦ rw same safe
    | inr (inl (_, _, _, same)) ↦ rw same safe
    | inr (inr (job, stored, pending, after)) ↦ rw after (
        let (good, named) = known s safe stored in
        let (no_r, no_s) = pending_idle job pending in
        idle-AreSafe s safe i (cancelled_at (clock 0) job) (rw stored no_r) (rw stored no_s)
          (cancelled_at-IsConsistent (clock 0) good pending) (unfold cancelled_at in named))
  ]

  pub claim-AreSafe :
      (clock : Clock) (i : Uuid) (worker_id : String) {answer : JobRecord}
      → (claim_job clock i worker_id s.memory).0 ≡ some answer
      → AreSafe (claim_job clock i worker_id s.memory).1.jobs (i ∷ s.handling) s.finishing
  unfolding store claimed is_claimable
  claim-AreSafe clock i worker_id h = elim (claim_job_cases clock i s.memory worker_id) [
    | inl (nothing, _) ↦ absurd (ground (arith, h, nothing))
    | inr (job, stored, _, claimable, after) ↦
        let (good, named) = known s safe stored in
        let pending : is_pending job.status ≡ true = ground (arith, claimable) in
        let (no_r, no_s) = pending_idle job pending in
        let (no_h, no_f) = unused s safe i (rw stored no_r) (rw stored no_s) in
        rw after (
          put-AreSafe s.memory.jobs s.handling s.finishing safe i (claimed (clock 0) worker_id job)
            (i ∷ s.handling) s.finishing
            record {
              handled = ground (arith, no_h, beq_refl i);
              finished = omega (arith, no_f);
              consistent = λ other e.
                  subst (λ k. IsConsistent k × (k.id ≡ i)) (some-injective e)
                    (claimed-IsConsistent (clock 0) good worker_id claimable, named);
            }
            (λ j other. ground (arith, other)) (λ j _. omega arith))
  ]

  -- The end of a call on a running job: its record is written in another state.
  pub ended-AreSafe :
      (i : Uuid) (job done : JobRecord) (finishing' : List Uuid)
      → get i s.memory.jobs ≡ some job
      → job.status ≡ JobStatus.running
      → IsConsistent done
      → done.id ≡ i
      → times i finishing' ≤ one_if JobStatus.succeeded (some done)
      → ((j : Uuid) → (i == j) ≡ false → times j finishing' ≤ times j s.finishing)
      → AreSafe (put i done s.memory.jobs) (leave i s.handling) finishing'
  ended-AreSafe i job done finishing' stored r good named few fewer =
      let mine : times i s.handling ≤ 1 = ground (arith, (safe i).handled, stored) in
      let after : times i (leave i s.handling) ≡ 0 =
        ground (arith, times-leave i i s.handling, beq_refl i, mine) in
      put-AreSafe s.memory.jobs s.handling s.finishing safe i done (leave i s.handling) finishing'
        record {
          handled = omega (arith, after);
          finished = few;
          consistent =
              λ other e. subst (λ k. IsConsistent k × (k.id ≡ i)) (some-injective e) (good, named);
        }
        (λ j _. omega (arith, times-leave i j s.handling)) fewer

  pub succeed-AreSafe :
      (clock : Clock) (i : Uuid) (result : Payload)
      → 0 < times i s.handling
      → AreSafe
          (mark_succeeded clock i result s.memory).1.jobs
          (leave i s.handling)
          (i ∷ s.finishing)
  unfolding store
  succeed-AreSafe clock i result h =
      let (job, stored, r) = handled_job s safe i h in
      let (good, named) = known s safe stored in
      let none_done : times i s.finishing ≤ 0 = ground (arith, (safe i).finished, stored, r) in
      rw (mark_succeeded_some clock i s.memory stored result) (
        ended-AreSafe i job (succeeded_with (clock 0) result job) (i ∷ s.finishing) stored r
          (succeeded_with-IsConsistent (clock 0) good result r) (unfold succeeded_with in named)
          (unfold succeeded_with in ground (arith, none_done, beq_refl i))
          (λ j other. ground (arith, other)))

  pub fail-AreSafe :
      (clock : Clock) (i : Uuid) (error : String) (backoff : ℕ)
      → 0 < times i s.handling
      → AreSafe
          (mark_failed_attempt clock i error backoff s.memory).1.jobs
          (leave i s.handling)
          s.finishing
  unfolding store
  fail-AreSafe clock i error backoff h =
      let (job, stored, r) = handled_job s safe i h in
      let (good, named) = known s safe stored in
      let none_done : times i s.finishing ≤ 0 = ground (arith, (safe i).finished, stored, r) in
      rw (mark_failed_attempt_some clock i s.memory stored error backoff) (
        ended-AreSafe i job (failed_with (clock 0) error backoff job) s.finishing stored r
          (failed_with-IsConsistent (clock 0) good error backoff (inl r))
          (unfold failed_with in named) (omega (arith, none_done)) (λ j other. omega arith))

  pub fail_late-AreSafe :
      (clock : Clock) (i : Uuid) (error : String) (backoff : ℕ)
      → 0 < times i s.finishing
      → AreSafe
          (mark_failed_attempt clock i error backoff s.memory).1.jobs
          s.handling
          (leave i s.finishing)
  unfolding store
  fail_late-AreSafe clock i error backoff h =
      let (job, stored, r) = finished_job s safe i h in
      let (good, named) = known s safe stored in
      let mine : times i s.finishing ≤ 1 = ground (arith, (safe i).finished, stored) in
      let after : times i (leave i s.finishing) ≡ 0 =
        ground (arith, times-leave i i s.finishing, beq_refl i, mine) in
      let none_runs : times i s.handling ≤ 0 = ground (arith, (safe i).handled, stored, r) in
      rw (mark_failed_attempt_some clock i s.memory stored error backoff) (
        put-AreSafe s.memory.jobs s.handling s.finishing safe i
          (failed_with (clock 0) error backoff job) s.handling (leave i s.finishing)
          record {
            handled = omega (arith, none_runs);
            finished = omega (arith, after);
            consistent = λ other e.
                subst (λ k. IsConsistent k × (k.id ≡ i)) (some-injective e)
                  (
                    failed_with-IsConsistent (clock 0) good error backoff (inr r),
                    unfold failed_with in named,
                  );
          }
          (λ j _. omega arith) (λ j _. omega (arith, times-leave i j s.finishing)))
