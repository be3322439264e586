-- ===== src/Jobs/Sql/Sessions/Calls.antt =====
-- The steps of the sessions of app/jobs/repositories.py, one by one, on a safe state.
use async_job_processing_pip.Prelude.{
  ℕ, suc, ◌≤◌, ◌<◌, String, ◌≡◌, refl, sym, ◌∙◌, subst, inl, inr, true, Option, none, some, List,
  ◌∷◌, arith, nat_eq, beq_refl, any, Option-cases, some-injective,
}
use async_job_processing_pip.Prelude.Dict.{get, put}
use async_job_processing_pip.Core.Enums.{AttemptStatus, is_pending}
use async_job_processing_pip.Core.Json.{Payload}
use async_job_processing_pip.Calendar.{Instant}
use async_job_processing_pip.Jobs.{Uuid, Clock, JobCreate, JobRecord}
use async_job_processing_pip.Jobs.Memory.{new_job, succeeded_with, cancelled_at}
use async_job_processing_pip.Jobs.System.{times, leave}
use async_job_processing_pip.Jobs.System.Invariant.{times-leave}
use async_job_processing_pip.Jobs.Sql.{JobAttempt, write_job, insert_job, get_job}
use async_job_processing_pip.Jobs.Sql.Writes.{
  is_attempt, finish_attempt, finish, failed_row, mark_succeeded, mark_failed_attempt, next_row,
  create_next_recurring_job, write_cancel,
}
use async_job_processing_pip.Jobs.Sql.Agreement.{any-finish_attempt}
use async_job_processing_pip.Jobs.Sql.Sessions.{Sessions, busy}
use async_job_processing_pip.Jobs.Sql.Sessions.Invariant.{
  IsSafeRow, IsSafe, calls_on, put-IsSafe, fewer-IsSafe, stored_row, busy_row,
}
use async_job_processing_pip.Jobs.Sql.Sessions.Moves.{
  insert_job-cases, create_next-cases, left_calls, left_calls_right, moved_calls,
}

module _ (s : Sessions) (safe : IsSafe s) where
  -- A new row, under a free id.
  inserted-IsSafe :
      (job : JobRecord) (finishing : List Uuid)
      → ((j : Uuid) → calls_on j s.handling finishing ≤ busy j s)
      → get job.id s.db.jobs ≡ none
      → job.attempt_count ≡ 0
      → IsSafe (record s { db = write_job job s.db; finishing = finishing })
  unfolding write_job
  inserted-IsSafe job finishing fewer free zero_count =
      let idle : busy job.id s ≡ 0 =
        subst (λ o. IsSafeRow job.id (busy job.id s) s.db.attempts o) free (safe.rows job.id) in
      let quiet : calls_on job.id s.handling finishing ≡ 0 = omega (arith, fewer job.id, idle) in
      put-IsSafe s safe job.id job s.db.attempts s.handling finishing (λ j _. fewer j) (λ j n h. h)
        s.claims s.cancels
        (
          refl,
          omega (arith, quiet),
          λ _. quiet,
          λ n low high. absurd (omega (arith, low, high, zero_count)),
        )
        (λ row stored. ground (arith, free, stored)) safe.reads

  -- A row that is there is changed, its id and its count kept.
  changed-IsSafe :
      (i : Uuid) {row : JobRecord} (job : JobRecord) (attempts : List JobAttempt)
      (handling finishing cancels : List Uuid)
      → get i s.db.jobs ≡ some row
      → job.id ≡ row.id
      → job.attempt_count ≡ row.attempt_count
      → (is_pending job.status ≡ true → calls_on i handling finishing ≡ 0)
      → ((j : Uuid) → calls_on j handling finishing ≤ busy j s)
      → ((j : Uuid) (n : ℕ) → any (is_attempt j n) attempts ≡ any (is_attempt j n) s.db.attempts)
      → IsSafe (record {
        db = write_job job (record s.db { attempts = attempts });
        claims = s.claims;
        cancels = cancels;
        handling = handling;
        finishing = finishing;
      })
  unfolding write_job
  changed-IsSafe i {row} job attempts handling finishing cancels stored same_id same_count idle
        fewer kept =
      let (named, one, _, numbered) = stored_row s i safe stored in
      let here : job.id ≡ i = same_id ∙ named in
      subst
        (λ k. IsSafe (record {
          db = record s.db { jobs = put k job s.db.jobs; attempts = attempts };
          claims = s.claims;
          cancels = cancels;
          handling = handling;
          finishing = finishing;
        }))
        (sym here)
        (put-IsSafe s safe i job attempts handling finishing (λ j _. fewer j)
          (λ j n h. kept j n ∙ h) s.claims cancels
          (
            here,
            omega (arith, one, fewer i),
            idle,
            λ n low high. kept i n ∙ numbered n low (omega (arith, high, same_count)),
          )
          (λ other e.
            let eq : row ≡ other = some-injective (sym stored ∙ e) in
            (
              subst (λ (r : JobRecord). r.attempt_count ≤ job.attempt_count) eq
                  (omega (arith, same_count)),
              λ _. fewer i,
            ))
          safe.reads)

  pub insert-IsSafe :
      (clock : Clock) (fresh : Uuid) (request : JobCreate)
      → IsSafe (record s { db = (insert_job (new_job clock fresh request) s.db).1 })
  unfolding new_job
  insert-IsSafe clock fresh request = elim (insert_job-cases (new_job clock fresh request) s.db) [
    | inl kept ↦ subst (λ d. IsSafe (record s { db = d })) (sym kept) safe
    | inr (written, free) ↦
        subst (λ d. IsSafe (record s { db = d })) (sym written)
          (inserted-IsSafe (new_job clock fresh request) s.finishing (λ j. omega arith) free refl)
  ]

  pub recur-IsSafe :
      (clock : Clock) (fresh i : Uuid) (job : JobRecord)
      → IsSafe (record s {
        db = (create_next_recurring_job clock fresh job s.db).1;
        finishing = leave i s.finishing;
      })
  unfolding next_row
  recur-IsSafe clock fresh i job =
      let fewer : (j : Uuid) → calls_on j s.handling (leave i s.finishing) ≤ busy j s =
        λ j. left_calls_right i j s.handling s.finishing in
      elim (create_next-cases clock fresh job s.db) [
        | inl kept ↦
            subst (λ d. IsSafe (record s { db = d; finishing = leave i s.finishing })) (sym kept)
              (fewer-IsSafe s s.handling (leave i s.finishing) s.cancels s.claims safe fewer
                safe.reads)
        | inr (t, written, free) ↦
            subst (λ d. IsSafe (record s { db = d; finishing = leave i s.finishing })) (sym written)
              (inserted-IsSafe (next_row clock fresh t job) (leave i s.finishing) fewer free refl)
      ]

  -- The end of a call: the row is written and its attempt is finished.
  finished-IsSafe :
      (i : Uuid) {row : JobRecord} (now : Instant) (status : AttemptStatus) (error : Option String)
      (job : JobRecord) (handling finishing : List Uuid)
      → get i s.db.jobs ≡ some row
      → job.id ≡ row.id
      → job.attempt_count ≡ row.attempt_count
      → (is_pending job.status ≡ true → calls_on i handling finishing ≡ 0)
      → ((j : Uuid) → calls_on j handling finishing ≤ busy j s)
      → IsSafe (record s {
        db = (finish now status error job s.db).1;
        handling = handling;
        finishing = finishing;
      })
  unfolding finish
  finished-IsSafe i now status error job handling finishing stored same_id same_count idle fewer =
      changed-IsSafe i job (finish_attempt now job.id job.attempt_count status error s.db.attempts)
        handling finishing s.cancels stored same_id same_count idle fewer
        (λ j n. any-finish_attempt now job.id j job.attempt_count n status error s.db.attempts)

  pub succeed-IsSafe :
      (clock : Clock) (i : Uuid) (result : Payload)
      → 0 < times i s.handling
      → IsSafe (record s {
        db = (mark_succeeded clock i result s.db).1;
        handling = leave i s.handling;
        finishing = i ∷ s.finishing;
      })
  unfolding mark_succeeded get_job succeeded_with is_pending
  succeed-IsSafe clock i result h =
      let (row, stored) = busy_row s i safe (omega (arith, h)) in
      rw (stored, mark_succeeded, get_job)
        (finished-IsSafe i (clock 1) AttemptStatus.succeeded none
          (succeeded_with (clock 0) result row) (leave i s.handling) (i ∷ s.finishing) stored refl
          refl (λ p. absurd (ground (arith, p))) (λ j. moved_calls i j s.handling s.finishing h))

  -- A failed attempt, of a call that leaves either list.
  failed-IsSafe :
      (clock : Clock) (i : Uuid) (error : String) (backoff : ℕ) (handling finishing : List Uuid)
      → 0 < busy i s
      → suc (calls_on i handling finishing) ≡ busy i s
      → ((j : Uuid) → calls_on j handling finishing ≤ busy j s)
      → IsSafe (record s {
        db = (mark_failed_attempt clock i error backoff s.db).1;
        handling = handling;
        finishing = finishing;
      })
  unfolding mark_failed_attempt get_job failed_row
  failed-IsSafe clock i error backoff handling finishing b one_less fewer =
      let (row, stored) = busy_row s i safe b in
      let (_, one, _, _) = stored_row s i safe stored in
      rw (stored, mark_failed_attempt, get_job)
        (finished-IsSafe i (clock 1) AttemptStatus.failed (some error)
          (failed_row (clock 0) error backoff row) handling finishing stored refl refl
          (λ _. omega (arith, one, one_less)) fewer)

  pub fail-IsSafe :
      (clock : Clock) (i : Uuid) (error : String) (backoff : ℕ)
      → 0 < times i s.handling
      → IsSafe (record s {
        db = (mark_failed_attempt clock i error backoff s.db).1;
        handling = leave i s.handling;
      })
  fail-IsSafe clock i error backoff h =
      failed-IsSafe clock i error backoff (leave i s.handling) s.finishing (omega (arith, h))
        (ground (arith, times-leave i i s.handling, beq_refl i, h))
        (λ j. left_calls i j s.handling s.finishing)

  pub fail_late-IsSafe :
      (clock : Clock) (i : Uuid) (error : String) (backoff : ℕ)
      → 0 < times i s.finishing
      → IsSafe (record s {
        db = (mark_failed_attempt clock i error backoff s.db).1;
        finishing = leave i s.finishing;
      })
  fail_late-IsSafe clock i error backoff h =
      failed-IsSafe clock i error backoff s.handling (leave i s.finishing) (omega (arith, h))
        (ground (arith, times-leave i i s.finishing, beq_refl i, h))
        (λ j. left_calls_right i j s.handling s.finishing)

  pub cancel-IsSafe :
      (now : Instant) (i : Uuid)
      → IsSafe (record s { db = (write_cancel now i s.db).1; cancels = leave i s.cancels })
  unfolding write_cancel get_job cancelled_at is_pending
  cancel-IsSafe now i = elim (Option-cases (get i s.db.jobs)) [
    | inl missing ↦
        rw (missing, write_cancel, get_job)
          (fewer-IsSafe s s.handling s.finishing (leave i s.cancels) s.claims safe
            (λ j. omega arith) safe.reads)
    | inr (row, stored) ↦
        rw (stored, write_cancel, get_job)
          (changed-IsSafe i (cancelled_at now row) s.db.attempts s.handling s.finishing
            (leave i s.cancels) stored refl refl (λ p. absurd (ground (arith, p)))
            (λ j. omega arith) (λ j n. refl))
  ]
