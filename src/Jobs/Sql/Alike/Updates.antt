-- ===== src/Jobs/Sql/Alike/Updates.antt =====
-- The calls of app/jobs/repositories.py that change a job, on both repositories.
use async_job_processing_pip.Prelude.{
  ℕ, ◌≡◌, refl, ap, ◌∙◌, inl, inr, none, some, arith, String, nat_eq, string_eq, Bool-cases,
  Option-cases,
}
use async_job_processing_pip.Prelude.Dict.{Dict, get}
use async_job_processing_pip.Core.Json.{Payload}
use async_job_processing_pip.Core.Enums.{AttemptStatus, status_eq, is_pending}
use async_job_processing_pip.Core.Errors.{ok}
use async_job_processing_pip.Jobs.{Uuid, Clock, JobRecord}
use async_job_processing_pip.Jobs.Memory
use async_job_processing_pip.Jobs.Memory.{
  Memory, values, store, remember, new_job, known_as, at_key, replayed, modify, cancel,
  newest_first, with_status, with_handler, succeeded_with, failed_with, cancelled_at, next_job,
  add_recurring, is_claimable, claimed, try_claim,
}
use async_job_processing_pip.Jobs.Memory.Steps.{mark_failed_attempt_some}
use async_job_processing_pip.Jobs.Repository.{memory_repository}
use async_job_processing_pip.Jobs.Repository.Calls
use async_job_processing_pip.Jobs.Repository.Calls.{Call, Answer, perform}
use async_job_processing_pip.Jobs.Sql
use async_job_processing_pip.Jobs.Sql.{
  Database, JobAttempt, write_job, same_key, find_row, existing, is_duplicate, insert_job,
  get_drain,
}
use async_job_processing_pip.Jobs.Sql.Writes
use async_job_processing_pip.Jobs.Sql.Writes.{
  is_attempt, finish, finish_attempt, failed_row, next_row, insert_next, read_cancel, write_cancel,
  pending_row, read_claim, claimable_row, write_claim, claimed_job, claim_row, new_attempt,
}
use async_job_processing_pip.Jobs.Sql.Index.{get-named}
use async_job_processing_pip.Jobs.Sql.Agreement.{
  memory_of, IsKept, finish-IsKept, update-IsKept, store-memory_of,
}
use async_job_processing_pip.Jobs.Sql.Repository.{sql_repository}
use async_job_processing_pip.Jobs.Sql.Branches.{
  fail_none, cancel_none, fail_some, cancel_some, cancel_busy, mark_failed_attempt_none,
  cancel_none_memory, cancel_some_memory, cancel_busy_memory,
}
use async_job_processing_pip.Jobs.Sql.Alike.{Alike, no_job, to-Alike, missing-Alike}

module _ (keys : Dict String Uuid) (db : Database) (kept : IsKept keys db) where
  pub succeed-Alike :
      (clock : Clock) (i : Uuid) (result : Payload) → Alike (Calls.succeed clock i result) keys db
  unfolding perform sql_repository memory_repository Writes.mark_succeeded Memory.mark_succeeded
      modify Sql.get_job Memory.get_job finish succeeded_with
  succeed-Alike clock i result = elim (Option-cases (get i db.jobs)) [
    | inl missing ↦
        missing-Alike keys db kept (Calls.succeed clock i result) no_job (ground (arith, missing))
          (ground (arith, missing))
    | inr (row, stored) ↦
        let named = get-named i db.jobs kept.indexed stored in
        let job = succeeded_with (clock 0) result row in
        let out = finish (clock 1) AttemptStatus.succeeded none job db in
        to-Alike keys db kept (Calls.succeed clock i result) (Answer.one_job (ok job)) keys out.1
          (ground (arith, stored)) (ground (arith, stored))
          (store-memory_of keys db kept i job named (
            finish_attempt (clock 1) job.id job.attempt_count AttemptStatus.succeeded none
              db.attempts))
          (finish-IsKept keys db kept i job named (clock 1) AttemptStatus.succeeded none stored refl
            (omega arith))
  ]

  -- A failed attempt of a job that has no time of processing.
  pub fail-Alike :
      (clock : Clock) (i : Uuid) (error : String) (backoff : ℕ)
      → ((row : JobRecord) → get i db.jobs ≡ some row → row.processed_at ≡ none)
      → Alike (Calls.fail clock i error backoff) keys db
  unfolding perform sql_repository memory_repository failed_row failed_with finish
  fail-Alike clock i error backoff unprocessed = elim (Option-cases (get i db.jobs)) [
    | inl missing ↦
        missing-Alike keys db kept (Calls.fail clock i error backoff) no_job
          (ap (λ p. (Answer.one_job p.0, p.1)) (fail_none clock i db missing error backoff))
          (ap (λ p. (Answer.one_job p.0, p.1))
            (mark_failed_attempt_none clock i (memory_of keys db) missing error backoff))
    | inr (row, stored) ↦
        let named = get-named i db.jobs kept.indexed stored in
        let job = failed_row (clock 0) error backoff row in
        let same : failed_with (clock 0) error backoff row ≡ job =
          rw (unprocessed row stored) refl in
        let attempts =
          finish_attempt (clock 1) row.id row.attempt_count AttemptStatus.failed (some error)
            db.attempts in
        to-Alike keys db kept (Calls.fail clock i error backoff) (Answer.one_job (ok job)) keys
          (finish (clock 1) AttemptStatus.failed (some error) job db).1
          (ap (λ p. (Answer.one_job p.0, p.1)) (fail_some clock i db stored error backoff))
          (ap (λ p. (Answer.one_job p.0, p.1))
              (mark_failed_attempt_some clock i (memory_of keys db) stored error backoff)
            ∙ ap (λ j. (Answer.one_job (ok j), store i j (memory_of keys db))) same)
          (store-memory_of keys db kept i job named attempts)
          (finish-IsKept keys db kept i job named (clock 1) AttemptStatus.failed (some error) stored
            refl (omega arith))
  ]

  pub cancel-Alike : (clock : Clock) (i : Uuid) → Alike (Calls.cancel clock i) keys db
  unfolding perform sql_repository memory_repository cancelled_at
  cancel-Alike clock i = elim (Option-cases (get i db.jobs)) [
    | inl missing ↦
        missing-Alike keys db kept (Calls.cancel clock i) no_job
          (ap (λ p. (Answer.one_job p.0, p.1)) (cancel_none clock i db missing))
          (ap (λ p. (Answer.one_job p.0, p.1))
            (cancel_none_memory clock i (memory_of keys db) missing))
    | inr (row, stored) ↦ elim (Bool-cases (is_pending row.status)) [
      | inr busy ↦
          missing-Alike keys db kept (Calls.cancel clock i) (Answer.one_job (pending_row row))
            (ap (λ p. (Answer.one_job p.0, p.1)) (cancel_busy clock i db stored busy))
            (ap (λ p. (Answer.one_job p.0, p.1))
              (cancel_busy_memory clock i (memory_of keys db) stored busy))
      | inl pending ↦
          let named = get-named i db.jobs kept.indexed stored in
          let job = cancelled_at (clock 0) row in
          to-Alike keys db kept (Calls.cancel clock i) (Answer.one_job (ok job)) keys
            (write_job job db)
            (ap (λ p. (Answer.one_job p.0, p.1)) (cancel_some clock i db stored pending))
            (ap (λ p. (Answer.one_job p.0, p.1))
              (cancel_some_memory clock i (memory_of keys db) stored pending))
            (store-memory_of keys db kept i job named db.attempts)
            (update-IsKept keys db kept i job named db.attempts stored refl (omega arith)
              (λ j n there. inl there))
    ]
  ]
