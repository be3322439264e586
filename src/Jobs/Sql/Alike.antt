-- ===== src/Jobs/Sql/Alike.antt =====
-- Each call of app/jobs/repositories.py on the SQL repository beside the same call on the in-memory one.
pub mod Updates
pub mod Inserts
pub mod Claims
use async_job_processing_pip.Prelude.{
  ℕ, ◌+◌, ◌≤◌, ◌<◌, ◌≡◌, refl, sym, ap, ◌∙◌, subst, ◌⊎◌, inl, inr, Bool, true, false, Option, none,
  some, List, [], ◌∷◌, arith, String, any, ◌==◌, nat_eq, string_eq, if◌then◌else◌, Bool-cases,
  Option-cases, beq_refl, some-injective, take, drop, keep,
}
use async_job_processing_pip.Prelude.Dict.{Dict, get, put, get-put}
use async_job_processing_pip.Text.{truthy}
use async_job_processing_pip.Sorting.{sorted}
use async_job_processing_pip.Sorting.Stable.{keep-sorted}
use async_job_processing_pip.Scheduling.{next_cron_run}
use async_job_processing_pip.Calendar.{Instant}
use async_job_processing_pip.Core.Json.{Payload}
use async_job_processing_pip.Core.Enums.{JobStatus, AttemptStatus, status_eq, is_pending}
use async_job_processing_pip.Core.Errors.{Result, ok, err, raise, not_found_error, Result-cases}
use async_job_processing_pip.Jobs.{Uuid, Clock, JobCreate, JobRecord}
use async_job_processing_pip.Jobs.Memory
use async_job_processing_pip.Jobs.Memory.{
  Memory, values, store, remember, new_job, known_as, at_key, replayed, modify, cancel,
  newest_first, with_status, with_handler, succeeded_with, failed_with, cancelled_at, next_job,
  add_recurring, is_claimable, claimed, try_claim,
}
use async_job_processing_pip.Jobs.Memory.Steps.{
  mark_failed_attempt_some, claim_job_some, create_next_none, create_next_refused, create_next_some,
}
use async_job_processing_pip.Jobs.Memory.Create.{create_job_fresh, create_job_known}
use async_job_processing_pip.Jobs.Repository.{memory_repository, claim_in_memory}
use async_job_processing_pip.Jobs.Repository.Calls
use async_job_processing_pip.Jobs.Repository.Calls.{Call, Answer, perform}
use async_job_processing_pip.Jobs.Sql
use async_job_processing_pip.Jobs.Sql.{
  Database, JobAttempt, write_job, same_key, find_row, existing, is_duplicate, insert_job,
  get_drain,
}
use async_job_processing_pip.Jobs.Sql.Writes
use async_job_processing_pip.Jobs.Sql.Writes.{
  is_attempt, finish, finish_attempt, failed_row, next_row, insert_next, read_cancel, write_cancel,
  pending_row, read_claim, claimable_row, write_claim, claimed_job, claim_row, new_attempt,
}
use async_job_processing_pip.Jobs.Sql.Index.{id_of, get-named, find_row-get}
use async_job_processing_pip.Jobs.Sql.Agreement.{
  memory_of, count_at, IsKept, finish-IsKept, update-IsKept, store-memory_of, insert-IsKept,
}
use async_job_processing_pip.Jobs.Sql.Repository.{sql_repository}
use async_job_processing_pip.Jobs.Sql.Claims.{
  claim_job_none, claim_job_read, read_claim-none, write_claim_ok,
}
use async_job_processing_pip.Jobs.Sql.Branches.{
  fail_none, cancel_none, fail_some, cancel_some, cancel_busy, mark_failed_attempt_none,
  cancel_none_memory, cancel_some_memory, cancel_busy_memory, create_new, create_known, next_none,
  claim_drained, claim_missing, claim_drained_memory, claim_missing_memory,
  claim_unclaimable_memory, next_refused, next_some,
}

-- The answers are the same, and the states correspond again.
abbrev pub Alike : Call → Dict String Uuid → Database → Type 0
Alike call keys db =
    let out = perform sql_repository call db in
    let expected = perform memory_repository call (memory_of keys db) in
    (out.0 ≡ expected.0)
    × (keys' : Dict String Uuid) × (expected.1 ≡ memory_of keys' out.1)
    × IsKept keys' out.1

-- What both raise on an id that is not there.
abbrev pub no_job : Answer
no_job = Answer.one_job (raise (not_found_error "Job not found"))

module _ (keys : Dict String Uuid) (db : Database) (kept : IsKept keys db) where
  -- Both answer the same, and the states are those given.
  pub to-Alike :
      (call : Call) (answer : Answer) (keys' : Dict String Uuid) (db' : Database) {m' : Memory}
      → perform sql_repository call db ≡ (answer, db')
      → perform memory_repository call (memory_of keys db) ≡ (answer, m')
      → m' ≡ memory_of keys' db'
      → IsKept keys' db'
      → Alike call keys db
  to-Alike call answer keys' db' sql memory same kept' = (
    ap (λ p. p.0) sql ∙ sym (ap (λ p. p.0) memory),
    keys',
    ap (λ p. p.1) memory ∙ same ∙ ap (memory_of keys') (sym (ap (λ p. p.1) sql)),
    subst (IsKept keys') (sym (ap (λ p. p.1) sql)) kept',
  )

  -- An exception that both raise.
  pub missing-Alike :
      (call : Call) (answer : Answer)
      → perform sql_repository call db ≡ (answer, db)
      → perform memory_repository call (memory_of keys db) ≡ (answer, memory_of keys db)
      → Alike call keys db
  missing-Alike call answer sql memory = to-Alike call answer keys db sql memory refl kept

  pub find-Alike : (i : Uuid) → Alike (Calls.find i) keys db
  unfolding perform sql_repository memory_repository Sql.get_job Memory.get_job
  find-Alike i =
      to-Alike (Calls.find i) (Answer.one_job (Sql.get_job i db)) keys db refl refl refl kept

  pub drain-Alike : (clock : Clock) (enabled : Bool) → Alike (Calls.drain clock enabled) keys db
  unfolding perform sql_repository memory_repository Sql.set_drain Memory.set_drain get_drain
  drain-Alike clock enabled =
      to-Alike (Calls.drain clock enabled) Answer.nothing keys (record db { drain = some enabled })
        refl refl refl record { indexed = kept.indexed; known = kept.known; later = kept.later }

  pub ask_drain-Alike : Alike Calls.ask_drain keys db
  unfolding perform sql_repository memory_repository Memory.get_drain
  ask_drain-Alike =
      to-Alike Calls.ask_drain (Answer.drained (get_drain db)) keys db refl refl refl kept

  pub due-Alike : (clock : Clock) (limit : ℕ) → Alike (Calls.select_due clock limit) keys db
  unfolding perform sql_repository memory_repository Sql.due_jobs Memory.due_jobs
  due-Alike clock limit =
      to-Alike (Calls.select_due clock limit) (Answer.many_jobs (Sql.due_jobs clock limit db)) keys
        db refl refl refl kept

  -- A filter comes before the sorting or after it.
  filtered_sorted :
      (status : Option JobStatus) (handler : Option String) (jobs : List JobRecord)
      → with_handler handler (with_status status (sorted newest_first jobs))
        ≡ sorted newest_first (with_handler handler (with_status status jobs))
  unfolding with_handler with_status
  filtered_sorted none none jobs = refl
  filtered_sorted none (some handler) jobs =
      keep-sorted newest_first (λ a b h. ground arith) (λ a b c h k. ground arith)
        (λ job. job.handler == handler) jobs
  filtered_sorted (some status) none jobs =
      keep-sorted newest_first (λ a b h. ground arith) (λ a b c h k. ground arith)
        (λ job. job.status == status) jobs
  filtered_sorted (some status) (some handler) jobs =
      ap (keep (λ job. job.handler == handler)) (
        keep-sorted newest_first (λ a b h. ground arith) (λ a b c h k. ground arith)
          (λ job. job.status == status) jobs)
      ∙ keep-sorted newest_first (λ a b h. ground arith) (λ a b c h k. ground arith)
          (λ job. job.handler == handler) (keep (λ job. job.status == status) jobs)

  pub select-Alike :
      (status : Option JobStatus) (handler : Option String) (limit offset : ℕ)
      → Alike (Calls.select_jobs status handler limit offset) keys db
  unfolding perform sql_repository memory_repository Sql.list_jobs Memory.list_jobs
  select-Alike status handler limit offset =
      to-Alike (Calls.select_jobs status handler limit offset)
        (Answer.many_jobs (Sql.list_jobs status handler limit offset db)) keys db refl
        (ap (λ jobs. (Answer.many_jobs (take limit (drop offset jobs)), memory_of keys db))
          (filtered_sorted status (truthy handler) (values db.jobs)))
        refl kept
