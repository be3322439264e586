-- ===== src/Jobs/Sql/Refinement.antt =====
-- The two repositories of app/jobs/repositories.py, over sequences of calls.
use async_job_processing_pip.Prelude.{
  ◌≡◌, refl, sym, ap, ◌∙◌, subst, none, some, List, [], ◌∷◌, String, nat_eq,
}
use async_job_processing_pip.Prelude.Dict.{Dict, get}
use async_job_processing_pip.Text.{truthy}
use async_job_processing_pip.Jobs.{Uuid, JobRecord}
use async_job_processing_pip.Jobs.Memory.{Memory, initial}
use async_job_processing_pip.Jobs.Repository.{memory_repository}
use async_job_processing_pip.Jobs.Repository.Calls.{
  Call, perform, perform_all, create, find, select_jobs, select_due, claim, succeed, recur, fail,
  cancel, drain, ask_drain,
}
use async_job_processing_pip.Jobs.Sql.{Database, get_drain, find_row}
use async_job_processing_pip.Jobs.Sql.Agreement.{memory_of, IsKept}
use async_job_processing_pip.Jobs.Sql.Repository.{sql_repository}
use async_job_processing_pip.Jobs.Sql.Alike.{
  Alike, find-Alike, drain-Alike, ask_drain-Alike, due-Alike, select-Alike,
}
use async_job_processing_pip.Jobs.Sql.Alike.Updates.{succeed-Alike, fail-Alike, cancel-Alike}
use async_job_processing_pip.Jobs.Sql.Alike.Inserts.{create-Alike, recur-Alike}
use async_job_processing_pip.Jobs.Sql.Alike.Claims.{claim-Alike}

-- New ids are new, a key is no empty text, the clock gives one time within the storing of a follow-up,
-- and no job that was processed fails.
abbrev pub IsFair : Call → Memory → Type 0
IsFair (create clock fresh request) m =
    (get fresh m.jobs ≡ none) × (truthy request.idempotency_key ≡ request.idempotency_key)
IsFair (recur clock fresh job) m = (get fresh m.jobs ≡ none) × (clock 0 ≡ clock 1)
IsFair (fail clock i error backoff) m =
    (row : JobRecord) → get i m.jobs ≡ some row → row.processed_at ≡ none
IsFair _ m = Unit

-- Each call is fair in the state that it comes to.
abbrev pub AreFair : List Call → Memory → Type 0
AreFair [] m = Unit
AreFair (call ∷ calls) m = IsFair call m × AreFair calls (perform memory_repository call m).1

call-Alike :
    (call : Call) (keys : Dict String Uuid) (db : Database)
    → IsKept keys db
    → IsFair call (memory_of keys db)
    → Alike call keys db
call-Alike (create clock fresh request) keys db kept (free, key) =
    create-Alike keys db kept clock fresh request free key
call-Alike (find i) keys db kept fair = find-Alike keys db kept i
call-Alike (select_jobs status handler limit offset) keys db kept fair =
    select-Alike keys db kept status handler limit offset
call-Alike (select_due clock limit) keys db kept fair = due-Alike keys db kept clock limit
call-Alike (claim clock attempt_id i worker_id) keys db kept fair =
    claim-Alike keys db kept clock attempt_id i worker_id
call-Alike (succeed clock i result) keys db kept fair = succeed-Alike keys db kept clock i result
call-Alike (recur clock fresh job) keys db kept (free, still) =
    recur-Alike keys db kept clock fresh job free still
call-Alike (fail clock i error backoff) keys db kept fair =
    fail-Alike keys db kept clock i error backoff fair
call-Alike (cancel clock i) keys db kept fair = cancel-Alike keys db kept clock i
call-Alike (drain clock enabled) keys db kept fair = drain-Alike keys db kept clock enabled
call-Alike ask_drain keys db kept fair = ask_drain-Alike keys db kept

abbrev pub AllAlike : List Call → Memory → Database → Type 0
AllAlike calls m db =
    let out = perform_all sql_repository calls db in
    let expected = perform_all memory_repository calls m in
    (out.0 ≡ expected.0)
    × (out.1.jobs ≡ expected.1.jobs)
    × (get_drain out.1 ≡ expected.1.drain_enabled)

calls-Alike :
    (calls : List Call) (m : Memory) (keys : Dict String Uuid) (db : Database)
    → m ≡ memory_of keys db
    → IsKept keys db
    → AreFair calls m
    → AllAlike calls m db
unfolding perform_all
calls-Alike [] m keys db same kept fair =
    (refl, sym (ap (λ n. n.jobs) same), sym (ap (λ n. n.drain_enabled) same))
calls-Alike (call ∷ calls) m keys db same kept (fair, later) =
    let (answer, keys', after, kept') =
      call-Alike call keys db kept (subst (IsFair call) same fair) in
    let here : (perform sql_repository call db).0 ≡ (perform memory_repository call m).0 =
      answer ∙ ap (λ n. (perform memory_repository call n).0) (sym same) in
    let (answers, jobs, drained) =
      calls-Alike calls (perform memory_repository call m).1 keys'
        (perform sql_repository call db).1
        (ap (λ n. (perform memory_repository call n).1) same ∙ after) kept' later in
    (
      ap (λ a. a ∷ (perform_all sql_repository calls (perform sql_repository call db).1).0) here
          ∙ ap (λ later_ones. (perform memory_repository call m).0 ∷ later_ones) answers,
      jobs,
      drained,
    )

abbrev pub empty_database : Database
empty_database = record { jobs = []; attempts = []; drain = none }

-- Over any sequence of calls from the start, the SQL repository gives the answers of the in-memory one,
-- and in the end holds the same jobs and the same drain flag. The conditions are that new ids are new and
-- that an idempotency key is no empty text; where the two differ is left out: a failure of a job that was
-- already processed, two clock readings within the storing of a follow-up, the queue depth and the
-- metrics.
pub sql_repository-memory :
    (calls : List Call)
    → AreFair calls initial
    → let out = perform_all sql_repository calls empty_database in
      let expected = perform_all memory_repository calls initial in
      (out.0 ≡ expected.0)
      × (out.1.jobs ≡ expected.1.jobs)
      × (get_drain out.1 ≡ expected.1.drain_enabled)
unfolding get_drain get find_row
sql_repository-memory calls fair =
    calls-Alike calls initial [] empty_database refl
      record { indexed = tt; known = λ key. refl; later = λ i n h. refl } fair
