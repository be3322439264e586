-- ===== src/Jobs/Sql/Inserts.antt =====
-- Submissions to the SQL repository under one idempotency key.
use async_job_processing_pip.Prelude.{
  String, ◌≡◌, refl, true, false, none, some, [], ◌∷◌, arith, ◌==◌, nat_eq, string_eq, beq_refl,
  Bool-cases, Option-cases, inl, inr,
}
use async_job_processing_pip.Prelude.Dict.{Dict, put}
use async_job_processing_pip.Text.{truthy}
use async_job_processing_pip.Core.Errors.{ok}
use async_job_processing_pip.Jobs.{Uuid, JobRecord}
use async_job_processing_pip.Jobs.Memory.{values}
use async_job_processing_pip.Jobs.Sql.{
  Database, write_job, same_key, find_row, existing, is_duplicate, insert_job,
}

find_row-put :
    (key : String) (i : Uuid) (job : JobRecord) (jobs : Dict Uuid JobRecord)
    → same_key job.idempotency_key key ≡ true
    → find_row key (values jobs) ≡ none
    → find_row key (values (put i job jobs)) ≡ some job
unfolding find_row put
find_row-put key i job [] same none_yet = ground (arith, same)
find_row-put key i job ((j, row) ∷ jobs) same none_yet =
    elim (Bool-cases (same_key row.idempotency_key key)) [
      | inl here ↦ absurd (ground (arith, here, none_yet))
      | inr other ↦
          let later : find_row key (values jobs) ≡ none = ground (arith, other, none_yet) in
          let rest = find_row-put key i job jobs same later in
          elim (Bool-cases (j == i)) [
            | inl at ↦ rw at (rw same refl)
            | inr before ↦ rw before (rw other rest)
          ]
    ]

insert_job_new :
    (job : JobRecord) (db : Database)
    → is_duplicate job.id job.idempotency_key db ≡ false
    → insert_job job db ≡ (ok (job, false), write_job job db)
unfolding insert_job
insert_job_new job db h = ground (arith, h)

insert_job_duplicate :
    (job row : JobRecord) (key : String) (db : Database)
    → job.idempotency_key ≡ some key
    → truthy (some key) ≡ some key
    → existing (some key) db ≡ some row
    → insert_job job db ≡ (ok (row, true), db)
unfolding insert_job is_duplicate
insert_job_duplicate job row key db keyed true_key there = ground (arith, keyed, true_key, there)

-- Of two sessions that submit under one key, neither of which found a job under it, the first to commit
-- stores its job. The other, refused by the constraint on keys, answers with that job as a replay and
-- stores nothing.
pub insert_job-race :
    (first second : JobRecord) (key : String) (db : Database)
    → first.idempotency_key ≡ some key
    → second.idempotency_key ≡ some key
    → truthy (some key) ≡ some key
    → is_duplicate first.id (some key) db ≡ false
    → let out = insert_job first db in
      (out.0 ≡ ok (first, false)) × (insert_job second out.1 ≡ (ok (first, true), out.1))
unfolding is_duplicate existing write_job same_key
insert_job-race first second key db keyed keyed' true_key free =
    let unseen : find_row key (values db.jobs) ≡ none =
      elim (Option-cases (find_row key (values db.jobs))) [
        | inl unseen ↦ unseen
        | inr (row, seen) ↦ absurd (ground (arith, free, seen))
      ] in
    let same : same_key first.idempotency_key key ≡ true = ground (arith, keyed, beq_refl key) in
    let new : is_duplicate first.id first.idempotency_key db ≡ false =
      ground (arith, keyed, free) in
    let there = find_row-put key first.id first db.jobs same unseen in
    rw (insert_job_new first db new)
      (refl, insert_job_duplicate second first key (write_job first db) keyed' true_key there)
