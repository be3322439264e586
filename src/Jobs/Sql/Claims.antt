-- ===== src/Jobs/Sql/Claims.antt =====
-- Claims of the SQL repository, one after another and interleaved.
use async_job_processing_pip.Prelude.{
  ◌+◌, ◌-◌, String, ◌≡◌, refl, true, false, none, some, List, [], ◌∷◌, arith, ◌==◌, nat_eq,
  beq_refl, any, count, length, Bool-cases, Option-cases, inl, inr,
}
use async_job_processing_pip.Prelude.Dict.{get, put, get-put_self}
use async_job_processing_pip.Core.Enums.{JobStatus, is_pending}
use async_job_processing_pip.Core.Errors.{ok, err, integrity_error}
use async_job_processing_pip.Jobs.{Uuid, Clock, JobRecord}
use async_job_processing_pip.Jobs.Memory.{is_claimable, cancelled_at}
use async_job_processing_pip.Jobs.Memory.Metrics
use async_job_processing_pip.Jobs.Sql.{
  Database, write_job, get_job, get_drain, retries_of, attempts_of,
}
use async_job_processing_pip.Jobs.Sql.Writes.{
  is_attempt, read_claim, claimable_row, claim_row, new_attempt, write_claim, claim_job,
  claimed_job, cancel_job,
}

-- A row that was read to be claimed is stored, claimable, and no drain is on.
read_claim-some :
    (clock : Clock) (i : Uuid) (db : Database) {row : JobRecord}
    → read_claim clock i db ≡ some row
    → (get i db.jobs ≡ some row) × (is_claimable (clock 0) row ≡ true) × (get_drain db ≡ false)
unfolding read_claim claimable_row
read_claim-some clock i db h = elim (Bool-cases (get_drain db)) [
  | inl d ↦ absurd (ground (arith, h, d))
  | inr d ↦ elim (Option-cases (get i db.jobs)) [
    | inl missing ↦ absurd (ground (arith, h, d, missing))
    | inr (row, stored) ↦ ground (arith, h, d, stored)
  ]
]

-- The attempt that a claim of the row makes is new.
abbrev pub IsFirst : JobRecord → Database → Type 0
IsFirst row db = any (is_attempt row.id (row.attempt_count + 1)) db.attempts ≡ false

module _ (clock : Clock) (attempt_id : Uuid) (worker_id : String) (read : JobRecord) where
  -- The row that the claim leaves, and the database.
  abbrev pub claimed_row : JobRecord → JobRecord
  claimed_row row = claim_row (clock 0) worker_id (read.attempt_count + 1) row

  abbrev pub after_claim : JobRecord → Database → Database
  after_claim row db = write_job (claimed_row row) (record db {
    attempts =
        new_attempt (clock 0) attempt_id read.id (read.attempt_count + 1) worker_id ∷ db.attempts;
  })

  pub write_claim_ok :
      (row : JobRecord) (db : Database)
      → get read.id db.jobs ≡ some row
      → IsFirst read db
      → write_claim clock attempt_id worker_id read db ≡ (ok (claimed_row row), after_claim row db)
  unfolding write_claim get_job
  write_claim_ok row db stored first = rw first (rw stored refl)

  write_claim_duplicate :
      (db : Database)
      → any (is_attempt read.id (read.attempt_count + 1)) db.attempts ≡ true
      → write_claim clock attempt_id worker_id read db ≡ (err integrity_error, db)
  unfolding write_claim
  write_claim_duplicate db second = rw second refl

-- Of two sessions that have read the same claimable row, the first to write runs the job. The write of the
-- other is refused by the constraint on attempts, as an exception, and leaves the database as it is.
pub write_claim-race :
    (first second : Clock) (a b : Uuid) (worker other : String) (row : JobRecord) (db : Database)
    → read_claim first row.id db ≡ some row
    → IsFirst row db
    → let out = write_claim first a worker row db in
      (out.0 ≡ ok (claim_row (first 0) worker (row.attempt_count + 1) row))
      × (write_claim second b other row out.1 ≡ (err integrity_error, out.1))
unfolding write_job new_attempt is_attempt
write_claim-race first second a b worker other row db read new =
    let (stored, _, _) = read_claim-some first row.id db read in
    let won = write_claim_ok first a worker row row db stored new in
    let there : any (is_attempt row.id (row.attempt_count + 1))
          (after_claim first a worker row row db).attempts
        ≡ true =
      rw (beq_refl row.id, beq_refl (row.attempt_count + 1)) refl in
    rw won
      (refl, write_claim_duplicate second b other row (after_claim first a worker row row db) there)

cancel_job_ok :
    (clock : Clock) (row : JobRecord) (db : Database)
    → get row.id db.jobs ≡ some row
    → is_pending row.status ≡ true
    → cancel_job clock row.id db
      ≡ (ok (cancelled_at (clock 0) row), write_job (cancelled_at (clock 0) row) db)
unfolding cancel_job
cancel_job_ok clock row db stored pending = ground (arith, stored, pending)

-- A cancellation that commits between the read and the write of a claim is lost: it was answered as done,
-- and then the claim answers with the same job as running, to be handled, and stores it so.
pub write_claim-cancelled :
    (claiming cancelling : Clock) (a : Uuid) (worker : String) (row : JobRecord) (db : Database)
    → read_claim claiming row.id db ≡ some row
    → IsFirst row db
    → let cancelled = cancel_job cancelling row.id db in
      let out = write_claim claiming a worker row cancelled.1 in
      (cancelled.0 ≡ ok (cancelled_at (cancelling 0) row))
      × (job : JobRecord) × (out.0 ≡ ok job)
      × (get row.id out.1.jobs ≡ some job)
      × (job.status ≡ JobStatus.running)
      × (job.processed_at ≡ some (cancelling 0))
unfolding cancelled_at write_job is_claimable claim_row
write_claim-cancelled claiming cancelling a worker row db read new =
    let (stored, claimable, _) = read_claim-some claiming row.id db read in
    let done = cancelled_at (cancelling 0) row in
    let cancelled = cancel_job_ok cancelling row db stored (ground (arith, claimable)) in
    let again = get-put_self row.id done db.jobs in
    let claimed = write_claim_ok claiming a worker row done (write_job done db) again new in
    let running = claim_row (claiming 0) worker (row.attempt_count + 1) done in
    rw cancelled (
      refl,
      running,
      rw claimed refl,
      rw claimed (get-put_self row.id running (put row.id done db.jobs)),
      refl,
      refl,
    )

-- A claim with nothing between its read and its write.
pub claim_job_none :
    (clock : Clock) (a i : Uuid) (worker : String) (db : Database)
    → read_claim clock i db ≡ none
    → claim_job clock a i worker db ≡ (ok none, db)
unfolding claim_job
claim_job_none clock a i worker db h = ground (arith, h)

pub claim_job_read :
    (clock : Clock) (a i : Uuid) (worker : String) (db : Database) {row : JobRecord}
    → read_claim clock i db ≡ some row
    → claim_job clock a i worker db ≡ claimed_job (write_claim clock a worker row db)
unfolding claim_job
claim_job_read clock a i worker db h = rw (h, claim_job) refl

pub read_claim-none :
    (clock : Clock) (i : Uuid) (db : Database) {row : JobRecord}
    → get i db.jobs ≡ some row
    → is_claimable (clock 0) row ≡ false
    → read_claim clock i db ≡ none
unfolding read_claim claimable_row
read_claim-none clock i db stored c = ground (arith, stored, c)

retries_count :
    (jobs : List JobRecord)
    → attempts_of jobs + count (λ job. job.attempt_count == 0) jobs
      ≡ Metrics.retries_of jobs + length jobs
unfolding Metrics.retries_of attempts_of
retries_count [] = refl
retries_count (job ∷ jobs) = ground (arith, retries_count jobs)

-- The retries that the SQL repository counts are those of the in-memory one less the number of jobs that
-- have not been attempted yet, as far as that goes.
pub retries_of-memory :
    (jobs : List JobRecord)
    → retries_of jobs ≡ Metrics.retries_of jobs - count (λ job. job.attempt_count == 0) jobs
unfolding retries_of
retries_of-memory jobs = omega (arith, retries_count jobs)
