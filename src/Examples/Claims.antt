-- ===== src/Examples/Claims.antt =====
-- Two workers, or a worker and a client, at one row of the SQL repository.
use async_job_processing_pip.Prelude.{
  ◌+◌, ◌-◌, ◌≡◌, refl, false, true, none, some, [], ◌∷◌, ◌==◌, nat_eq, count,
}
use async_job_processing_pip.Prelude.Dict.{get}
use async_job_processing_pip.Core.Enums.{JobStatus, is_pending}
use async_job_processing_pip.Core.Errors.{ok, err, integrity_error}
use async_job_processing_pip.Jobs.{JobRecord, first_run, ensure_aware}
use async_job_processing_pip.Jobs.Memory.{new_job, is_claimable, cancelled_at}
use async_job_processing_pip.Jobs.Memory.Metrics
use async_job_processing_pip.Jobs.Sql.{
  Database, get_drain, retries_of, is_duplicate, existing, find_row, insert_job,
}
use async_job_processing_pip.Jobs.Sql.Inserts.{insert_job-race}
use async_job_processing_pip.Text.{truthy, is_empty}
use async_job_processing_pip.Jobs.Sql.Writes.{read_claim, claim_row, write_claim, cancel_job}
use async_job_processing_pip.Jobs.Sql.Claims.{
  IsFirst, write_claim-race, write_claim-cancelled, retries_of-memory,
}
use async_job_processing_pip.Examples.Workers.{at, job}

abbrev row : JobRecord
row = job "echo" 3

abbrev database : Database
database = record { jobs = (7, row) ∷ []; attempts = []; drain = none }

row_read : read_claim (at 2000) 7 database ≡ some row
unfolding read_claim get_drain get is_claimable is_pending new_job first_run ensure_aware
row_read = refl

row-IsFirst : IsFirst row database
row-IsFirst = refl

write_claim-race_example :
    let out = write_claim (at 2000) 70 "worker" row database in
    (out.0 ≡ ok (claim_row 2000 "worker" (row.attempt_count + 1) row))
    × (write_claim (at 2001) 71 "other" row out.1 ≡ (err integrity_error, out.1))
unfolding new_job
write_claim-race_example =
    write_claim-race (at 2000) (at 2001) 70 71 "worker" "other" row database row_read row-IsFirst

write_claim-cancelled_example :
    let cancelled = cancel_job (at 2001) 7 database in
    let out = write_claim (at 2000) 70 "worker" row cancelled.1 in
    (cancelled.0 ≡ ok (cancelled_at 2001 row))
    × (j : JobRecord) × (out.0 ≡ ok j)
    × (get 7 out.1.jobs ≡ some j)
    × (j.status ≡ JobStatus.running)
    × (j.processed_at ≡ some 2001)
unfolding new_job
write_claim-cancelled_example =
    write_claim-cancelled (at 2000) (at 2001) 70 "worker" row database row_read row-IsFirst

retries_of-memory_example :
    retries_of (row ∷ [])
    ≡ Metrics.retries_of (row ∷ []) - count (λ j. j.attempt_count == 0) (row ∷ [])
retries_of-memory_example = retries_of-memory (row ∷ [])

abbrev empty_database : Database
empty_database = record { jobs = []; attempts = []; drain = none }

row_keyed : row.idempotency_key ≡ some "key"
unfolding new_job
row_keyed = refl

other_keyed : (job "always_fail" 1).idempotency_key ≡ some "key"
unfolding new_job
other_keyed = refl

key_truthy : truthy (some "key") ≡ some "key"
unfolding truthy is_empty
key_truthy = refl

nothing_there : is_duplicate row.id (some "key") empty_database ≡ false
unfolding is_duplicate existing find_row get
nothing_there = refl

insert_job-race_example :
    let out = insert_job row empty_database in
    (out.0 ≡ ok (row, false)) × (insert_job (job "always_fail" 1) out.1 ≡ (ok (row, true), out.1))
insert_job-race_example =
    insert_job-race row (job "always_fail" 1) "key" empty_database row_keyed other_keyed key_truthy
      nothing_there
