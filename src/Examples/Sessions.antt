-- ===== src/Examples/Sessions.antt =====
-- Two workers that read one row of the SQL repository before either of them writes.
use async_job_processing_pip.Prelude.{◌≤◌, ◌≡◌, refl, none, some, true, [], ◌∷◌, nat_eq}
use async_job_processing_pip.Prelude.Dict.{get, put}
use async_job_processing_pip.Text.{truthy, is_empty}
use async_job_processing_pip.Core.Enums.{is_pending}
use async_job_processing_pip.Core.Errors.{ok}
use async_job_processing_pip.Jobs.{JobRecord, first_run, ensure_aware}
use async_job_processing_pip.Jobs.Memory.{new_job, is_claimable}
use async_job_processing_pip.Jobs.Sql.{
  insert_job, is_duplicate, existing, find_row, write_job, get_job, get_drain,
}
use async_job_processing_pip.Jobs.Sql.Writes.{
  read_claim, claimable_row, write_claim, claim_row, is_attempt,
}
use async_job_processing_pip.Jobs.Sql.Sessions.{
  Sessions, busy, opening, Reachable, started, stepped, insert, begin_claim, end_claim,
}
use async_job_processing_pip.Jobs.Sql.Sessions.Exclusion.{one_session_at_work}
use async_job_processing_pip.Examples.Workers.{at, request}

abbrev row : JobRecord
row = new_job (at 1000) 7 (request "echo" 3)

abbrev with_row : Sessions
with_row = record opening { db = (insert_job row opening.db).1 }

abbrev both_read : Sessions
both_read = record with_row { claims = row ∷ (row ∷ []) }

abbrev one_claimed : Sessions
one_claimed = record with_row {
  db = (write_claim (at 2000) 70 "worker" row with_row.db).1;
  claims = row ∷ [];
  handling = 7 ∷ [];
}

row_read : read_claim (at 2000) 7 with_row.db ≡ some row
unfolding read_claim claimable_row get_drain insert_job is_duplicate existing find_row write_job get
    is_claimable is_pending new_job first_run ensure_aware truthy is_empty put
row_read = refl

claim_ok :
    (write_claim (at 2000) 70 "worker" row with_row.db).0 ≡ ok (claim_row 2000 "worker" 1 row)
unfolding write_claim is_attempt get_job insert_job is_duplicate existing find_row write_job get
    new_job truthy is_empty put
claim_ok = refl

reached : Reachable one_claimed
unfolding new_job
reached =
    stepped {s = both_read}
      (stepped {s = record with_row { claims = row ∷ [] }}
        (stepped {s = with_row}
          (stepped {s = opening} started (insert (at 1000) 7 (request "echo" 3)))
          (begin_claim (at 2000) 7 row_read))
        (begin_claim (at 2000) 7 row_read))
      (end_claim (at 2000) 70 "worker" [] row (row ∷ []) refl claim_ok)

one_session_at_work_example :
    (busy 7 one_claimed ≤ 1)
    × ((r : JobRecord)
        → get 7 one_claimed.db.jobs ≡ some r
        → is_pending r.status ≡ true
        → busy 7 one_claimed ≡ 0)
    × (get 7 one_claimed.db.jobs ≡ none → busy 7 one_claimed ≡ 0)
one_session_at_work_example = one_session_at_work reached 7
