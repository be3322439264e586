-- ===== src/Jobs/Sql/Sessions/Moves.antt =====
-- What the inserts and the ends of calls of app/jobs/repositories.py change of the tables and of the sessions.
use async_job_processing_pip.Prelude.{
  ◌≤◌, ◌<◌, ◌≡◌, ◌⊎◌, subst, inl, inr, none, List, ◌∷◌, arith, ◌==◌, nat_eq, Bool-cases, is_some,
  Option-cases,
}
use async_job_processing_pip.Prelude.Dict.{get}
use async_job_processing_pip.Core.Errors.{Result-cases}
use async_job_processing_pip.Calendar.{Instant}
use async_job_processing_pip.Scheduling.{next_cron_run}
use async_job_processing_pip.Text.{truthy}
use async_job_processing_pip.Jobs.{Uuid, Clock, JobRecord}
use async_job_processing_pip.Jobs.System.{times, leave}
use async_job_processing_pip.Jobs.System.Invariant.{times-leave}
use async_job_processing_pip.Jobs.Sql.{Database, existing, write_job, is_duplicate, insert_job}
use async_job_processing_pip.Jobs.Sql.Writes.{next_row, insert_next, create_next_recurring_job}
use async_job_processing_pip.Jobs.Sql.Sessions.Invariant.{calls_on}

-- An insert writes a row under a free id, or changes nothing.
pub insert_job-cases :
    (job : JobRecord) (db : Database)
    → ((insert_job job db).1 ≡ db)
      ⊎ (((insert_job job db).1 ≡ write_job job db) × (get job.id db.jobs ≡ none))
unfolding insert_job is_duplicate
insert_job-cases job db = elim (Option-cases (existing (truthy job.idempotency_key) db)) [
  | inl free_key ↦ elim (Option-cases (get job.id db.jobs)) [
    | inr (row, taken) ↦ inl (ground (arith, taken, free_key))
    | inl free ↦ elim (Bool-cases (is_some (existing job.idempotency_key db))) [
      | inl used ↦ inl (ground (arith, free, used, free_key))
      | inr unused ↦ inr (ground (arith, free, unused), free)
    ]
  ]
  | inr (row, known) ↦ elim (Option-cases (get job.id db.jobs)) [
    | inr (other, taken) ↦ inl (ground (arith, taken, known))
    | inl free ↦ elim (Bool-cases (is_some (existing job.idempotency_key db))) [
      | inl used ↦ inl (ground (arith, free, used, known))
      | inr unused ↦ inr (ground (arith, free, unused), free)
    ]
  ]
]

pub create_next-cases :
    (clock : Clock) (fresh : Uuid) (job : JobRecord) (db : Database)
    → ((create_next_recurring_job clock fresh job db).1 ≡ db)
      ⊎ ((t : Instant) × ((create_next_recurring_job clock fresh job db).1
            ≡ write_job (next_row clock fresh t job) db)
          × (get fresh db.jobs ≡ none))
unfolding create_next_recurring_job insert_next is_duplicate existing
create_next-cases clock fresh job db = elim (Option-cases (truthy job.recurring_cron)) [
  | inl once ↦ inl (ground (arith, once))
  | inr (cron, recurs) ↦ elim (Result-cases (next_cron_run cron (clock 0))) [
    | inr (x, refused) ↦ inl (ground (arith, recurs, refused))
    | inl (t, next) ↦ elim (Option-cases (get fresh db.jobs)) [
      | inl free ↦ inr (t, ground (arith, recurs, next, free), free)
      | inr (row, taken) ↦ inl (ground (arith, recurs, next, taken))
    ]
  ]
]

-- A call on `i` leaves one list, and may enter the other.
pub left_calls :
    (i j : Uuid) (left right : List Uuid) → calls_on j (leave i left) right ≤ calls_on j left right
left_calls i j left right = ground (arith, times-leave i j left)

pub left_calls_right :
    (i j : Uuid) (left right : List Uuid) → calls_on j left (leave i right) ≤ calls_on j left right
left_calls_right i j left right = ground (arith, times-leave i j right)

pub moved_calls :
    (i j : Uuid) (left right : List Uuid)
    → 0 < times i left
    → calls_on j (leave i left) (i ∷ right) ≤ calls_on j left right
moved_calls i j left right h = elim (Bool-cases (i == j)) [
  | inl same ↦
      let eq : i ≡ j = (nat_eq.beq_iff i j).0 same in
      let h' : 0 < times j left = subst (λ k. 0 < times k left) eq h in
      ground (arith, times-leave i j left, h', same)
  | inr other ↦ ground (arith, times-leave i j left, other)
]
