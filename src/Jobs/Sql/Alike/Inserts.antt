-- ===== src/Jobs/Sql/Alike/Inserts.antt =====
-- The calls of app/jobs/repositories.py that store a new job, on both repositories.
use async_job_processing_pip.Prelude.{
  ◌≡◌, refl, ap, ◌∙◌, subst, inl, inr, true, false, none, some, arith, String, ◌==◌, nat_eq,
  string_eq, Bool-cases, Option-cases,
}
use async_job_processing_pip.Prelude.Dict.{Dict, get, put, get-put}
use async_job_processing_pip.Text.{truthy}
use async_job_processing_pip.Scheduling.{next_cron_run}
use async_job_processing_pip.Core.Enums.{status_eq}
use async_job_processing_pip.Core.Errors.{ok, err, Result-cases}
use async_job_processing_pip.Jobs.{Uuid, Clock, JobCreate, JobRecord}
use async_job_processing_pip.Jobs.Memory.{values, store, remember, new_job, known_as, next_job}
use async_job_processing_pip.Jobs.Memory.Steps.{
  create_next_none, create_next_refused, create_next_some,
}
use async_job_processing_pip.Jobs.Memory.Create.{create_job_fresh, create_job_known}
use async_job_processing_pip.Jobs.Repository.{memory_repository}
use async_job_processing_pip.Jobs.Repository.Calls
use async_job_processing_pip.Jobs.Repository.Calls.{Call, Answer, perform}
use async_job_processing_pip.Jobs.Sql.{
  Database, write_job, same_key, find_row, existing, is_duplicate,
}
use async_job_processing_pip.Jobs.Sql.Writes.{next_row}
use async_job_processing_pip.Jobs.Sql.Index.{find_row-get}
use async_job_processing_pip.Jobs.Sql.Agreement.{memory_of, IsKept, store-memory_of, insert-IsKept}
use async_job_processing_pip.Jobs.Sql.Repository.{sql_repository}
use async_job_processing_pip.Jobs.Sql.Branches.{
  create_new, create_known, next_none, next_refused, next_some,
}
use async_job_processing_pip.Jobs.Sql.Alike.{Alike, to-Alike, missing-Alike}

module _ (keys : Dict String Uuid) (db : Database) (kept : IsKept keys db) where
  -- A submission under no key, with a new id.
  unkeyed-Alike :
      (clock : Clock) (fresh : Uuid) (request : JobCreate)
      → get fresh db.jobs ≡ none
      → truthy request.idempotency_key ≡ request.idempotency_key
      → request.idempotency_key ≡ none
      → Alike (Calls.create clock fresh request) keys db
  unfolding perform sql_repository memory_repository new_job existing known_as remember is_duplicate
      same_key store
  unkeyed-Alike clock fresh request free truthy_key no_key =
      let job = new_job clock fresh request in
      let key_none : truthy request.idempotency_key ≡ none = truthy_key ∙ no_key in
      to-Alike keys db kept (Calls.create clock fresh request) (Answer.created (ok (job, false)))
        keys (write_job job db)
        (ap (λ p. (Answer.created p.0, p.1))
          (create_new clock fresh request db (rw key_none refl) (rw no_key (rw free refl))))
        (ap (λ p. (Answer.created p.0, p.1))
          (create_job_fresh clock fresh request (memory_of keys db) (rw key_none refl)))
        (rw key_none (store-memory_of keys db kept fresh job refl db.attempts))
        (insert-IsKept keys db kept fresh job refl keys free (λ key.
          elim (Option-cases (find_row key (values db.jobs))) [
            | inl none_yet ↦ ground (arith, kept.known key, none_yet, no_key)
            | inr (row, found) ↦ ground (arith, kept.known key, found)
          ]))

  -- A submission under a key that no row has.
  new_key-Alike :
      (clock : Clock) (fresh : Uuid) (request : JobCreate) {key : String}
      → get fresh db.jobs ≡ none
      → truthy request.idempotency_key ≡ request.idempotency_key
      → request.idempotency_key ≡ some key
      → find_row key (values db.jobs) ≡ none
      → Alike (Calls.create clock fresh request) keys db
  unfolding perform sql_repository memory_repository new_job existing known_as remember is_duplicate
      same_key store
  new_key-Alike clock fresh request {key} free truthy_key some_key unknown =
      let job = new_job clock fresh request in
      let keyed : truthy request.idempotency_key ≡ some key = truthy_key ∙ some_key in
      let unseen : get key keys ≡ none = ground (arith, kept.known key, unknown) in
      to-Alike keys db kept (Calls.create clock fresh request) (Answer.created (ok (job, false)))
        (put key fresh keys) (write_job job db)
        (ap (λ p. (Answer.created p.0, p.1))
          (create_new clock fresh request db (rw keyed unknown)
            (rw some_key (rw free (rw unknown refl)))))
        (ap (λ p. (Answer.created p.0, p.1))
          (create_job_fresh clock fresh request (memory_of keys db) (rw keyed unseen)))
        (rw keyed (
          ap (remember (some key) fresh) (store-memory_of keys db kept fresh job refl db.attempts)))
        (insert-IsKept keys db kept fresh job refl (put key fresh keys) free (λ other.
          elim (Option-cases (find_row other (values db.jobs))) [
            | inl none_yet ↦
                ground (arith, get-put key other fresh keys, kept.known other, none_yet, some_key)
            | inr (row, found) ↦ elim (Bool-cases (key == other)) [
              | inl same ↦
                  let eq : key ≡ other = (string_eq.beq_iff key other).0 same in
                  absurd (
                    ground
                      (arith, found, subst (λ k. find_row k (values db.jobs) ≡ none) eq unknown))
              | inr another ↦
                  ground (arith, get-put key other fresh keys, another, kept.known other, found)
            ]
          ]))

  pub create-Alike :
      (clock : Clock) (fresh : Uuid) (request : JobCreate)
      → get fresh db.jobs ≡ none
      → truthy request.idempotency_key ≡ request.idempotency_key
      → Alike (Calls.create clock fresh request) keys db
  unfolding perform sql_repository memory_repository existing known_as
  create-Alike clock fresh request free truthy_key = elim (Option-cases request.idempotency_key) [
    | inl no_key ↦ unkeyed-Alike clock fresh request free truthy_key no_key
    | inr (key, some_key) ↦ elim (Option-cases (find_row key (values db.jobs))) [
      | inl unknown ↦ new_key-Alike clock fresh request free truthy_key some_key unknown
      | inr (row, found) ↦
          let keyed : truthy request.idempotency_key ≡ some key = truthy_key ∙ some_key in
          let seen : get key keys ≡ some row.id = ground (arith, kept.known key, found) in
          missing-Alike keys db kept (Calls.create clock fresh request)
            (Answer.created (ok (row, true)))
            (ap (λ p. (Answer.created p.0, p.1))
              (create_known clock fresh request db (rw keyed found)))
            (ap (λ p. (Answer.created p.0, p.1))
              (create_job_known clock fresh request (memory_of keys db) (rw keyed seen)
                (find_row-get key db.jobs kept.indexed found)))
    ]
  ]

  -- The follow-up of a recurring job, where the clock stands still within the call.
  pub recur-Alike :
      (clock : Clock) (fresh : Uuid) (job : JobRecord)
      → get fresh db.jobs ≡ none
      → clock 0 ≡ clock 1
      → Alike (Calls.recur clock fresh job) keys db
  unfolding perform sql_repository memory_repository next_row next_job same_key store
  recur-Alike clock fresh job free still = elim (Option-cases (truthy job.recurring_cron)) [
    | inl once ↦
        missing-Alike keys db kept (Calls.recur clock fresh job) (Answer.maybe_job (ok none))
          (ap (λ p. (Answer.maybe_job p.0, p.1)) (next_none clock fresh job db once))
          (ap (λ p. (Answer.maybe_job p.0, p.1))
            (create_next_none clock fresh job (memory_of keys db) once))
    | inr (cron, recurs) ↦ elim (Result-cases (next_cron_run cron (clock 0))) [
      | inr (x, refused) ↦
          missing-Alike keys db kept (Calls.recur clock fresh job) (Answer.maybe_job (err x))
            (ap (λ p. (Answer.maybe_job p.0, p.1)) (next_refused clock fresh job db recurs refused))
            (ap (λ p. (Answer.maybe_job p.0, p.1))
              (create_next_refused clock fresh job (memory_of keys db) recurs refused))
      | inl (t, next) ↦
          let row = next_row clock fresh t job in
          let same : next_job clock fresh t job ≡ row = rw still refl in
          to-Alike keys db kept (Calls.recur clock fresh job) (Answer.maybe_job (ok (some row)))
            keys (write_job row db)
            (ap (λ p. (Answer.maybe_job p.0, p.1)) (next_some clock fresh job db recurs next free))
            (ap (λ p. (Answer.maybe_job p.0, p.1))
                (create_next_some clock fresh job (memory_of keys db) recurs next)
              ∙ ap (λ j. (Answer.maybe_job (ok (some j)), store fresh j (memory_of keys db))) same)
            (store-memory_of keys db kept fresh row refl db.attempts)
            (insert-IsKept keys db kept fresh row refl keys free (λ key.
              elim (Option-cases (find_row key (values db.jobs))) [
                | inl none_yet ↦ ground (arith, kept.known key, none_yet)
                | inr (other, found) ↦ ground (arith, kept.known key, found)
              ]))
    ]
  ]
