-- ===== src/Jobs/Sql/Agreement.antt =====
-- The state that the two repositories of app/jobs/repositories.py share, and the writes that keep it.
use async_job_processing_pip.Prelude.{
  ℕ, ◌≤◌, ◌<◌, ◌≡◌, refl, sym, ap, ◌∙◌, subst, ◌⊎◌, inl, inr, true, false, Option, none, some, List,
  [], ◌∷◌, arith, String, any, ◌==◌, nat_eq, string_eq, if◌then◌else◌, Bool-cases,
}
use async_job_processing_pip.Prelude.Dict.{Dict, get, put, get-put}
use async_job_processing_pip.Calendar.{Instant}
use async_job_processing_pip.Core.Enums.{AttemptStatus}
use async_job_processing_pip.Jobs.{Uuid, JobRecord}
use async_job_processing_pip.Jobs.Memory.{Memory, values, store}
use async_job_processing_pip.Jobs.Sql.{
  Database, JobAttempt, write_job, same_key, find_row, get_drain,
}
use async_job_processing_pip.Jobs.Sql.Writes.{is_attempt, finish_attempt, finish}
use async_job_processing_pip.Jobs.Sql.Index.{
  IsIndexed, id_of, put-IsIndexed, get-named, find_row-insert, find_row-update,
}

-- The in-memory state of a database, with the dictionary of idempotency keys given.
abbrev pub memory_of : Dict String Uuid → Database → Memory
memory_of keys db = record { jobs = db.jobs; idempotency = keys; drain_enabled = get_drain db }

abbrev pub count_at : Option JobRecord → ℕ
count_at none = 0
count_at (some row) = row.attempt_count

-- Finishing an attempt keeps its job and its number.
pub any-finish_attempt :
    (now : Instant) (i j : Uuid) (k n : ℕ) (status : AttemptStatus) (error : Option String)
    (attempts : List JobAttempt)
    → any (is_attempt j n) (finish_attempt now i k status error attempts)
      ≡ any (is_attempt j n) attempts
unfolding finish_attempt is_attempt
any-finish_attempt now i j k n status error [] = refl
any-finish_attempt now i j k n status error (attempt ∷ attempts) =
    ground (arith, any-finish_attempt now i j k n status error attempts)

-- The keys are those of the rows, and no attempt of a job has a number above the job's count.
pub record IsKept (keys : Dict String Uuid) (db : Database) : Type 0 where
  pub indexed : IsIndexed db.jobs
  pub known : (key : String) → get key keys ≡ id_of (find_row key (values db.jobs))
  pub later :
      (i : Uuid) (n : ℕ) → count_at (get i db.jobs) < n → any (is_attempt i n) db.attempts ≡ false

module _ (keys : Dict String Uuid) (db : Database) (kept : IsKept keys db) (i : Uuid)
    (job : JobRecord) (named : job.id ≡ i) where
  put-later :
      (attempts : List JobAttempt)
      → count_at (get i db.jobs) ≤ job.attempt_count
      → ((j : Uuid) (n : ℕ)
          → any (is_attempt j n) attempts ≡ true
          → (any (is_attempt j n) db.attempts ≡ true) ⊎ ((j ≡ i) × (n ≤ job.attempt_count)))
      → (j : Uuid) (n : ℕ) → count_at (get j (put i job db.jobs)) < n
      → any (is_attempt j n) attempts ≡ false
  put-later attempts counted made j n high = elim (Bool-cases (any (is_attempt j n) attempts)) [
    | inr none_there ↦ none_there
    | inl there ↦
        let at = get-put i j job db.jobs in
        elim (Bool-cases (i == j)) [
          | inl same ↦
              let eq : i ≡ j = (nat_eq.beq_iff i j).0 same in
              let high' : job.attempt_count < n = ground (arith, high, at, same) in
              elim (made j n there) [
                | inl was ↦
                    let older = kept.later j n (
                      subst (λ k. count_at (get k db.jobs) < n) eq
                        (omega (arith, counted, high'))) in
                    absurd (ground (arith, older, was))
                | inr (_, low) ↦ absurd (omega (arith, low, high'))
              ]
          | inr other ↦
              let high' : count_at (get j db.jobs) < n = ground (arith, high, at, other) in
              elim (made j n there) [
                | inl was ↦ absurd (ground (arith, kept.later j n high', was))
                | inr (eq, _) ↦ absurd (ground (arith, other, nat_eq.beq_iff i j, eq))
              ]
        ]
  ]

  -- A row that is there is changed, its id and its idempotency key kept.
  pub update-IsKept :
      (attempts : List JobAttempt) {row : JobRecord}
      → get i db.jobs ≡ some row
      → job.idempotency_key ≡ row.idempotency_key
      → row.attempt_count ≤ job.attempt_count
      → ((j : Uuid) (n : ℕ)
          → any (is_attempt j n) attempts ≡ true
          → (any (is_attempt j n) db.attempts ≡ true) ⊎ ((j ≡ i) × (n ≤ job.attempt_count)))
      → IsKept keys (write_job job (record db { attempts = attempts }))
  unfolding write_job
  update-IsKept attempts {row} stored keyed counted made =
      let same_id : job.id ≡ row.id = named ∙ sym (get-named i db.jobs kept.indexed stored) in
      let counted' : count_at (get i db.jobs) ≤ job.attempt_count = rw stored counted in
      subst (λ k. IsKept keys (record db { jobs = put k job db.jobs; attempts = attempts }))
        (sym named)
        record {
          indexed = put-IsIndexed i job db.jobs named kept.indexed;
          known =
              λ key. kept.known key ∙ sym (find_row-update key i job db.jobs stored same_id keyed);
          later = put-later attempts counted' made;
        }

  -- The end of an attempt.
  pub finish-IsKept :
      (now : Instant) (status : AttemptStatus) (error : Option String) {row : JobRecord}
      → get i db.jobs ≡ some row
      → job.idempotency_key ≡ row.idempotency_key
      → row.attempt_count ≤ job.attempt_count
      → IsKept keys (finish now status error job db).1
  unfolding finish
  finish-IsKept now status error stored keyed counted =
      update-IsKept (finish_attempt now job.id job.attempt_count status error db.attempts) stored
        keyed counted
        (λ j n there. inl (
          sym (any-finish_attempt now job.id j job.attempt_count n status error db.attempts)
          ∙ there))

  -- The same write in memory.
  pub store-memory_of :
      (attempts : List JobAttempt)
      → store i job (memory_of keys db)
        ≡ memory_of keys (write_job job (record db { attempts = attempts }))
  unfolding store write_job get_drain
  store-memory_of attempts =
      ap (λ k. memory_of keys (record db { jobs = put k job db.jobs; attempts = attempts }))
        (sym named)

  -- A new row, and the key that it is remembered under.
  pub insert-IsKept :
      (keys' : Dict String Uuid)
      → get i db.jobs ≡ none
      → ((key : String)
          → get key keys' ≡ elim (find_row key (values db.jobs)) [
            | some row ↦ some row.id
            | none ↦ if same_key job.idempotency_key key then some job.id else none
          ])
      → IsKept keys' (write_job job db)
  unfolding write_job
  insert-IsKept keys' free known =
      subst (λ k. IsKept keys' (record db { jobs = put k job db.jobs })) (sym named)
        record {
          indexed = put-IsIndexed i job db.jobs named kept.indexed;
          known = λ key. known key ∙ sym (find_row-insert key i job db.jobs free);
          later = put-later db.attempts (rw free (omega arith)) (λ j n there. inl there);
        }
