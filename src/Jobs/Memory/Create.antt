-- ===== src/Jobs/Memory/Create.antt =====
-- Submitting under an idempotency key.
use async_job_processing_pip.Prelude.{
  String, ◌≡◌, refl, ◌⊎◌, inl, inr, true, false, Option, none, some, arith, ◌==◌, nat_eq, string_eq,
  if◌then◌else◌, Option-cases,
}
use async_job_processing_pip.Prelude.Dict.{get, put, get-put}
use async_job_processing_pip.Text.{truthy}
use async_job_processing_pip.Core.Errors.{ok, err, key_error}
use async_job_processing_pip.Jobs.{Uuid, Clock, JobCreate, JobRecord}
use async_job_processing_pip.Jobs.Memory.{Memory, new_job, known_as, remember, store, create_job}

module _ (clock : Clock) (fresh : Uuid) (request : JobCreate) (m : Memory) where
  -- A job that was not replayed is the one made from the request, and its key was not known.
  pub create_job_new :
      {job : JobRecord}
      → (create_job clock fresh request m).0 ≡ ok (job, false)
      → (job ≡ new_job clock fresh request)
        × (known_as (truthy request.idempotency_key) m ≡ none)
        × ((create_job clock fresh request m).1
            ≡ remember
                (truthy request.idempotency_key)
                fresh
                (store fresh (new_job clock fresh request) m))
  unfolding create_job
  create_job_new h = ground arith

  -- What the jobs are after a submission that was not replayed.
  pub get-create_job :
      (i : Uuid)
      → known_as (truthy request.idempotency_key) m ≡ none
      → get i (create_job clock fresh request m).1.jobs
        ≡ (if fresh == i then some (new_job clock fresh request) else get i m.jobs)
  unfolding create_job
  get-create_job i h = ground (arith, get-put fresh i (new_job clock fresh request) m.jobs, h)

  pub remember-jobs :
      (key : Option String) (i : Uuid) (n : Memory) → (remember key i n).jobs ≡ n.jobs
  unfolding remember
  remember-jobs none i n = refl
  remember-jobs (some key) i n = refl

  -- What the jobs are after any submission.
  pub create_job-jobs :
      ((create_job clock fresh request m).1.jobs ≡ m.jobs)
      ⊎ ((create_job clock fresh request m).1.jobs ≡ put fresh (new_job clock fresh request) m.jobs)
  unfolding create_job store
  create_job-jobs = elim (Option-cases (known_as (truthy request.idempotency_key) m)) [
    | inl new ↦ inr (
        ground (
          arith,
          new,
          remember-jobs (truthy request.idempotency_key) fresh
              (store fresh (new_job clock fresh request) m),
        ))
    | inr (i, old) ↦ inl (ground (arith, old))
  ]

  pub create_job_fresh :
      known_as (truthy request.idempotency_key) m ≡ none
      → create_job clock fresh request m ≡ (
        ok (new_job clock fresh request, false),
        remember
            (truthy request.idempotency_key)
            fresh
            (store fresh (new_job clock fresh request) m),
      )
  unfolding create_job
  create_job_fresh h = ground (arith, h)

  pub create_job_known :
      {i : Uuid} {job : JobRecord}
      → known_as (truthy request.idempotency_key) m ≡ some i
      → get i m.jobs ≡ some job
      → create_job clock fresh request m ≡ (ok (job, true), m)
  unfolding create_job
  create_job_known h stored = ground (arith, h, stored)

  pub create_job_lost :
      {i : Uuid}
      → known_as (truthy request.idempotency_key) m ≡ some i
      → get i m.jobs ≡ none
      → create_job clock fresh request m ≡ (err key_error, m)
  unfolding create_job
  create_job_lost h missing = ground (arith, h, missing)
