-- ===== src/Jobs/System/Invariant.antt =====
-- The state of the repository of app/jobs/repositories.py between two calls.
use async_job_processing_pip.Prelude.{
  ℕ, ◌-◌, ◌≤◌, ◌<◌, ◌≡◌, refl, subst, inl, inr, true, false, Option, none, some, List, [], ◌∷◌,
  arith, ◌==◌, nat_eq, if◌then◌else◌, Bool-cases, some-injective,
}
use async_job_processing_pip.Prelude.Dict.{Dict, get, put, get-put}
use async_job_processing_pip.Core.Enums.{JobStatus, status_eq, is_pending}
use async_job_processing_pip.Jobs.{Uuid, JobRecord}
use async_job_processing_pip.Jobs.Memory.Records.{IsConsistent}
use async_job_processing_pip.Jobs.System.{times, leave, System}

pub times-leave :
    (i j : Uuid) (js : List Uuid) → times j (leave i js) ≡ times j js - (if i == j then 1 else 0)
times-leave i j [] = ground arith
times-leave i j (k ∷ js) = ground (arith, times-leave i j js)

abbrev pub one_if : JobStatus → Option JobRecord → ℕ
one_if status none = 0
one_if status (some job) = if job.status == status then 1 else 0

-- What holds of the record under an id, if there is one, and of the calls that work on it.
pub record IsSafe (i : Uuid) (stored : Option JobRecord) (handlers finishers : ℕ) : Type 0 where
  pub handled : handlers ≤ one_if JobStatus.running stored
  pub finished : finishers ≤ one_if JobStatus.succeeded stored
  pub consistent : (job : JobRecord) → stored ≡ some job → IsConsistent job × (job.id ≡ i)

abbrev pub AreSafe : Dict Uuid JobRecord → List Uuid → List Uuid → Type 0
AreSafe jobs handling finishing =
    (i : Uuid) → IsSafe i (get i jobs) (times i handling) (times i finishing)

module _ (jobs : Dict Uuid JobRecord) (handling finishing : List Uuid)
    (safe : AreSafe jobs handling finishing) where
  -- One record is written, and the calls on it are others.
  pub put-AreSafe :
      (i : Uuid) (job : JobRecord) (handling' finishing' : List Uuid)
      → IsSafe i (some job) (times i handling') (times i finishing')
      → ((j : Uuid) → (i == j) ≡ false → times j handling' ≤ times j handling)
      → ((j : Uuid) → (i == j) ≡ false → times j finishing' ≤ times j finishing)
      → AreSafe (put i job jobs) handling' finishing'
  put-AreSafe i job handling' finishing' here fewer_h fewer_f j =
      let at = get-put i j job jobs in
      elim (Bool-cases (i == j)) [
        | inl same ↦
            let eq : i ≡ j = (nat_eq.beq_iff i j).0 same in
            rw at (
              rw same
                (subst (λ k. IsSafe k (some job) (times k handling') (times k finishing')) eq here))
        | inr other ↦
            let was = safe j in
            rw at (
              rw other record {
                handled = omega (arith, was.handled, fewer_h j other);
                finished = omega (arith, was.finished, fewer_f j other);
                consistent = was.consistent;
              })
      ]

  -- Fewer calls are as safe.
  pub fewer-AreSafe :
      (handling' finishing' : List Uuid)
      → ((j : Uuid) → times j handling' ≤ times j handling)
      → ((j : Uuid) → times j finishing' ≤ times j finishing)
      → AreSafe jobs handling' finishing'
  fewer-AreSafe handling' finishing' fewer_h fewer_f j =
      let was = safe j in
      record {
        handled = omega (arith, was.handled, fewer_h j);
        finished = omega (arith, was.finished, fewer_f j);
        consistent = was.consistent;
      }

-- A job that some call works on is stored, in the state that the call left it in.
pub one_if-some :
    (status : JobStatus) (stored : Option JobRecord)
    → 0 < one_if status stored
    → (job : JobRecord) × (stored ≡ some job) × (job.status ≡ status)
one_if-some status none h = absurd (omega (arith, h))
one_if-some status (some job) h = elim (Bool-cases (job.status == status)) [
  | inl same ↦ (job, refl, (status_eq.beq_iff job.status status).0 same)
  | inr other ↦ absurd (ground (arith, h, other))
]

pub pending_idle :
    (job : JobRecord)
    → is_pending job.status ≡ true
    → (one_if JobStatus.running (some job) ≡ 0) × (one_if JobStatus.succeeded (some job) ≡ 0)
unfolding is_pending
pending_idle job h = (ground (arith, h), ground (arith, h))

module _ (s : System) (safe : AreSafe s.memory.jobs s.handling s.finishing) where
  pub handled_job :
      (i : Uuid)
      → 0 < times i s.handling
      → (job : JobRecord) × (get i s.memory.jobs ≡ some job) × (job.status ≡ JobStatus.running)
  handled_job i h =
      one_if-some JobStatus.running (get i s.memory.jobs) (omega (arith, h, (safe i).handled))

  pub finished_job :
      (i : Uuid)
      → 0 < times i s.finishing
      → (job : JobRecord) × (get i s.memory.jobs ≡ some job) × (job.status ≡ JobStatus.succeeded)
  finished_job i h =
      one_if-some JobStatus.succeeded (get i s.memory.jobs) (omega (arith, h, (safe i).finished))

  -- The record under an id, where it is, is consistent.
  pub known :
      {i : Uuid} {job : JobRecord}
      → get i s.memory.jobs ≡ some job
      → IsConsistent job × (job.id ≡ i)
  known {i} {job} h = (safe i).consistent job h

  -- Nothing works on an id that is free, nor on a job that is pending.
  pub unused :
      (i : Uuid)
      → one_if JobStatus.running (get i s.memory.jobs) ≡ 0
      → one_if JobStatus.succeeded (get i s.memory.jobs) ≡ 0
      → (times i s.handling ≡ 0) × (times i s.finishing ≡ 0)
  unused i r d = (omega (arith, (safe i).handled, r), omega (arith, (safe i).finished, d))

  -- A record that no call works on is written.
  pub idle-AreSafe :
      (i : Uuid) (job : JobRecord)
      → one_if JobStatus.running (get i s.memory.jobs) ≡ 0
      → one_if JobStatus.succeeded (get i s.memory.jobs) ≡ 0
      → IsConsistent job
      → job.id ≡ i
      → AreSafe (put i job s.memory.jobs) s.handling s.finishing
  idle-AreSafe i job r d good named =
      let (no_h, no_f) = unused i r d in
      put-AreSafe s.memory.jobs s.handling s.finishing safe i job s.handling s.finishing
        record {
          handled = omega (arith, no_h);
          finished = omega (arith, no_f);
          consistent =
              λ other e. subst (λ k. IsConsistent k × (k.id ≡ i)) (some-injective e) (good, named);
        }
        (λ j _. omega arith) (λ j _. omega arith)
