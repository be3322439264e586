-- ===== src/Jobs/Repository/Keys.antt =====
-- Idempotency keys over any calls of `InMemoryJobRepository` of app/jobs/repositories.py.
use async_job_processing_pip.Prelude.{
  String, ◌≡◌, refl, sym, ap, ◌∙◌, inl, inr, true, false, Option, none, some, List, [], ◌∷◌, arith,
  ◌==◌, nat_eq, string_eq, Bool-cases, Option-cases, subst,
}
use async_job_processing_pip.Prelude.Dict.{get, get-put, get-put_self}
use async_job_processing_pip.Text.{truthy}
use async_job_processing_pip.Scheduling.{next_cron_run}
use async_job_processing_pip.Core.Errors.{Result, Result-cases, ok}
use async_job_processing_pip.Core.Enums.{is_pending}
use async_job_processing_pip.Jobs.{Uuid, Clock, JobCreate, JobRecord}
use async_job_processing_pip.Jobs.Memory.{
  Memory, store, new_job, known_as, remember, create_job, get_job, modify, is_claimable, claimed,
  claim_job, succeeded_with, mark_succeeded, failed_with, mark_failed_attempt, cancelled_at,
  cancel_job, next_job, create_next_recurring_job, set_drain,
}
use async_job_processing_pip.Jobs.Memory
use async_job_processing_pip.Jobs.Memory.Create.{create_job_new, create_job_known, create_job_fresh}
use async_job_processing_pip.Jobs.Memory.Steps.{
  get-store, claim_job_cases, create_next_none, create_next_some, create_next_refused,
}
use async_job_processing_pip.Jobs.Repository.{memory_repository}
use async_job_processing_pip.Jobs.Repository.Calls.{
  Call, create, find, select_jobs, select_due, claim, succeed, recur, fail, cancel, drain,
  ask_drain, perform, perform_all,
}

-- The key is known, for the job that is stored under `i`.
pub record IsKnown (key : String) (i : Uuid) (m : Memory) : Type 0 where
  pub known : get key m.idempotency ≡ some i
  pub job : JobRecord
  pub stored : get i m.jobs ≡ some job
  pub named : job.id ≡ i

known-same :
    (clock : Clock) (fresh : Uuid) (request : JobCreate) (m : Memory) {j : Uuid}
    → known_as (truthy request.idempotency_key) m ≡ some j
    → (create_job clock fresh request m).1 ≡ m
unfolding create_job
known-same clock fresh request m old = rw (old, create_job) refl

cancel_id : (clock : Clock) (a b : JobRecord) → Memory.cancel (clock 0) a ≡ ok b → b.id ≡ a.id
unfolding Memory.cancel cancelled_at
cancel_id clock a b h = elim (Bool-cases (is_pending a.status)) [
  | inl pending ↦ ground (arith, h, pending)
  | inr busy ↦ ground (arith, h, busy)
]

module _ (key : String) (i : Uuid) where
  store-IsKnown :
      (k : Uuid) (job : JobRecord) (m : Memory)
      → (k ≡ i → job.id ≡ i)
      → IsKnown key i m
      → IsKnown key i (store k job m)
  unfolding store
  store-IsKnown k job m same h = elim (Bool-cases (k == i)) [
    | inl here ↦ record {
      known = h.known;
      job = job;
      stored = get-store k i job m ∙ rw here refl;
      named = same ((nat_eq.beq_iff k i).0 here);
    }
    | inr other ↦ record {
      known = h.known;
      job = h.job;
      stored = get-store k i job m ∙ rw other h.stored;
      named = h.named;
    }
  ]

  stored_id :
      {k : Uuid} {job : JobRecord} {m : Memory}
      → IsKnown key i m
      → get k m.jobs ≡ some job
      → k ≡ i
      → job.id ≡ i
  stored_id h found same = ground (arith, h.stored, h.named, found, same)

  modify-IsKnown :
      (k : Uuid) (update : JobRecord → Result JobRecord) (m : Memory)
      → ((a b : JobRecord) → update a ≡ ok b → b.id ≡ a.id)
      → IsKnown key i m
      → IsKnown key i (modify k update m).1
  unfolding modify get_job
  modify-IsKnown k update m keeps h = elim (Option-cases (get k m.jobs)) [
    | inl missing ↦ rw (missing, modify, get_job) h
    | inr (a, found) ↦ elim (Result-cases (update a)) [
      | inl (b, updated) ↦
          rw (found, modify, get_job)
            (rw updated
              (store-IsKnown k b m (λ same. keeps a b updated ∙ stored_id h found same) h))
      | inr (x, refused) ↦ rw (found, modify, get_job) (rw refused h)
    ]
  ]

  remember-IsKnown :
      (other : Option String) (fresh : Uuid) (m n : Memory)
      → known_as other n ≡ none
      → n.idempotency ≡ m.idempotency
      → IsKnown key i m
      → IsKnown key i (remember other fresh m)
  unfolding remember known_as
  remember-IsKnown none fresh m n new same h = h
  remember-IsKnown (some other) fresh m n new same h = record {
    known = elim (Bool-cases (other == key)) [
      | inl e ↦
          let at : other ≡ key = (string_eq.beq_iff other key).0 e in
          let clash : none ≡ some i =
            sym new ∙ ap (get other) same ∙ ap (λ k. get k m.idempotency) at ∙ h.known in
          cc
      | inr e ↦ get-put other key fresh m.idempotency ∙ rw e h.known
    ];
    job = h.job;
    stored = h.stored;
    named = h.named;
  }

  create-IsKnown :
      (clock : Clock) (fresh : Uuid) (request : JobCreate) (m : Memory)
      → IsKnown key i m
      → IsKnown key i (create_job clock fresh request m).1
  unfolding new_job store
  create-IsKnown clock fresh request m h =
      elim (Option-cases (known_as (truthy request.idempotency_key) m)) [
        | inl new ↦ rw (create_job_fresh clock fresh request m new) (
            remember-IsKnown (truthy request.idempotency_key) fresh
              (store fresh (new_job clock fresh request) m) m new refl
              (store-IsKnown fresh (new_job clock fresh request) m (λ same. same) h))
        | inr (j, old) ↦ subst (IsKnown key i) (sym (known-same clock fresh request m old)) h
      ]

  claim-IsKnown :
      (clock : Clock) (k : Uuid) (worker_id : String) (m : Memory)
      → IsKnown key i m
      → IsKnown key i (claim_job clock k worker_id m).1
  unfolding claimed
  claim-IsKnown clock k worker_id m h = elim (claim_job_cases clock k m worker_id) [
    | inl (same, _) ↦ rw same h
    | inr (job, found, _, _, taken) ↦
        rw taken (store-IsKnown k (claimed (clock 0) worker_id job) m (stored_id h found) h)
  ]

  recur-IsKnown :
      (clock : Clock) (fresh : Uuid) (job : JobRecord) (m : Memory)
      → IsKnown key i m
      → IsKnown key i (create_next_recurring_job clock fresh job m).1
  unfolding next_job
  recur-IsKnown clock fresh job m h = elim (Option-cases (truthy job.recurring_cron)) [
    | inl once ↦ rw (create_next_none clock fresh job m once) h
    | inr (cron, recurs) ↦ elim (Result-cases (next_cron_run cron (clock 0))) [
      | inl (t, next) ↦
          rw (create_next_some clock fresh job m recurs next)
            (store-IsKnown fresh (next_job clock fresh t job) m (λ same. same) h)
      | inr (x, refused) ↦ rw (create_next_refused clock fresh job m recurs refused) h
    ]
  ]

  perform-IsKnown :
      (call : Call) (m : Memory)
      → IsKnown key i m
      → IsKnown key i (perform memory_repository call m).1
  unfolding perform memory_repository mark_succeeded succeeded_with mark_failed_attempt failed_with
      cancel_job set_drain
  perform-IsKnown (create clock fresh request) m h = create-IsKnown clock fresh request m h
  perform-IsKnown (find k) m h = h
  perform-IsKnown (select_jobs status handler limit offset) m h = h
  perform-IsKnown (select_due clock limit) m h = h
  perform-IsKnown (claim clock attempt_id k worker_id) m h = claim-IsKnown clock k worker_id m h
  perform-IsKnown (succeed clock k result) m h =
      modify-IsKnown k (λ job. ok (succeeded_with (clock 0) result job)) m
        (λ a b e. ground (arith, e)) h
  perform-IsKnown (recur clock fresh job) m h = recur-IsKnown clock fresh job m h
  perform-IsKnown (fail clock k error backoff_seconds) m h =
      modify-IsKnown k (λ job. ok (failed_with (clock 0) error backoff_seconds job)) m
        (λ a b e. ground (arith, e)) h
  perform-IsKnown (cancel clock k) m h =
      modify-IsKnown k (Memory.cancel (clock 0)) m (cancel_id clock) h
  perform-IsKnown (drain clock enabled) m h = record {
    known = h.known;
    job = h.job;
    stored = h.stored;
    named = h.named;
  }
  perform-IsKnown ask_drain m h = h

  pub perform_all-IsKnown :
      (calls : List Call) (m : Memory)
      → IsKnown key i m
      → IsKnown key i (perform_all memory_repository calls m).1
  unfolding perform_all
  perform_all-IsKnown [] m h = h
  perform_all-IsKnown (call ∷ calls) m h =
      perform_all-IsKnown calls (perform memory_repository call m).1 (perform-IsKnown call m h)

module _ (clock : Clock) (fresh : Uuid) (request : JobCreate) (m : Memory) (key : String)
    (keyed : truthy request.idempotency_key ≡ some key) where
  -- A submission under a new key makes the key known.
  pub created-IsKnown :
      known_as (truthy request.idempotency_key) m ≡ none
      → IsKnown key fresh (create_job clock fresh request m).1
  unfolding store new_job remember
  created-IsKnown new =
      let after = store fresh (new_job clock fresh request) m in
      rw (create_job_fresh clock fresh request m new, keyed)
        (record {
          known = get-put_self key fresh m.idempotency;
          job = new_job clock fresh request;
          stored = get-put_self fresh (new_job clock fresh request) m.jobs;
          named = refl;
        })

  -- After a submission under a key is accepted, and any calls of the repository that follow, a submission
  -- under that key, whatever else it asks for, answers with the job that the first one made, as it is stored
  -- by then, is marked as a replay and changes nothing.
  pub create_job-replays :
      (calls : List Call) (again : Clock) (other : Uuid) (second : JobCreate) {job : JobRecord}
      → truthy second.idempotency_key ≡ some key
      → (create_job clock fresh request m).0 ≡ ok (job, false)
      → let later = (perform_all memory_repository calls (create_job clock fresh request m).1).1 in
        (now : JobRecord) × (get job.id later.jobs ≡ some now)
        × (now.id ≡ job.id)
        × (create_job again other second later ≡ (ok (now, true), later))
  unfolding new_job known_as
  create_job-replays calls again other second keyed' accepted =
      let (made, new, _) = create_job_new clock fresh request m accepted in
      let later = (perform_all memory_repository calls (create_job clock fresh request m).1).1 in
      let h =
        perform_all-IsKnown key fresh calls (create_job clock fresh request m).1
          (created-IsKnown new) in
      let known : known_as (truthy second.idempotency_key) later ≡ some fresh = rw keyed' h.known in
      rw made (h.job, h.stored, h.named, create_job_known again other second later known h.stored)
