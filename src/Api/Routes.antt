-- ===== src/Api/Routes.antt =====
-- What clients see of the routes of app/main.py, over the in-memory repository.
use async_job_processing_pip.Prelude.{
  String, List, ◌≡◌, ◌⊎◌, inl, inr, refl, sym, ap, ◌∙◌, true, false, none, some, nat_eq,
}
use mathlib.Core.Bool.{true≢false}
use async_job_processing_pip.Prelude.Dict.{get, get-put_self}
use async_job_processing_pip.Text.{truthy}
use async_job_processing_pip.Core.Config.{Settings}
use async_job_processing_pip.Core.Json.{field, empty, str}
use async_job_processing_pip.Core.Enums.{
  JobStatus, queued, running, succeeded, failed, dead_lettered, cancelled, is_pending, status_value,
}
use async_job_processing_pip.Core.Errors.{ok, not_found_error, conflict_error}
use async_job_processing_pip.Jobs.{Uuid, Clock, JobCreate, JobRecord}
use async_job_processing_pip.Jobs.Handlers.{ensure_supported_handler}
use async_job_processing_pip.Jobs.Memory.{Memory, store, new_job, known_as, cancelled_at}
use async_job_processing_pip.Jobs.Memory
use async_job_processing_pip.Jobs.Memory.Create.{create_job_fresh}
use async_job_processing_pip.Jobs.Memory.Steps.{cancel_job_cases}
use async_job_processing_pip.Jobs.Repository.{memory_repository}
use async_job_processing_pip.Jobs.Repository.Calls.{Call, perform_all}
use async_job_processing_pip.Jobs.Repository.Keys.{create_job-replays}
use async_job_processing_pip.Jobs.Service.{
  World, validate_payload_size, publish, publish_new, submit_job,
}
use async_job_processing_pip.Jobs.Service
use async_job_processing_pip.Jobs.Service.Submissions.{submit_job_stored, submit_job_replayed}
use async_job_processing_pip.Queue.{JobProducer}
use async_job_processing_pip.Api.{reply, failure, create_job, cancel_job}

changeable : (s : JobStatus) → is_pending s ≡ true → (s ≡ queued) ⊎ (s ≡ failed)
unfolding is_pending
changeable queued h = inl refl
changeable failed h = inr refl
changeable running h = cc
changeable succeeded h = cc
changeable dead_lettered h = cc
changeable cancelled h = cc

unchangeable : (s : JobStatus) → is_pending s ≡ false → ¬ ((s ≡ queued) ⊎ (s ≡ failed))
unfolding is_pending
unchangeable s h (inl e) = true≢false (sym (ap is_pending e) ∙ h)
unchangeable s h (inr e) = true≢false (sym (ap is_pending e) ∙ h)

module _ {P : Type 0} (prod : JobProducer P) (settings : Settings) (w : World Memory P) where
  -- A request under a new idempotency key whose handler is supported and whose payload is not too large, and
  -- that is published, is answered with 201. Sent once
  -- more, after any calls of the repository and whatever was published since, it is answered with 200, the
  -- same identifier and the status that the job has by then, and nothing changes.
  pub create_job-twice :
      (clock again : Clock) (fresh other : Uuid) (request : JobCreate) (key : String) (p now : P)
      (calls : List Call)
      → truthy request.idempotency_key ≡ some key
      → ensure_supported_handler request.handler ≡ ok tt
      → validate_payload_size settings request.payload ≡ ok tt
      → known_as (some key) w.repository ≡ none
      → prod.publish_job fresh request.handler request.priority
          (new_job clock fresh request).next_run_at
          0
          w.producer
        ≡ (ok tt, p)
      → let first = create_job memory_repository prod settings clock fresh request w in
        let later : World Memory P = record {
          repository = (perform_all memory_repository calls first.1.repository).1;
          producer = now;
        } in
        let second = create_job memory_repository prod settings again other request later in
        (first.0 ≡ reply 201 (record { id = fresh; status = queued; idempotent_replay = false }))
        × (job : JobRecord) × (get fresh later.repository.jobs ≡ some job)
        × (second.0
            ≡ reply 200 (record { id = fresh; status = job.status; idempotent_replay = true }))
        × (second.1 ≡ later)
  unfolding create_job new_job
  create_job-twice clock again fresh other request key p now calls keyed supported small unknown
        sent =
      let new : known_as (truthy request.idempotency_key) w.repository ≡ none = rw keyed unknown in
      let made = create_job_fresh clock fresh request w.repository new in
      let stored = Memory.create_job clock fresh request w.repository in
      let (job, found, named, replay) =
        create_job-replays clock fresh request w.repository key keyed calls again other request
          keyed (ap (λ r. r.0) made) in
      let later : World Memory P = record {
        repository = (perform_all memory_repository calls stored.1).1;
        producer = now;
      } in
      rw (submit_job_stored prod settings clock fresh request w supported small p new sent) (
        refl,
        job,
        found,
        rw (submit_job_replayed prod settings again other request later supported small replay)
            (rw named refl),
        rw (submit_job_replayed prod settings again other request later supported small replay)
            refl,
      )

  -- Cancelling is answered with 404 where there is no such job, and with 409 and its status where it is
  -- neither queued nor failed; the state is then as before. A job that is queued or failed is answered with
  -- 200 and the status cancelled, and is stored so.
  pub cancel_job-status :
      (clock : Clock) (i : Uuid)
      → let out = cancel_job memory_repository prod settings clock i w in
        ((get i w.repository.jobs ≡ none)
          × (out ≡ (
            failure 404 (record { code = "not_found"; message = "Job not found"; details = empty }),
            w,
          )))
        ⊎ ((job : JobRecord) × (get i w.repository.jobs ≡ some job)
            × ¬ ((job.status ≡ queued) ⊎ (job.status ≡ failed))
            × (out ≡ (
              failure 409 (record {
                code = "conflict";
                message = "Only pending jobs can be cancelled";
                details = field "status" (str (status_value job.status)) empty;
              }),
              w,
            )))
        ⊎ ((job : JobRecord) × (get i w.repository.jobs ≡ some job)
            × ((job.status ≡ queued) ⊎ (job.status ≡ failed))
            × (out.0 ≡ reply 200 (record { id = job.id; status = cancelled }))
            × (get i out.1.repository.jobs
                ≡ some (record job {
                  status = cancelled;
                  updated_at = clock 0;
                  processed_at = some (clock 0);
                })))
  unfolding cancel_job memory_repository Service.cancel_job cancelled_at not_found_error
      conflict_error store
  cancel_job-status clock i = elim (cancel_job_cases clock i w.repository) [
    | inl (missing, same) ↦ inl (missing, rw same refl)
    | inr (inl (job, stored, busy, same)) ↦
        inr (inl (job, stored, unchangeable job.status busy, rw same refl))
    | inr (inr (job, stored, pending, after)) ↦ inr (
        inr (
          job,
          stored,
          changeable job.status pending,
          rw after refl,
          rw after (get-put_self i (cancelled_at (clock 0) job) w.repository.jobs),
        ))
  ]
