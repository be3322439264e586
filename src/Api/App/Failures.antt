-- ===== src/Api/App/Failures.antt =====
-- What a request to app/main.py that is answered with an error leaves.
use async_job_processing_pip.Prelude.{
  ℕ, String, Bool, true, false, ◌≡◌, ◌⊎◌, inl, inr, refl, sym, ap, ◌∙◌, none, some, leb, nat_eq,
  Option-cases,
}
use async_job_processing_pip.Prelude.Dict.{get}
use mathlib.Core.Bool.{false≢true}
use async_job_processing_pip.Text.{truthy}
use async_job_processing_pip.Core.Config.{Settings}
use async_job_processing_pip.Core.Errors.{Raised, Result, ok, err, Result-cases, ◌>>=◌}
use async_job_processing_pip.Jobs.{JobCreate, JobRecord}
use async_job_processing_pip.Jobs.Handlers.{ensure_supported_handler}
use async_job_processing_pip.Jobs.Memory.{Memory, new_job, known_as}
use async_job_processing_pip.Jobs.Memory.Steps.{cancel_job_cases}
use async_job_processing_pip.Jobs.Repository.{memory_repository}
use async_job_processing_pip.Jobs.Requests.{JobRequest, Validated, valid, invalid, raised, validate}
use async_job_processing_pip.Jobs.Service.{World, validate_payload_size, submit_job}
use async_job_processing_pip.Jobs.Service
use async_job_processing_pip.Jobs.Service.Submissions.{
  submit_job_new, submit_job_refused, submit_job_known,
}
use async_job_processing_pip.Queue.{JobProducer}
use async_job_processing_pip.Api.{Response, reply, failure, crash, respond, created, error_response}
use async_job_processing_pip.Api
use async_job_processing_pip.Api.App.{
  Operation, Route, on_service, serve, with_service, Request, Surroundings, Body, call, submit,
  finished, request_id_of, dispatch, map_response, job_created, job_cancelled, get_healthz,
  get_readyz, post_job, get_job, get_jobs, get_depth, get_metrics, post_cancel, post_drain,
  get_drain,
}

module _ {P : Type 0} (prod : JobProducer P) (settings : Settings) (env : Surroundings)
    (w : World Memory P) where
  -- That a job is stored and publishing it raises.
  abbrev Unpublished : JobCreate → World Memory P → Type 0
  Unpublished request w' =
      (x : Raised) × (prod.publish_job env.fresh request.handler request.priority
          (new_job env.clock env.fresh request).next_run_at 0 w.producer
        ≡ (err x, w'.producer))
      × (get env.fresh w'.repository.jobs ≡ some (new_job env.clock env.fresh request))

  -- What a request that fails may leave: the state as it was, or that of a submission whose job is stored
  -- and could not be published.
  abbrev Left : Route → World Memory P → Type 0
  Left route w' =
      (w' ≡ w)
      ⊎ ((body : JobRequest) × (request : JobCreate) × (route ≡ on_service (post_job body))
          × (validate body ≡ valid request)
          × Unpublished request w')

  submitted_new :
      (request : JobCreate)
      → ensure_supported_handler request.handler ≡ ok tt
      → validate_payload_size settings request.payload ≡ ok tt
      → known_as (truthy request.idempotency_key) w.repository ≡ none
      → let out = submit_job memory_repository prod settings env.clock env.fresh request w in
        (out.0 ≡ ok (new_job env.clock env.fresh request, false)) ⊎ Unpublished request out.1
  unfolding new_job
  submitted_new request supported small unknown =
      let sent =
        prod.publish_job env.fresh request.handler request.priority
          (new_job env.clock env.fresh request).next_run_at 0 w.producer in
      let (answered, stored, kept) =
        submit_job_new prod settings env.clock env.fresh request w supported small sent.0 sent.1
          unknown refl in
      elim (Result-cases sent.0) [
        | inl (_, good) ↦
            inl (
              answered
              ∙ ap (λ r. r >>= (λ _. ok (new_job env.clock env.fresh request, false))) good)
        | inr (x, bad) ↦ inr (x, cc, stored)
      ]

  submitted :
      (request : JobCreate)
      → let out = submit_job memory_repository prod settings env.clock env.fresh request w in
        (out.1 ≡ w)
        ⊎ (out.0 ≡ ok (new_job env.clock env.fresh request, false))
        ⊎ Unpublished request out.1
  submitted request = elim (Result-cases (ensure_supported_handler request.handler)) [
    | inr (x, refused) ↦ inl (
        ap (λ o. o.1)
          (submit_job_refused prod settings env.clock env.fresh request w x (inl refused)))
    | inl (_, supported) ↦ elim (Result-cases (validate_payload_size settings request.payload)) [
      | inr (x, large) ↦ inl (
          ap (λ o. o.1)
            (submit_job_refused prod settings env.clock env.fresh request w x
              (inr (supported, large))))
      | inl (_, small) ↦
          elim (Option-cases (known_as (truthy request.idempotency_key) w.repository)) [
            | inr (i, known) ↦ inl (
                ap (λ o. o.1)
                  (submit_job_known prod settings env.clock env.fresh request w supported small
                    known))
            | inl unknown ↦ inr (submitted_new request supported small unknown)
          ]
    ]
  ]

  module _ (id : String) where
    abbrev status_of : Response Body → ℕ
    status_of r = (finished id r).status_code

    submit-Left :
        (body : JobRequest) (v : Validated)
        → validate body ≡ v
        → let out = submit memory_repository prod settings env v w in
          leb 400 (status_of out.0) ≡ true → Left (on_service (post_job body)) out.1
    unfolding submit finished map_response respond created Api.create_job
    submit-Left body invalid h failed = inl refl
    submit-Left body (raised x) h failed = inl refl
    submit-Left body (valid request) h failed = elim (submitted request) [
      | inl same ↦ inl same
      | inr (inl answered) ↦ absurd (
          false≢true (
            sym (
              ap (λ r. leb 400 (status_of (map_response job_created (respond created r)))) answered)
            ∙ failed))
      | inr (inr kept) ↦ inr (body, request, refl, h, kept)
    ]

    abbrev cancel_fails : Result JobRecord → Bool
    cancel_fails r = leb 400 (
        status_of (
          map_response job_cancelled
            (respond (λ job. reply 200 (record { id = job.id; status = job.status })) r)))

    serve-Left :
        (operation : Operation)
        → let out = serve memory_repository prod settings env operation w in
          leb 400 (status_of out.0) ≡ true → Left (on_service operation) out.1
    unfolding serve finished map_response Api.set_drain Api.cancel_job respond memory_repository
        Service.cancel_job
    serve-Left (post_job body) failed = submit-Left body (validate body) refl failed
    serve-Left (get_job i) failed = inl refl
    serve-Left (get_jobs status handler limit offset) failed = inl refl
    serve-Left get_depth failed = inl refl
    serve-Left get_metrics failed = inl refl
    serve-Left get_drain failed = inl refl
    serve-Left (post_drain enabled) failed = absurd (false≢true failed)
    serve-Left (post_cancel i) failed = elim (cancel_job_cases env.clock i w.repository) [
      | inl (missing, same) ↦ inl (rw same refl)
      | inr (inl (job, stored, busy, same)) ↦ inl (rw same refl)
      | inr (inr (job, stored, pending, after)) ↦
          absurd (false≢true (sym (ap (λ o. cancel_fails o.0) after) ∙ failed))
    ]

    with_service-Left :
        (made : Result (Unit {0})) (operation : Operation)
        → let out = with_service memory_repository prod settings env made operation w in
          leb 400 (status_of out.0) ≡ true → Left (on_service operation) out.1
    unfolding with_service
    with_service-Left (ok _) operation failed = serve-Left operation failed
    with_service-Left (err x) operation failed = inl refl

    call-Left :
        (route : Route)
        → let out = call memory_repository prod settings env route w in
          leb 400 (status_of out.0) ≡ true → Left route out.1
    unfolding call
    call-Left get_healthz failed = inl refl
    call-Left get_readyz failed = inl refl
    call-Left (on_service operation) failed = with_service-Left env.kafka operation failed

-- A request to the application that is answered with a status of 400 or more has changed nothing, whichever
-- its route is. There is one exception, a submission whose body is accepted and that cannot be published:
-- the producer has raised, and the new job stays stored.
pub dispatch-failed :
    {P : Type 0} (prod : JobProducer P) (settings : Settings) (env : Surroundings)
    (request : Request) (w : World Memory P)
    → let out = dispatch memory_repository prod settings env request w in
      leb 400 out.0.status_code ≡ true
      → (out.1 ≡ w)
        ⊎ ((body : JobRequest) × (job : JobCreate) × (x : Raised) × (request.route
              ≡ on_service (post_job body))
            × (validate body ≡ valid job)
            × (prod.publish_job env.fresh job.handler job.priority
                  (new_job env.clock env.fresh job).next_run_at
                  0
                  w.producer
                ≡ (err x, out.1.producer))
            × (get env.fresh out.1.repository.jobs ≡ some (new_job env.clock env.fresh job)))
unfolding dispatch
dispatch-failed prod settings env request w failed =
    elim (call-Left prod settings env w (request_id_of env request.request_id) request.route
      failed) [
        | inl same ↦ inl same
        | inr (body, job, route, accepted, (x, sent, stored)) ↦
            inr (body, job, x, route, accepted, sent, stored)
      ]
