-- ===== src/Jobs/Service/Submissions.antt =====
-- `submit_job` and `publish_due_jobs` of app/jobs/service.py, over the in-memory repository.
use async_job_processing_pip.Prelude.{
  ℕ, ◌≤◌, ◌<◌, ◌&&◌, min, keep, leb, length, map, ◌⊎◌, inl, inr, ◌≡◌, refl, sym, ap, ◌∙◌, true,
  false, none, some, List, [], ◌∷◌, ◌++◌, arith, nat_eq, string_eq, Option-cases,
}
use async_job_processing_pip.Prelude.Dict.{get, get-put_self}
use mathlib.Core.List.{Perm, append-nil, append_assoc}
use async_job_processing_pip.Sorting.Laws.{AreOrdered}
use async_job_processing_pip.Core.Enums.{is_pending}
use async_job_processing_pip.Jobs.Memory.Queries.{due_jobs-IsSorted}
use async_job_processing_pip.Text.{truthy}
use async_job_processing_pip.Core.Config.{Settings}
use async_job_processing_pip.Core.Errors.{Raised, key_error, Result, ok, err, ◌>>=◌}
use async_job_processing_pip.Core.Exec.{>>-ok}
use async_job_processing_pip.Jobs.{Uuid, Clock, JobCreate, JobRecord}
use async_job_processing_pip.Jobs.Handlers.{ensure_supported_handler}
use async_job_processing_pip.Jobs.Memory.{
  Memory, values, store, new_job, known_as, remember, at_key, replayed, create_job, due_jobs,
}
use async_job_processing_pip.Jobs.Memory.Create.{
  create_job_fresh, create_job_known, create_job_lost, remember-jobs,
}
use async_job_processing_pip.Jobs.Repository.{memory_repository}
use async_job_processing_pip.Jobs.Service.{
  World, validate_payload_size, publish, publish_all, publish_new, submit_job, publish_due_jobs,
}
use async_job_processing_pip.Queue.{JobProducer, FakeJobProducer, PublishedJob, fake_producer}

pub new_job_kept :
    (clock : Clock) (fresh : Uuid) (request : JobCreate) (m : Memory)
    → get fresh
        (remember
          (truthy request.idempotency_key)
          fresh
          (store fresh (new_job clock fresh request) m)).jobs
      ≡ some (new_job clock fresh request)
unfolding store
new_job_kept clock fresh request m =
    let job = new_job clock fresh request in
    ap (get fresh) (
      remember-jobs clock fresh request m (truthy request.idempotency_key) fresh
        (store fresh job m))
    ∙ get-put_self fresh job m.jobs

module _ {P : Type 0} (prod : JobProducer P) (settings : Settings) (clock : Clock) (fresh : Uuid)
    (request : JobCreate) (w : World Memory P) where
  -- A request for a handler that is not registered, or with a payload that is too large.
  pub submit_job_refused :
      (x : Raised)
      → (ensure_supported_handler request.handler ≡ err x)
        ⊎ ((ensure_supported_handler request.handler ≡ ok tt)
            × (validate_payload_size settings request.payload ≡ err x))
      → submit_job memory_repository prod settings clock fresh request w ≡ (err x, w)
  unfolding submit_job
  submit_job_refused x (inl h) = rw h refl
  submit_job_refused x (inr (h, k)) = rw h (rw k refl)

  module _ (supported : ensure_supported_handler request.handler ≡ ok tt)
      (small : validate_payload_size settings request.payload ≡ ok tt) where
    -- A new request is stored, and then published once. If publishing raises, the request raises the same,
    -- and the job stays stored.
    pub submit_job_new :
        (r : Result (Unit {0})) (p : P)
        → known_as (truthy request.idempotency_key) w.repository ≡ none
        → let job = new_job clock fresh request in
          prod.publish_job fresh job.handler job.priority job.next_run_at 0 w.producer ≡ (r, p)
          → let out = submit_job memory_repository prod settings clock fresh request w in
            (out.0 ≡ (r >>= (λ _. ok (job, false))))
            × (get fresh out.1.repository.jobs ≡ some job)
            × (out.1.producer ≡ p)
    unfolding submit_job memory_repository publish_new publish new_job
    submit_job_new (ok tt) p unknown sent = rw supported (
        rw small (
          rw (create_job_fresh clock fresh request w.repository unknown)
            (rw sent (refl, new_job_kept clock fresh request w.repository, refl))))
    submit_job_new (err x) p unknown sent = rw supported (
        rw small (
          rw (create_job_fresh clock fresh request w.repository unknown)
            (rw sent (refl, new_job_kept clock fresh request w.repository, refl))))

    -- The whole state after a submission that is published.
    pub submit_job_stored :
        (p : P)
        → known_as (truthy request.idempotency_key) w.repository ≡ none
        → let job = new_job clock fresh request in
          prod.publish_job fresh job.handler job.priority job.next_run_at 0 w.producer ≡ (ok tt, p)
          → submit_job memory_repository prod settings clock fresh request w ≡ (
            ok (job, false),
            record { repository = (create_job clock fresh request w.repository).1; producer = p },
          )
    unfolding submit_job memory_repository publish_new publish new_job
    submit_job_stored p unknown sent =
        rw supported
          (rw small (rw (create_job_fresh clock fresh request w.repository unknown) (rw sent refl)))

    pub submit_job_replayed :
        {job : JobRecord}
        → create_job clock fresh request w.repository ≡ (ok (job, true), w.repository)
        → submit_job memory_repository prod settings clock fresh request w ≡ (ok (job, true), w)
    unfolding submit_job memory_repository publish_new
    submit_job_replayed made = rw supported (rw small (rw made refl))

    -- A request under a known key.
    pub submit_job_known :
        {i : Uuid}
        → known_as (truthy request.idempotency_key) w.repository ≡ some i
        → submit_job memory_repository prod settings clock fresh request w
          ≡ (replayed (at_key i w.repository), w)
    unfolding submit_job memory_repository publish_new replayed at_key
    submit_job_known {i} known = elim (Option-cases (get i w.repository.jobs)) [
      | inl missing ↦
          let made : create_job clock fresh request w.repository ≡ (err key_error, w.repository) =
            create_job_lost clock fresh request w.repository known missing in
          rw supported (rw small (rw made (rw (missing, replayed, at_key) refl)))
      | inr (job, stored) ↦
          rw (stored, replayed, at_key)
            (submit_job_replayed (create_job_known clock fresh request w.repository known stored))
    ]

-- The message of a job.
abbrev pub as_published : JobRecord → PublishedJob
as_published job = record {
  job_id = job.id;
  handler = job.handler;
  priority = job.priority;
  due_at = job.next_run_at;
  attempt = job.attempt_count;
}

abbrev pub published_too : List PublishedJob → FakeJobProducer → FakeJobProducer
published_too more p = record p { published = p.published ++ more }

publish-fake :
    (job : JobRecord) (w : World Memory FakeJobProducer)
    → w.producer.available ≡ true
    → publish fake_producer job w
      ≡ (ok tt, record w { producer = published_too (as_published job ∷ []) w.producer })
unfolding fake_producer publish
publish-fake job w h = ground (arith, h)

abbrev all_published :
    List PublishedJob
    → World Memory FakeJobProducer
    → Result (Unit {0}) × World Memory FakeJobProducer
all_published messages w =
    (ok tt, record w { producer = record w.producer { published = messages } })

publish_all-fake :
    (jobs : List JobRecord) (w : World Memory FakeJobProducer)
    → w.producer.available ≡ true
    → publish_all fake_producer jobs w
      ≡ all_published (w.producer.published ++ map as_published jobs) w
unfolding publish_all
publish_all-fake [] w h = ap (λ ms. all_published ms w) (sym (append-nil w.producer.published))
publish_all-fake (job ∷ jobs) w h =
    let w' = record w { producer = published_too (as_published job ∷ []) w.producer } in
    >>-ok (publish fake_producer job) (publish_all fake_producer jobs) (publish-fake job w h)
    ∙ publish_all-fake jobs w' h
    ∙ ap (λ ms. all_published ms w)
        (append_assoc w.producer.published (as_published job ∷ []) (map as_published jobs))

published_due :
    (settings : Settings) (clock : Clock) (limit : ℕ) (w : World Memory FakeJobProducer)
    → w.producer.available ≡ true
    → let due = due_jobs clock limit w.repository in
      publish_due_jobs memory_repository fake_producer settings clock limit w
      ≡ (ok (length due), record w { producer = published_too (map as_published due) w.producer })
unfolding publish_due_jobs memory_repository
published_due settings clock limit w h =
    rw (publish_all-fake (due_jobs clock limit w.repository) w h) refl

-- The jobs that are published are the pending ones whose time has come, as many as the limit allows, once
-- each and in their order: each stands before those of a lower priority, or of the same and not created
-- earlier. They are counted in the answer, and the repository is not changed, so a second call at the same
-- time publishes them once more.
pub publish_due_jobs-published :
    (settings : Settings) (clock : Clock) (limit : ℕ) (w : World Memory FakeJobProducer)
    → w.producer.available ≡ true
    → let call = publish_due_jobs memory_repository fake_producer settings clock limit in
      let pending =
        keep
          (λ (j : JobRecord). is_pending j.status && leb j.next_run_at (clock 0))
          (values w.repository.jobs) in
      (due : List JobRecord) × (left_out : List JobRecord) × Perm (due ++ left_out) pending
      × AreOrdered
          (λ a b.
            (b.priority < a.priority) ⊎ ((a.priority ≡ b.priority) × (a.created_at ≤ b.created_at)))
          (due ++ left_out)
      × (length due ≡ min limit (length pending))
      × (call w ≡ (
        ok (length due),
        record w { producer = published_too (map as_published due) w.producer },
      ))
      × (call (call w).1 ≡ (
        ok (length due),
        record w {
          producer =
              published_too
                (map as_published due)
                (published_too (map as_published due) w.producer);
        },
      ))
publish_due_jobs-published settings clock limit w h =
    let due = due_jobs clock limit w.repository in
    let once = published_due settings clock limit w h in
    let (left_out, same, ordered, many) = due_jobs-IsSorted clock limit w.repository in
    let after = record w { producer = published_too (map as_published due) w.producer } in
    (
      due,
      left_out,
      same,
      ordered,
      many,
      once,
      ap (λ o. publish_due_jobs memory_repository fake_producer settings clock limit o.1) once
          ∙ published_due settings clock limit after h,
    )
