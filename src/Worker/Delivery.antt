-- ===== src/Worker/Delivery.antt =====
-- A job from its submission (app/jobs/service.py), through the message that app/queue/kafka.py sends for
-- it, to the worker of app/worker.py that is given that message.
use async_job_processing_pip.Prelude.{
  ◌^◌, ◌<◌, ◌≤◌, ℕ, String, true, false, ◌≡◌, refl, ap, ◌∙◌, Option, none, some, ◌==◌, nat_eq,
  if◌then◌else◌, any, Bool-cases, beq_refl, leb, inl, inr, arith, string_eq,
}
use async_job_processing_pip.Prelude.Dict.{get}
use async_job_processing_pip.Text.{truthy}
use async_job_processing_pip.Calendar.{Instant}
use async_job_processing_pip.Core.Config.{Settings}
use async_job_processing_pip.Core.Json.{Payload}
use async_job_processing_pip.Core.Enums.{is_pending}
use async_job_processing_pip.Core.Errors.{Result, ok}
use async_job_processing_pip.Jobs.{Uuid, Clock, JobCreate, JobRecord}
use async_job_processing_pip.Jobs.Handlers.{Host, Handler, get_handler, ensure_supported_handler}
use async_job_processing_pip.Jobs.Memory.{
  Memory, known_as, new_job, is_claimable, claimed, claim_job, remember, store, create_job,
  succeeded_with,
}
use async_job_processing_pip.Jobs.Repository.{memory_repository}
use async_job_processing_pip.Jobs.Service.{
  World, Run, process_job, submit_job, validate_payload_size, run_with_timeout,
}
use async_job_processing_pip.Jobs.Service.Process.{process_job_skip}
use async_job_processing_pip.Jobs.Memory.Create.{create_job_fresh}
use async_job_processing_pip.Jobs.Service.Outcomes.{WillRun, as_succeeded, taken, success_outcome}
use async_job_processing_pip.Jobs.Service.Submissions.{submit_job_stored, new_job_kept}
use async_job_processing_pip.Queue.{
  JobProducer, Broker, Message, message_value, kafka_producer, topic_for_priority,
}
use async_job_processing_pip.Worker.{topics, process_message}
use async_job_processing_pip.Worker.Messages.{job_id_of-message_value}

if_same : {A : Type 0} {i j : ℕ} → j ≡ i → (a b : A) → (if i == j then a else b) ≡ a
if_same same a b = ground (arith, same)

module _ {P : Type 0} (prod : JobProducer P) (host : Host) (settings : Settings)
    (isoformat : Instant → String) (m : Message) where
  -- What a message that is delivered does to a state.
  abbrev handling : Run → World Memory P → Result (Option JobRecord) × World Memory P
  handling run =
      process_message memory_repository prod host settings run (message_value isoformat m)

  module _ (small : m.job_id < 2 ^ 128) where
    process_message-published :
        (run : Run) (w : World Memory P)
        → process_message memory_repository prod host settings run (message_value isoformat m) w
          ≡ process_job memory_repository prod host run m.job_id settings.worker_id w
    unfolding process_message
    process_message-published run w = rw (job_id_of-message_value isoformat m small) refl

    -- A message of a job that is not to be claimed.
    process_message_skipped :
        (run : Run) (w : World Memory P) {job : JobRecord}
        → get m.job_id w.repository.jobs ≡ some job
        → is_claimable (run.claiming 0) job ≡ false
        → process_message memory_repository prod host settings run (message_value isoformat m) w
          ≡ (ok none, w)
    unfolding claim_job
    process_message_skipped run w stored busy =
        process_message-published run w
        ∙ process_job_skip prod host run m.job_id settings.worker_id w
            (ground (arith, stored, busy))

    module _ (run : Run) (job : JobRecord) (handler : Handler) (w : World Memory P)
        (will : WillRun run job handler w) (named : m.job_id ≡ job.id) where
      abbrev succeeded_as : Payload → JobRecord
      succeeded_as result =
          succeeded_with (run.succeeding 0) result (taken run settings.worker_id job)

      -- A message of a job whose handler returns, and the same message again.
      process_message_succeeds :
          (again : Run) (result : Payload)
          → run_with_timeout host run.join handler job.payload ≡ ok result
          → truthy job.recurring_cron ≡ none
          → ((handling run w).0 ≡ ok (some (succeeded_as result)))
            × (get m.job_id (handling run w).1.repository.jobs ≡ some (succeeded_as result))
            × ((handling run w).1.producer ≡ w.producer)
            × (handling again (handling run w).1 ≡ (ok none, (handling run w).1))
      unfolding is_claimable succeeded_with is_pending
      process_message_succeeds again result ran once =
          let first =
            process_message-published run w
            ∙ ap (λ i. process_job memory_repository prod host run i settings.worker_id w) named in
          let (answer, stored, kept) =
            success_outcome prod host run settings.worker_id job handler w will result ran once in
          let found =
            ap (λ o. get m.job_id o.1.repository.jobs) first
            ∙ stored m.job_id
            ∙ if_same named (some (succeeded_as result)) _ in
          (
            ap (λ o. o.0) first ∙ answer,
            found,
            ap (λ o. o.1.producer) first ∙ kept,
            process_message_skipped again (handling run w).1 found refl,
          )

remember-drain :
    (key : Option String) (i : Uuid) (m : Memory)
    → (remember key i m).drain_enabled ≡ m.drain_enabled
unfolding remember
remember-drain none i m = refl
remember-drain (some key) i m = refl

create_job-drain :
    (clock : Clock) (fresh : Uuid) (request : JobCreate) (m : Memory)
    → known_as (truthy request.idempotency_key) m ≡ none
    → (create_job clock fresh request m).1.drain_enabled ≡ m.drain_enabled
unfolding store
create_job-drain clock fresh request m unknown =
    rw (create_job_fresh clock fresh request m unknown) (
      remember-drain (truthy request.idempotency_key) fresh
        (store fresh (new_job clock fresh request) m))

module _ {B : Type 0} (broker : Broker B) (host : Host) (settings : Settings)
    (isoformat : Instant → String) (clock : Clock) (fresh : Uuid) (request : JobCreate)
    (w : World Memory B) where
  abbrev prod : JobProducer B
  prod = kafka_producer settings broker

  abbrev submitted : JobRecord
  submitted = new_job clock fresh request

  -- The message that is sent for it.
  abbrev sent_message : Message
  sent_message = record {
    job_id = fresh;
    handler = request.handler;
    attempt = 0;
    due_at = some submitted.next_run_at;
  }

  abbrev after_submit : B → World Memory B
  after_submit b = record {
    repository = (create_job clock fresh request w.repository).1;
    producer = b;
  }

  submitted-WillRun :
      (run : Run) {handler : Handler} (b : B)
      → get_handler request.handler ≡ ok handler
      → known_as (truthy request.idempotency_key) w.repository ≡ none
      → w.repository.drain_enabled ≡ false
      → submitted.next_run_at ≤ run.claiming 0
      → WillRun run submitted handler (after_submit b)
  unfolding new_job is_claimable is_pending
  submitted-WillRun run b handled unknown not_drained due = record {
    stored =
        rw (create_job_fresh clock fresh request w.repository unknown)
          (new_job_kept clock fresh request w.repository);
    not_drained = create_job-drain clock fresh request w.repository unknown ∙ not_drained;
    claimable = ground (arith, due);
    handled = handled;
  }

  topic_for_priority-topics :
      (priority : ℕ) → any (λ t. t == topic_for_priority settings priority) (topics settings) ≡ true
  unfolding topic_for_priority topics
  topic_for_priority-topics priority = elim (Bool-cases (leb 8 priority)) [
    | inl urgent ↦ rw urgent (ground (arith, beq_refl settings.kafka_submitted_high_topic))
    | inr not_urgent ↦ elim (Bool-cases (priority == 0)) [
      | inl least ↦
          rw (not_urgent, least) (ground (arith, beq_refl settings.kafka_submitted_low_topic))
      | inr usual ↦
          rw (not_urgent, usual) (ground (arith, beq_refl settings.kafka_submitted_default_topic))
    ]
  ]

  -- The message that Kafka's producer sends for a job that is submitted under a new key, or none, goes to a topic that the worker
  -- subscribes to. If it is sent, claiming is not drained, and the job does not recur, is due by the time
  -- the worker claims it, and its handler is supported and returns, then the worker that is given the message
  -- stores the job as succeeded with the handler's result and sends nothing; and the same message handled once
  -- more on the state that this leaves, whatever the clock then says, changes nothing.
  pub submitted-delivered :
      (run again : Run) (handler : Handler) (result : Payload) (b : B)
      → fresh < 2 ^ 128
      → get_handler request.handler ≡ ok handler
      → validate_payload_size settings request.payload ≡ ok tt
      → known_as (truthy request.idempotency_key) w.repository ≡ none
      → broker.send (topic_for_priority settings request.priority) fresh sent_message w.producer
        ≡ (true, b)
      → w.repository.drain_enabled ≡ false
      → submitted.next_run_at ≤ run.claiming 0
      → run_with_timeout host run.join handler request.payload ≡ ok result
      → truthy request.recurring_cron ≡ none
      → let done = as_succeeded run result submitted in
        let handle = handling prod host settings isoformat sent_message in
        let first =
          handle run (submit_job memory_repository prod settings clock fresh request w).1 in
        ((first.0 ≡ ok (some done))
          × (get fresh first.1.repository.jobs ≡ some done)
          × (first.1.producer ≡ b)
          × (handle again first.1 ≡ (ok none, first.1)))
        × (any (λ t. t == topic_for_priority settings request.priority) (topics settings) ≡ true)
  unfolding kafka_producer ensure_supported_handler new_job succeeded_with claimed
  submitted-delivered run again handler result b bounded handled small unknown sent not_drained due
        ran once =
      let published =
        submit_job_stored prod settings clock fresh request w (rw handled refl) small b unknown
          (rw sent refl) in
      let will = submitted-WillRun run b handled unknown not_drained due in
      (
        rw published (
            process_message_succeeds prod host settings isoformat sent_message bounded run submitted
              handler (after_submit b) will refl again result ran once),
        topic_for_priority-topics request.priority,
      )
