-- ===== src/Queue.antt =====
-- app/queue/kafka.py: the producer that the service publishes through, Kafka's and the tests' fake.
use async_job_processing_pip.Prelude.{
  ℕ, String, Bool, true, false, List, [], ◌∷◌, ◌++◌, Option, none, some, leb, ◌==◌, nat_eq,
  if◌then◌else◌,
}
use async_job_processing_pip.Calendar.{Instant}
use async_job_processing_pip.Core.Json.{Json, field, empty, str, int, obj}
use async_job_processing_pip.Prelude.Int.{pos}
use async_job_processing_pip.Core.Config.{Settings}
use async_job_processing_pip.Core.Errors.{
  Raised, service_error, Result, ok, err, raise, dependency_unavailable_error,
}
use async_job_processing_pip.Core.Exec.{Exec}
use async_job_processing_pip.Jobs.{Uuid, uuid_text}

-- The `JobProducer` protocol, over the producer's state. A `due_at` is the instant that its text says.
pub record JobProducer (P : Type 0) : Type 0 where
  pub publish_job : Uuid → String → ℕ → Instant → ℕ → Exec P (Unit {0})
  pub publish_dead_letter : Uuid → String → ℕ → Exec P (Unit {0})
  pub ready : P → Bool

unfoldable pub topic_for_priority : Settings → ℕ → String
topic_for_priority settings priority =
    if leb 8 priority
    then settings.kafka_submitted_high_topic
    else if priority == 0
    then settings.kafka_submitted_low_topic
    else settings.kafka_submitted_default_topic

unfoldable pub unpublished : Uuid → Raised
unpublished job_id = service_error (
    dependency_unavailable_error "Kafka publish failed"
      (field "job_id" (str (uuid_text job_id)) empty))

unfoldable pub publish_failed : Uuid → Result (Unit {0})
publish_failed job_id = err (unpublished job_id)

dead_letter_failed : Uuid → Result (Unit {0})
dead_letter_failed job_id = raise (
    dependency_unavailable_error "Kafka dead-letter publish failed"
      (field "job_id" (str (uuid_text job_id)) empty))

-- The value of a message; a dead letter has no `due_at`.
pub record Message : Type 0 where
  pub job_id : Uuid
  pub handler : String
  pub attempt : ℕ
  pub due_at : Option Instant

-- That value as it is sent; `isoformat` gives the text of a time.
unfoldable pub message_value : (Instant → String) → Message → Json
message_value isoformat m = obj (
    field "job_id" (str (uuid_text m.job_id)) (
      field "handler" (str m.handler) (
        field "attempt" (int (pos m.attempt))
          (elim m.due_at [ none ↦ empty | some t ↦ field "due_at" (str (isoformat t)) empty ]))))

-- What the Kafka client is used for: to send under a key and wait for the acknowledgement, which fails
-- by `KafkaError`, and to ask whether the cluster answers.
pub record Broker (B : Type 0) : Type 0 where
  pub send : String → Uuid → Message → B → Bool × B
  pub reachable : B → Bool

outcome : {B : Type 0} → Result (Unit {0}) → Bool × B → Result (Unit {0}) × B
outcome failed (true, b) = (ok tt, b)
outcome failed (false, b) = (failed, b)

unfoldable pub kafka_producer : {B : Type 0} → Settings → Broker B → JobProducer B
unfolding topic_for_priority publish_failed dead_letter_failed outcome
kafka_producer settings broker = record {
  publish_job = λ job_id handler priority due_at attempt b. outcome (publish_failed job_id) (
      broker.send (topic_for_priority settings priority) job_id
        (record { job_id = job_id; handler = handler; attempt = attempt; due_at = some due_at }) b);
  publish_dead_letter = λ job_id handler attempt b. outcome (dead_letter_failed job_id) (
      broker.send settings.kafka_dead_letter_topic job_id
        (record { job_id = job_id; handler = handler; attempt = attempt; due_at = none }) b);
  ready = broker.reachable;
}

pub record PublishedJob : Type 0 where
  pub job_id : Uuid
  pub handler : String
  pub priority : ℕ
  pub due_at : Instant
  pub attempt : ℕ

pub record DeadLetter : Type 0 where
  pub job_id : Uuid
  pub handler : String
  pub attempt : ℕ

pub record FakeJobProducer : Type 0 where
  pub published : List PublishedJob
  pub dead_letters : List DeadLetter
  pub available : Bool

fake_publish_job : Uuid → String → ℕ → Instant → ℕ → Exec FakeJobProducer (Unit {0})
unfolding publish_failed
fake_publish_job job_id handler priority due_at attempt p =
    if p.available
    then (
      ok tt,
      record p {
        published =
            p.published
            ++ record {
              job_id = job_id;
              handler = handler;
              priority = priority;
              due_at = due_at;
              attempt = attempt;
            }
              ∷ [];
      },
    )
    else (publish_failed job_id, p)

fake_publish_dead_letter : Uuid → String → ℕ → Exec FakeJobProducer (Unit {0})
unfolding dead_letter_failed
fake_publish_dead_letter job_id handler attempt p =
    if p.available
    then (
      ok tt,
      record p {
        dead_letters =
            p.dead_letters ++ record { job_id = job_id; handler = handler; attempt = attempt } ∷ [];
      },
    )
    else (dead_letter_failed job_id, p)

unfoldable pub fake_producer : JobProducer FakeJobProducer
unfolding fake_publish_job fake_publish_dead_letter
fake_producer = record {
  publish_job = fake_publish_job;
  publish_dead_letter = fake_publish_dead_letter;
  ready = λ p. p.available;
}
