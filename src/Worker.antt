-- ===== src/Worker.antt =====
-- app/worker.py: `Worker.run` over any repository, producer and Kafka consumer. Sessions, the log and the
-- start-up are left out.
pub mod Order
pub mod Turns
pub mod Outage
pub mod Failures
pub mod Messages
pub mod Delivery
use async_job_processing_pip.Prelude.{
  ℕ, suc, ◌+◌, String, Bool, true, false, not, Option, none, some, List, [], ◌∷◌, ◌++◌, leb,
  string_eq,
}
use async_job_processing_pip.Prelude.Dict.{Dict, get, put}
use async_job_processing_pip.Sorting.{sorted}
use async_job_processing_pip.Core.Config.{Settings}
use async_job_processing_pip.Core.Exec.{Exec, pure, lift, ◌>>◌, ◌>>=◌}
use async_job_processing_pip.Core.Errors.{Result, ok, err, builtin_error, key_error}
use async_job_processing_pip.Core.Json.{Json, null, str, obj, payload_get}
use async_job_processing_pip.Jobs.{Uuid, Clock, JobRecord}
use async_job_processing_pip.Jobs.Ids.{parse_job_id}
use async_job_processing_pip.Jobs.Handlers.{Host}
use async_job_processing_pip.Jobs.Repository.{JobRepository}
use async_job_processing_pip.Jobs.Service.{World, Run, process_job, publish_due_jobs}
use async_job_processing_pip.Queue.{JobProducer}

-- A message of a poll, its value read from JSON.
pub record Received : Type 0 where
  pub topic : String
  pub value : Json

-- What the Kafka consumer is used for: `poll` gives the messages of each partition and raises on a value
-- that is no JSON, `commit` stores how far the messages were polled.
pub record Consumer (C : Type 0) : Type 0 where
  pub poll : Exec C (List (List Received))
  pub commit : Exec C (Unit {0})
  pub close : C → C

-- The topics that the consumer of `run` subscribes to.
unfoldable pub topics : Settings → List String
topics settings =
    settings.kafka_submitted_high_topic ∷ settings.kafka_submitted_default_topic
    ∷ settings.kafka_submitted_low_topic ∷ settings.kafka_retry_topic ∷ []

unfoldable pub ranks : Settings → Dict String ℕ
ranks settings = put settings.kafka_submitted_low_topic 3 (
    put settings.kafka_retry_topic 2
      (put settings.kafka_submitted_default_topic 1 (put settings.kafka_submitted_high_topic 0 [])))

unfoldable pub topic_rank : Settings → String → ℕ
unfolding ranks
topic_rank settings topic = elim (get topic (ranks settings)) [ none ↦ 99 | some rank ↦ rank ]

-- `key=lambda item: self._topic_rank(item.topic)`
abbrev pub rank_le : Settings → Received → Received → Bool
rank_le settings a b = leb (topic_rank settings a.topic) (topic_rank settings b.topic)

-- The order in which a turn handles the messages of its poll.
unfoldable pub in_order : Settings → List Received → List Received
in_order settings = sorted (rank_le settings)

-- `UUID(value)` of a value that is not a text; the messages of the exceptions are left out.
abbrev uuid_of_value : Json → Result Uuid
uuid_of_value (str text) = parse_job_id text
uuid_of_value null = err (builtin_error "TypeError" "")
uuid_of_value _ = err (builtin_error "AttributeError" "")

unfoldable pub uuid_of_field : Option Json → Result Uuid
uuid_of_field none = err key_error
uuid_of_field (some value) = uuid_of_value value

-- `UUID(payload["job_id"])`
unfoldable pub job_id_of : Json → Result Uuid
unfolding payload_get uuid_of_field
job_id_of (obj payload) = uuid_of_field (payload_get "job_id" payload)
job_id_of _ = err (builtin_error "TypeError" "")

-- The state behind the worker: the service's, and the consumer's.
pub record Station (R P C : Type 0) : Type 0 where
  pub world : World R P
  pub consumer : C

module _ {R P C : Type 0} where
  unfoldable pub on_world : {A : Type 0} → Exec (World R P) A → Exec (Station R P C) A
  on_world m s = let (r, w) = m s.world in (r, record { world = w; consumer = s.consumer })

  unfoldable pub on_consumer : {A : Type 0} → Exec C A → Exec (Station R P C) A
  on_consumer m s = let (r, c) = m s.consumer in (r, record { world = s.world; consumer = c })

-- `[message for partition_messages in records.values() for message in partition_messages]`
unfoldable pub all_messages : List (List Received) → List Received
all_messages [] = []
all_messages (messages ∷ partitions) = messages ++ all_messages partitions

-- What the environment of a turn chooses: the clock as due jobs are looked for, what is met at the `k`-th
-- message, and whether a signal has come when the turn ends.
pub record Turn : Type 0 where
  pub clock : Clock
  pub runs : ℕ → Run
  pub signalled : Bool

module _ {R P : Type 0} (repo : JobRepository R) (prod : JobProducer P) (host : Host)
    (settings : Settings) where
  -- `_process_message`
  unfoldable pub process_message : Run → Json → Exec (World R P) (Option JobRecord)
  unfolding job_id_of
  process_message run value = do
    job_id ← lift (job_id_of value)
    process_job repo prod host run job_id settings.worker_id

module _ {R P C : Type 0} (repo : JobRepository R) (prod : JobProducer P) (consumer : Consumer C)
    (host : Host) (settings : Settings) where
  -- The messages one after another, with a commit after each.
  unfoldable pub process_messages : (ℕ → Run) → ℕ → List Received → Exec (Station R P C) (Unit {0})
  unfolding process_message on_world on_consumer
  process_messages runs k [] = pure tt
  process_messages runs k (message ∷ messages) = do
    on_world (process_message repo prod host settings (runs k) message.value)
    on_consumer consumer.commit
    process_messages runs (suc k) messages

  -- What a turn does with the messages of its poll: the due jobs are published first.
  unfoldable pub after_poll : Turn → List (List Received) → Exec (Station R P C) (Unit {0})
  unfolding in_order process_messages all_messages on_world
  after_poll turn records = do
    on_world (publish_due_jobs repo prod settings turn.clock settings.worker_batch_size)
    process_messages turn.runs 0 (in_order settings (all_messages records))

  unfoldable pub perform_turn : Turn → Exec (Station R P C) (Unit {0})
  unfolding after_poll on_consumer
  perform_turn turn = do records ← on_consumer consumer.poll; after_poll turn records

  -- The loop, while `self.running`: it answers whether it came to its end within the turns that are given.
  unfoldable pub run_turns : Bool → List Turn → Exec (Station R P C) Bool
  unfolding perform_turn
  run_turns false turns = pure true
  run_turns true [] = pure false
  run_turns true (turn ∷ turns) = do perform_turn turn; run_turns (not turn.signalled) turns

  closed : Result Bool × Station R P C → Result Bool × Station R P C
  closed (ok false, s) = (ok false, s)
  closed (r, s) = (r, record { world = s.world; consumer = consumer.close s.consumer })

  -- `Worker.run`: the consumer is closed when the loop ends, by a signal or by an exception.
  unfoldable pub run : List Turn → Exec (Station R P C) Bool
  unfolding run_turns closed
  run turns s = closed (run_turns true turns s)
