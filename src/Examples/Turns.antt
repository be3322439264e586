-- ===== src/Examples/Turns.antt =====
-- Turns of the worker.
use async_job_processing_pip.Prelude.{
  ℕ, ◌+◌, ◌≤◌, ◌≡◌, refl, ap, sym, false, Option, some, List, [], ◌∷◌, arith, nat_eq, string_eq,
  length,
}
use async_job_processing_pip.Prelude.Dict.{get, put}
use async_job_processing_pip.Core.Json.{obj, field, str, empty, payload_get}
use async_job_processing_pip.Core.Config.{default_settings}
use async_job_processing_pip.Core.Enums.{is_pending}
use async_job_processing_pip.Core.Errors.{Raised, ok, err, value_error}
use async_job_processing_pip.Sorting.{insert, sorted}
use async_job_processing_pip.Jobs.{first_run, ensure_aware}
use async_job_processing_pip.Jobs.Memory.{Memory, new_job, due_jobs, succeeded_with, claimed}
use async_job_processing_pip.Jobs.Repository.{memory_repository}
use async_job_processing_pip.Jobs.Service.{World, publish_due_jobs, publish_all}
use async_job_processing_pip.Queue.{
  FakeJobProducer, fake_producer, message_value, topic_for_priority, unpublished,
}
use async_job_processing_pip.Worker.{
  Received, Consumer, Station, Turn, ranks, topic_rank, in_order, all_messages, process_message,
  process_messages, perform_turn, on_world, on_consumer, job_id_of, uuid_of_field,
}
use async_job_processing_pip.Worker.Failures.{CommitsPolled, turn-lost, turn-malformed}
use async_job_processing_pip.Worker.Messages.{job_id_of-message_value}
use async_job_processing_pip.Text.{len, is_empty, truthy}
use async_job_processing_pip.Jobs.Ids.{
  parse_job_id, uuid_of, remove_from, starts_with, lstrip_if, rstrip_if,
}
use async_job_processing_pip.Worker.Order.{AreDistinct, topic_rank-priority}
use async_job_processing_pip.Worker.Outage.{turn-unpublished}
use async_job_processing_pip.Examples.Workers.{
  host, hello, run, at, job, fake, world, echo_runs, echo_answers,
}
use async_job_processing_pip.Core.Exec.{Exec}
use async_job_processing_pip.Jobs.{JobRecord}
use async_job_processing_pip.Jobs.Handlers.{echo_handler}
use async_job_processing_pip.Jobs.Service.Outcomes.{success_outcome}

abbrev low_message : Received
low_message = record { topic = "jobs.submitted.low"; value = obj (field "job_id" (str "8") empty) }

abbrev high_message : Received
high_message = record {
  topic = "jobs.submitted.high";
  value =
      message_value (λ t. "noon")
        (record { job_id = 7; handler = "echo"; attempt = 0; due_at = some 1000 });
}

default-AreDistinct : AreDistinct default_settings
default-AreDistinct = record {
  default_high = refl;
  retry_high = refl;
  low_high = refl;
  retry_default = refl;
  low_default = refl;
  low_retry = refl;
}

topic_rank-priority_example :
    topic_rank default_settings (topic_for_priority default_settings 9)
    ≤ topic_rank default_settings (topic_for_priority default_settings 3)
topic_rank-priority_example =
    topic_rank-priority default_settings default-AreDistinct 3 9 (omega arith)

abbrev outage : World Memory FakeJobProducer
outage = record {
  repository = record { jobs = (7, job "echo" 3) ∷ []; idempotency = []; drain_enabled = false };
  producer = record fake { available = false };
}

one_due : due_jobs (at 2000) 10 outage.repository ≡ job "echo" 3 ∷ []
unfolding due_jobs sorted new_job is_pending first_run ensure_aware
one_due = refl

-- A consumer of one partition, which has been polled up to `position`.
record Log : Type 0 where
  left : List Received
  position : ℕ
  stored : ℕ

abbrev consumer : Consumer Log
consumer = record {
  poll = λ log. (
    ok (log.left ∷ []),
    record { left = []; position = log.position + length log.left; stored = log.stored },
  );
  commit = λ log. (ok tt, record log { stored = log.position });
  close = λ log. log;
}

abbrev log : Log
log = record { left = low_message ∷ high_message ∷ []; position = 40; stored = 40 }

abbrev polled : Log
polled = record { left = []; position = 42; stored = 40 }

abbrev turn : Turn
turn = record { clock = at 2000; runs = λ k. run; signalled = false }

turn-unpublished_example :
    perform_turn memory_repository fake_producer consumer host default_settings turn
      (record { world = outage; consumer = log })
    ≡ (err (unpublished 7), record { world = outage; consumer = polled })
unfolding new_job
turn-unpublished_example =
    turn-unpublished (job "echo" 3) outage refl consumer host default_settings turn log [] refl
      one_due

-- At time 500 no job is due yet.
abbrev early : Turn
early = record turn { clock = at 500 }

none_due :
    publish_due_jobs memory_repository fake_producer default_settings (at 500) 10 (world "echo" 3)
    ≡ (ok 0, world "echo" 3)
unfolding publish_due_jobs publish_all memory_repository due_jobs sorted new_job is_pending
    first_run ensure_aware
none_due = refl

abbrev stand : Station Memory FakeJobProducer Log
stand = record { world = world "echo" 3; consumer = log }

abbrev begun : Station Memory FakeJobProducer Log
begun = record { world = world "echo" 3; consumer = polled }

abbrev both : List Received
both = low_message ∷ high_message ∷ []

in_turn : in_order default_settings (all_messages (both ∷ [])) ≡ high_message ∷ low_message ∷ []
unfolding in_order all_messages sorted insert topic_rank ranks get put
in_turn = refl

abbrev offsets : CommitsPolled consumer ℕ
offsets = record {
  position = λ l. l.position;
  committed = λ l. l.stored;
  commits = λ c h. (ap (λ p. p.1.stored) (sym h), ap (λ p. p.1.position) (sym h));
}

read_high : job_id_of high_message.value ≡ ok 7
read_high =
    job_id_of-message_value (λ t. "noon")
      (record { job_id = 7; handler = "echo"; attempt = 0; due_at = some 1000 }) (omega arith)

job_id_of-message_value_example : job_id_of high_message.value ≡ ok 7
job_id_of-message_value_example =
    job_id_of-message_value (λ t. "noon")
      (record { job_id = 7; handler = "echo"; attempt = 0; due_at = some 1000 }) (omega arith)

abbrev badly_formed : Raised
badly_formed = value_error "badly formed hexadecimal UUID string"

read_low : job_id_of low_message.value ≡ err badly_formed
unfolding job_id_of payload_get uuid_of_field parse_job_id uuid_of remove_from starts_with lstrip_if
    rstrip_if len is_empty
read_low = refl

low_raises :
    (w : World Memory FakeJobProducer)
    → process_message memory_repository fake_producer host default_settings run low_message.value w
      ≡ (err badly_formed, w)
unfolding process_message
low_raises w = rw read_low refl

high_call : Exec (World Memory FakeJobProducer) (Option JobRecord)
high_call =
    process_message memory_repository fake_producer host default_settings run high_message.value

abbrev after_high : World Memory FakeJobProducer
after_high = (high_call (world "echo" 3)).1

abbrev handled_one : Station Memory FakeJobProducer Log
handled_one = record { world = after_high; consumer = record polled { stored = 42 } }

high_succeeds :
    (high_call (world "echo" 3)).0
    ≡ ok (some (succeeded_with 3000 hello (claimed 2000 "worker-local" (job "echo" 3))))
unfolding high_call process_message new_job truthy
high_succeeds =
    rw read_high
      (success_outcome fake_producer host run "worker-local" (job "echo" 3) echo_handler
        (world "echo" 3) echo_runs hello echo_answers refl).0

handled :
    process_messages memory_repository fake_producer consumer host default_settings
      (λ k. run)
      0
      (high_message ∷ [])
      begun
    ≡ (ok tt, handled_one)
unfolding process_messages high_call on_world on_consumer
handled = rw high_succeeds refl

abbrev one_high : Station Memory FakeJobProducer Log
one_high = record stand {
  consumer = record { left = high_message ∷ []; position = 41; stored = 40 };
}

turn-lost_example :
    let out =
      perform_turn memory_repository fake_producer consumer host default_settings early stand in
    (out.0 ≡ err badly_formed) × (out.1.consumer.stored ≡ 42)
turn-lost_example =
    turn-lost memory_repository fake_producer consumer host default_settings early stand refl
      none_due (high_message ∷ []) low_message [] in_turn offsets (omega arith) handled
      (low_raises handled_one.world)

abbrev one_low : Station Memory FakeJobProducer Log
one_low = record stand { consumer = record log { left = low_message ∷ [] } }

low_alone : in_order default_settings (all_messages ((low_message ∷ []) ∷ [])) ≡ low_message ∷ []
unfolding in_order all_messages sorted insert topic_rank ranks get put
low_alone = refl

turn-malformed_example :
    perform_turn memory_repository fake_producer consumer host default_settings early one_low
    ≡ (err badly_formed, record one_low { consumer = record polled { position = 41 } })
turn-malformed_example =
    turn-malformed memory_repository fake_producer consumer host default_settings early one_low refl
      none_due [] low_message [] low_alone refl read_low
