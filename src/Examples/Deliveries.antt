-- ===== src/Examples/Deliveries.antt =====
-- A job that is submitted, sent through Kafka and handled.
use async_job_processing_pip.Prelude.{
  ◌≡◌, String, refl, true, none, some, List, [], ◌∷◌, ◌++◌, arith, any, ◌==◌, nat_eq, string_eq,
}
use async_job_processing_pip.Prelude.Dict.{get}
use async_job_processing_pip.Calendar.{Instant}
use async_job_processing_pip.Text.{truthy, is_empty}
use async_job_processing_pip.Core.Config.{default_settings}
use async_job_processing_pip.Core.Errors.{ok}
use async_job_processing_pip.Jobs.{first_run, ensure_aware}
use async_job_processing_pip.Jobs.Handlers.{get_handler, echo_handler}
use async_job_processing_pip.Jobs.Memory.{Memory, initial, new_job, known_as}
use async_job_processing_pip.Jobs.Repository.{memory_repository}
use async_job_processing_pip.Jobs.Service.{World, submit_job}
use async_job_processing_pip.Queue.{
  Broker, Message, message_value, kafka_producer, topic_for_priority,
}
use async_job_processing_pip.Jobs.Service.Outcomes.{as_succeeded}
use async_job_processing_pip.Worker.{topics, process_message}
use async_job_processing_pip.Worker.Delivery.{submitted-delivered}
use async_job_processing_pip.Examples.Workers.{at, hello, request, job, host, run, echo_answers}
use async_job_processing_pip.Examples.Queries.{payload_small}

-- A broker that keeps what it is sent.
abbrev log : Broker (List (String × Message))
log = record {
  send = λ topic key m sent. (true, sent ++ (topic, m) ∷ []);
  reachable = λ sent. true;
}

abbrev nothing_sent : World Memory (List (String × Message))
nothing_sent = record { repository = initial; producer = [] }

abbrev message : Message
message = record { job_id = 7; handler = "echo"; attempt = 0; due_at = some 1000 }

abbrev sent_once : List (String × Message)
sent_once = (topic_for_priority default_settings 5, message) ∷ []

abbrev iso : Instant → String
iso t = "1970-01-01T00:00:00.001000+00:00"

key_unknown : known_as (truthy (request "echo" 3).idempotency_key) nothing_sent.repository ≡ none
unfolding known_as truthy is_empty get
key_unknown = refl

echo_found : get_handler (request "echo" 3).handler ≡ ok echo_handler
unfolding get_handler
echo_found = refl

does_not_recur : truthy (request "echo" 3).recurring_cron ≡ none
unfolding truthy
does_not_recur = refl

submitted-delivered_example :
    let prod = kafka_producer default_settings log in
    let done = as_succeeded run hello (job "echo" 3) in
    let submitted =
      (submit_job memory_repository prod default_settings
        (at 1000)
        7
        (request "echo" 3)
        nothing_sent).1 in
    let first =
      process_message memory_repository prod host default_settings run
        (message_value iso message)
        submitted in
    ((first.0 ≡ ok (some done))
      × (get 7 first.1.repository.jobs ≡ some done)
      × (first.1.producer ≡ sent_once)
      × (process_message memory_repository prod host default_settings run
            (message_value iso message)
            first.1
          ≡ (ok none, first.1)))
    × (any (λ t. t == topic_for_priority default_settings 5) (topics default_settings) ≡ true)
unfolding new_job first_run ensure_aware
submitted-delivered_example =
    submitted-delivered log host default_settings iso (at 1000) 7 (request "echo" 3) nothing_sent
      run run echo_handler hello sent_once (omega arith) echo_found payload_small key_unknown refl
      refl (omega arith) echo_answers does_not_recur
