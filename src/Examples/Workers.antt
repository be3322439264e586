-- ===== src/Examples/Workers.antt =====
-- A worker's calls on a small store.
use async_job_processing_pip.Prelude.{
  arith, ℕ, String, ◌≡◌, refl, true, false, none, some, [], ◌∷◌, nat_eq,
}
use async_job_processing_pip.Prelude.Dict.{get}
use async_job_processing_pip.Text.{truthy}
use async_job_processing_pip.Calendar.{Instant}
use async_job_processing_pip.Core.Json.{Json, Payload, field, empty, str}
use async_job_processing_pip.Core.Enums.{is_pending}
use async_job_processing_pip.Core.Errors.{ok, err, transient_job_error}
use async_job_processing_pip.Jobs.{Clock, JobCreate, JobRecord, first_run, ensure_aware}
use async_job_processing_pip.Jobs.Handlers.{
  Host, echo_handler, always_fail_handler, run_handler, get_handler,
}
use async_job_processing_pip.Jobs.Memory.{Memory, new_job, is_claimable}
use async_job_processing_pip.Jobs.Repository.{memory_repository}
use async_job_processing_pip.Jobs.Service.{
  World, Run, ended_answered, run_with_timeout, error_text, process_job,
}
use async_job_processing_pip.Jobs.Service.Outcomes.{
  WillRun, as_succeeded, as_failed, process_job_success, process_job_retry,
}
use async_job_processing_pip.Queue.{FakeJobProducer, fake_producer}

abbrev pub shown_text : Json → String
shown_text (str s) = s
shown_text _ = "?"

abbrev pub host : Host
host = record {
  shown = shown_text;
  shown_error = λ e. e.message;
  shown_integrity_error = "UNIQUE constraint failed";
  sleep = λ v. ok tt;
}

abbrev pub at : Instant → Clock
at t n = t

abbrev pub hello : Payload
hello = field "message" (str "hello") empty

abbrev pub request : String → ℕ → JobCreate
request handler max_retries = record {
  handler = handler;
  payload = hello;
  priority = 5;
  max_retries = max_retries;
  timeout_seconds = 30;
  run_at = none;
  recurring_cron = none;
  idempotency_key = some "key";
}

abbrev pub job : String → ℕ → JobRecord
job handler max_retries = new_job (at 1000) 7 (request handler max_retries)

abbrev pub fake : FakeJobProducer
fake = record { published = []; dead_letters = []; available = true }

abbrev pub world : String → ℕ → World Memory FakeJobProducer
world handler max_retries = record {
  repository = record {
    jobs = (7, job handler max_retries) ∷ [];
    idempotency = ("key", 7) ∷ [];
    drain_enabled = false;
  };
  producer = fake;
}

abbrev pub run : Run
run = record {
  claiming = at 2000;
  succeeding = at 3000;
  recurring = at 4000;
  failing = at 5000;
  attempt_id = 70;
  next_id = 8;
  join = ended_answered;
}

pub echo_runs : WillRun run (job "echo" 3) echo_handler (world "echo" 3)
unfolding new_job get is_claimable is_pending get_handler first_run ensure_aware
echo_runs = record { stored = refl; not_drained = refl; claimable = refl; handled = refl }

fail_runs : (n : ℕ) → WillRun run (job "always_fail" n) always_fail_handler (world "always_fail" n)
unfolding new_job get is_claimable is_pending get_handler first_run ensure_aware
fail_runs n = record { stored = refl; not_drained = refl; claimable = refl; handled = refl }

pub echo_answers : run_with_timeout host ended_answered echo_handler hello ≡ ok hello
unfolding run_with_timeout run_handler
echo_answers = refl

pub fail_answers :
    run_with_timeout host ended_answered always_fail_handler hello
    ≡ err (transient_job_error "hello")
unfolding run_with_timeout run_handler error_text
fail_answers = refl

process_job_success_example :
    (process_job memory_repository fake_producer host run 7 "worker" (world "echo" 3)).0
    ≡ ok (some (as_succeeded run hello (job "echo" 3)))
unfolding new_job run_with_timeout run_handler truthy
process_job_success_example =
    (process_job_success fake_producer host run "worker" (job "echo" 3) echo_handler
      (world "echo" 3) echo_runs hello refl refl).0

process_job_retry_example :
    (process_job memory_repository fake_producer host run 7 "worker" (world "always_fail" 1)).0
    ≡ ok (some (as_failed host run (transient_job_error "hello") (job "always_fail" 1)))
unfolding new_job
process_job_retry_example =
    (process_job_retry fake_producer host run "worker" (job "always_fail" 1) always_fail_handler
      (world "always_fail" 1) (fail_runs 1) (transient_job_error "hello") fail_answers
      (omega arith)).0

abbrev one_letter : FakeJobProducer
one_letter = record fake {
  dead_letters = record { job_id = 7; handler = "always_fail"; attempt = 1 } ∷ [];
}
