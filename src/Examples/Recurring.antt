-- ===== src/Examples/Recurring.antt =====
-- A recurring job whose expression has a next run, one whose expression has none, and a job that fails
-- twice.
use async_job_processing_pip.Prelude.{
  ◌+◌, ◌≡◌, ◌≤◌, ◌<◌, length, refl, false, String, none, some, [], ◌∷◌, nat_eq, arith,
}
use async_job_processing_pip.Prelude.Dict.{get}
use async_job_processing_pip.Text.{
  truthy, is_empty, strip, split, join, int_of_text, after_star_slash,
}
use async_job_processing_pip.Core.Json.{field, empty, str}
use async_job_processing_pip.Core.Enums.{JobStatus, is_pending}
use async_job_processing_pip.Core.Errors.{
  Raised, service_error, ok, err, bad_request_error, transient_job_error,
}
use async_job_processing_pip.Scheduling.{
  range, parse_cron_part, validate_cron_expression, next_cron_run, Fields, unpack_fields,
}
use async_job_processing_pip.Scheduling.Search.{IsNever, next_cron_run_none}
use async_job_processing_pip.Scheduling.Never.{IsNumber, next_cron_run_february}
use async_job_processing_pip.Jobs.{Clock, JobRecord, first_run, ensure_aware}
use async_job_processing_pip.Jobs.Handlers.{echo_handler, always_fail_handler, get_handler}
use async_job_processing_pip.Jobs.Memory.{
  Memory, new_job, claimed, is_claimable, is_exhausted, claim_job,
}
use async_job_processing_pip.Jobs.Repository.{memory_repository}
use async_job_processing_pip.Jobs.Service.{World, Run, process_job}
use async_job_processing_pip.Jobs.Service.Outcomes.{WillRun, taken}
use async_job_processing_pip.Jobs.Service.Recurrence.{
  follow_up, process_job_recurring, process_job_late_failure,
}
use async_job_processing_pip.Jobs.Service.Retries.{
  process_all, IsWaiting, AreTimely, AllFail, IsDeadLettered, letter, process_all_dead_letters,
}
use async_job_processing_pip.Jobs.Service.Endings.{HasEnded, AreNew, process_all_ends}
use async_job_processing_pip.Queue.{FakeJobProducer, fake_producer}
use async_job_processing_pip.Examples.Cron.{every_fifth, noon, next_fifth}
use async_job_processing_pip.Examples.Workers.{
  host, at, hello, fake, fail_answers, job, world, run, echo_answers,
}

abbrev leap : String
leap = "0 0 30 2 *"

abbrev leap_fields : Fields
leap_fields = record { minute = "0"; hour = "0"; day = "30"; month = "2"; weekday = "*" }

leap_accepted : validate_cron_expression leap ≡ ok leap
unfolding validate_cron_expression parse_cron_part range int_of_text after_star_slash split strip
    join
leap_accepted = refl

leap_unpacked : unpack_fields (split leap) ≡ ok leap_fields
unfolding split unpack_fields
leap_unpacked = refl

thirty : IsNumber "30" 30
unfolding int_of_text after_star_slash
thirty = record { no_step = refl; number = refl }

two : IsNumber "2" 2
unfolding int_of_text after_star_slash
two = record { no_step = refl; number = refl }

abbrev no_run : Raised
no_run = service_error (
    bad_request_error "Cron expression has no run in the next year" (field "cron" (str leap) empty))

leap_refused : next_cron_run leap noon ≡ err no_run
leap_refused =
    next_cron_run_february leap leap leap_fields 30 noon leap_accepted leap_unpacked thirty
      (omega arith) two

next_cron_run_none_example :
    (no_run ≡ no_run) × (f : Fields) × (unpack_fields (split leap) ≡ ok f) × IsNever f noon
next_cron_run_none_example = next_cron_run_none leap noon leap no_run leap_accepted leap_refused

abbrev recurring_job : String → JobRecord
recurring_job cron = record (job "echo" 3) { recurring_cron = some cron }

abbrev recurring_world : String → World Memory FakeJobProducer
recurring_world cron = record {
  repository = record {
    jobs = (7, recurring_job cron) ∷ [];
    idempotency = [];
    drain_enabled = false;
  };
  producer = fake;
}

abbrev noon_run : Run
noon_run = record run { recurring = at noon }

recurring_runs :
    (cron : String) → WillRun noon_run (recurring_job cron) echo_handler (recurring_world cron)
unfolding new_job get is_claimable is_pending get_handler first_run ensure_aware
recurring_runs cron = record { stored = refl; not_drained = refl; claimable = refl; handled = refl }

fifth_recurs : truthy (recurring_job every_fifth).recurring_cron ≡ some every_fifth
unfolding truthy is_empty
fifth_recurs = refl

process_job_recurring_example :
    get 8
      (process_job memory_repository fake_producer host noon_run 7 "worker"
        (recurring_world every_fifth)).1.repository.jobs
    ≡ some (follow_up noon_run 1_709_208_300_000_000 (recurring_job every_fifth))
unfolding new_job
process_job_recurring_example =
    (process_job_recurring fake_producer host noon_run "worker" (recurring_job every_fifth)
      echo_handler (recurring_world every_fifth) (recurring_runs every_fifth) hello every_fifth
      1_709_208_300_000_000 echo_answers fifth_recurs next_fifth refl).2

leap_recurs : truthy (recurring_job leap).recurring_cron ≡ some leap
unfolding truthy is_empty
leap_recurs = refl

attempts_left : is_exhausted (taken noon_run "worker" (recurring_job leap)) ≡ false
unfolding is_exhausted claimed new_job
attempts_left = refl

process_job_late_failure_example :
    let out =
      process_job memory_repository fake_producer host noon_run 7 "worker" (recurring_world leap) in
    (failed : JobRecord) × (out.0 ≡ ok (some failed))
    × (get 7 out.1.repository.jobs ≡ some failed)
    × (failed.status ≡ JobStatus.failed)
    × (failed.result ≡ some hello)
    × (failed.processed_at ≡ none)
    × (failed.attempt_count ≡ 1)
    × ((again : Clock) (other : String)
        → failed.next_run_at ≤ again 0
        → (claim_job again 7 other out.1.repository).0
          ≡ some (record failed {
            status = JobStatus.running;
            locked_by = some other;
            locked_at = some (again 0);
            attempt_count = failed.attempt_count + 1;
            updated_at = again 0;
          }))
unfolding new_job
process_job_late_failure_example =
    process_job_late_failure fake_producer host noon_run "worker" (recurring_job leap) echo_handler
      (recurring_world leap) (recurring_runs leap) hello leap no_run echo_answers leap_recurs
      leap_refused attempts_left

-- A second call, six minutes after the first has failed.
abbrev second_run : Run
second_run = record run { claiming = at 360_005_000 }

failing_waits : IsWaiting (job "always_fail" 1) always_fail_handler (world "always_fail" 1)
unfolding new_job get is_pending get_handler
failing_waits = record {
  stored = refl;
  pending = refl;
  not_drained = refl;
  handled = refl;
  connected = refl;
}

calls_timely : AreTimely (job "always_fail" 1).next_run_at (run ∷ second_run ∷ [])
unfolding new_job first_run ensure_aware
calls_timely = (omega arith, (omega arith, tt))

calls_fail : AllFail host always_fail_handler (job "always_fail" 1).payload (run ∷ second_run ∷ [])
unfolding new_job
calls_fail =
    ((transient_job_error "hello", fail_answers), ((transient_job_error "hello", fail_answers), tt))

none_used : (job "always_fail" 1).attempt_count ≤ (job "always_fail" 1).max_retries
unfolding new_job
none_used = omega arith

two_attempts :
    (job "always_fail" 1).attempt_count + length (run ∷ second_run ∷ [])
    ≡ (job "always_fail" 1).max_retries + 1
unfolding new_job
two_attempts = refl

process_all_dead_letters_example :
    let out =
      process_all fake_producer host (run ∷ second_run ∷ []) 7 "worker" (world "always_fail" 1) in
    IsDeadLettered (job "always_fail" 1) out
    × (out.producer.dead_letters ≡ letter (job "always_fail" 1) ∷ [])
    × (out.producer.published ≡ [])
unfolding new_job
process_all_dead_letters_example =
    process_all_dead_letters host "worker" (run ∷ second_run ∷ []) (job "always_fail" 1)
      always_fail_handler (world "always_fail" 1) failing_waits calls_timely calls_fail none_used
      two_attempts

other_ids : AreNew (job "always_fail" 1).id (run ∷ second_run ∷ [])
unfolding new_job
other_ids = (refl, (refl, tt))

enough_attempts :
    (job "always_fail" 1).max_retries
    < (job "always_fail" 1).attempt_count + length (run ∷ second_run ∷ [])
unfolding new_job
enough_attempts = omega arith

process_all_ends_example :
    HasEnded 7
      (process_all fake_producer host (run ∷ second_run ∷ []) 7 "worker" (world "always_fail" 1))
unfolding new_job
process_all_ends_example =
    process_all_ends host "worker" (run ∷ second_run ∷ []) (job "always_fail" 1) always_fail_handler
      (world "always_fail" 1) failing_waits calls_timely other_ids enough_attempts none_used
