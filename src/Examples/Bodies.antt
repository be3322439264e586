-- ===== src/Examples/Bodies.antt =====
-- Request bodies.
use async_job_processing_pip.Prelude.{◌≡◌, refl, none, some, String}
use async_job_processing_pip.Prelude.Int.{ℤ, pos}
use async_job_processing_pip.Text.{len, strip, split, join, int_of_text, after_star_slash}
use async_job_processing_pip.Scheduling.{validate_cron_expression, parse_cron_part, range}
use async_job_processing_pip.Jobs.{JobCreate}
use async_job_processing_pip.Jobs.Requests.{JobRequest, valid, fields_valid, validated_as, validate}
use async_job_processing_pip.Jobs.Requests.Bounds.{IsBounded, validate-IsBounded}
use async_job_processing_pip.Examples.Workers.{hello}

abbrev body : ℤ → String → JobRequest
body priority cron = record {
  handler = " echo ";
  payload = hello;
  priority = priority;
  max_retries = pos 3;
  timeout_seconds = pos 30;
  run_at = none;
  recurring_cron = some cron;
  idempotency_key = none;
}

abbrev hourly : JobCreate
hourly = record {
  handler = "echo";
  payload = hello;
  priority = 10;
  max_retries = 3;
  timeout_seconds = 30;
  run_at = none;
  recurring_cron = some "0 * * * *";
  idempotency_key = none;
}

hourly_valid : validate (body (pos 10) "0  * * * *") ≡ valid hourly
unfolding validate fields_valid validated_as len validate_cron_expression parse_cron_part range
    int_of_text after_star_slash split strip join
hourly_valid = refl

validate-IsBounded_example : IsBounded hourly
validate-IsBounded_example = validate-IsBounded (body (pos 10) "0  * * * *") hourly hourly_valid
