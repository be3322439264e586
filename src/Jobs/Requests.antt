-- ===== src/Jobs/Requests.antt =====
-- `JobCreate` of app/jobs/schemas.py as pydantic validates it: the bounds of each field, then the
-- validators. The values have the types of the fields already. A broken bound is one of the errors of a
-- 422 response; what a validator raises ends the validation, unless it is a `ValueError`.
pub mod Bounds
use async_job_processing_pip.Prelude.{
  ℕ, String, Bool, true, false, ◌&&◌, Option, none, some, leb, if◌then◌else◌,
}
use async_job_processing_pip.Prelude.Int.{ℤ, pos, leb_ℤ, pos_part}
use async_job_processing_pip.Text.{len, strip}
use async_job_processing_pip.Calendar.{Datetime}
use async_job_processing_pip.Core.Json.{Payload}
use async_job_processing_pip.Core.Errors.{Raised, Result, ok, err}
use async_job_processing_pip.Scheduling.{validate_cron_expression}
use async_job_processing_pip.Jobs.{JobCreate}

pub record JobRequest : Type 0 where
  pub handler : String
  pub payload : Payload
  pub priority : ℤ
  pub max_retries : ℤ
  pub timeout_seconds : ℤ
  pub run_at : Option Datetime
  pub recurring_cron : Option String
  pub idempotency_key : Option String

-- What comes of the validation: a request, a 422 response, or an exception.
pub data Validated : Type 0 where
  valid : JobCreate → Validated
  invalid : Validated
  raised : Raised → Validated

abbrev pub is_within : ℕ → ℕ → ℤ → Bool
is_within minimum maximum value = leb_ℤ (pos minimum) value && leb_ℤ value (pos maximum)

abbrev pub has_length : ℕ → ℕ → String → Bool
has_length minimum maximum text = leb minimum (len text) && leb (len text) maximum

abbrev pub if_given : (String → Bool) → Option String → Bool
if_given test none = true
if_given test (some text) = test text

-- The bounds of all fields but `recurring_cron`.
unfoldable pub fields_valid : JobRequest → Bool
fields_valid r =
    has_length 1 100 r.handler
    && (is_within 0 10 r.priority
        && (is_within 0 10 r.max_retries
            && (is_within 1 300 r.timeout_seconds
                && if_given (has_length 1 200) r.idempotency_key)))

-- The request with the values that the validators return.
unfoldable pub validated_as : Option String → JobRequest → JobCreate
validated_as cron r = record {
  handler = strip r.handler;
  payload = r.payload;
  priority = pos_part r.priority;
  max_retries = pos_part r.max_retries;
  timeout_seconds = pos_part r.timeout_seconds;
  run_at = r.run_at;
  recurring_cron = cron;
  idempotency_key = r.idempotency_key;
}

unfoldable pub with_cron : JobRequest → Option String → Validated
unfolding fields_valid validated_as
with_cron r cron = if fields_valid r then valid (validated_as cron r) else invalid

-- `validate_recurring_cron`; a value of nine characters is not empty.
unfoldable pub after_cron : JobRequest → Result String → Validated
unfolding with_cron
after_cron r (err x) = raised x
after_cron r (ok cron) = with_cron r (some cron)

unfoldable pub validate : JobRequest → Validated
unfolding after_cron with_cron
validate r = elim r.recurring_cron [
  | none ↦ with_cron r none
  | some cron ↦
      if has_length 9 100 cron then after_cron r (validate_cron_expression cron) else invalid
]
