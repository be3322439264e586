-- ===== src/Jobs.antt =====
-- app/jobs: the records of app/jobs/repositories.py and the requests of app/jobs/schemas.py, which the
-- modules below share. A `Uuid` stands for the identifier and for its canonical text, as a 128-bit number.
pub mod Ids
pub mod Handlers
pub mod Requests
pub mod Memory
pub mod Repository
pub mod Sql
pub mod Service
pub mod System
use Prim.Native.Char.{Char}
use async_job_processing_pip.Prelude.{
  ℕ, zero, suc, ◌/◌, ◌%◌, ◌^◌, ◌||◌, String, Option, none, some, List, [], ◌∷◌, ltb, ◌==◌, nat_eq,
  if◌then◌else◌,
}
use async_job_processing_pip.Prelude.Int.{ℤ}
use async_job_processing_pip.Calendar.{Instant, Datetime, naive, aware}
use async_job_processing_pip.Core.Json.{Payload}
use async_job_processing_pip.Core.Enums.{JobStatus}

abbrev pub Uuid : Type 0
Uuid = ℕ

hex_digits : List Char
hex_digits =
    "0" ∷ "1" ∷ "2" ∷ "3" ∷ "4" ∷ "5" ∷ "6" ∷ "7" ∷ "8" ∷ "9" ∷ "a" ∷ "b" ∷ "c" ∷ "d" ∷ "e" ∷ "f"
    ∷ []

nth_char : List Char → ℕ → Char
nth_char [] i = "0"
nth_char (c ∷ cs) zero = c
nth_char (c ∷ cs) (suc i) = nth_char cs i

-- The `k` last hexadecimal digits of a number, with the dashes of a UUID.
hex_from : ℕ → ℕ → String
hex_from zero n = ""
hex_from (suc k) n =
    let digit = nth_char hex_digits (n / 16 ^ k % 16) in
    let rest = hex_from k n in
    if k == 24 || k == 20 || k == 16 || k == 12
    then String.◌∷◌ digit (String.◌∷◌ "-" rest)
    else String.◌∷◌ digit rest

-- `str(job_id)`
unfoldable pub uuid_text : Uuid → String
unfolding hex_digits nth_char hex_from
uuid_text job_id = hex_from 32 job_id

-- What the calls of `utc_now()` in one operation return, in their order.
abbrev pub Clock : Type 0
Clock = ℕ → Instant

-- A naive value is taken for one in UTC.
unfoldable pub ensure_aware : Option Datetime → Option Instant
ensure_aware none = none
ensure_aware (some (naive t)) = some t
ensure_aware (some (aware t)) = some t

pub record JobCreate : Type 0 where
  pub handler : String
  pub payload : Payload
  pub priority : ℕ
  pub max_retries : ℕ
  pub timeout_seconds : ℕ
  pub run_at : Option Datetime
  pub recurring_cron : Option String
  pub idempotency_key : Option String

pub record JobRecord : Type 0 where
  pub id : Uuid
  pub handler : String
  pub payload : Payload
  pub status : JobStatus
  pub priority : ℕ
  pub max_retries : ℕ
  pub timeout_seconds : ℕ
  pub attempt_count : ℕ
  pub next_run_at : Instant
  pub run_at : Option Instant
  pub recurring_cron : Option String
  pub locked_by : Option String
  pub locked_at : Option Instant
  pub kafka_message_key : Option Uuid
  pub last_error : Option String
  pub result : Option Payload
  pub idempotency_key : Option String
  pub created_at : Instant
  pub updated_at : Instant
  pub processed_at : Option Instant

pub record PriorityDepth : Type 0 where
  pub priority : ℕ
  pub queued : ℕ

pub record QueueDepth : Type 0 where
  pub queued : ℕ
  pub due : ℕ
  pub running : ℕ
  pub dead_lettered : ℕ
  pub by_priority : List PriorityDepth

-- A quotient that the program computes in floating point.
pub record Ratio : Type 0 where
  pub numerator : ℕ
  pub denominator : ℕ

-- Latencies are in microseconds.
pub record JobMetrics : Type 0 where
  pub job_success_count : ℕ
  pub job_failure_count : ℕ
  pub retry_count : ℕ
  pub dead_letter_count : ℕ
  pub job_latency_p50 : ℤ
  pub job_latency_p95 : ℤ
  pub worker_utilization : Ratio

-- `run_at if run_at and run_at > now else now`
unfoldable pub first_run : Option Instant → Instant → Instant
first_run none now = now
first_run (some t) now = if ltb now t then t else now
