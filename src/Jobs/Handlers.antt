-- ===== src/Jobs/Handlers.antt =====
-- app/jobs/handlers.py.
use async_job_processing_pip.Prelude.{
  String, Bool, true, false, Option, none, some, ◌==◌, string_eq, if◌then◌else◌,
}
use async_job_processing_pip.Prelude.Int.{pos}
use async_job_processing_pip.Core.Json.{Json, Payload, bool, int, field, empty, str, payload_get}
use async_job_processing_pip.Core.Errors.{
  ServiceError, Result, ok, err, raise, transient_job_error, bad_request_error, ◌>>=◌,
}

-- The registered handlers.
pub data Handler : Type 0 where
  echo_handler always_fail_handler fail_once_handler sleep_handler : Handler

is_true : Option Json → Bool
is_true (some (bool true)) = true
is_true _ = false

-- What Python's run time answers: `str` of a value, `str` of a service error, and what the call
-- `time.sleep(float(value))` raises, if it raises.
pub record Host : Type 0 where
  pub shown : Json → String
  pub shown_error : ServiceError → String
  pub shown_integrity_error : String
  pub sleep : Json → Result (Unit {0})

value_or : Json → Option Json → Json
value_or default none = default
value_or default (some v) = v

-- A call `handler(payload)`.
unfoldable pub run_handler : Host → Handler → Payload → Result Payload
unfolding is_true value_or payload_get
run_handler host echo_handler payload = ok payload
run_handler host always_fail_handler payload = err (
    transient_job_error
      (host.shown (value_or (str "handler failed") (payload_get "message" payload))))
run_handler host fail_once_handler payload =
    if is_true (payload_get "fail" payload)
    then err (transient_job_error "configured first-attempt failure")
    else ok payload
run_handler host sleep_handler payload = do
  _ ← host.sleep (value_or (int (pos 1)) (payload_get "seconds" payload))
  ok payload

find_handler : String → Option Handler
find_handler name =
    if name == "echo"
    then some echo_handler
    else if name == "always_fail"
    then some always_fail_handler
    else if name == "fail_once"
    then some fail_once_handler
    else if name == "sleep"
    then some sleep_handler
    else none

-- `HANDLERS[name]`, with `KeyError` turned into a refusal.
unfoldable pub get_handler : String → Result Handler
unfolding find_handler
get_handler name = elim (find_handler name) [
  | some h ↦ ok h
  | none ↦ raise (bad_request_error "Unsupported job handler" (field "handler" (str name) empty))
]

unfoldable pub ensure_supported_handler : String → Result (Unit {0})
ensure_supported_handler name = do _ ← get_handler name; ok tt
