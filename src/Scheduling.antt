-- ===== src/Scheduling.antt =====
-- app/jobs/scheduling.py: cron expressions of five fields, and the next minute that one matches.
pub mod Parts
pub mod Expression
pub mod Due
pub mod Search
pub mod Never
use async_job_processing_pip.Prelude.{
  ℕ, zero, suc, ◌+◌, ◌-◌, ◌*◌, ◌/◌, String, Bool, true, false, ◌||◌, List, [], ◌∷◌, Option, none,
  some, ltb, ◌==◌, nat_eq, string_eq, if◌then◌else◌, any,
}
use async_job_processing_pip.Prelude.Int.{ℤ, pos, negsuc, pos_part, ltb_ℤ, leb_ℤ}
use async_job_processing_pip.Text.{strip, split, join, int_of_text, after_star_slash}
use async_job_processing_pip.Calendar.{
  Instant, micros_per_minute, minute_of, hour_of, day_of, month_of, weekday_of,
}
use async_job_processing_pip.Core.Json.{Payload, field, empty, str, int}
use async_job_processing_pip.Core.Errors.{
  Result, ok, err, raise, value_error, bad_request_error, ◌>>=◌, ◌>>◌,
}

-- The loop of `range(value, stop, step)`, at most `rounds` values.
range_from : ℕ → ℕ → ℕ → ℕ → List ℕ
range_from zero value stop step = []
range_from (suc rounds) value stop step = elim (ltb value stop) [
  | true ↦ value ∷ range_from rounds (value + step) stop step
  | false ↦ []
]

-- `range(start, stop, step)` for a positive step, which has at most `stop - start` values.
unfoldable pub range : ℕ → ℕ → ℕ → List ℕ
unfolding range_from
range start stop step = range_from (stop - start) start stop step

-- `value in values`
unfoldable pub contains : ℕ → List ℕ → Bool
contains value = any (λ v. v == value)

step_part : String → ℕ → ℕ → Option ℤ → Result (List ℕ)
step_part part minimum maximum none =
    raise (bad_request_error "Cron step must be an integer" (field "part" (str part) empty))
step_part part minimum maximum (some step) =
    if leb_ℤ step (pos 0)
    then raise (bad_request_error "Cron step must be positive" (field "part" (str part) empty))
    else ok (range minimum (maximum + 1) (pos_part step))

value_part : String → ℕ → ℕ → Option ℤ → Result (List ℕ)
value_part part minimum maximum none = raise (
    bad_request_error "Cron field must be '*', '*/n', or an integer"
      (field "part" (str part) empty))
value_part part minimum maximum (some value) =
    if ltb_ℤ value (pos minimum) || ltb_ℤ (pos maximum) value
    then raise (
        bad_request_error "Cron value out of range" (
          field "part" (str part)
            (field "minimum" (int (pos minimum)) (field "maximum" (int (pos maximum)) empty))))
    else ok (pos_part value ∷ [])

unfoldable pub parse_cron_part : String → ℕ → ℕ → Result (List ℕ)
unfolding step_part value_part
parse_cron_part part minimum maximum =
    if part == "*" then ok (range minimum (maximum + 1) 1) else elim (after_star_slash part) [
      | some rest ↦ step_part part minimum maximum (int_of_text rest)
      | none ↦ value_part part minimum maximum (int_of_text part)
    ]

-- The checks of the five fields, in their order.
unfoldable pub check_parts : String → List String → Result (List String)
check_parts expression (minute ∷ hour ∷ day ∷ month ∷ weekday ∷ []) = do
  parse_cron_part minute 0 59
  parse_cron_part hour 0 23
  parse_cron_part day 1 31
  parse_cron_part month 1 12
  parse_cron_part weekday 0 6
  ok (minute ∷ hour ∷ day ∷ month ∷ weekday ∷ [])
check_parts expression _ = raise (
    bad_request_error "Cron expression must have five fields" (field "cron" (str expression) empty))

unfoldable pub validate_cron_expression : String → Result String
unfolding check_parts
validate_cron_expression expression = do
  parts ← check_parts expression (split (strip expression))
  ok (join parts)

-- `a and b` where `b` may raise: it is looked at only if `a` is true.
unfoldable pub and_then : Result Bool → Result Bool → Result Bool
and_then (ok true) b = b
and_then (ok false) b = ok false
and_then (err x) b = err x

unfoldable pub in_part : ℕ → String → ℕ → ℕ → Result Bool
in_part value part minimum maximum = do
  values ← parse_cron_part part minimum maximum
  ok (contains value values)

pub record Fields : Type 0 where
  pub minute : String
  pub hour : String
  pub day : String
  pub month : String
  pub weekday : String

-- The condition of the loop.
unfoldable pub matches : Fields → Instant → Result Bool
unfolding and_then in_part
matches f candidate = and_then (in_part (minute_of candidate) f.minute 0 59) (
    and_then (in_part (hour_of candidate) f.hour 0 23) (
      and_then (in_part (day_of candidate) f.day 1 31) (
        and_then (in_part (month_of candidate) f.month 1 12)
          (in_part (weekday_of candidate) f.weekday 0 6))))

-- The loop over the candidates, `rounds` of them left.
unfoldable pub search_run : String → Fields → ℕ → Instant → Result Instant
search_run expression f zero candidate = raise (
    bad_request_error "Cron expression has no run in the next year"
      (field "cron" (str expression) empty))
search_run expression f (suc rounds) candidate = elim (matches f candidate) [
  | ok true ↦ ok candidate
  | ok false ↦ search_run expression f rounds (candidate + micros_per_minute)
  | err x ↦ err x
]

-- `minute, hour, day, month, weekday = expression.split()`
unfoldable pub unpack_fields : List String → Result Fields
unpack_fields (minute ∷ hour ∷ day ∷ month ∷ weekday ∷ []) =
    ok (record { minute = minute; hour = hour; day = day; month = month; weekday = weekday })
unpack_fields _ = err (value_error "not five values to unpack")

-- `after.replace(second=0, microsecond=0) + timedelta(minutes=1)`
unfoldable pub first_candidate : Instant → Instant
first_candidate after = after / 60_000_000 * 60_000_000 + 60_000_000

-- `366 * 24 * 60`
unfoldable pub minutes_searched : ℕ
minutes_searched = 527_040

unfoldable pub next_cron_run : String → Instant → Result Instant
unfolding unpack_fields first_candidate
next_cron_run expression after = do
  normalized ← validate_cron_expression expression
  f ← unpack_fields (split normalized)
  search_run normalized f minutes_searched (first_candidate after)
