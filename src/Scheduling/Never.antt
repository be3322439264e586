-- ===== src/Scheduling/Never.antt =====
-- `next_cron_run` of app/jobs/scheduling.py on days that a month does not have.
use async_job_processing_pip.Prelude.{ℕ, ◌<◌, String, ◌≡◌, ◌∙◌, none, some, arith}
use async_job_processing_pip.Prelude.Int.{pos}
use async_job_processing_pip.Text.{split, int_of_text, after_star_slash}
use async_job_processing_pip.Calendar.{Instant}
use async_job_processing_pip.Calendar.Bounds.{february_days}
use async_job_processing_pip.Core.Json.{field, empty, str}
use async_job_processing_pip.Core.Errors.{Result, ok, raise, bad_request_error}
use async_job_processing_pip.Scheduling.{
  validate_cron_expression, Fields, unpack_fields, first_candidate, minutes_searched, next_cron_run,
}
use async_job_processing_pip.Scheduling.Parts.{InPart, every, stepped, exact, star_int}
use async_job_processing_pip.Scheduling.Due.{IsDue}
use async_job_processing_pip.Scheduling.Search.{
  Outcome, found, not_found, search_run-Outcome, accepted_search,
}

-- A field that is a plain number.
pub record IsNumber (part : String) (v : ℕ) : Type 0 where
  pub no_step : after_star_slash part ≡ none
  pub number : int_of_text part ≡ some (pos v)

in_number :
    {part : String} {v minimum maximum x : ℕ}
    → IsNumber part v
    → InPart part minimum maximum x
    → x ≡ v
in_number {part} n (every e lo hi) = absurd (ground (arith, star_int part e, n.number))
in_number n (stepped rest k j s i p at hi) = absurd (ground (arith, n.no_step))
in_number n (exact s i lo hi) = ground (arith, n.number)

module _ (f : Fields) (d : ℕ) (day : IsNumber f.day d) (late : 29 < d)
    (month : IsNumber f.month 2) where
  never-IsDue : (t : Instant) → ¬ IsDue f t
  never-IsDue t due =
      let m = in_number month due.month in
      let at = in_number day due.day in omega (arith, february_days t m, at)

  no-Outcome :
      (n : String) (rounds : ℕ) (c : Instant) {r : Result Instant}
      → Outcome n f rounds c r
      → r
        ≡ raise (
            bad_request_error "Cron expression has no run in the next year"
              (field "cron" (str n) empty))
  no-Outcome n rounds c (found k lt at due first) = absurd (never-IsDue _ due)
  no-Outcome n rounds c (not_found at none_due) = at

pub next_cron_run_february :
    (e n : String) (f : Fields) (d : ℕ) (after : Instant)
    → validate_cron_expression e ≡ ok n
    → unpack_fields (split e) ≡ ok f
    → IsNumber f.day d
    → 29 < d
    → IsNumber f.month 2
    → next_cron_run e after
      ≡ raise (
          bad_request_error "Cron expression has no run in the next year"
            (field "cron" (str n) empty))
next_cron_run_february e n f d after h u day late month =
    let (g, valid, u', s) = accepted_search e after n h in
    let same : g ≡ f = ground arith in
    s
    ∙ no-Outcome g d (rw same day) late (rw same month) n minutes_searched (first_candidate after)
        (search_run-Outcome n g valid minutes_searched (first_candidate after))
