-- ===== src/Examples/Cron.antt =====
-- Cron expressions on 29 February 2024.
use async_job_processing_pip.Prelude.{String, ◌≡◌, ◌↔◌, refl, true, [], ◌∷◌}
use async_job_processing_pip.Text.{strip, split, join, int_of_text, after_star_slash}
use async_job_processing_pip.Calendar.{
  Instant, minute_of, hour_of, day_of, month_of, weekday_of, month_number, day_number, year_day,
}
use async_job_processing_pip.Core.Errors.{ok}
use async_job_processing_pip.Scheduling.{
  range, contains, parse_cron_part, validate_cron_expression, matches, search_run, minutes_searched,
  next_cron_run, Fields, unpack_fields,
}
use async_job_processing_pip.Scheduling.Parts.{InPart, parse_cron_part-InPart}
use async_job_processing_pip.Scheduling.Expression.{validate_cron_expression_idem}
use async_job_processing_pip.Scheduling.Search.{IsNextRun, next_cron_run-IsNextRun}

abbrev pub noon : Instant
noon = 1_709_208_000_000_000

abbrev pub every_fifth : String
every_fifth = " */5  * 29 2 3 "

fifth_minutes : parse_cron_part "*/25" 0 59 ≡ ok (0 ∷ 25 ∷ 50 ∷ [])
unfolding parse_cron_part range int_of_text after_star_slash
fifth_minutes = refl

parse_cron_part-InPart_example : (contains 25 (0 ∷ 25 ∷ 50 ∷ []) ≡ true) ↔ InPart "*/25" 0 59 25
parse_cron_part-InPart_example = parse_cron_part-InPart "*/25" 0 59 25 fifth_minutes

stored_form : validate_cron_expression every_fifth ≡ ok "*/5 * 29 2 3"
unfolding validate_cron_expression parse_cron_part range int_of_text after_star_slash split strip
    join
stored_form = refl

validate_cron_expression_idem_example :
    (split "*/5 * 29 2 3" ≡ split every_fifth)
    × (validate_cron_expression "*/5 * 29 2 3" ≡ ok "*/5 * 29 2 3")
validate_cron_expression_idem_example =
    validate_cron_expression_idem every_fifth "*/5 * 29 2 3" stored_form

pub next_fifth : next_cron_run every_fifth noon ≡ ok 1_709_208_300_000_000
unfolding next_cron_run validate_cron_expression parse_cron_part matches search_run minutes_searched
    range contains strip split join int_of_text after_star_slash minute_of hour_of day_of month_of
    weekday_of month_number day_number year_day
next_fifth = refl

next_cron_run-IsNextRun_example :
    (f : Fields) × (unpack_fields (split every_fifth) ≡ ok f)
    × IsNextRun f noon 1_709_208_300_000_000
next_cron_run-IsNextRun_example =
    next_cron_run-IsNextRun every_fifth noon 1_709_208_300_000_000 next_fifth
