-- ===== src/Scheduling/Due.antt =====
-- The condition of the search of app/jobs/scheduling.py: the instants that an expression means.
use async_job_processing_pip.Prelude.{ℕ, String, ◌≡◌, ◌↔◌, refl, Bool, true, false, arith}
use async_job_processing_pip.Calendar.{Instant, minute_of, hour_of, day_of, month_of, weekday_of}
use async_job_processing_pip.Core.Errors.{Result, ok}
use async_job_processing_pip.Scheduling.{contains, and_then, in_part, Fields, matches}
use async_job_processing_pip.Scheduling.Parts.{InPart, parse_cron_part-InPart}
use async_job_processing_pip.Scheduling.Expression.{Accepted, accepted, AreAccepted}

-- The five fields of an instant are values that the expression means.
pub record IsDue (f : Fields) (t : Instant) : Type 0 where
  pub minute : InPart f.minute 0 59 (minute_of t)
  pub hour : InPart f.hour 0 23 (hour_of t)
  pub day : InPart f.day 1 31 (day_of t)
  pub month : InPart f.month 1 12 (month_of t)
  pub weekday : InPart f.weekday 0 6 (weekday_of t)

-- A test that does not raise, and what it decides.
pub record Decides (r : Result Bool) (P : Type 0) : Type 0 where
  pub answer : Bool
  pub answered : r ≡ ok answer
  pub means : (answer ≡ true) ↔ P

in_part-Decides :
    (part : String) (minimum maximum x : ℕ)
    → Accepted part minimum maximum
    → Decides (in_part x part minimum maximum) (InPart part minimum maximum x)
unfolding in_part
in_part-Decides part minimum maximum x (accepted values e) = record {
  answer = contains x values;
  answered = rw e;
  means = parse_cron_part-InPart part minimum maximum x e;
}

both : Bool → Bool → Bool
both true b = b
both false b = false

both_iff : (a b : Bool) → (both a b ≡ true) ↔ ((a ≡ true) × (b ≡ true))
unfolding both
both_iff true b = (λ h. (refl, h), λ h. h.1)
both_iff false b = (λ h. cc, λ h. h.0)

and_then-Decides :
    {P Q : Type 0} (r s : Result Bool) → Decides r P → Decides s Q → Decides (and_then r s) (P × Q)
unfolding and_then both
and_then-Decides r s d e = record {
  answer = both d.answer e.answer;
  answered = ground (arith, d.answered, e.answered);
  means = (
    λ h. let (a, b) = (both_iff d.answer e.answer).0 h in (d.means.0 a, e.means.0 b),
    λ h. (both_iff d.answer e.answer).1 (d.means.1 h.0, e.means.1 h.1),
  );
}

-- On accepted fields the condition of the loop decides `IsDue` and never raises.
pub matches-Decides :
    (f : Fields) (t : Instant)
    → AreAccepted f
    → Decides (matches f t) (
        InPart f.minute 0 59 (minute_of t)
        × (InPart f.hour 0 23 (hour_of t)
            × (InPart f.day 1 31 (day_of t)
                × (InPart f.month 1 12 (month_of t) × InPart f.weekday 0 6 (weekday_of t)))))
unfolding matches
matches-Decides f t a =
    and_then-Decides _ _ (in_part-Decides f.minute 0 59 (minute_of t) a.minute) (
      and_then-Decides _ _ (in_part-Decides f.hour 0 23 (hour_of t) a.hour) (
        and_then-Decides _ _ (in_part-Decides f.day 1 31 (day_of t) a.day) (
          and_then-Decides _ _ (in_part-Decides f.month 1 12 (month_of t) a.month)
            (in_part-Decides f.weekday 0 6 (weekday_of t) a.weekday))))

module _ (f : Fields) (valid : AreAccepted f) (t : Instant) where
  pub matches-true : matches f t ≡ ok true → IsDue f t
  matches-true h =
      let d = matches-Decides f t valid in
      let (a, (b, (c, (g, e)))) = d.means.0 (ground (arith, d.answered)) in
      record { minute = a; hour = b; day = c; month = g; weekday = e }

  pub matches-false : matches f t ≡ ok false → ¬ IsDue f t
  matches-false h due =
      let d = matches-Decides f t valid in
      let yes_it_is = d.means.1 (due.minute, (due.hour, (due.day, (due.month, due.weekday)))) in
      cc (d.answered, yes_it_is)
