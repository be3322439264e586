-- ===== src/Scheduling/Search.antt =====
-- The search of `next_cron_run` of app/jobs/scheduling.py.
use async_job_processing_pip.Prelude.{
  ℕ, zero, suc, ◌+◌, ◌-◌, ◌*◌, ◌/◌, ◌%◌, ◌≤◌, ◌<◌, String, ◌≡◌, inl, inr, refl, sym, ◌∙◌, true,
  false, arith, Bool-cases,
}
use async_job_processing_pip.Text.{split}
use async_job_processing_pip.Calendar.{Instant, micros_per_minute}
use async_job_processing_pip.Core.Json.{field, empty, str}
use async_job_processing_pip.Core.Errors.{
  Raised, service_error, Result, ok, err, raise, bad_request_error, ◌>>=◌, >>=-eq-ok,
}
use async_job_processing_pip.Scheduling.{
  validate_cron_expression, Fields, matches, search_run, unpack_fields, first_candidate,
  minutes_searched, next_cron_run,
}
use async_job_processing_pip.Scheduling.Expression.{AreAccepted, validate_ok}
use async_job_processing_pip.Scheduling.Due.{IsDue, matches-Decides, matches-true, matches-false}

-- What a search over `rounds` minutes from `c` on came to.
pub data Outcome (e : String) (f : Fields) (rounds : ℕ) (c : Instant) (r : Result Instant)
    : Type 0 where
  found :
      (k : ℕ)
      → k < rounds
      → r ≡ ok (c + k * micros_per_minute)
      → IsDue f (c + k * micros_per_minute)
      → ((j : ℕ) → j < k → ¬ IsDue f (c + j * micros_per_minute))
      → Outcome e f rounds c r
  not_found :
      r
        ≡ raise (
            bad_request_error "Cron expression has no run in the next year"
              (field "cron" (str e) empty))
      → ((j : ℕ) → j < rounds → ¬ IsDue f (c + j * micros_per_minute))
      → Outcome e f rounds c r

module _ (e : String) (f : Fields) (valid : AreAccepted f) where
  none_before :
      (c : Instant) (n : ℕ)
      → ¬ IsDue f c
      → ((j : ℕ) → j < n → ¬ IsDue f (c + micros_per_minute + j * micros_per_minute))
      → (j : ℕ) → j < suc n
      → ¬ IsDue f (c + j * micros_per_minute)
  none_before c n h rest zero _ = let e' : c + 0 * micros_per_minute ≡ c = omega arith in rw e' h
  none_before c n h rest (suc j) lt =
      let e' : c + suc j * micros_per_minute ≡ c + micros_per_minute + j * micros_per_minute =
        omega arith in
      rw e' (rest j (omega arith))

  run_true :
      (rounds : ℕ) (c : Instant) → matches f c ≡ ok true → search_run e f (suc rounds) c ≡ ok c
  unfolding search_run
  run_true rounds c h = rw (h, search_run)

  run_false :
      (rounds : ℕ) (c : Instant)
      → matches f c ≡ ok false
      → search_run e f (suc rounds) c ≡ search_run e f rounds (c + micros_per_minute)
  unfolding search_run
  run_false rounds c h = rw (h, search_run)

  found_here :
      (rounds : ℕ) (c : Instant)
      → matches f c ≡ ok true
      → Outcome e f (suc rounds) c (search_run e f (suc rounds) c)
  found_here rounds c h =
      let here : c + 0 * micros_per_minute ≡ c = omega arith in
      found 0 (omega arith) (rw here (run_true rounds c h)) (rw here (matches-true f valid c h))
        (λ j lt. absurd (omega arith))

  later :
      (rounds : ℕ) (c : Instant) {r : Result Instant}
      → matches f c ≡ ok false
      → search_run e f (suc rounds) c ≡ r
      → Outcome e f rounds (c + micros_per_minute) r
      → Outcome e f (suc rounds) c (search_run e f (suc rounds) c)
  later rounds c h s (found k lt at due first) =
      let shift : c + suc k * micros_per_minute ≡ c + micros_per_minute + k * micros_per_minute =
        omega arith in
      rw s (
        found (suc k) (omega arith) (rw shift at) (rw shift due)
          (none_before c k (matches-false f valid c h) first))
  later rounds c h s (not_found at none_due) =
      rw s (not_found at (none_before c rounds (matches-false f valid c h) none_due))

  pub search_run-Outcome :
      (rounds : ℕ) (c : Instant) → Outcome e f rounds c (search_run e f rounds c)
  search_run-Outcome zero c = unfold search_run in not_found refl (λ j h. absurd (omega arith))
  search_run-Outcome (suc rounds) c =
      let ih = search_run-Outcome rounds (c + micros_per_minute) in
      let d = matches-Decides f c valid in
      elim (Bool-cases d.answer) [
        | inl t ↦ found_here rounds c (rw t at d.answered)
        | inr n ↦
            let h : matches f c ≡ ok false = rw n at d.answered in
            later rounds c h (run_false rounds c h) ih
      ]

-- The first whole minute after `after`.
first_candidate_lem :
    (after : Instant)
    → (first_candidate after % 60_000_000 ≡ 0)
      × (after < first_candidate after)
      × (first_candidate after ≤ after + 60_000_000)
unfolding first_candidate
first_candidate_lem after = omega arith

-- A whole minute after `after` is one of the candidates.
candidate_index :
    (after s : Instant)
    → s % 60_000_000 ≡ 0
    → after < s
    → s ≡ first_candidate after + (s / 60_000_000 - after / 60_000_000 - 1) * micros_per_minute
unfolding first_candidate
candidate_index after s m h = omega arith

-- The fields mean none of the minutes of the 366 days from `after`.
abbrev pub IsNever : Fields → Instant → Type 0
IsNever f after =
    (s : Instant) → s % 60_000_000 ≡ 0 → after < s → s ≤ after + 527_040 * 60_000_000 → ¬ IsDue f s

-- What a caller of `next_cron_run` is promised of the answer `t`.
pub record IsNextRun (f : Fields) (after t : Instant) : Type 0 where
  pub aligned : t % 60_000_000 ≡ 0
  pub future : after < t
  pub within : t ≤ after + 527_040 * 60_000_000
  pub due : IsDue f t
  pub earliest : (s : Instant) → s % 60_000_000 ≡ 0 → after < s → s < t → ¬ IsDue f s

minutes_searched_lem : minutes_searched ≡ 527_040
unfolding minutes_searched
minutes_searched_lem = refl

module _ (e : String) (after : Instant) where
  -- After validation `next_cron_run` is the search over the stored form's fields.
  as_search :
      (n : String) (f : Fields)
      → validate_cron_expression e ≡ ok n
      → unpack_fields (split n) ≡ ok f
      → next_cron_run e after ≡ search_run n f minutes_searched (first_candidate after)
  unfolding next_cron_run
  as_search n f h u = rw h (rw u refl)

  Outcome-IsNextRun :
      (n : String) (f : Fields) {r : Result Instant} {t : Instant}
      → Outcome n f minutes_searched (first_candidate after) r
      → r ≡ ok t
      → IsNextRun f after t
  Outcome-IsNextRun n f {t = t} (not_found at none_due) h = cc
  Outcome-IsNextRun n f {t = t} (found k lt at due first) h =
      let here : t ≡ first_candidate after + k * micros_per_minute = ground arith in
      let c = first_candidate_lem after in
      rw here (record {
        aligned = omega (arith, c.0);
        future = omega (arith, c.1);
        within = omega (arith, c.2, minutes_searched_lem);
        due = due;
        earliest = λ s m later_s before.
            let at_index = candidate_index after s m later_s in
            rw at_index
              (first (s / 60_000_000 - after / 60_000_000 - 1) (omega (arith, at_index, before)));
      })

  answered :
      (t : Instant)
      → next_cron_run e after ≡ ok t
      → (n : String) × (validate_cron_expression e ≡ ok n)
        × ((do f ← unpack_fields (split n); search_run n f minutes_searched (first_candidate after))
            ≡ ok t)
  unfolding next_cron_run
  answered t r = >>=-eq-ok (validate_cron_expression e) _ r

  Outcome-none :
      (n : String) (f : Fields) {r : Result Instant} (x : Raised)
      → Outcome n f minutes_searched (first_candidate after) r
      → r ≡ err x
      → (x
          ≡ service_error (
              bad_request_error "Cron expression has no run in the next year"
                (field "cron" (str n) empty)))
        × IsNever f after
  Outcome-none n f x (found k lt at due first) h = absurd (ground arith)
  Outcome-none n f x (not_found at none_due) h = (
    ground arith,
    λ s m later_s before.
        let at_index = candidate_index after s m later_s in
        rw at_index (
          none_due (s / 60_000_000 - after / 60_000_000 - 1) (omega (arith, minutes_searched_lem))),
  )

  pub accepted_search :
      (n : String)
      → validate_cron_expression e ≡ ok n
      → (f : Fields) × AreAccepted f
        × (unpack_fields (split e) ≡ ok f)
        × (next_cron_run e after ≡ search_run n f minutes_searched (first_candidate after))
  accepted_search n h =
      let (f, valid, u, same) = validate_ok e n h in (f, valid, u, as_search n f h (rw same u))

  -- An answer of `next_cron_run` is a whole minute after `after`, at most 366 days later, all five of
  -- whose fields the expression means, and no earlier minute after `after` has that.
  pub next_cron_run-IsNextRun :
      (t : Instant)
      → next_cron_run e after ≡ ok t
      → (f : Fields) × (unpack_fields (split e) ≡ ok f) × IsNextRun f after t
  next_cron_run-IsNextRun t r =
      let (n, h, _) = answered t r in
      let (f, valid, u, s) = accepted_search n h in
      (
        f,
        u,
        Outcome-IsNextRun n f
            (search_run-Outcome n f valid minutes_searched (first_candidate after)) (sym s ∙ r),
      )

  -- An accepted expression is refused by `next_cron_run` only as having no run in the next year, and
  -- then it means none of the whole minutes of the next 366 days.
  pub next_cron_run_none :
      (n : String) (x : Raised)
      → validate_cron_expression e ≡ ok n
      → next_cron_run e after ≡ err x
      → (x
          ≡ service_error (
              bad_request_error "Cron expression has no run in the next year"
                (field "cron" (str n) empty)))
        × (f : Fields) × (unpack_fields (split e) ≡ ok f)
        × IsNever f after
  next_cron_run_none n x h r =
      let (f, valid, u, s) = accepted_search n h in
      let (refusal, none_due) =
        Outcome-none n f x (search_run-Outcome n f valid minutes_searched (first_candidate after))
          (sym s ∙ r) in
      (refusal, f, u, none_due)
