-- ===== src/Jobs/Requests/Bounds.antt =====
-- What holds of a validated request of app/jobs/schemas.py.
use async_job_processing_pip.Prelude.{
  ◌≤◌, ◌≡◌, refl, ap, sym, subst, Option, ◌∙◌, true, none, some, String, arith, inl, inr,
  Bool-cases, Option-cases, ◌⊎◌,
}
use async_job_processing_pip.Core.Errors.{Result-cases, ok}
use async_job_processing_pip.Scheduling.{validate_cron_expression}
use async_job_processing_pip.Scheduling.Expression.{validate_cron_expression_idem}
use async_job_processing_pip.Jobs.{JobCreate}
use async_job_processing_pip.Jobs.Requests.{
  JobRequest, Validated, valid, invalid, has_length, fields_valid, validated_as, with_cron,
  after_cron, validate,
}

-- The bounds that every validated request keeps to; a recurring one has an accepted expression in its
-- stored form.
pub record IsBounded (c : JobCreate) : Type 0 where
  pub priority_max : c.priority ≤ 10
  pub max_retries_max : c.max_retries ≤ 10
  pub timeout_min : 1 ≤ c.timeout_seconds
  pub timeout_max : c.timeout_seconds ≤ 300
  pub cron_accepted :
      (c.recurring_cron ≡ none)
      ⊎ ((e : String) × (c.recurring_cron ≡ some e) × (validate_cron_expression e ≡ ok e))

abbrev IsAccepted : Option String → Type 0
IsAccepted cron =
    (cron ≡ none) ⊎ ((e : String) × (cron ≡ some e) × (validate_cron_expression e ≡ ok e))

validated_as-IsBounded :
    (r : JobRequest) (cron : Option String)
    → fields_valid r ≡ true
    → IsAccepted cron
    → IsBounded (validated_as cron r)
unfolding fields_valid validated_as
validated_as-IsBounded r cron h accepted = record {
  priority_max = ground arith;
  max_retries_max = ground arith;
  timeout_min = ground arith;
  timeout_max = ground arith;
  cron_accepted = accepted;
}

abbrev request_of : JobCreate → Validated → JobCreate
request_of c (valid d) = d
request_of c _ = c

with_cron-IsBounded :
    (r : JobRequest) (cron : Option String) {c : JobCreate}
    → with_cron r cron ≡ valid c
    → IsAccepted cron
    → IsBounded c
unfolding with_cron
with_cron-IsBounded r cron {c} h accepted = elim (Bool-cases (fields_valid r)) [
  | inl fine ↦
      let same : with_cron r cron ≡ valid (validated_as cron r) = rw fine refl in
      subst IsBounded (ap (request_of c) (sym same ∙ h))
        (validated_as-IsBounded r cron fine accepted)
  | inr broken ↦ let same : with_cron r cron ≡ invalid = rw broken refl in absurd (cc (same, h))
]

after_cron-IsBounded :
    (r : JobRequest) (cron : String) {c : JobCreate}
    → after_cron r (validate_cron_expression cron) ≡ valid c
    → IsBounded c
unfolding after_cron
after_cron-IsBounded r cron h = elim (Result-cases (validate_cron_expression cron)) [
  | inl (n, fine) ↦
      let (_, again) = validate_cron_expression_idem cron n fine in
      with_cron-IsBounded r (some n) (rw fine at h) (inr (n, refl, again))
  | inr (x, refused) ↦ absurd (ground (arith, refused, h))
]

-- A request that is validated has a priority and a number of retries of at most ten, a time-out between
-- one second and five minutes, and, if it recurs, an accepted cron expression in its stored form.
pub validate-IsBounded : (r : JobRequest) (c : JobCreate) → validate r ≡ valid c → IsBounded c
unfolding validate
validate-IsBounded r c h = elim (Option-cases r.recurring_cron) [
  | inl once ↦ with_cron-IsBounded r none (rw once at h) (inl refl)
  | inr (cron, recurs) ↦ elim (Bool-cases (has_length 9 100 cron)) [
    | inl fits ↦ after_cron-IsBounded r cron (ground (arith, h, recurs, fits))
    | inr long ↦ absurd (ground (arith, h, recurs, long))
  ]
]
