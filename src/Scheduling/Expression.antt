-- ===== src/Scheduling/Expression.antt =====
-- `validate_cron_expression` of app/jobs/scheduling.py: accepted expressions and their stored form.
use async_job_processing_pip.Prelude.{ℕ, String, ◌≡◌, refl, List, [], ◌∷◌, arith}
use async_job_processing_pip.Text.{strip, split, join}
use async_job_processing_pip.Text.Laws.{split-IsWord, split-join, split-strip}
use async_job_processing_pip.Core.Errors.{Result, ok, ◌>>◌, >>=-eq-ok}
use async_job_processing_pip.Scheduling.{
  parse_cron_part, check_parts, validate_cron_expression, Fields, unpack_fields,
}

-- A field that is accepted.
pub data Accepted (part : String) (minimum maximum : ℕ) : Type 0 where
  accepted :
      (values : List ℕ)
      → parse_cron_part part minimum maximum ≡ ok values
      → Accepted part minimum maximum

pub record AreAccepted (f : Fields) : Type 0 where
  pub minute : Accepted f.minute 0 59
  pub hour : Accepted f.hour 0 23
  pub day : Accepted f.day 1 31
  pub month : Accepted f.month 1 12
  pub weekday : Accepted f.weekday 0 6

then_ok {ℓ} :
    {B : Type ℓ} (part : String) (minimum maximum : ℕ) (rest : Result B) {b : B}
    → (parse_cron_part part minimum maximum >> rest) ≡ ok b
    → Accepted part minimum maximum × (rest ≡ ok b)
then_ok part minimum maximum rest h =
    let (values, e, r) = >>=-eq-ok (parse_cron_part part minimum maximum) (λ _. rest) h in
    (accepted values e, r)

check_parts_ok :
    (expression : String) (parts : List String) {checked : List String}
    → check_parts expression parts ≡ ok checked
    → (f : Fields) × AreAccepted f × (unpack_fields parts ≡ ok f) × (checked ≡ parts)
unfolding check_parts unpack_fields
check_parts_ok expression (minute ∷ hour ∷ day ∷ month ∷ weekday ∷ []) h =
    let (a, h₁) = then_ok minute 0 59 _ h in
    let (b, h₂) = then_ok hour 0 23 _ h₁ in
    let (c, h₃) = then_ok day 1 31 _ h₂ in
    let (d, h₄) = then_ok month 1 12 _ h₃ in
    let (e, h₅) = then_ok weekday 0 6 _ h₄ in
    let f : Fields = record {
      minute = minute;
      hour = hour;
      day = day;
      month = month;
      weekday = weekday;
    } in
    (f, record { minute = a; hour = b; day = c; month = d; weekday = e }, refl, ground arith)
check_parts_ok expression [] h = absurd (ground arith)
check_parts_ok expression (_ ∷ []) h = absurd (ground arith)
check_parts_ok expression (_ ∷ _ ∷ []) h = absurd (ground arith)
check_parts_ok expression (_ ∷ _ ∷ _ ∷ []) h = absurd (ground arith)
check_parts_ok expression (_ ∷ _ ∷ _ ∷ _ ∷ []) h = absurd (ground arith)
check_parts_ok expression (_ ∷ _ ∷ _ ∷ _ ∷ _ ∷ _ ∷ _) h = absurd (ground arith)

-- The expression is only named in the refusal.
check_parts_any :
    (e e' : String) (parts : List String) {checked : List String}
    → check_parts e parts ≡ ok checked
    → check_parts e' parts ≡ ok checked
unfolding check_parts
check_parts_any e e' (minute ∷ hour ∷ day ∷ month ∷ weekday ∷ []) h = h
check_parts_any e e' [] h = absurd (ground arith)
check_parts_any e e' (_ ∷ []) h = absurd (ground arith)
check_parts_any e e' (_ ∷ _ ∷ []) h = absurd (ground arith)
check_parts_any e e' (_ ∷ _ ∷ _ ∷ []) h = absurd (ground arith)
check_parts_any e e' (_ ∷ _ ∷ _ ∷ _ ∷ []) h = absurd (ground arith)
check_parts_any e e' (_ ∷ _ ∷ _ ∷ _ ∷ _ ∷ _ ∷ _) h = absurd (ground arith)

module _ (e n : String) (h : validate_cron_expression e ≡ ok n) where
  parts_eq : (split (strip e) ≡ split e) × (join (split e) ≡ n)
  unfolding validate_cron_expression
  parts_eq =
      let (checked, c, j) =
        >>=-eq-ok (check_parts e (split (strip e))) (λ (ps : List String). ok (join ps)) h in
      let (f, valid, u, same) = check_parts_ok e (split (strip e)) c in
      let s = split-strip e in (s, ground (arith, s))

  pub validate_ok :
      (f : Fields) × AreAccepted f × (unpack_fields (split e) ≡ ok f) × (split n ≡ split e)
  unfolding validate_cron_expression
  validate_ok =
      let (checked, c, j) =
        >>=-eq-ok (check_parts e (split (strip e))) (λ (ps : List String). ok (join ps)) h in
      let (f, valid, u, same) = check_parts_ok e (split (strip e)) c in
      (f, valid, rw parts_eq.0 at u, rw (← parts_eq.1) (split-join (split e) (split-IsWord e)))

  -- An accepted expression is stored with single spaces: it has the same five fields as the text that
  -- came in, and is accepted again as it stands.
  pub validate_cron_expression_idem : (split n ≡ split e) × (validate_cron_expression n ≡ ok n)
  unfolding validate_cron_expression
  validate_cron_expression_idem =
      let (f, valid, u, same) = validate_ok in
      let (checked, c, j) =
        >>=-eq-ok (check_parts e (split (strip e))) (λ (ps : List String). ok (join ps)) h in
      (same, rw (split-strip n, same, ← parts_eq.0) (rw (check_parts_any e n _ c) j))
