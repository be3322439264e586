-- ===== src/Scheduling/Parts.antt =====
-- `_parse_cron_part` of app/jobs/scheduling.py: the values that one cron field stands for.
use async_job_processing_pip.Prelude.{
  ℕ, zero, suc, ◌+◌, ◌-◌, ◌*◌, ◌≤◌, ◌<◌, String, ◌≡◌, ◌↔◌, refl, inl, inr, true, false, Option,
  none, some, List, [], ◌∷◌, ◌⊎◌, arith, ltb, ◌==◌, nat_eq, string_eq, Bool-cases, Option-cases,
}
use async_job_processing_pip.Prelude.Int.{ℤ, pos, negsuc}
use async_job_processing_pip.Text.{int_of_text, after_star_slash}
use async_job_processing_pip.Core.Errors.{ok}
use async_job_processing_pip.Scheduling.{
  range_from, range, contains, step_part, value_part, parse_cron_part,
}

range_from_sound :
    (rounds value stop step x : ℕ)
    → contains x (range_from rounds value stop step) ≡ true
    → (k : ℕ) × (x ≡ value + k * step) × (x < stop)
unfolding contains range_from
range_from_sound zero value stop step x h = cc
range_from_sound (suc rounds) value stop step x h = elim (Bool-cases (ltb value stop)) [
  | inr past ↦ absurd (ground arith)
  | inl within ↦ elim (Bool-cases (value == x)) [
    | inl found ↦ (0, ground arith, ground arith)
    | inr other ↦
        let (k, at, below) = range_from_sound rounds (value + step) stop step x (ground arith) in
        (suc k, grind arith, below)
  ]
]

range_from_complete :
    (rounds value stop step k : ℕ)
    → 0 < step
    → stop ≤ value + rounds
    → value + k * step < stop
    → contains (value + k * step) (range_from rounds value stop step) ≡ true
unfolding contains range_from
range_from_complete zero value stop step k pos_step enough below = absurd (grind arith)
range_from_complete (suc rounds) value stop step zero pos_step enough below = ground arith
range_from_complete (suc rounds) value stop step (suc k) pos_step enough below =
    let e : value + suc k * step ≡ value + step + k * step = grind arith in
    rw e (
      ground (
        arith,
        range_from_complete rounds (value + step) stop step k pos_step (omega arith) (omega arith),
      ))

-- What a field means: `*` is every value in the range, `*/n` every n-th from the least, a number that
-- number.
pub data InPart (part : String) (minimum maximum x : ℕ) : Type 0 where
  every : part ≡ "*" → minimum ≤ x → x ≤ maximum → InPart part minimum maximum x
  stepped :
      (rest : String) (n k : ℕ)
      → after_star_slash part ≡ some rest
      → int_of_text rest ≡ some (pos n)
      → 0 < n
      → x ≡ minimum + k * n
      → x ≤ maximum
      → InPart part minimum maximum x
  exact :
      after_star_slash part ≡ none
      → int_of_text part ≡ some (pos x)
      → minimum ≤ x
      → x ≤ maximum
      → InPart part minimum maximum x

-- Every value that a field means lies in the field's range.
pub InPart-bounds :
    {part : String} {minimum maximum x : ℕ}
    → InPart part minimum maximum x
    → (minimum ≤ x) × (x ≤ maximum)
InPart-bounds (every e lo hi) = (lo, hi)
InPart-bounds {minimum} (stepped rest n k s i p e hi) = (grind arith, hi)
InPart-bounds (exact s i lo hi) = (lo, hi)

range_sound :
    (start stop step x : ℕ)
    → contains x (range start stop step) ≡ true
    → (k : ℕ) × (x ≡ start + k * step) × (x < stop)
unfolding range
range_sound start stop step x h = range_from_sound (stop - start) start stop step x h

range_complete :
    (start stop step k : ℕ)
    → 0 < step
    → start + k * step < stop
    → contains (start + k * step) (range start stop step) ≡ true
unfolding range
range_complete start stop step k p h =
    range_from_complete (stop - start) start stop step k p (grind arith) h

module _ (part : String) (minimum maximum : ℕ) {values : List ℕ} where
  step_part_ok :
      (step : Option ℤ)
      → step_part part minimum maximum step ≡ ok values
      → (n : ℕ) × (step ≡ some (pos n)) × (0 < n) × (values ≡ range minimum (maximum + 1) n)
  unfolding step_part
  step_part_ok none h = cc
  step_part_ok (some (negsuc n)) h = absurd (ground arith)
  step_part_ok (some (pos n)) h = (n, refl, ground arith, ground arith)

  value_part_ok :
      (value : Option ℤ)
      → value_part part minimum maximum value ≡ ok values
      → (v : ℕ) × (value ≡ some (pos v)) × (minimum ≤ v) × (v ≤ maximum) × (values ≡ v ∷ [])
  unfolding value_part
  value_part_ok none h = cc
  value_part_ok (some (negsuc n)) h = absurd (ground arith)
  value_part_ok (some (pos v)) h = (v, refl, ground arith, ground arith, ground arith)

  -- The three ways in which a field is accepted.
  parse_cron_part_ok :
      parse_cron_part part minimum maximum ≡ ok values
      → ((part == "*") ≡ true) × (values ≡ range minimum (maximum + 1) 1)
        ⊎ ((rest : String) × (after_star_slash part ≡ some rest)
            × (step_part part minimum maximum (int_of_text rest) ≡ ok values))
        ⊎ (((part == "*") ≡ false)
            × (after_star_slash part ≡ none)
            × (value_part part minimum maximum (int_of_text part) ≡ ok values))
  unfolding parse_cron_part
  parse_cron_part_ok h = elim (Bool-cases (part == "*")) [
    | inl star ↦ inl (star, ground arith)
    | inr other ↦ elim (Option-cases (after_star_slash part)) [
      | inl e ↦ inr (inr (other, e, ground arith))
      | inr (rest, e) ↦ inr (inl (rest, e, ground arith))
    ]
  ]

  stepped_InPart :
      (x : ℕ) (rest : String)
      → after_star_slash part ≡ some rest
      → step_part part minimum maximum (int_of_text rest) ≡ ok values
      → contains x values ≡ true
      → InPart part minimum maximum x
  stepped_InPart x rest s h c =
      let (n, i, p, e) = step_part_ok (int_of_text rest) h in
      let (k, at, below) = range_sound minimum (maximum + 1) n x (rw e at c) in
      stepped rest n k s i p at (omega arith)

  exact_InPart :
      (x : ℕ)
      → after_star_slash part ≡ none
      → value_part part minimum maximum (int_of_text part) ≡ ok values
      → contains x values ≡ true
      → InPart part minimum maximum x
  unfolding contains
  exact_InPart x s h c =
      let (v, i, lo, hi, e) = value_part_ok (int_of_text part) h in
      let same : v ≡ x = ground arith in exact s (rw (← same) i) (omega arith) (omega arith)

  -- What an accepted field holds is what it means.
  pub parse_cron_part_sound :
      (x : ℕ)
      → parse_cron_part part minimum maximum ≡ ok values
      → contains x values ≡ true
      → InPart part minimum maximum x
  parse_cron_part_sound x h c = elim (parse_cron_part_ok h) [
    | inl (star, e) ↦
        let (k, at, below) = range_sound minimum (maximum + 1) 1 x (rw e at c) in
        every ((string_eq.beq_iff part "*").0 star) (omega arith) (omega arith)
    | inr (inl (rest, s, g)) ↦ stepped_InPart x rest s g c
    | inr (inr (other, s, g)) ↦ exact_InPart x s g c
  ]

range_at :
    (start stop step x k : ℕ)
    → 0 < step
    → x ≡ start + k * step
    → x < stop
    → contains x (range start stop step) ≡ true
range_at start stop step x k p e h = rw e (range_complete start stop step k p (omega arith))

star_after : (part : String) → part ≡ "*" → after_star_slash part ≡ none
unfolding after_star_slash
star_after part e = rw e

pub star_int : (part : String) → part ≡ "*" → int_of_text part ≡ none
unfolding int_of_text
star_int part e = rw e

module _ (part : String) (minimum maximum : ℕ) {values : List ℕ} where
  -- What a field means is among the values that it is accepted with.
  pub parse_cron_part_complete :
      (x : ℕ)
      → parse_cron_part part minimum maximum ≡ ok values
      → InPart part minimum maximum x
      → contains x values ≡ true
  parse_cron_part_complete x h (every star lo hi) =
      elim (parse_cron_part_ok part minimum maximum h) [
        | inl (_, e) ↦ rw e (
            range_at minimum (maximum + 1) 1 x (x - minimum) (omega arith) (omega arith)
              (omega arith))
        | inr (inl (rest, s, g)) ↦ absurd (ground (arith, star_after part star))
        | inr (inr (other, s, g)) ↦ absurd (ground (arith, (string_eq.beq_iff part "*").1 star))
      ]
  parse_cron_part_complete x h (stepped rest n k s i p at hi) =
      elim (parse_cron_part_ok part minimum maximum h) [
        | inl (star, e) ↦
            absurd (ground (arith, star_after part ((string_eq.beq_iff part "*").0 star)))
        | inr (inl (rest', s', g)) ↦
            let same : rest' ≡ rest = ground arith in
            let (n', i', p', e) = step_part_ok part minimum maximum (int_of_text rest') g in
            let same_n : n' ≡ n = ground arith in
            rw (e, same_n) (range_at minimum (maximum + 1) n x k p at (omega arith))
        | inr (inr (other, s', g)) ↦ absurd (ground arith)
      ]
  parse_cron_part_complete x h (exact s i lo hi) =
      elim (parse_cron_part_ok part minimum maximum h) [
        | inl (star, e) ↦
            absurd (ground (arith, star_int part ((string_eq.beq_iff part "*").0 star)))
        | inr (inl (rest', s', g)) ↦ absurd (ground arith)
        | inr (inr (other, s', g)) ↦
            let (v, i', lo', hi', e) = value_part_ok part minimum maximum (int_of_text part) g in
            rw e (unfold contains in ground arith)
      ]

  -- An accepted cron field holds exactly the values that it means: the whole range for `*`, every n-th
  -- value from the least for `*/n`, the number itself for a number in the range.
  pub parse_cron_part-InPart :
      (x : ℕ)
      → parse_cron_part part minimum maximum ≡ ok values
      → (contains x values ≡ true) ↔ InPart part minimum maximum x
  parse_cron_part-InPart x h =
      (parse_cron_part_sound part minimum maximum x h, parse_cron_part_complete x h)
