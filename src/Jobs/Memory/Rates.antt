-- ===== src/Jobs/Memory/Rates.antt =====
-- The numbers of `metrics` of app/jobs/repositories.py.
use async_job_processing_pip.Prelude.{
  ℕ, zero, suc, ◌-◌, ◌*◌, ◌≤◌, ◌<◌, ◌≡◌, refl, sym, ◌∙◌, subst, some-injective, true, some, List,
  [], ◌∷◌, All, get_elem?, arith, nat_eq, length,
}
use async_job_processing_pip.Prelude.Int.{ℤ, leb_ℤ, ◌≤ℤ◌}
use async_job_processing_pip.Sorting.{sorted}
use async_job_processing_pip.Sorting.Laws.{IsSorted, sorted-IsSorted}
use async_job_processing_pip.Core.Enums.{JobStatus, queued, dead_lettered, status_eq}
use async_job_processing_pip.Core.Errors.{ok}
use async_job_processing_pip.Jobs.{JobRecord, JobMetrics}
use async_job_processing_pip.Jobs.Memory.{Memory, values}
use async_job_processing_pip.Jobs.Memory.Metrics.{
  round_hundredths, percentile_index, percentile_of, latencies_of, latency_percentiles,
  worker_utilization, retries_of, count_status, metrics, percentiles,
}

round_mono : (a b : ℕ) → a ≤ b → round_hundredths a ≤ round_hundredths b
unfolding round_hundredths
round_mono a b h = ground arith

-- The index is inside the list.
percentile_index-lt : (size percentile : ℕ) → 0 < size → percentile_index size percentile < size
unfolding percentile_index
percentile_index-lt size percentile h = omega arith

index_mono : (size : ℕ) → percentile_index size 50 ≤ percentile_index size 95
unfolding percentile_index
index_mono size = omega (arith, round_mono ((size - 1) * 50) ((size - 1) * 95) (omega arith))

get_elem?-lt :
    {A : Type 0} (xs : List A) (i : ℕ) → i < length xs → (x : A) × (get_elem? xs i ≡ some x)
get_elem?-lt [] i h = absurd (omega arith)
get_elem?-lt (x ∷ xs) zero h = (x, refl)
get_elem?-lt (x ∷ xs) (suc i) h = get_elem?-lt xs i (omega arith)

All-get_elem? :
    {A : Type 0} (P : A → Type 0) (xs : List A) (i : ℕ) {x : A}
    → All P xs
    → get_elem? xs i ≡ some x
    → P x
All-get_elem? P [] i h e = absurd (cc e)
All-get_elem? P (x ∷ xs) zero h e = subst P (some-injective e) h.0
All-get_elem? P (x ∷ xs) (suc i) h e = All-get_elem? P xs i h.1 e

leb_ℤ_refl : (a : ℤ) → leb_ℤ a a ≡ true
leb_ℤ_refl a = ground arith

-- In an ascending list a later place holds no less.
sorted_places :
    (xs : List ℤ) (i j : ℕ) {a b : ℤ}
    → IsSorted leb_ℤ xs
    → i ≤ j
    → get_elem? xs i ≡ some a
    → get_elem? xs j ≡ some b
    → leb_ℤ a b ≡ true
sorted_places [] i j s le ha hb = absurd (cc ha)
sorted_places (x ∷ xs) zero zero {a} s le ha hb =
    subst (λ y. leb_ℤ a y ≡ true) (some-injective (sym ha ∙ hb)) (leb_ℤ_refl a)
sorted_places (x ∷ xs) zero (suc j) {a} {b} s le ha hb =
    subst (λ y. leb_ℤ y b ≡ true) (some-injective ha)
      (All-get_elem? (λ y. leb_ℤ x y ≡ true) xs j s.0 hb)
sorted_places (x ∷ xs) (suc i) zero s le ha hb = absurd (omega arith)
sorted_places (x ∷ xs) (suc i) (suc j) s le ha hb = sorted_places xs i j s.1 (omega arith) ha hb

leb_ℤ_le : (a b : ℤ) → leb_ℤ a b ≡ true → a ≤ℤ b
leb_ℤ_le a b h = ground arith

percentile_of-some :
    (xs : List ℤ) (percentile : ℕ)
    → 0 < length xs
    → (x : ℤ) × (get_elem? xs (percentile_index (length xs) percentile) ≡ some x)
      × (percentile_of xs percentile ≡ ok x)
unfolding percentile_of
percentile_of-some xs percentile h =
    let (x, at) =
      get_elem?-lt xs (percentile_index (length xs) percentile)
        (percentile_index-lt (length xs) percentile h) in
    (x, at, ground (arith, at))

percentiles_sorted :
    (xs : List ℤ)
    → IsSorted leb_ℤ xs
    → (p50 p95 : ℤ) × (percentiles xs ≡ ok (p50, p95)) × (p50 ≤ℤ p95)
unfolding percentiles
percentiles_sorted [] s = (_, _, refl, omega arith)
percentiles_sorted (x ∷ xs) s =
    let (p50, at50, is50) = percentile_of-some (x ∷ xs) 50 (omega arith) in
    let (p95, at95, is95) = percentile_of-some (x ∷ xs) 95 (omega arith) in
    let le = sorted_places (x ∷ xs) _ _ s (index_mono (length (x ∷ xs))) at50 at95 in
    (p50, p95, rw is50 (rw is95 refl), leb_ℤ_le p50 p95 le)

-- The answer, with the percentiles found.
abbrev measured : ℤ → ℤ → Memory → JobMetrics
measured p50 p95 m = record {
  job_success_count = count_status JobStatus.succeeded (values m.jobs);
  job_failure_count = count_status JobStatus.failed (values m.jobs);
  retry_count = retries_of (values m.jobs);
  dead_letter_count = count_status dead_lettered (values m.jobs);
  job_latency_p50 = p50;
  job_latency_p95 = p95;
  worker_utilization =
      worker_utilization (count_status JobStatus.running (values m.jobs))
        (count_status queued (values m.jobs));
}

metrics_measured :
    (m : Memory) {p50 p95 : ℤ}
    → latency_percentiles (values m.jobs) ≡ ok (p50, p95)
    → metrics m ≡ ok (measured p50 p95 m)
unfolding metrics
metrics_measured m found = rw found refl

worker_utilization-bounds :
    (running waiting : ℕ)
    → ((worker_utilization running waiting).numerator
        ≤ (worker_utilization running waiting).denominator)
      × (0 < (worker_utilization running waiting).denominator)
unfolding worker_utilization
worker_utilization-bounds running waiting = (ground arith, ground arith)

latency_percentiles-ok :
    (jobs : List JobRecord)
    → (p50 p95 : ℤ) × (latency_percentiles jobs ≡ ok (p50, p95)) × (p50 ≤ℤ p95)
unfolding latency_percentiles
latency_percentiles-ok jobs =
    percentiles_sorted (sorted leb_ℤ (latencies_of jobs)) (
      sorted-IsSorted leb_ℤ (λ a b h. ground arith) (λ a b c h k. ground arith) (latencies_of jobs))

-- `metrics` never raises: neither percentile is sought outside the list. The median is at most the 95th
-- percentile, and the utilization is a ratio between zero and one.
pub metrics-ok :
    (m : Memory)
    → (v : JobMetrics) × (metrics m ≡ ok v)
      × (v.job_latency_p50 ≤ℤ v.job_latency_p95)
      × (v.worker_utilization.numerator ≤ v.worker_utilization.denominator)
      × (0 < v.worker_utilization.denominator)
metrics-ok m =
    let (p50, p95, found, le) = latency_percentiles-ok (values m.jobs) in
    let (most, positive) =
      worker_utilization-bounds (count_status JobStatus.running (values m.jobs))
        (count_status queued (values m.jobs)) in
    (measured p50 p95 m, metrics_measured m found, le, most, positive)
