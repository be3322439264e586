-- ===== src/Jobs/Memory/Metrics.antt =====
-- `InMemoryJobRepository.metrics` of app/jobs/repositories.py, with `_latency_percentiles`, `_percentile`
-- and `_worker_utilization`. A quotient in floating point is the ratio that it rounds, and a latency is a
-- number of microseconds.
use async_job_processing_pip.Prelude.{
  ℕ, ◌+◌, ◌-◌, ◌*◌, ◌/◌, ◌%◌, none, some, List, [], ◌∷◌, ltb, ◌==◌, nat_eq, if◌then◌else◌, length,
  get_elem?, count, min,
}
use async_job_processing_pip.Prelude.Int.{ℤ, pos, sub_ℕ, leb_ℤ}
use async_job_processing_pip.Sorting.{sorted}
use async_job_processing_pip.Core.Enums.{JobStatus, queued, dead_lettered, status_eq}
use async_job_processing_pip.Core.Errors.{Result, ok, err, index_error, ◌>>=◌}
use async_job_processing_pip.Jobs.{JobRecord, Ratio, JobMetrics}
use async_job_processing_pip.Jobs.Memory.{Memory, values}

-- `round` of numerator / 100, a half to the even neighbour.
unfoldable pub round_hundredths : ℕ → ℕ
round_hundredths n =
    let down = n / 100 in
    let rest = n % 100 in
    if ltb rest 50 then down else if ltb 50 rest then down + 1 else down + down % 2

-- The index of `_percentile`, of a percentile in hundredths.
unfoldable pub percentile_index : ℕ → ℕ → ℕ
unfolding round_hundredths
percentile_index size percentile = min (round_hundredths ((size - 1) * percentile)) (size - 1)

unfoldable pub percentile_of : List ℤ → ℕ → Result ℤ
unfolding percentile_index
percentile_of latencies percentile =
    elim (get_elem? latencies (percentile_index (length latencies) percentile)) [
      | some x ↦ ok x
      | none ↦ err index_error
    ]

-- The latencies of the jobs that have been processed.
unfoldable pub latencies_of : List JobRecord → List ℤ
latencies_of [] = []
latencies_of (job ∷ jobs) =
    let rest = latencies_of jobs in
    elim job.processed_at [ none ↦ rest | some t ↦ sub_ℕ t job.created_at ∷ rest ]

unfoldable pub percentiles : List ℤ → Result (ℤ × ℤ)
unfolding percentile_of
percentiles [] = ok (pos 0, pos 0)
percentiles (x ∷ xs) = do
  p50 ← percentile_of (x ∷ xs) 50
  p95 ← percentile_of (x ∷ xs) 95
  ok (p50, p95)

unfoldable pub latency_percentiles : List JobRecord → Result (ℤ × ℤ)
unfolding percentiles latencies_of
latency_percentiles jobs = percentiles (sorted leb_ℤ (latencies_of jobs))

unfoldable pub worker_utilization : ℕ → ℕ → Ratio
worker_utilization running waiting =
    if running + waiting == 0
    then record { numerator = 0; denominator = 1 }
    else record { numerator = running; denominator = running + waiting }

-- `sum(max(job.attempt_count - 1, 0) for job in jobs)`
unfoldable pub retries_of : List JobRecord → ℕ
retries_of [] = 0
retries_of (job ∷ jobs) = (job.attempt_count - 1) + retries_of jobs

unfoldable pub count_status : JobStatus → List JobRecord → ℕ
count_status status = count (λ job. job.status == status)

unfoldable pub metrics : Memory → Result JobMetrics
unfolding latency_percentiles worker_utilization retries_of count_status
metrics m = do
  (p50, p95) ← latency_percentiles (values m.jobs)
  ok (record {
    job_success_count = count_status JobStatus.succeeded (values m.jobs);
    job_failure_count = count_status JobStatus.failed (values m.jobs);
    retry_count = retries_of (values m.jobs);
    dead_letter_count = count_status dead_lettered (values m.jobs);
    job_latency_p50 = p50;
    job_latency_p95 = p95;
    worker_utilization =
        worker_utilization (count_status JobStatus.running (values m.jobs))
          (count_status queued (values m.jobs));
  })
