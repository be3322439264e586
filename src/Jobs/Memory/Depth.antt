-- ===== src/Jobs/Memory/Depth.antt =====
-- The numbers of `queue_depth` of app/jobs/repositories.py.
use async_job_processing_pip.Prelude.{
  ℕ, ◌+◌, ◌≤◌, ◌≡◌, refl, ◌∙◌, Bool, Option, none, some, List, [], ◌∷◌, map, arith, leb, ◌==◌,
  nat_eq, if◌then◌else◌, length, keep, count, Option-cases, inl, inr,
}
use async_job_processing_pip.Prelude.Dict.{Dict, get, put}
use async_job_processing_pip.Sorting.{insert, sorted}
use async_job_processing_pip.Core.Enums.{JobStatus, dead_lettered, status_eq, is_pending}
use async_job_processing_pip.Jobs.{Clock, JobRecord, PriorityDepth}
use async_job_processing_pip.Jobs.Memory.{
  Memory, values, bump, tally, pair_le, as_depth, queue_depth,
}

-- The jobs counted under a priority.
abbrev pub queued_at : ℕ → List PriorityDepth → ℕ
queued_at p [] = 0
queued_at p (d ∷ ds) = (if d.priority == p then d.queued else 0) + queued_at p ds

abbrev weight : ℕ → Dict ℕ ℕ → ℕ
weight p [] = 0
weight p ((k, n) ∷ d) = (if k == p then n else 0) + weight p d

abbrev at_least_zero : Option ℕ → ℕ
at_least_zero none = 0
at_least_zero (some n) = n

weight-put :
    (p q v : ℕ) (d : Dict ℕ ℕ)
    → weight p (put q v d) + (if q == p then at_least_zero (get q d) else 0)
      ≡ weight p d + (if q == p then v else 0)
unfolding put get
weight-put p q v [] = ground arith
weight-put p q v ((k, n) ∷ d) = ground (arith, weight-put p q v d)

weight-bump :
    (p q : ℕ) (d : Dict ℕ ℕ) → weight p (bump q d) ≡ weight p d + (if q == p then 1 else 0)
unfolding bump
weight-bump p q d = elim (Option-cases (get q d)) [
  | inl new ↦ ground (arith, new, weight-put p q 1 d)
  | inr (n, old) ↦ ground (arith, old, weight-put p q (n + 1) d)
]

weight-tally :
    (p : ℕ) (jobs : List JobRecord) (d : Dict ℕ ℕ)
    → weight p (tally jobs d) ≡ weight p d + count (λ job. job.priority == p) jobs
unfolding tally
weight-tally p [] d = omega arith
weight-tally p (job ∷ jobs) d =
    omega (arith, weight-tally p jobs (bump job.priority d), weight-bump p job.priority d)

weight-insert :
    (p : ℕ) (x : ℕ × ℕ) (d : Dict ℕ ℕ) → weight p (insert pair_le x d) ≡ weight p (x ∷ d)
unfolding insert
weight-insert p x [] = refl
weight-insert p x (y ∷ d) = ground (arith, weight-insert p x d)

weight-sorted : (p : ℕ) (d : Dict ℕ ℕ) → weight p (sorted pair_le d) ≡ weight p d
unfolding sorted
weight-sorted p [] = refl
weight-sorted p (x ∷ d) = omega (arith, weight-insert p x (sorted pair_le d), weight-sorted p d)

weight-depths : (p : ℕ) (d : Dict ℕ ℕ) → queued_at p (map as_depth d) ≡ weight p d
unfolding as_depth
weight-depths p [] = refl
weight-depths p ((k, n) ∷ d) = omega (arith, weight-depths p d)

count-le : {A : Type 0} (test : A → Bool) (xs : List A) → count test xs ≤ length xs
count-le test [] = omega arith
count-le test (x ∷ xs) = ground (arith, count-le test xs)

-- No job counts twice.
statuses_apart :
    (jobs : List JobRecord)
    → length (keep (λ (job : JobRecord). is_pending job.status) jobs)
        + count (λ job. job.status == JobStatus.running) jobs
        + count (λ job. job.status == dead_lettered) jobs
      ≤ length jobs
unfolding is_pending
statuses_apart [] = omega arith
statuses_apart (job ∷ jobs) = ground (arith, statuses_apart jobs)

-- `queued` counts the pending jobs, `due` some of them, and the entries of `by_priority` count exactly the
-- pending jobs of each priority. The jobs counted as queued, running and dead-lettered are different ones.
pub queue_depth-exact :
    (clock : Clock) (m : Memory) (p : ℕ)
    → let depth = queue_depth clock m in
      let pending = keep (λ (job : JobRecord). is_pending job.status) (values m.jobs) in
      (queued_at p depth.by_priority ≡ count (λ job. job.priority == p) pending)
      × (depth.queued ≡ length pending)
      × (depth.due ≤ depth.queued)
      × (depth.queued + depth.running + depth.dead_lettered ≤ length (values m.jobs))
unfolding queue_depth
queue_depth-exact clock m p =
    let pending = keep (λ (job : JobRecord). is_pending job.status) (values m.jobs) in
    (
      weight-depths p (sorted pair_le (tally pending []))
          ∙ weight-sorted p (tally pending [])
          ∙ weight-tally p pending []
          ∙ omega arith,
      refl,
      count-le (λ job. leb job.next_run_at (clock 0)) pending,
      statuses_apart (values m.jobs),
    )
