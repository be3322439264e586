-- ===== src/Jobs/Memory/Queries.antt =====
-- What the queries of the in-memory repository answer with.
use async_job_processing_pip.Prelude.{
  ℕ, zero, suc, ◌≡◌, refl, sym, ap, ◌∙◌, Bool, true, false, ◌&&◌, ◌<◌, ◌≤◌, ◌⊎◌, leb, Option, none,
  some, String, List, [], ◌∷◌, ◌++◌, arith, ◌==◌, nat_eq, string_eq, length, take, drop, keep, min,
}
use async_job_processing_pip.Text.{truthy}
use async_job_processing_pip.Sorting.{sorted}
use async_job_processing_pip.Sorting.Laws.{
  AreOrdered, IsSorted-AreOrdered, sorted-IsSorted, sorted-perm, length-sorted, keep-sorted-perm,
  keep-IsSorted,
}
use mathlib.Core.List.{Perm}
use async_job_processing_pip.Core.Enums.{JobStatus, status_eq, is_pending}
use async_job_processing_pip.Jobs.{Clock, JobRecord}
use async_job_processing_pip.Jobs.Memory.{
  Memory, values, with_status, with_handler, newest_first, list_jobs, is_due, most_urgent_first,
  due_jobs,
}

module _ {ℓ} {A : Type ℓ} where
  take-append-drop : (n : ℕ) (xs : List A) → take n xs ++ drop n xs ≡ xs
  take-append-drop zero xs = refl
  take-append-drop (suc n) [] = refl
  take-append-drop (suc n) (x ∷ xs) = ap (λ ys. x ∷ ys) (take-append-drop n xs)

  length-take : (n : ℕ) (xs : List A) → length (take n xs) ≡ min n (length xs)
  length-take zero xs = omega arith
  length-take (suc n) [] = omega arith
  length-take (suc n) (x ∷ xs) = omega (arith, length-take n xs)

-- A job that is at least as urgent, and at least as new.
urgent_total : (a b : JobRecord) → most_urgent_first a b ≡ false → most_urgent_first b a ≡ true
urgent_total a b h = ground arith

urgent_trans :
    (a b c : JobRecord)
    → most_urgent_first a b ≡ true
    → most_urgent_first b c ≡ true
    → most_urgent_first a c ≡ true
urgent_trans a b c h k = ground arith

urgent_means :
    (a b : JobRecord)
    → most_urgent_first a b ≡ true
    → (b.priority < a.priority) ⊎ ((a.priority ≡ b.priority) × (a.created_at ≤ b.created_at))
urgent_means a b h = ground arith

-- The jobs that are due are all the pending ones whose time has come, and no others: the answer and the
-- jobs left out by the limit are a permutation of them, in which each job is followed by those of a lower
-- priority, or of the same and not created earlier. The answer is as long as the limit and their number
-- allow.
pub due_jobs-IsSorted :
    (clock : Clock) (limit : ℕ) (m : Memory)
    → let due =
        keep
          (λ (j : JobRecord). is_pending j.status && leb j.next_run_at (clock 0))
          (values m.jobs) in
      (left_out : List JobRecord) × Perm (due_jobs clock limit m ++ left_out) due
      × AreOrdered
          (λ a b.
            (b.priority < a.priority) ⊎ ((a.priority ≡ b.priority) × (a.created_at ≤ b.created_at)))
          (due_jobs clock limit m ++ left_out)
      × (length (due_jobs clock limit m) ≡ min limit (length due))
unfolding due_jobs
due_jobs-IsSorted clock limit m =
    let due = keep (is_due (clock 0)) (values m.jobs) in
    let all = sorted most_urgent_first due in
    let whole = take-append-drop limit all in
    (
      drop limit all,
      rw whole (sorted-perm most_urgent_first due),
      rw whole (
          IsSorted-AreOrdered most_urgent_first _ urgent_means all
            (sorted-IsSorted most_urgent_first urgent_total urgent_trans due)),
      length-take limit all ∙ ap (min limit) (length-sorted most_urgent_first due),
    )

-- A filter that is absent keeps everything.
abbrev has_status : Option JobStatus → JobRecord → Bool
has_status none job = true
has_status (some status) job = job.status == status

abbrev has_handler : Option String → JobRecord → Bool
has_handler none job = true
has_handler (some handler) job = job.handler == handler

abbrev pub is_listed : Option JobStatus → Option String → JobRecord → Bool
is_listed status handler job = has_status status job && has_handler handler job

keep_all : {A : Type 0} (xs : List A) → keep (λ x. true) xs ≡ xs
keep_all [] = refl
keep_all (x ∷ xs) = ap (λ ys. x ∷ ys) (keep_all xs)

keep-keep :
    {A : Type 0} (p q : A → Bool) (xs : List A) → keep q (keep p xs) ≡ keep (λ x. p x && q x) xs
keep-keep p q [] = refl
keep-keep p q (x ∷ xs) = ground (arith, keep-keep p q xs)

with_status-keep :
    (status : Option JobStatus) (jobs : List JobRecord)
    → with_status status jobs ≡ keep (has_status status) jobs
unfolding with_status
with_status-keep none jobs = sym (keep_all jobs)
with_status-keep (some status) jobs = refl

with_handler-keep :
    (handler : Option String) (jobs : List JobRecord)
    → with_handler handler jobs ≡ keep (has_handler handler) jobs
unfolding with_handler
with_handler-keep none jobs = sym (keep_all jobs)
with_handler-keep (some handler) jobs = refl

-- A page is the part of one list, from the offset and as long as the limit allows: the list of all the
-- jobs with the status and the handler that are asked for, where they are, in which no job is followed by
-- one that was created later.
pub list_jobs-IsSorted :
    (status : Option JobStatus) (handler : Option String) (limit offset : ℕ) (m : Memory)
    → (all : List JobRecord) × (list_jobs status handler limit offset m
        ≡ take limit (drop offset all))
      × Perm all (keep (is_listed status (truthy handler)) (values m.jobs))
      × AreOrdered (λ a b. b.created_at ≤ a.created_at) all
unfolding list_jobs
list_jobs-IsSorted status handler limit offset m =
    let jobs = sorted newest_first (values m.jobs) in
    let test = is_listed status (truthy handler) in
    let filtered : with_handler (truthy handler) (with_status status jobs) ≡ keep test jobs =
      with_handler-keep (truthy handler) (with_status status jobs)
      ∙ ap (keep (has_handler (truthy handler))) (with_status-keep status jobs)
      ∙ keep-keep (has_status status) (has_handler (truthy handler)) jobs in
    (
      keep test jobs,
      ap (λ xs. take limit (drop offset xs)) filtered,
      keep-sorted-perm newest_first test (values m.jobs),
      IsSorted-AreOrdered newest_first _ (λ a b h. ground (arith, h)) (keep test jobs)
          (keep-IsSorted newest_first test jobs (
            sorted-IsSorted newest_first (λ a b h. ground arith) (λ a b c h k. ground arith)
              (values m.jobs))),
    )
