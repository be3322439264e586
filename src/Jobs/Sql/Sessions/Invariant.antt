-- ===== src/Jobs/Sql/Sessions/Invariant.antt =====
-- The state of the sessions of app/jobs/repositories.py between two steps.
use async_job_processing_pip.Prelude.{
  ℕ, ◌+◌, ◌≤◌, ◌<◌, ◌≡◌, refl, sym, subst, inl, inr, true, false, Option, none, some, List, [], ◌∷◌,
  arith, ◌==◌, nat_eq, any, All, Bool-cases, Option-cases,
}
use async_job_processing_pip.Prelude.Dict.{Dict, get, put, get-put}
use async_job_processing_pip.Core.Enums.{is_pending}
use async_job_processing_pip.Jobs.{Uuid, JobRecord}
use async_job_processing_pip.Jobs.System.{times}
use async_job_processing_pip.Jobs.Sql.{JobAttempt}
use async_job_processing_pip.Jobs.Sql.Sessions.{Sessions, busy}
use async_job_processing_pip.Jobs.Sql.Writes.{is_attempt}

-- Each attempt up to the job's count has its row.
abbrev pub AreNumbered : Uuid → ℕ → List JobAttempt → Type 0
AreNumbered i count attempts = (n : ℕ) → 1 ≤ n → n ≤ count → any (is_attempt i n) attempts ≡ true

-- The row under an id and the number of calls at work on it: there is no call on a missing or a pending
-- row, and at most one on any other.
abbrev pub IsSafeRow : Uuid → ℕ → List JobAttempt → Option JobRecord → Type 0
IsSafeRow i calls attempts none = calls ≡ 0
IsSafeRow i calls attempts (some row) =
    (row.id ≡ i)
    × (calls ≤ 1)
    × (is_pending row.status ≡ true → calls ≡ 0)
    × AreNumbered i row.attempt_count attempts

-- A row that was read to be claimed: if no attempt was made since, no call is at work on it.
pub record IsRead (read : JobRecord) (calls : ℕ) (stored : Option JobRecord) : Type 0 where
  pub row : JobRecord
  pub there : stored ≡ some row
  pub counted : read.attempt_count ≤ row.attempt_count
  pub unclaimed : read.attempt_count ≡ row.attempt_count → calls ≡ 0

abbrev pub calls_on : Uuid → List Uuid → List Uuid → ℕ
calls_on i handling finishing = times i handling + times i finishing

abbrev pub AreSafeRows : Dict Uuid JobRecord → List JobAttempt → List Uuid → List Uuid → Type 0
AreSafeRows jobs attempts handling finishing =
    (i : Uuid) → IsSafeRow i (calls_on i handling finishing) attempts (get i jobs)

abbrev pub IsReadOf : Dict Uuid JobRecord → List Uuid → List Uuid → JobRecord → Type 0
IsReadOf jobs handling finishing read =
    IsRead read (calls_on read.id handling finishing) (get read.id jobs)

pub record IsSafe (s : Sessions) : Type 0 where
  pub rows : AreSafeRows s.db.jobs s.db.attempts s.handling s.finishing
  pub reads : All (IsReadOf s.db.jobs s.handling s.finishing) s.claims

-- What is left of a row that no step writes.
row-fewer :
    (i : Uuid) (calls calls' : ℕ) (attempts attempts' : List JobAttempt) (stored : Option JobRecord)
    → calls' ≤ calls
    → ((n : ℕ) → any (is_attempt i n) attempts ≡ true → any (is_attempt i n) attempts' ≡ true)
    → IsSafeRow i calls attempts stored
    → IsSafeRow i calls' attempts' stored
row-fewer i calls calls' attempts attempts' none le kept safe = omega (arith, le, safe)
row-fewer i calls calls' attempts attempts' (some row) le kept (named, one, idle, numbered) = (
  named,
  omega (arith, le, one),
  λ pending. omega (arith, le, idle pending),
  λ n low high. kept n (numbered n low high),
)

-- One row is written: the step says how many calls are at work on it then, and on the other rows there
-- are no more than before.
module _ (s : Sessions) (safe : IsSafe s) (i : Uuid) (job : JobRecord) (attempts : List JobAttempt)
    (handling finishing : List Uuid)
    (fewer : (j : Uuid) → (i == j) ≡ false → calls_on j handling finishing ≤ busy j s)
    (kept : (j : Uuid) (n : ℕ)
      → any (is_attempt j n) s.db.attempts ≡ true
      → any (is_attempt j n) attempts ≡ true) where
  put-AreSafeRows :
      IsSafeRow i (calls_on i handling finishing) attempts (some job)
      → AreSafeRows (put i job s.db.jobs) attempts handling finishing
  put-AreSafeRows here j =
      let at = get-put i j job s.db.jobs in
      elim (Bool-cases (i == j)) [
        | inl same ↦
            let eq : i ≡ j = (nat_eq.beq_iff i j).0 same in
            rw at (
              rw same (
                subst (λ k. IsSafeRow k (calls_on k handling finishing) attempts (some job)) eq
                  here))
        | inr other ↦ rw at (
            rw other (
              row-fewer j (busy j s) (calls_on j handling finishing) s.db.attempts attempts
                (get j s.db.jobs) (fewer j other) (kept j) (safe.rows j)))
      ]

  -- The count of the row does not fall, and where it stays there are no more calls than before.
  put-AreRead :
      ((row : JobRecord)
        → get i s.db.jobs ≡ some row
        → (row.attempt_count ≤ job.attempt_count)
          × (row.attempt_count ≡ job.attempt_count → calls_on i handling finishing ≤ busy i s))
      → (claims : List JobRecord) → All (IsReadOf s.db.jobs s.handling s.finishing) claims
      → All (IsReadOf (put i job s.db.jobs) handling finishing) claims
  put-AreRead grows [] reads = tt
  put-AreRead grows (read ∷ claims) (one, reads) =
      let at = get-put i read.id job s.db.jobs in
      let rest = put-AreRead grows claims reads in
      elim (Bool-cases (i == read.id)) [
        | inl same ↦
            let eq : i ≡ read.id = (nat_eq.beq_iff i read.id).0 same in
            let (more, quiet) = grows one.row (rw eq one.there) in
            (
              record {
                row = job;
                there = rw at (rw same refl);
                counted = omega (arith, more, one.counted);
                unclaimed = λ e.
                    subst (λ k. calls_on k handling finishing ≡ 0) eq
                      (omega (
                        arith,
                        quiet (omega (arith, more, one.counted, e)),
                        subst (λ k. busy k s ≡ 0) (sym eq)
                            (one.unclaimed (omega (arith, more, one.counted, e))),
                      ));
              },
              rest,
            )
        | inr other ↦ (
          record {
            row = one.row;
            there = rw at (rw other one.there);
            counted = one.counted;
            unclaimed = λ e. omega (arith, fewer read.id other, one.unclaimed e);
          },
          rest,
        )
      ]

  -- The whole state after such a write.
  pub put-IsSafe :
      (claims : List JobRecord) (cancels : List Uuid)
      → IsSafeRow i (calls_on i handling finishing) attempts (some job)
      → ((row : JobRecord)
          → get i s.db.jobs ≡ some row
          → (row.attempt_count ≤ job.attempt_count)
            × (row.attempt_count ≡ job.attempt_count → calls_on i handling finishing ≤ busy i s))
      → All (IsReadOf s.db.jobs s.handling s.finishing) claims
      → IsSafe (record {
        db = record s.db { jobs = put i job s.db.jobs; attempts = attempts };
        claims = claims;
        cancels = cancels;
        handling = handling;
        finishing = finishing;
      })
  put-IsSafe claims cancels here grows reads = record {
    rows = put-AreSafeRows here;
    reads = put-AreRead grows claims reads;
  }

fewer-AreRead :
    (s : Sessions) (handling finishing : List Uuid)
    → ((j : Uuid) → calls_on j handling finishing ≤ busy j s)
    → (claims : List JobRecord) → All (IsReadOf s.db.jobs s.handling s.finishing) claims
    → All (IsReadOf s.db.jobs handling finishing) claims
fewer-AreRead s handling finishing fewer [] reads = tt
fewer-AreRead s handling finishing fewer (read ∷ claims) (one, reads) = (
  record {
    row = one.row;
    there = one.there;
    counted = one.counted;
    unclaimed = λ e. omega (arith, fewer read.id, one.unclaimed e);
  },
  fewer-AreRead s handling finishing fewer claims reads,
)

-- Fewer calls, and other claims that are safe.
pub fewer-IsSafe :
    (s : Sessions) (handling finishing cancels : List Uuid) (claims : List JobRecord)
    → IsSafe s
    → ((j : Uuid) → calls_on j handling finishing ≤ busy j s)
    → All (IsReadOf s.db.jobs s.handling s.finishing) claims
    → IsSafe (record {
      db = s.db;
      claims = claims;
      cancels = cancels;
      handling = handling;
      finishing = finishing;
    })
fewer-IsSafe s handling finishing cancels claims safe fewer reads = record {
  rows = λ i.
      row-fewer i (busy i s) (calls_on i handling finishing) s.db.attempts s.db.attempts
        (get i s.db.jobs) (fewer i) (λ n h. h) (safe.rows i);
  reads = fewer-AreRead s handling finishing fewer claims reads;
}

-- A row that is stored.
pub stored_row :
    (s : Sessions) (i : Uuid) {row : JobRecord}
    → IsSafe s
    → get i s.db.jobs ≡ some row
    → IsSafeRow i (busy i s) s.db.attempts (some row)
stored_row s i safe stored =
    subst (λ o. IsSafeRow i (busy i s) s.db.attempts o) stored (safe.rows i)

-- A job that a call is at work on.
pub busy_row :
    (s : Sessions) (i : Uuid)
    → IsSafe s
    → 0 < busy i s
    → (row : JobRecord) × (get i s.db.jobs ≡ some row)
busy_row s i safe b = elim (Option-cases (get i s.db.jobs)) [
  | inl missing ↦
      let free : busy i s ≡ 0 =
        subst (λ o. IsSafeRow i (busy i s) s.db.attempts o) missing (safe.rows i) in
      absurd (omega (arith, free, b))
  | inr found ↦ found
]
