-- ===== src/Jobs/Sql/Sessions/Exclusion.antt =====
-- Claims of concurrent sessions, in app/jobs/repositories.py: the unique attempt number decides.
use async_job_processing_pip.Prelude.{
  ◌+◌, ◌≤◌, String, ◌≡◌, refl, sym, ◌∙◌, subst, inl, inr, true, false, none, some, List, [], ◌∷◌,
  ◌++◌, arith, nat_eq, beq_refl, any, All, Bool-cases, leb, leb→le, Option-cases, some-injective,
}
use async_job_processing_pip.Prelude.Dict.{get, put}
use async_job_processing_pip.Core.Enums.{is_pending}
use async_job_processing_pip.Core.Errors.{ok}
use async_job_processing_pip.Calendar.{Instant}
use async_job_processing_pip.Jobs.{Uuid, Clock, JobRecord}
use async_job_processing_pip.Jobs.Memory.{is_claimable}
use async_job_processing_pip.Jobs.System.{leave}
use async_job_processing_pip.Jobs.Sql.{Database, write_job, get_job, get_drain, set_drain}
use async_job_processing_pip.Jobs.Sql.Writes.{
  is_attempt, read_claim, claimable_row, write_claim, claim_row, new_attempt,
}
use async_job_processing_pip.Jobs.Sql.Sessions.{
  Sessions, busy, Step, insert, drain, begin_claim, end_claim, lose_claim, begin_cancel, end_cancel,
  succeed, fail, recur, fail_late, crash_handling, crash_finishing, Reachable, started, stepped,
}
use async_job_processing_pip.Jobs.Sql.Sessions.Invariant.{
  AreNumbered, IsSafeRow, IsReadOf, IsSafe, calls_on, put-IsSafe, fewer-IsSafe, stored_row,
}
use async_job_processing_pip.Jobs.Sql.Sessions.Moves.{left_calls, left_calls_right}
use async_job_processing_pip.Jobs.Sql.Sessions.Calls.{
  insert-IsSafe, recur-IsSafe, succeed-IsSafe, fail-IsSafe, fail_late-IsSafe, cancel-IsSafe,
}

-- One claim of a list, and the others.
module _ (P : JobRecord → Type 0) where
  All-split :
      (before : List JobRecord) (row : JobRecord) (after : List JobRecord)
      → All P (before ++ (row ∷ after))
      → P row × All P (before ++ after)
  All-split [] row after all = all
  All-split (other ∷ before) row after (one, all) =
      let (here, rest) = All-split before row after all in (here, (one, rest))

-- A row that is read to be claimed is stored, and pending.
read_claim-row :
    (clock : Clock) (i : Uuid) (db : Database) {row : JobRecord}
    → read_claim clock i db ≡ some row
    → (get i db.jobs ≡ some row) × (is_pending row.status ≡ true)
unfolding read_claim claimable_row is_claimable
read_claim-row clock i db h = elim (Bool-cases (get_drain db)) [
  | inl drained ↦ absurd (ground (arith, h, drained))
  | inr on ↦ elim (Option-cases (get i db.jobs)) [
    | inl missing ↦ absurd (ground (arith, h, on, missing))
    | inr (row, stored) ↦ ground (arith, h, on, stored)
  ]
]

-- What a claim that commits has found and what it leaves.
write_claim-ok :
    (clock : Clock) (attempt_id : Uuid) (worker_id : String) (read : JobRecord) (db : Database)
    {job : JobRecord}
    → (write_claim clock attempt_id worker_id read db).0 ≡ ok job
    → (row : JobRecord) × (get read.id db.jobs ≡ some row)
      × (any (is_attempt read.id (read.attempt_count + 1)) db.attempts ≡ false)
      × ((write_claim clock attempt_id worker_id read db).1
          ≡ write_job (claim_row (clock 0) worker_id (read.attempt_count + 1) row) (record db {
            attempts =
                new_attempt (clock 0) attempt_id read.id (read.attempt_count + 1) worker_id
                ∷ db.attempts;
          }))
unfolding write_claim get_job
write_claim-ok clock attempt_id worker_id read db h =
    elim (Bool-cases (any (is_attempt read.id (read.attempt_count + 1)) db.attempts)) [
      | inl made ↦ absurd (ground (arith, h, made))
      | inr new ↦ elim (Option-cases (get read.id db.jobs)) [
        | inl missing ↦ absurd (ground (arith, h, new, missing))
        | inr (row, stored) ↦ (row, stored, new, ground (arith, new, stored))
      ]
    ]

module _ (s : Sessions) (safe : IsSafe s) where
  begin_claim-IsSafe :
      (clock : Clock) (i : Uuid) {row : JobRecord}
      → read_claim clock i s.db ≡ some row
      → IsSafe (record s { claims = row ∷ s.claims })
  begin_claim-IsSafe clock i {row} h =
      let (stored, pending) = read_claim-row clock i s.db h in
      let (named, _, idle, _) = stored_row s i safe stored in
      fewer-IsSafe s s.handling s.finishing s.cancels (row ∷ s.claims) safe (λ j. omega arith)
        (
          record {
            row = row;
            there = subst (λ k. get k s.db.jobs ≡ some row) (sym named) stored;
            counted = omega arith;
            unclaimed = λ _. subst (λ k. busy k s ≡ 0) (sym named) (idle pending);
          },
          safe.reads,
        )

  lose_claim-IsSafe :
      (before : List JobRecord) (row : JobRecord) (after : List JobRecord)
      → s.claims ≡ before ++ (row ∷ after)
      → IsSafe (record s { claims = before ++ after })
  lose_claim-IsSafe before row after e =
      fewer-IsSafe s s.handling s.finishing s.cancels (before ++ after) safe (λ j. omega arith)
        (All-split (IsReadOf s.db.jobs s.handling s.finishing) before row after
          (subst (λ c. All (IsReadOf s.db.jobs s.handling s.finishing) c) e safe.reads)).1

  -- Where no attempt was made since the read, the row has the count that was read.
  unclaimed_row :
      (read : JobRecord) {row : JobRecord}
      → get read.id s.db.jobs ≡ some row
      → any (is_attempt read.id (read.attempt_count + 1)) s.db.attempts ≡ false
      → IsReadOf s.db.jobs s.handling s.finishing read
      → (row.attempt_count ≡ read.attempt_count) × (busy read.id s ≡ 0)
  unclaimed_row read {row} stored new one =
      let (_, _, _, numbered) = stored_row s read.id safe stored in
      let same : one.row ≡ row = some-injective (sym one.there ∙ stored) in
      let counted : read.attempt_count ≤ row.attempt_count =
        subst (λ (r : JobRecord). read.attempt_count ≤ r.attempt_count) same one.counted in
      let unclaimed : read.attempt_count ≡ row.attempt_count → busy read.id s ≡ 0 =
        subst (λ (r : JobRecord). read.attempt_count ≡ r.attempt_count → busy read.id s ≡ 0) same
          one.unclaimed in
      elim (Bool-cases (leb (read.attempt_count + 1) row.attempt_count)) [
        | inl more ↦ absurd (
            ground (
              arith,
              new,
              numbered (read.attempt_count + 1) (omega arith)
                  (leb→le (read.attempt_count + 1) row.attempt_count more),
            ))
        | inr no_more ↦
            let count : row.attempt_count ≡ read.attempt_count = ground (arith, counted, no_more) in
            (count, unclaimed (sym count))
      ]

  claimed-IsSafe :
      (now : Instant) (attempt_id : Uuid) (worker_id : String) (read : JobRecord) {row : JobRecord}
      (claims : List JobRecord)
      → get read.id s.db.jobs ≡ some row
      → any (is_attempt read.id (read.attempt_count + 1)) s.db.attempts ≡ false
      → IsReadOf s.db.jobs s.handling s.finishing read
      → All (IsReadOf s.db.jobs s.handling s.finishing) claims
      → IsSafe (record s {
        db = write_job (claim_row now worker_id (read.attempt_count + 1) row) (record s.db {
          attempts =
              new_attempt now attempt_id read.id (read.attempt_count + 1) worker_id ∷ s.db.attempts;
        });
        claims = claims;
        handling = read.id ∷ s.handling;
      })
  unfolding claim_row new_attempt is_attempt write_job is_pending
  claimed-IsSafe now attempt_id worker_id read {row} claims stored new one reads =
      let (named, _, _, numbered) = stored_row s read.id safe stored in
      let (count, idle) = unclaimed_row read stored new one in
      let made = new_attempt now attempt_id read.id (read.attempt_count + 1) worker_id in
      let job = claim_row now worker_id (read.attempt_count + 1) row in
      let next_numbered : AreNumbered read.id (read.attempt_count + 1) (made ∷ s.db.attempts) =
        λ n low high. elim (Bool-cases (leb n read.attempt_count)) [
          | inl old ↦
              let was : any (is_attempt read.id n) s.db.attempts ≡ true =
                numbered n low (omega (arith, leb→le n read.attempt_count old, count)) in
              ground (arith, was)
          | inr next ↦
              let is_next : n ≡ read.attempt_count + 1 = ground (arith, high, next) in
              ground (arith, is_next, beq_refl read.id, beq_refl (read.attempt_count + 1))
        ] in
      let here : IsSafeRow read.id (calls_on read.id (read.id ∷ s.handling) s.finishing)
          (made ∷ s.db.attempts) (some job) =
        (
          named,
          ground (arith, idle, beq_refl read.id),
          λ p. absurd (ground (arith, p)),
          next_numbered,
        ) in
      subst
        (λ k. IsSafe (record s {
          db = record s.db { jobs = put k job s.db.jobs; attempts = made ∷ s.db.attempts };
          claims = claims;
          handling = read.id ∷ s.handling;
        }))
        (sym named)
        (put-IsSafe s safe read.id job (made ∷ s.db.attempts) (read.id ∷ s.handling) s.finishing
          (λ j other. rw other (omega arith)) (λ j n h. ground (arith, h)) claims s.cancels here
          (λ r e.
            let count_r : r.attempt_count ≡ read.attempt_count =
              subst (λ (r' : JobRecord). r'.attempt_count ≡ read.attempt_count)
                (some-injective (sym stored ∙ e)) count in
            (omega (arith, count_r), λ c. absurd (omega (arith, c, count_r))))
          reads)

  -- A claim commits only where no attempt was made since its read, so no other call is at work on the job.
  end_claim-IsSafe :
      (clock : Clock) (attempt_id : Uuid) (worker_id : String) (before : List JobRecord)
      (row : JobRecord) (after : List JobRecord) {job : JobRecord}
      → s.claims ≡ before ++ (row ∷ after)
      → (write_claim clock attempt_id worker_id row s.db).0 ≡ ok job
      → IsSafe (record s {
        db = (write_claim clock attempt_id worker_id row s.db).1;
        claims = before ++ after;
        handling = row.id ∷ s.handling;
      })
  end_claim-IsSafe clock attempt_id worker_id before read after e h =
      let (row, stored, new, written) = write_claim-ok clock attempt_id worker_id read s.db h in
      let (one, reads) : IsReadOf s.db.jobs s.handling s.finishing read
          × All (IsReadOf s.db.jobs s.handling s.finishing) (before ++ after) =
        All-split (IsReadOf s.db.jobs s.handling s.finishing) before read after
          (subst (λ c. All (IsReadOf s.db.jobs s.handling s.finishing) c) e safe.reads) in
      subst
        (λ d.
          IsSafe (record s { db = d; claims = before ++ after; handling = read.id ∷ s.handling }))
        (sym written)
        (claimed-IsSafe (clock 0) attempt_id worker_id read (before ++ after) stored new one reads)

-- Each step keeps the state safe.
step-IsSafe : {s t : Sessions} → IsSafe s → Step s t → IsSafe t
unfolding set_drain
step-IsSafe {s} safe (insert clock fresh request) = insert-IsSafe s safe clock fresh request
step-IsSafe {s} safe (drain enabled) = record { rows = safe.rows; reads = safe.reads }
step-IsSafe {s} safe (begin_claim clock i h) = begin_claim-IsSafe s safe clock i h
step-IsSafe {s} safe (end_claim clock attempt_id worker_id before row after e h) =
    end_claim-IsSafe s safe clock attempt_id worker_id before row after e h
step-IsSafe {s} safe (lose_claim before row after e) = lose_claim-IsSafe s safe before row after e
step-IsSafe {s} safe (begin_cancel i h) = record { rows = safe.rows; reads = safe.reads }
step-IsSafe {s} safe (end_cancel now i h) = cancel-IsSafe s safe now i
step-IsSafe {s} safe (succeed clock i result h) = succeed-IsSafe s safe clock i result h
step-IsSafe {s} safe (fail clock i error backoff h) = fail-IsSafe s safe clock i error backoff h
step-IsSafe {s} safe (recur clock fresh i job h) = recur-IsSafe s safe clock fresh i job
step-IsSafe {s} safe (fail_late clock i error backoff h) =
    fail_late-IsSafe s safe clock i error backoff h
step-IsSafe {s} safe (crash_handling i) =
    fewer-IsSafe s (leave i s.handling) s.finishing s.cancels s.claims safe
      (λ j. left_calls i j s.handling s.finishing) safe.reads
step-IsSafe {s} safe (crash_finishing i) =
    fewer-IsSafe s s.handling (leave i s.finishing) s.cancels s.claims safe
      (λ j. left_calls_right i j s.handling s.finishing) safe.reads

Reachable-IsSafe : {s : Sessions} → Reachable s → IsSafe s
unfolding get
Reachable-IsSafe started = record { rows = λ i. refl; reads = tt }
Reachable-IsSafe (stepped r step) = step-IsSafe (Reachable-IsSafe r) step

-- Whatever the sessions of the SQL repository do in between a claim's or a cancellation's read and its
-- write, never more than one `process_job` call is at work on a job; none is at work on a job whose row
-- is pending or missing.
pub one_session_at_work :
    {s : Sessions}
    → Reachable s
    → (i : Uuid)
    → (busy i s ≤ 1)
      × ((row : JobRecord)
          → get i s.db.jobs ≡ some row
          → is_pending row.status ≡ true
          → busy i s ≡ 0)
      × (get i s.db.jobs ≡ none → busy i s ≡ 0)
one_session_at_work {s} r i =
    let safe = Reachable-IsSafe r in
    let idle : (row : JobRecord)
        → get i s.db.jobs ≡ some row
        → is_pending row.status ≡ true
        → busy i s ≡ 0 =
      λ row stored pending. (stored_row s i safe stored).2 pending in
    let missing : get i s.db.jobs ≡ none → busy i s ≡ 0 =
      λ free. subst (λ o. IsSafeRow i (busy i s) s.db.attempts o) free (safe.rows i) in
    elim (Option-cases (get i s.db.jobs)) [
      | inl free ↦ (omega (arith, missing free), idle, missing)
      | inr (row, stored) ↦ ((stored_row s i safe stored).1, idle, missing)
    ]
