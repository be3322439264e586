-- ===== src/Jobs/Sql/Alike/Claims.antt =====
-- `claim_job` of app/jobs/repositories.py on both repositories.
use async_job_processing_pip.Prelude.{
  ℕ, ◌+◌, ◌≤◌, ◌≡◌, refl, sym, ap, ◌∙◌, subst, ◌⊎◌, inl, inr, true, false, none, some, ◌∷◌, arith,
  String, any, nat_eq, string_eq, Bool-cases, Option-cases,
}
use async_job_processing_pip.Prelude.Dict.{Dict, get}
use async_job_processing_pip.Core.Enums.{status_eq}
use async_job_processing_pip.Core.Errors.{ok}
use async_job_processing_pip.Jobs.{Uuid, Clock, JobRecord}
use async_job_processing_pip.Jobs.Memory
use async_job_processing_pip.Jobs.Memory.{
  Memory, values, store, remember, new_job, known_as, at_key, replayed, modify, cancel,
  newest_first, with_status, with_handler, succeeded_with, failed_with, cancelled_at, next_job,
  add_recurring, is_claimable, claimed, try_claim,
}
use async_job_processing_pip.Jobs.Memory.Steps.{claim_job_some}
use async_job_processing_pip.Jobs.Repository.{memory_repository, claim_in_memory}
use async_job_processing_pip.Jobs.Repository.Calls
use async_job_processing_pip.Jobs.Repository.Calls.{Call, Answer, perform}
use async_job_processing_pip.Jobs.Sql.{Database, write_job, get_drain}
use async_job_processing_pip.Jobs.Sql.Writes
use async_job_processing_pip.Jobs.Sql.Writes.{
  is_attempt, finish, finish_attempt, failed_row, next_row, insert_next, read_cancel, write_cancel,
  pending_row, read_claim, claimable_row, write_claim, claimed_job, claim_row, new_attempt,
}
use async_job_processing_pip.Jobs.Sql.Index.{get-named}
use async_job_processing_pip.Jobs.Sql.Agreement.{memory_of, IsKept, update-IsKept, store-memory_of}
use async_job_processing_pip.Jobs.Sql.Repository.{sql_repository}
use async_job_processing_pip.Jobs.Sql.Claims.{
  claim_job_none, claim_job_read, read_claim-none, write_claim_ok,
}
use async_job_processing_pip.Jobs.Sql.Branches.{
  claim_drained, claim_missing, claim_drained_memory, claim_missing_memory,
  claim_unclaimable_memory,
}
use async_job_processing_pip.Jobs.Sql.Alike.{Alike, to-Alike, missing-Alike}

module _ (keys : Dict String Uuid) (db : Database) (kept : IsKept keys db) where
  -- A claim: its attempt has a new number.
  stored_claim-Alike :
      (clock : Clock) (attempt_id i : Uuid) (worker_id : String) {row : JobRecord}
      → get i db.jobs ≡ some row
      → get_drain db ≡ false
      → is_claimable (clock 0) row ≡ true
      → Alike (Calls.claim clock attempt_id i worker_id) keys db
  unfolding perform sql_repository memory_repository claim_in_memory claim_row claimed claimed_job
      read_claim claimable_row is_attempt new_attempt
  stored_claim-Alike clock attempt_id i worker_id {row} stored on claimable =
      let named : row.id ≡ i = get-named i db.jobs kept.indexed stored in
      let here : get row.id db.jobs ≡ some row =
        subst (λ k. get k db.jobs ≡ some row) (sym named) stored in
      let number = row.attempt_count + 1 in
      let job = claim_row (clock 0) worker_id number row in
      let attempts = new_attempt (clock 0) attempt_id row.id number worker_id ∷ db.attempts in
      let read : read_claim clock i db ≡ some row = ground (arith, on, stored, claimable) in
      let first : any (is_attempt row.id number) db.attempts ≡ false =
        kept.later row.id number (rw here (omega arith)) in
      let made : (j : Uuid) (n : ℕ)
          → any (is_attempt j n) attempts ≡ true
          → (any (is_attempt j n) db.attempts ≡ true) ⊎ ((j ≡ i) × (n ≤ number)) =
        λ j n there. elim (Bool-cases (any (is_attempt j n) db.attempts)) [
          | inl before ↦ inl before
          | inr none_before ↦
              let eq : (row.id ≡ j) × (number ≡ n) = ground (arith, there, none_before) in
              inr (sym eq.0 ∙ named, omega (arith, eq.1))
        ] in
      to-Alike keys db kept (Calls.claim clock attempt_id i worker_id)
        (Answer.maybe_job (ok (some job))) keys (write_job job (record db { attempts = attempts }))
        (ap (λ p. (Answer.maybe_job p.0, p.1))
          (claim_job_read clock attempt_id i worker_id db read
            ∙ ap claimed_job (write_claim_ok clock attempt_id worker_id row row db here first)))
        (ap (λ p. (Answer.maybe_job (ok p.0), p.1))
          (claim_job_some clock i (memory_of keys db) stored worker_id on claimable))
        (store-memory_of keys db kept i job named attempts)
        (update-IsKept keys db kept i job named attempts stored refl (omega arith) made)

  pub claim-Alike :
      (clock : Clock) (attempt_id i : Uuid) (worker_id : String)
      → Alike (Calls.claim clock attempt_id i worker_id) keys db
  unfolding perform sql_repository memory_repository claim_in_memory
  claim-Alike clock attempt_id i worker_id =
      let call = Calls.claim clock attempt_id i worker_id in
      let skipped =
        λ (sql : Writes.claim_job clock attempt_id i worker_id db ≡ (ok none, db))
            (memory : Memory.claim_job clock i worker_id (memory_of keys db)
              ≡ (none, memory_of keys db)).
          missing-Alike keys db kept call (Answer.maybe_job (ok none))
            (ap (λ p. (Answer.maybe_job p.0, p.1)) sql)
            (ap (λ p. (Answer.maybe_job (ok p.0), p.1)) memory) in
      elim (Bool-cases (get_drain db)) [
        | inl drained ↦
            skipped (claim_drained clock attempt_id i worker_id db drained)
              (claim_drained_memory clock attempt_id i worker_id (memory_of keys db) drained)
        | inr on ↦ elim (Option-cases (get i db.jobs)) [
          | inl missing ↦
              skipped (claim_missing clock attempt_id i worker_id db on missing)
                (claim_missing_memory clock attempt_id i worker_id (memory_of keys db) on missing)
          | inr (row, stored) ↦ elim (Bool-cases (is_claimable (clock 0) row)) [
            | inl claimable ↦ stored_claim-Alike clock attempt_id i worker_id stored on claimable
            | inr unclaimable ↦
                skipped
                  (claim_job_none clock attempt_id i worker_id db
                    (read_claim-none clock i db stored unclaimable))
                  (claim_unclaimable_memory clock attempt_id i worker_id (memory_of keys db) on
                    stored unclaimable)
          ]
        ]
      ]
