-- ===== src/Examples/Repositories.antt =====
-- One sequence of calls on both repositories.
use async_job_processing_pip.Prelude.{
  ◌≡◌, refl, subst, some-injective, none, some, List, [], ◌∷◌, nat_eq, string_eq,
}
use async_job_processing_pip.Prelude.Dict.{get, put}
use async_job_processing_pip.Text.{truthy, is_empty}
use async_job_processing_pip.Core.Enums.{is_pending}
use async_job_processing_pip.Jobs.{JobRecord, first_run, ensure_aware}
use async_job_processing_pip.Jobs.Memory
use async_job_processing_pip.Jobs.Memory.{
  initial, new_job, store, remember, known_as, try_claim, claimed, is_claimable, modify,
}
use async_job_processing_pip.Jobs.Repository.{memory_repository, claim_in_memory}
use async_job_processing_pip.Jobs.Repository.Calls.{
  Call, perform_all, perform, create, claim, fail, cancel, find,
}
use async_job_processing_pip.Jobs.Sql.{get_drain}
use async_job_processing_pip.Jobs.Sql.Repository.{sql_repository}
use async_job_processing_pip.Jobs.Sql.Refinement.{AreFair, empty_database, sql_repository-memory}
use async_job_processing_pip.Examples.Workers.{at, request}

abbrev calls : List Call
calls =
    create (at 1000) 7 (request "echo" 3)
    ∷ (claim (at 2000) 70 7 "worker"
        ∷ (fail (at 3000) 7 "boom" 1 ∷ (cancel (at 4000) 7 ∷ (find 7 ∷ []))))

running_unprocessed :
    (row : JobRecord)
    → some (claimed 2000 "worker" (new_job (at 1000) 7 (request "echo" 3))) ≡ some row
    → row.processed_at ≡ none
unfolding new_job claimed
running_unprocessed row h = subst (λ (r : JobRecord). r.processed_at ≡ none) (some-injective h) refl

calls-AreFair : AreFair calls initial
unfolding get put new_job claimed perform memory_repository claim_in_memory truthy is_empty store
    remember known_as try_claim is_claimable is_pending first_run ensure_aware Memory.create_job
    Memory.claim_job
calls-AreFair = ((refl, refl), (tt, (running_unprocessed, (tt, (tt, tt)))))

sql_repository-memory_example :
    let out = perform_all sql_repository calls empty_database in
    let expected = perform_all memory_repository calls initial in
    (out.0 ≡ expected.0)
    × (out.1.jobs ≡ expected.1.jobs)
    × (get_drain out.1 ≡ expected.1.drain_enabled)
sql_repository-memory_example = sql_repository-memory calls calls-AreFair
