-- ===== src/Jobs/Sql/Repository.antt =====
-- `SqlAlchemyJobRepository` of app/jobs/repositories.py as a `JobRepository`, with no other session
-- between the read and the write of a call.
use async_job_processing_pip.Jobs.Repository.{JobRepository}
use async_job_processing_pip.Jobs.Sql
use async_job_processing_pip.Jobs.Sql.{Database}
use async_job_processing_pip.Jobs.Sql.Writes

unfoldable pub sql_repository : JobRepository Database
sql_repository = record {
  create_job = Sql.create_job;
  get_job = Sql.get_job;
  list_jobs = Sql.list_jobs;
  due_jobs = Sql.due_jobs;
  queue_depth = Sql.queue_depth;
  metrics = Sql.metrics;
  claim_job = Writes.claim_job;
  mark_succeeded = Writes.mark_succeeded;
  create_next_recurring_job = Writes.create_next_recurring_job;
  mark_failed_attempt = Writes.mark_failed_attempt;
  cancel_job = Writes.cancel_job;
  set_drain = λ clock. Sql.set_drain;
  get_drain = Sql.get_drain;
}
