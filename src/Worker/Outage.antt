-- ===== src/Worker/Outage.antt =====
-- A turn of the worker while Kafka takes no messages.
use async_job_processing_pip.Prelude.{ℕ, ◌≡◌, refl, false, List, ◌∷◌, length, arith}
use async_job_processing_pip.Core.Config.{Settings}
use async_job_processing_pip.Core.Errors.{ok, err}
use async_job_processing_pip.Core.Exec.{pure, >>-err}
use async_job_processing_pip.Jobs.{Clock, JobRecord}
use async_job_processing_pip.Jobs.Handlers.{Host}
use async_job_processing_pip.Jobs.Memory.{Memory, due_jobs}
use async_job_processing_pip.Jobs.Repository.{memory_repository}
use async_job_processing_pip.Jobs.Service.{World, publish, publish_all, publish_due_jobs}
use async_job_processing_pip.Queue.{FakeJobProducer, fake_producer, unpublished}
use async_job_processing_pip.Worker.{
  Received, Consumer, Turn, on_world, on_consumer, after_poll, perform_turn,
}

module _ (job : JobRecord) (w : World Memory FakeJobProducer)
    (unavailable : w.producer.available ≡ false) where
  publish-unpublished : publish fake_producer job w ≡ (err (unpublished job.id), w)
  unfolding fake_producer publish
  publish-unpublished = ground (arith, unavailable)

  publish_due_jobs-unpublished :
      (settings : Settings) (clock : Clock) (limit : ℕ) (jobs : List JobRecord)
      → due_jobs clock limit w.repository ≡ job ∷ jobs
      → publish_due_jobs memory_repository fake_producer settings clock limit w
        ≡ (err (unpublished job.id), w)
  unfolding publish_due_jobs publish_all memory_repository
  publish_due_jobs-unpublished settings clock limit jobs due =
      let refused =
        >>-err (publish fake_producer job) (publish_all fake_producer jobs) publish-unpublished in
      let stopped =
        >>-err (publish_all fake_producer (job ∷ jobs)) (pure (length (job ∷ jobs))) refused in
      rw due stopped

  -- Where a job is due and the producer refuses it, the turn raises before it handles any message of its
  -- poll, however many are there, and commits nothing.
  pub turn-unpublished :
      {C : Type 0} (consumer : Consumer C) (host : Host) (settings : Settings) (turn : Turn) (c : C)
      {c' : C} {records : List (List Received)} (jobs : List JobRecord)
      → consumer.poll c ≡ (ok records, c')
      → due_jobs turn.clock settings.worker_batch_size w.repository ≡ job ∷ jobs
      → perform_turn memory_repository fake_producer consumer host settings turn
          (record { world = w; consumer = c })
        ≡ (err (unpublished job.id), record { world = w; consumer = c' })
  unfolding perform_turn after_poll on_consumer on_world
  turn-unpublished consumer host settings turn c jobs polled due = rw polled (
      rw (publish_due_jobs-unpublished settings turn.clock settings.worker_batch_size jobs due)
        refl)
