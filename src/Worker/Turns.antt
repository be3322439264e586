-- ===== src/Worker/Turns.antt =====
-- What a turn of `Worker.run` of app/worker.py that comes to its end has done.
use async_job_processing_pip.Prelude.{ℕ, suc, ◌≡◌, Option, List, [], ◌∷◌}
use async_job_processing_pip.Core.Config.{Settings}
use async_job_processing_pip.Core.Errors.{ok}
use async_job_processing_pip.Jobs.{JobRecord}
use async_job_processing_pip.Jobs.Handlers.{Host}
use async_job_processing_pip.Jobs.Repository.{JobRepository}
use async_job_processing_pip.Jobs.Service.{World, Run}
use async_job_processing_pip.Queue.{JobProducer}
use async_job_processing_pip.Worker.{Received, process_message}

module _ {R P : Type 0} (repo : JobRepository R) (prod : JobProducer P) (host : Host)
    (settings : Settings) (runs : ℕ → Run) where
  -- Messages that are handled one after another, the first of them the `k`-th of its turn.
  pub data Handled : ℕ → List Received → World R P → World R P → Type 0 where
    done : {k : ℕ} {w : World R P} → Handled k [] w w
    next :
        {k : ℕ} {message : Received} {messages : List Received} {w v u : World R P}
        {job : Option JobRecord}
        → process_message repo prod host settings (runs k) message.value w ≡ (ok job, v)
        → Handled (suc k) messages v u
        → Handled k (message ∷ messages) w u
