-- ===== src/Api/App/Identifiers.antt =====
-- The identifiers of requests to app/main.py, and what is said of an unexpected exception.
use async_job_processing_pip.Prelude.{◌≡◌, List, map, min}
use async_job_processing_pip.Core.Config.{Settings}
use async_job_processing_pip.Core.Json.{empty}
use async_job_processing_pip.Prelude.Int.{ℤ, pos_part}
use async_job_processing_pip.Jobs.{JobRecord}
use async_job_processing_pip.Jobs.Repository.{JobRepository}
use async_job_processing_pip.Jobs.Service
use async_job_processing_pip.Queue.{JobProducer}
use async_job_processing_pip.Api.{Response, reply, failure, crash, ErrorBody}
use async_job_processing_pip.Api
use async_job_processing_pip.Api.App.{Surroundings}

-- What an unexpected exception shows of itself.
abbrev unexpected : ErrorBody
unexpected = record {
  code = "internal_server_error";
  message = "Unexpected server error";
  details = empty;
}

abbrev IsDiscreet : {A : Type 0} → Response A → Type 0
IsDiscreet (reply status a) = Unit
IsDiscreet (failure status e) = Unit
IsDiscreet (crash e) = e ≡ unexpected

abbrev cancelled_job : JobRecord → Response Api.CancelResponse
cancelled_job job = reply 200 (record { id = job.id; status = job.status })

module _ {R P : Type 0} (repo : JobRepository R) (prod : JobProducer P) (settings : Settings)
    (env : Surroundings) where
  abbrev page_of : ℤ → ℤ → List JobRecord → Response Api.JobListResponse
  page_of limit offset jobs = reply 200 (record {
    items = map Api.list_item jobs;
    limit = min (pos_part limit) settings.max_page_size;
    offset = pos_part offset;
  })
