-- ===== src/Worker/Messages.antt =====
-- A message from app/queue/kafka.py to app/worker.py.
use async_job_processing_pip.Prelude.{◌^◌, ◌<◌, ◌≡◌, String, string_eq}
use async_job_processing_pip.Calendar.{Instant}
use async_job_processing_pip.Core.Json.{payload_get}
use async_job_processing_pip.Core.Errors.{ok}
use async_job_processing_pip.Jobs.Ids.Text.{parse_job_id-uuid_text}
use async_job_processing_pip.Queue.{Message, message_value}
use async_job_processing_pip.Worker.{job_id_of, uuid_of_field}

-- A worker reads from the value of a published message, whatever its other fields, the job that the
-- message was published for.
pub job_id_of-message_value :
    (isoformat : Instant → String) (m : Message)
    → m.job_id < 2 ^ 128
    → job_id_of (message_value isoformat m) ≡ ok m.job_id
unfolding job_id_of message_value payload_get uuid_of_field
job_id_of-message_value isoformat m small = parse_job_id-uuid_text m.job_id small
