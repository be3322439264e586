-- ===== src/Core/Config.antt =====
-- app/core/config.py: the settings that the modelled code reads, with their defaults.
use async_job_processing_pip.Prelude.{ℕ, ◌*◌, String}

pub record Settings : Type 0 where
  pub kafka_submitted_high_topic : String
  pub kafka_submitted_default_topic : String
  pub kafka_submitted_low_topic : String
  pub kafka_retry_topic : String
  pub kafka_dead_letter_topic : String
  pub max_page_size : ℕ
  pub max_payload_bytes : ℕ
  pub worker_id : String
  pub worker_batch_size : ℕ
  pub stale_lock_seconds : ℕ

abbrev pub default_settings : Settings
default_settings = record {
  kafka_submitted_high_topic = "jobs.submitted.high";
  kafka_submitted_default_topic = "jobs.submitted.default";
  kafka_submitted_low_topic = "jobs.submitted.low";
  kafka_retry_topic = "jobs.retry";
  kafka_dead_letter_topic = "jobs.dead_lettered";
  max_page_size = 100;
  max_payload_bytes = 64 * 1024;
  worker_id = "worker-local";
  worker_batch_size = 10;
  stale_lock_seconds = 300;
}
