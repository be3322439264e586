-- ===== src/Core/Enums.antt =====
-- app/core/enums.py
use async_job_processing_pip.Prelude.{◌≡◌, ◌↔◌, Bool, true, false, Eq, arith}
use Prim.Native.String.{String}

pub data JobStatus : Type 0 where
  queued running succeeded failed dead_lettered cancelled : JobStatus

pub data AttemptStatus : Type 0 where
  running succeeded failed timeout : AttemptStatus

abbrev pub status_beq : JobStatus → JobStatus → Bool
status_beq queued queued = true
status_beq JobStatus.running JobStatus.running = true
status_beq JobStatus.succeeded JobStatus.succeeded = true
status_beq JobStatus.failed JobStatus.failed = true
status_beq dead_lettered dead_lettered = true
status_beq cancelled cancelled = true
status_beq _ _ = false

pub status_beq_iff : (a b : JobStatus) → (status_beq a b ≡ true) ↔ (a ≡ b)
status_beq_iff a b = ground arith

instance abbrev pub status_eq : Eq JobStatus
status_eq = record { beq = status_beq; beq_iff = status_beq_iff }

-- `status.value`
unfoldable pub status_value : JobStatus → String
status_value queued = "queued"
status_value JobStatus.running = "running"
status_value JobStatus.succeeded = "succeeded"
status_value JobStatus.failed = "failed"
status_value dead_lettered = "dead_lettered"
status_value cancelled = "cancelled"

-- `status in {JobStatus.QUEUED, JobStatus.FAILED}`
unfoldable pub is_pending : JobStatus → Bool
is_pending queued = true
is_pending JobStatus.failed = true
is_pending _ = false
