-- ===== src/Kernel/Jobs.antt =====
-- The records of kernel/models.py that the trigger runtime reads and writes. A time is a number of
-- microseconds. The two entries of a
-- retry policy are the integers that `int` makes of them: what `int` refuses is not represented.
-- `created_at`, `created_by` and `content_hash` are left out: nothing here reads them.
use n4x_core.Prelude.{ℕ, String, Bool, Option}
use n4x_core.Prelude.Integers.{ℤ}
use n4x_core.Kernel.Json.{Json, JsonDict}

pub data ApplicationStatus : Type 0 where
  active disabled triggers_paused importing : ApplicationStatus

pub record Application : Type 0 where
  pub id : String
  pub active_revision_id : Option String
  pub status : ApplicationStatus

pub data RevisionStatus : Type 0 where
  draft validating active rejected superseded : RevisionStatus

pub record ApplicationRevision : Type 0 where
  pub id : String
  pub application_id : String
  pub parent_revision_id : Option String
  pub status : RevisionStatus

pub data TriggerType : Type 0 where
  schedule event external : TriggerType

pub data TriggerOverlapPolicy : Type 0 where
  skip_if_running queue run_concurrently replace_running : TriggerOverlapPolicy

pub data TriggerMisfirePolicy : Type 0 where
  skip run_once enqueue_all : TriggerMisfirePolicy

pub record Trigger : Type 0 where
  pub id : String
  pub application_id : String
  pub active_revision_id : Option String

-- The entries of `config` and `retry_policy` that the runtime reads are fields here.
pub record TriggerRevision : Type 0 where
  pub id : String
  pub trigger_id : String
  pub action_id : String
  pub trigger_type : TriggerType
  pub config_cron : Option String
  pub config_event_type : Option String
  pub input_template : JsonDict
  pub overlap_policy : TriggerOverlapPolicy
  pub misfire_policy : TriggerMisfirePolicy
  pub max_attempts : ℕ
  pub retry_base_seconds : Option ℤ
  pub retry_max_seconds : Option ℤ
  pub enabled : Bool

pub record ActionRevision : Type 0 where
  pub id : String
  pub action_id : String

pub data JobStatus : Type 0 where
  scheduled leased running retry_wait succeeded failed missed : JobStatus

pub data JobAttemptStatus : Type 0 where
  leased running succeeded failed expired : JobAttemptStatus

pub record JobRecord : Type 0 where
  pub id : String
  pub application_id : String
  pub application_revision_id : String
  pub trigger_revision_id : String
  pub action_revision_id : String
  pub status : JobStatus
  pub input : JsonDict
  pub scheduled_at : Option ℕ
  pub queued_at : Option ℕ
  pub started_at : Option ℕ
  pub completed_at : Option ℕ
  pub heartbeat_at : Option ℕ
  pub attempt : ℕ
  pub max_attempts : ℕ
  pub idempotency_key : String
  pub invocation_id : Option String
  pub error : Option String
  pub next_retry_at : Option ℕ
  pub lease_owner : Option String
  pub lease_expires_at : Option ℕ
  pub current_attempt_id : Option String

pub record JobAttempt : Type 0 where
  pub id : String
  pub job_id : String
  pub attempt : ℕ
  pub status : JobAttemptStatus
  pub lease_owner : String
  pub lease_expires_at : ℕ
  pub started_at : Option ℕ
  pub completed_at : Option ℕ
  pub heartbeat_at : Option ℕ
  pub invocation_id : Option String
  pub error : Option String

pub data InvocationStatus : Type 0 where
  queued running succeeded failed cancelled : InvocationStatus

-- What the modelled parts read of an `Invocation`.
pub record Invocation : Type 0 where
  pub id : String
  pub status : InvocationStatus
  pub error : Option String
  pub completed_at : Option ℕ
  pub last_heartbeat_at : Option ℕ
  pub output : Json
  pub metadata : JsonDict
