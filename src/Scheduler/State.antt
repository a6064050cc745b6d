-- ===== src/Scheduler/State.antt =====
-- What the trigger runtime keeps in the graph, and its read-only questions: `_application_for_trigger`,
-- `_application_allows_triggers`, `_job_by_idempotency_key`, `_has_running_job`, the job queries of
-- graph/repositories.py and the action bindings of graph/bindings.py.
use n4x_core.Prelude.{
  ℕ, String, Bool, true, false, ◌&&◌, not, Option, none, some, List, [], ◌∷◌, leb, ◌==◌, find,
  filter, any, is_none,
}
use n4x_core.Prelude.Result.{Result, ok, raise, ◌>>=◌}
use n4x_core.Graph.Records
use n4x_core.Graph.Records.{RecordCollection}
use n4x_core.Graph.Edges.{EdgeRecord}
use n4x_core.Graph.Bindings.{bound}
use n4x_core.Kernel.Jobs.{
  Application, ApplicationStatus, ApplicationRevision, Trigger, TriggerRevision, ActionRevision,
  JobRecord, JobStatus, JobAttempt,
}

pub record TriggerGraph : Type 0 where
  pub applications : RecordCollection Application
  pub revisions : RecordCollection ApplicationRevision
  pub triggers : RecordCollection Trigger
  pub trigger_revisions : RecordCollection TriggerRevision
  pub action_revisions : RecordCollection ActionRevision
  pub job_records : RecordCollection JobRecord
  pub job_attempts : RecordCollection JobAttempt
  pub edges : List EdgeRecord

-- `KeyError`, and the two messages of `ValidationFailure`.
pub data SchedulerError : Type 0 where
  key_error paused_or_unavailable application_unavailable : SchedulerError

-- The lease length of the module and the owner's name of the runtime.
pub record TriggerRuntime : Type 0 where
  pub lease_seconds : ℕ
  pub lease_owner : String

-- `collection[key]`
unfoldable pub get_item {ℓ} : {V : Type ℓ} → RecordCollection V → String → Result SchedulerError V
get_item c key = elim (Records.get c key) [ none ↦ raise key_error | some v ↦ ok v ]

abbrev pub application_of : TriggerGraph → Option Trigger → Option Application
application_of g none = none
application_of g (some trigger) = Records.get g.applications trigger.application_id

unfoldable pub application_for_trigger : TriggerGraph → TriggerRevision → Option Application
application_for_trigger g t = application_of g (Records.get g.triggers t.trigger_id)

abbrev pub is_active : ApplicationStatus → Bool
is_active ApplicationStatus.active = true
is_active _ = false

abbrev pub allows : Option Application → Bool
allows none = false
allows (some a) = is_active a.status && not (is_none a.active_revision_id)

unfoldable pub application_allows_triggers : TriggerGraph → TriggerRevision → Bool
application_allows_triggers g t = allows (application_for_trigger g t)

unfoldable pub job_by_idempotency_key : TriggerGraph → String → Option JobRecord
job_by_idempotency_key g key =
    find (λ job. job.idempotency_key == key) (Records.values g.job_records)

abbrev pub is_leased_or_running : JobStatus → Bool
is_leased_or_running JobStatus.leased = true
is_leased_or_running JobStatus.running = true
is_leased_or_running _ = false

abbrev pub is_retry_wait : JobStatus → Bool
is_retry_wait JobStatus.retry_wait = true
is_retry_wait _ = false

abbrev pub is_running : JobStatus → Bool
is_running JobStatus.running = true
is_running _ = false

unfoldable pub has_running_job : TriggerGraph → String → Bool
has_running_job g trigger_revision_id =
    any (λ job. job.trigger_revision_id == trigger_revision_id && is_leased_or_running job.status)
      (Records.values g.job_records)

-- `time is not None and time <= now`
abbrev pub has_come : Option ℕ → ℕ → Bool
has_come none now = false
has_come (some t) now = leb t now

abbrev pub is_due : ℕ → JobRecord → Bool
is_due now job = is_retry_wait job.status && has_come job.next_retry_at now

abbrev pub is_expired : ℕ → JobRecord → Bool
is_expired now job = is_leased_or_running job.status && has_come job.lease_expires_at now

unfoldable pub due_retries : ℕ → TriggerGraph → List JobRecord
due_retries now g = filter (is_due now) (Records.values g.job_records)

unfoldable pub expired_leases : ℕ → TriggerGraph → List JobRecord
expired_leases now g = filter (is_expired now) (Records.values g.job_records)

unfoldable pub action_revisions :
    TriggerGraph → String → Result SchedulerError (List ActionRevision)
action_revisions g application_revision_id =
    bound key_error g.action_revisions application_revision_id "HAS_ACTION_REVISION" g.edges

abbrev pub exactly_one : List ActionRevision → Result SchedulerError ActionRevision
exactly_one (a ∷ []) = ok a
exactly_one _ = raise key_error

unfoldable pub action_revision :
    TriggerGraph → String → String → Result SchedulerError ActionRevision
action_revision g application_revision_id action_id = do
  items ← action_revisions g application_revision_id
  exactly_one (filter (λ item. item.action_id == action_id) items)
