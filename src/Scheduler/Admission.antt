-- ===== src/Scheduler/Admission.antt =====
-- The first unit of work of `run_trigger_revision` (runtime/scheduler.py): the job of an earlier call
-- with the same key, a missed job, or a new scheduled one. `sha256_json` and `isoformat` are those of
-- hashlib, json and datetime.
use n4x_core.Prelude.{
  ℕ, String, Bool, true, false, ◌&&◌, Option, none, some, [], ◌∷◌, if◌then◌else◌,
}
use n4x_core.Prelude.Result
use n4x_core.Prelude.Result.{Result, ok, raise}
use n4x_core.Prelude.Exec.{Exec, pure, lift, get_state, transaction, ◌>>=◌}
use n4x_core.Graph.Records.{upsert_row}
use n4x_core.Kernel.Json.{Json, JsonDict, object, text, field, end, to_fields}
use n4x_core.Kernel.Jobs.{Application, ApplicationRevision, TriggerRevision, JobRecord, JobStatus}
use n4x_core.Scheduler.Active.{is_skip_if_running}
use n4x_core.Scheduler.State.{
  TriggerGraph, SchedulerError, key_error, paused_or_unavailable, application_unavailable, get_item,
  application_for_trigger, application_allows_triggers, job_by_idempotency_key, has_running_job,
}
use n4x_core.Scheduler.Jobs.{record_job}

-- `{**base, **update}`
abbrev pub merge : JsonDict → JsonDict → JsonDict
merge base [] = base
merge base ((k, v) ∷ update) = merge (upsert_row k v base) update

-- `idempotency_key or …`
abbrev pub key_or : Option String → String → String
key_or none d = d
key_or (some String.[]) d = d
key_or (some (String.◌∷◌ c s)) d = String.◌∷◌ c s

abbrev pub id_or_key_error : Option String → Result SchedulerError String
id_or_key_error none = raise key_error
id_or_key_error (some id) = ok id

abbrev pub running_message : String
running_message = "skipped because trigger is already running"

abbrev pub stopped_message : String
stopped_message = "scheduled trigger may have fired while runtime was stopped"

-- What the first unit of work of `run_trigger_revision` decides.
pub data Admitted : Type 0 where
  returns : JobRecord → Admitted
  executes : JobRecord → TriggerRevision → Admitted

abbrev pub application_or_raise : Option Application → Result SchedulerError Application
application_or_raise none = raise application_unavailable
application_or_raise (some a) = ok a

abbrev pub require_allowed : Bool → Result SchedulerError (Unit {0})
require_allowed true = ok tt
require_allowed false = raise paused_or_unavailable

-- The trigger's revision and the revision of its application that the job is pinned to.
unfoldable pub resolve :
    TriggerGraph → String → Result SchedulerError (TriggerRevision × ApplicationRevision)
resolve g trigger_revision_id = Result.◌>>=◌ (get_item g.trigger_revisions trigger_revision_id) λ t.
    Result.◌>>=◌ (require_allowed (application_allows_triggers g t)) λ _.
      Result.◌>>=◌ (application_or_raise (application_for_trigger g t)) λ application.
        Result.◌>>=◌ (id_or_key_error application.active_revision_id) λ revision_id.
          Result.◌>>=◌ (get_item g.revisions revision_id) λ revision. ok (t, revision)

module _ (sha256_json : Json → String) (isoformat : ℕ → String) where
  abbrev pub scheduled_key : TriggerRevision → JsonDict → ℕ → String
  scheduled_key t input now = sha256_json (
      object (
        field "trigger_revision_id" (text t.id) (
          field "input" (object (to_fields input))
            (field "scheduled_at" (text (isoformat now)) end))))

  abbrev pub missed_key : TriggerRevision → ℕ → String
  missed_key t now = sha256_json (
      object
        (field "trigger_revision_id" (text t.id) (field "missed_at" (text (isoformat now)) end)))

  abbrev pub admit_new :
      TriggerRevision
      → ApplicationRevision
      → JsonDict
      → String
      → String
      → ℕ
      → TriggerGraph
      → Exec TriggerGraph SchedulerError Admitted
  admit_new t revision input key job_id now g =
      if is_skip_if_running t.overlap_policy && has_running_job g t.id
      then (do
        job ←
            record_job
              (record {
                id = job_id;
                application_id = revision.application_id;
                input_value = input;
                idempotency_key = key;
                status = JobStatus.missed;
                scheduled_at = some now;
                queued_at = some now;
                completed_at = some now;
                error = some running_message;
                application_revision_id = revision.id;
              })
              t
        pure (returns job))
      else (do
        job ←
            record_job
              (record {
                id = job_id;
                application_id = revision.application_id;
                input_value = input;
                idempotency_key = key;
                status = JobStatus.scheduled;
                scheduled_at = some now;
                queued_at = some now;
                completed_at = none;
                error = none;
                application_revision_id = revision.id;
              })
              t
        pure (executes job t))

  abbrev pub admit_unless :
      Option JobRecord
      → TriggerRevision
      → ApplicationRevision
      → JsonDict
      → String
      → String
      → ℕ
      → TriggerGraph
      → Exec TriggerGraph SchedulerError Admitted
  admit_unless (some existing) t revision input key job_id now g = pure (returns existing)
  admit_unless none t revision input key job_id now g = admit_new t revision input key job_id now g

  unfoldable pub admit :
      String → JsonDict → Option String → String → ℕ → Exec TriggerGraph SchedulerError Admitted
  admit trigger_revision_id input idempotency_key job_id now = transaction (do
    g ← get_state
    (t, revision) ← lift (resolve g trigger_revision_id)
    let job_input = merge t.input_template input
    let key = key_or idempotency_key (scheduled_key t job_input now)
    admit_unless (job_by_idempotency_key g key) t revision job_input key job_id now g)
