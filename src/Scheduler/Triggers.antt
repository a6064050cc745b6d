-- ===== src/Scheduler/Triggers.antt =====
-- The entry points of `TriggerRuntime` (runtime/scheduler.py): `run_trigger`, `run_trigger_revision`,
-- `process_due_work`, `dispatch_event` and `mark_missed_jobs`.
use n4x_core.Prelude.{
  ℕ, ◌+◌, String, Bool, true, false, ◌&&◌, ◌||◌, not, Option, none, some, List, [], ◌∷◌, ◌++◌, ◌==◌,
  if◌then◌else◌,
}
use n4x_core.Prelude.Result
use n4x_core.Prelude.Result.{Result, ok, raise}
use n4x_core.Prelude.Exec.{Exec, pure, lift, get_state, transaction, ◌>>=◌}
use n4x_core.Kernel.Json.{Json, JsonDict}
use n4x_core.Kernel.Jobs.{
  Application, TriggerRevision, ActionRevision, JobRecord, JobStatus, Invocation,
}
use n4x_core.Scheduler.State.{
  TriggerGraph, TriggerRuntime, SchedulerError, get_item, application_for_trigger,
  application_allows_triggers, due_retries,
}
use n4x_core.Scheduler.Jobs.{record_job, recover_expired_leases}
use n4x_core.Scheduler.Execute.{Readings, execute_job}
use n4x_core.Scheduler.Active.{active_trigger_revisions, is_schedule, is_event, is_skip}
use n4x_core.Scheduler.Admission.{
  Admitted, returns, executes, admit, id_or_key_error, missed_key, stopped_message,
}

module _ (sha256_json : Json → String) (isoformat : ℕ → String) (rt : TriggerRuntime)
    (actions_run : ActionRevision → JobRecord → Exec TriggerGraph SchedulerError Invocation) where
  abbrev pub execute_admitted : Readings → Admitted → Exec TriggerGraph SchedulerError JobRecord
  execute_admitted r (returns job) = pure job
  execute_admitted r (executes job t) = execute_job rt actions_run r job.id t false

  -- `job_id`, `now` and `r` are the new ids and the clock of the call.
  unfoldable pub run_trigger_revision :
      String
      → JsonDict
      → Option String
      → String
      → ℕ
      → Readings
      → Exec TriggerGraph SchedulerError JobRecord
  run_trigger_revision trigger_revision_id input idempotency_key job_id now r = do
    admitted ← admit sha256_json isoformat trigger_revision_id input idempotency_key job_id now
    execute_admitted r admitted

  unfoldable pub run_trigger :
      String
      → JsonDict
      → Option String
      → String
      → ℕ
      → Readings
      → Exec TriggerGraph SchedulerError JobRecord
  run_trigger trigger_id input idempotency_key job_id now r = do
    g ← get_state
    trigger ← lift (get_item g.triggers trigger_id)
    revision_id ← lift (id_or_key_error trigger.active_revision_id)
    run_trigger_revision revision_id input idempotency_key job_id now r

  abbrev pub with_triggers :
      TriggerGraph → List JobRecord → Result SchedulerError (List (JobRecord × TriggerRevision))
  with_triggers g [] = ok []
  with_triggers g (job ∷ jobs) =
      Result.◌>>=◌ (get_item g.trigger_revisions job.trigger_revision_id) λ t.
        Result.◌>>=◌ (with_triggers g jobs)
          λ rest. ok (if application_allows_triggers g t then (job, t) ∷ rest else rest)

  -- The unit of work of `process_due_work`: the due jobs whose triggers may run.
  unfoldable pub due_work :
      ℕ → Exec TriggerGraph SchedulerError (List (JobRecord × TriggerRevision))
  due_work now = transaction (do g ← get_state; lift (with_triggers g (due_retries now g)))

  unfoldable pub execute_due :
      List (JobRecord × TriggerRevision)
      → (ℕ → Readings)
      → ℕ
      → Exec TriggerGraph SchedulerError (List JobRecord)
  execute_due [] readings i = pure []
  execute_due ((job, t) ∷ rest) readings i = do
    done ← execute_job rt actions_run (readings i) job.id t true
    others ← execute_due rest readings (i + 1)
    pure (done ∷ others)

  -- `recovered_at` and `now` are the two readings of the clock, `clock` those of the recovery.
  unfoldable pub process_due_work :
      ℕ → (ℕ → ℕ) → ℕ → (ℕ → Readings) → Exec TriggerGraph SchedulerError (List JobRecord)
  process_due_work recovered_at clock now readings = do
    recovered ← recover_expired_leases recovered_at clock
    due ← due_work now
    execute_due due readings 0

  abbrev pub belongs_to : Option Application → String → Bool
  belongs_to none id = false
  belongs_to (some a) id = a.id == id

  abbrev pub text_is : Option String → String → Bool
  text_is none s = false
  text_is (some t) s = t == s

  abbrev pub listens : TriggerGraph → String → String → TriggerRevision → Bool
  listens g application_id event_type t =
      belongs_to (application_for_trigger g t) application_id
      && is_event t.trigger_type
      && text_is t.config_event_type event_type

  -- The loop of `dispatch_event`; each round has its own ids and readings.
  unfoldable pub dispatch_each :
      List TriggerRevision
      → String
      → String
      → JsonDict
      → (ℕ → String × ℕ × Readings)
      → ℕ
      → Exec TriggerGraph SchedulerError (List JobRecord)
  dispatch_each [] application_id event_type payload fresh i = pure []
  dispatch_each (t ∷ ts) application_id event_type payload fresh i = do
    let rest = dispatch_each ts application_id event_type payload fresh (i + 1)
    g ← get_state
    if listens g application_id event_type t
        then (do
          job ← run_trigger_revision t.id payload none (fresh i).0 (fresh i).1 (fresh i).2
          others ← rest
          pure (job ∷ others))
        else rest

  unfoldable pub dispatch_event :
      String
      → String
      → JsonDict
      → (ℕ → String × ℕ × Readings)
      → Exec TriggerGraph SchedulerError (List JobRecord)
  dispatch_event application_id event_type payload fresh = do
    g ← get_state
    dispatch_each (active_trigger_revisions g) application_id event_type payload fresh 0

  abbrev pub record_missed_at :
      Option String
      → Application
      → TriggerRevision
      → String
      → ℕ
      → Exec TriggerGraph SchedulerError (List JobRecord)
  record_missed_at none a t job_id now = pure []
  record_missed_at (some revision_id) a t job_id now = do
    job ←
        record_job
          (record {
            id = job_id;
            application_id = a.id;
            input_value = t.input_template;
            idempotency_key = missed_key sha256_json isoformat t now;
            status = JobStatus.missed;
            scheduled_at = some now;
            queued_at = none;
            completed_at = some now;
            error = some stopped_message;
            application_revision_id = revision_id;
          })
          t
    pure (job ∷ [])

  abbrev pub record_missed :
      Option Application
      → TriggerRevision
      → String
      → ℕ
      → Exec TriggerGraph SchedulerError (List JobRecord)
  record_missed none t job_id now = pure []
  record_missed (some a) t job_id now = record_missed_at a.active_revision_id a t job_id now

  unfoldable pub mark_each :
      List TriggerRevision
      → (ℕ → String)
      → ℕ
      → ℕ
      → Exec TriggerGraph SchedulerError (List JobRecord)
  mark_each [] ids i now = pure []
  mark_each (t ∷ ts) ids i now = do
    let rest = mark_each ts ids (i + 1) now
    g ← get_state
    if not (is_schedule t.trigger_type) || is_skip t.misfire_policy then rest else (do
      marked ← record_missed (application_for_trigger g t) t (ids i) now
      others ← rest
      pure (marked ++ others))

  unfoldable pub mark_missed_jobs :
      (ℕ → String) → ℕ → Exec TriggerGraph SchedulerError (List JobRecord)
  mark_missed_jobs ids now =
      transaction (do g ← get_state; mark_each (active_trigger_revisions g) ids 0 now)
