-- ===== src/Scheduler/Samples.antt =====
-- A small application with one trigger, what the runtime does on it, and the theorems at these
-- inputs.
use n4x_core.Prelude.{
  All, map, filter, ℕ, ◌+◌, ◌*◌, ◌≤◌, String, ◌≡◌, ◌⊎◌, inl, inr, refl, true, false, ◌&&◌, none,
  some, List, [], ◌∷◌, arith, any, ◌==◌,
}
use n4x_core.Prelude.Integers.{pos}
use n4x_core.Prelude.Result.{Result, ok}
use n4x_core.Prelude.Exec.{Exec}
use n4x_core.Graph.Records
use n4x_core.Graph.Records.{RecordCollection}
use n4x_core.Graph.Bindings
use n4x_core.Graph.Bindings.{targets}
use n4x_core.Graph.Edges.{EdgeRecord, node_ref, create_edge, list_edges}
use n4x_core.Kernel.Json.{Json, text}
use n4x_core.Kernel.Jobs.{
  Application, ApplicationStatus, ApplicationRevision, RevisionStatus, Trigger, TriggerRevision,
  TriggerType, TriggerOverlapPolicy, TriggerMisfirePolicy, ActionRevision, JobRecord, JobStatus,
  JobAttempt, JobAttemptStatus, Invocation, InvocationStatus,
}
use n4x_core.Scheduler.State.{
  TriggerGraph, TriggerRuntime, SchedulerError, get_item, application_for_trigger,
  application_allows_triggers, job_by_idempotency_key, has_running_job, due_retries, expired_leases,
  action_revisions, action_revision, is_expired,
}
use n4x_core.Scheduler.Jobs.{
  retry_delay_seconds, record_job, failed_or_waiting, fail_or_retry, defer_paused_job,
  heartbeat_job, recover_jobs, recover_expired_leases, seconds,
}
use n4x_core.Scheduler.Execute.{Readings, take_lease, lease_job, finish_job, execute_job}
use n4x_core.Scheduler.Active.{is_skip_if_running}
use n4x_core.Scheduler.Admission.{Admitted, returns, executes, resolve, admit}
use n4x_core.Scheduler.Triggers.{due_work}
use n4x_core.Scheduler.Due.{may_run, IsPaired, due_work-allowed}
use n4x_core.Scheduler.Retry.{retry_delay_seconds_lem}
use n4x_core.Scheduler.Recovery.{recover_expired_leases-clears}
use n4x_core.Scheduler.Lifecycle.{execute_job-settles, IsSettled}
use n4x_core.Scheduler.Idempotence.{admit-again}
use n4x_core.Scheduler.Guards.{admit-executes}
use n4x_core.Scheduler.Heartbeat.{heartbeat_job-extends, heartbeat_job-refused}

program : Unit {0}
unfolding due_work get_item application_for_trigger application_allows_triggers
    job_by_idempotency_key has_running_job due_retries expired_leases targets Bindings.get_item
    action_revisions action_revision retry_delay_seconds record_job failed_or_waiting fail_or_retry
    defer_paused_job heartbeat_job recover_jobs recover_expired_leases take_lease lease_job
    finish_job execute_job resolve admit create_edge list_edges Records.get Records.save
    Records.values
program = tt

abbrev one_row : {V : Type 0} → String → V → RecordCollection V
one_row k v = record { rows = (k, v) ∷ [] }

abbrev no_rows : {V : Type 0} → RecordCollection V
no_rows = record { rows = [] }

abbrev application : Application
application = record { id = "a"; active_revision_id = some "r"; status = ApplicationStatus.active }

abbrev revision : ApplicationRevision
revision = record {
  id = "r";
  application_id = "a";
  parent_revision_id = none;
  status = RevisionStatus.active;
}

abbrev trigger : Trigger
trigger = record { id = "t"; application_id = "a"; active_revision_id = some "tr" }

abbrev nightly : TriggerRevision
nightly = record {
  id = "tr";
  trigger_id = "t";
  action_id = "act";
  trigger_type = TriggerType.schedule;
  config_cron = some "0 3 * * *";
  config_event_type = none;
  input_template = ("depth", text "full") ∷ [];
  overlap_policy = TriggerOverlapPolicy.skip_if_running;
  misfire_policy = TriggerMisfirePolicy.run_once;
  max_attempts = 3;
  retry_base_seconds = none;
  retry_max_seconds = none;
  enabled = true;
}

abbrev action : ActionRevision
action = record { id = "ar"; action_id = "act" }

abbrev edge : EdgeRecord
edge = record {
  from_ref = node_ref "ApplicationRevision" "r";
  edge_type = "HAS_ACTION_REVISION";
  to_ref = node_ref "ActionRevision" "ar";
}

abbrev graph : RecordCollection JobRecord → RecordCollection JobAttempt → TriggerGraph
graph jobs attempts = record {
  applications = one_row "a" application;
  revisions = one_row "r" revision;
  triggers = one_row "t" trigger;
  trigger_revisions = one_row "tr" nightly;
  action_revisions = one_row "ar" action;
  job_records = jobs;
  job_attempts = attempts;
  edges = edge ∷ [];
}

abbrev idle : TriggerGraph
idle = graph no_rows no_rows

abbrev running_job : JobRecord
running_job = record {
  id = "j";
  application_id = "a";
  application_revision_id = "r";
  trigger_revision_id = "tr";
  action_revision_id = "ar";
  status = JobStatus.running;
  input = [];
  scheduled_at = some 1;
  queued_at = some 1;
  started_at = some 2;
  completed_at = none;
  heartbeat_at = some 2;
  attempt = 1;
  max_attempts = 3;
  idempotency_key = "k";
  invocation_id = none;
  error = none;
  next_retry_at = none;
  lease_owner = some "me";
  lease_expires_at = some 10;
  current_attempt_id = some "at";
}

abbrev running_attempt : JobAttempt
running_attempt = record {
  id = "at";
  job_id = "j";
  attempt = 1;
  status = JobAttemptStatus.running;
  lease_owner = "me";
  lease_expires_at = 10;
  started_at = some 2;
  completed_at = none;
  heartbeat_at = some 2;
  invocation_id = none;
  error = none;
}

abbrev busy : TriggerGraph
busy = graph (one_row "j" running_job) (one_row "at" running_attempt)

abbrev me : TriggerRuntime
me = record { lease_seconds = 60; lease_owner = "me" }

abbrev other : TriggerRuntime
other = record { lease_seconds = 60; lease_owner = "other" }

retry_delay_seconds_lem_example :
    (x : ℕ) × (y : ℕ) × (retry_delay_seconds nightly 2 ≡ pos x)
    × (retry_delay_seconds nightly 3 ≡ pos y)
    × (x ≤ y)
    × (y ≤ 300)
    × (30 ≤ 300 → retry_delay_seconds nightly 1 ≡ pos 30)
    × (1 ≤ 3 → 2 * y ≤ 300 → retry_delay_seconds nightly 4 ≡ pos (2 * y))
retry_delay_seconds_lem_example = retry_delay_seconds_lem nightly 30 300 2 3 refl refl (omega arith)

recover_expired_leases-clears_example :
    (done : List JobRecord) × (h : TriggerGraph) × (recover_expired_leases 11 (λ i. 20 + i) busy
      ≡ (ok done, h))
    × ((id : String) (job : JobRecord)
        → Records.get h.job_records id ≡ some job
        → is_expired 11 job ≡ false)
    × ((id : String)
        → any (λ j. j.id == id) (expired_leases 11 busy) ≡ false
        → Records.get h.job_records id ≡ Records.get busy.job_records id)
recover_expired_leases-clears_example =
    recover_expired_leases-clears 11 (λ i. 20 + i) busy (refl, tt)
      (unfold program in ((nightly, refl), tt))

heartbeat_job-extends_example :
    (kept : JobRecord) × (Records.get (heartbeat_job me "j" "at" 9 busy).job_records "j"
      ≡ some kept)
    × (kept.status ≡ JobStatus.running)
    × (is_expired 100 kept ≡ false)
heartbeat_job-extends_example =
    heartbeat_job-extends me busy running_job running_attempt 9 100 (unfold program in refl)
      (unfold program in refl) refl (omega arith)

heartbeat_job-refused_example : heartbeat_job other "j" "at" 9 busy ≡ busy
heartbeat_job-refused_example =
    heartbeat_job-refused other busy running_job running_attempt 9 (unfold program in refl)
      (unfold program in refl) (inr (inr (inl (λ e. cc))))

abbrev hash : Json → String
hash value = "hash"

abbrev iso : ℕ → String
iso now = "now"

abbrev readings : Readings
readings = record {
  attempt_id = "at2";
  now = 5;
  started = 5;
  beat = 6;
  extended = 6;
  closed = 7;
  retried = 7;
}

-- An action that fails.
abbrev fails : ActionRevision → JobRecord → Exec TriggerGraph SchedulerError Invocation
fails _ job g = (
  ok (record {
    id = "i";
    status = InvocationStatus.failed;
    error = none;
    completed_at = some 7;
    last_heartbeat_at = some 6;
    output = Json.null;
    metadata = [];
  }),
  g,
)

abbrev queued_job : JobRecord
queued_job = record running_job {
  status = JobStatus.scheduled;
  started_at = none;
  heartbeat_at = none;
  lease_owner = none;
  lease_expires_at = none;
  current_attempt_id = none;
}

abbrev queued : TriggerGraph
queued = graph (one_row "j" queued_job) no_rows

abbrev first_call : Result SchedulerError Admitted × TriggerGraph
first_call = admit hash iso "tr" [] (some "key") "j1" 4 idle

abbrev new_record : JobRecord
new_record = record queued_job {
  id = "j1";
  input = ("depth", text "full") ∷ [];
  idempotency_key = "key";
  scheduled_at = some 4;
  queued_at = some 4;
}

abbrev resolved : TriggerRevision × ApplicationRevision
resolved = (nightly, revision)

first_call-executes : first_call ≡ (ok (executes new_record nightly), first_call.1)
unfolding program
first_call-executes = refl

-- The job of the first call has run.
abbrev finished : JobRecord → JobRecord
finished job = record job { status = JobStatus.succeeded }

abbrev later_graph : TriggerGraph
later_graph = record first_call.1 { job_records = one_row "j1" (finished new_record) }

admit-again_example :
    admit hash iso "tr" (("depth", text "none") ∷ []) (some "key") "j2" 6 later_graph
    ≡ (ok (returns (finished new_record)), later_graph)
admit-again_example =
    admit-again hash iso "tr" "key" "j1" "j2" [] (("depth", text "none") ∷ []) 4 6 idle first_call.1
      later_graph (executes new_record nightly) finished resolved (λ e. cc) first_call-executes
      (λ job. refl) (unfold program in refl) (unfold program in refl)

admit-executes_example :
    ((Records.get idle.trigger_revisions "tr" ≡ some nightly)
      × (application_allows_triggers idle nightly ≡ true))
    × (job_by_idempotency_key idle "key" ≡ none)
    × ((is_skip_if_running nightly.overlap_policy && has_running_job idle "tr") ≡ false)
    × (Records.get first_call.1.job_records "j1" ≡ some new_record)
admit-executes_example =
    admit-executes hash iso "tr" idle "j1" (some "key") [] 4 first_call.1 new_record nightly
      first_call-executes

abbrev failed_call : Result SchedulerError JobRecord × TriggerGraph
failed_call = execute_job me fails readings "j" nightly false queued

abbrev waiting_job : JobRecord
waiting_job = record queued_job {
  status = JobStatus.retry_wait;
  started_at = some 5;
  heartbeat_at = some 6;
  error = some "action failed";
  invocation_id = some "i";
  current_attempt_id = some "at2";
  next_retry_at = some (7 + seconds 30);
}

failed_call-waits : failed_call ≡ (ok waiting_job, failed_call.1)
unfolding program
failed_call-waits = refl

execute_job-settles_example :
    ((Records.get failed_call.1.job_records "j" ≡ some waiting_job) × IsSettled waiting_job)
    ⊎ ((application_allows_triggers queued nightly ≡ false)
        × (failed_call.1 ≡ queued)
        × (Records.get queued.job_records "j" ≡ some waiting_job))
execute_job-settles_example =
    execute_job-settles me fails readings "j" nightly false queued failed_call.1 waiting_job
      failed_call-waits

abbrev due_job : JobRecord
due_job = record queued_job { status = JobStatus.retry_wait; next_retry_at = some 5 }

abbrev due_graph : TriggerGraph
due_graph = graph (one_row "j" due_job) no_rows

due_work-allowed_example :
    (due_graph ≡ due_graph)
    × (map (λ (p : JobRecord × TriggerRevision). p.0) ((due_job, nightly) ∷ [])
        ≡ filter (may_run due_graph) (due_retries 6 due_graph))
    × All (IsPaired due_graph) ((due_job, nightly) ∷ [])
due_work-allowed_example =
    due_work-allowed hash iso me fails 6 due_graph due_graph ((due_job, nightly) ∷ [])
      (unfold program in refl)
