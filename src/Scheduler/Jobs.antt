-- ===== src/Scheduler/Jobs.antt =====
-- The writes of one job: `_record_job`, `_fail_or_retry`, `_defer_paused_job`, `_heartbeat_job`,
-- `_retry_delay_seconds` and `recover_expired_leases` of runtime/scheduler.py. Each reading of the
-- clock is an argument.
use n4x_core.Prelude.{
  ℕ, ◌+◌, ◌-◌, ◌*◌, ◌^◌, suc, String, Bool, true, false, ◌&&◌, Option, none, some, List, [], ◌∷◌,
  ltb, ◌==◌, if◌then◌else◌,
}
use n4x_core.Prelude.Integers.{ℤ, pos, negsuc, times, min_ℤ}
use n4x_core.Prelude.Exec.{Exec, pure, lift, get_state, modify, transaction, ◌>>=◌, ◌>>◌}
use n4x_core.Graph.Records
use n4x_core.Graph.Edges.{node_ref, create_edge}
use n4x_core.Kernel.Json.{JsonDict}
use n4x_core.Kernel.Jobs.{
  TriggerRevision, ActionRevision, JobRecord, JobStatus, JobAttempt, JobAttemptStatus,
}
use n4x_core.Scheduler.State.{
  TriggerGraph, TriggerRuntime, SchedulerError, get_item, action_revision, expired_leases,
  is_running,
}

abbrev pub seconds : ℕ → ℕ
seconds n = n * 1_000_000

abbrev pub or_default : Option ℤ → ℤ → ℤ
or_default none d = d
or_default (some n) d = n

-- `max(0, attempt - 1)` is the truncated subtraction.
unfoldable pub retry_delay_seconds : TriggerRevision → ℕ → ℤ
retry_delay_seconds t attempt =
    min_ℤ (or_default t.retry_max_seconds (pos 300))
      (times (or_default t.retry_base_seconds (pos 30)) (2 ^ (attempt - 1)))

-- now + timedelta(seconds=delay), for a delay that does not reach back before the first time.
abbrev pub after : ℕ → ℤ → ℕ
after now (pos delay) = now + seconds delay
after now (negsuc delay) = now - seconds (suc delay)

abbrev pub save_job : JobRecord → TriggerGraph → TriggerGraph
save_job job g = record g { job_records = Records.save g.job_records job.id job }

abbrev pub save_attempt : JobAttempt → TriggerGraph → TriggerGraph
save_attempt a g = record g { job_attempts = Records.save g.job_attempts a.id a }

abbrev pub add_edge : String → String → String → String → String → TriggerGraph → TriggerGraph
add_edge from_label from_id edge_type to_label to_id g = record g {
  edges = create_edge (node_ref from_label from_id) edge_type (node_ref to_label to_id) g.edges;
}

-- The fields of a new job that its callers choose.
pub record NewJob : Type 0 where
  pub id : String
  pub application_id : String
  pub input_value : JsonDict
  pub idempotency_key : String
  pub status : JobStatus
  pub scheduled_at : Option ℕ
  pub queued_at : Option ℕ
  pub completed_at : Option ℕ
  pub error : Option String
  pub application_revision_id : String

abbrev pub new_job : NewJob → TriggerRevision → ActionRevision → JobRecord
new_job n t action = record {
  id = n.id;
  application_id = n.application_id;
  application_revision_id = n.application_revision_id;
  trigger_revision_id = t.id;
  action_revision_id = action.id;
  status = n.status;
  input = n.input_value;
  scheduled_at = n.scheduled_at;
  queued_at = n.queued_at;
  started_at = none;
  completed_at = n.completed_at;
  heartbeat_at = none;
  attempt = 1;
  max_attempts = t.max_attempts;
  idempotency_key = n.idempotency_key;
  invocation_id = none;
  error = n.error;
  next_retry_at = none;
  lease_owner = none;
  lease_expires_at = none;
  current_attempt_id = none;
}

-- `_record_job` once it has found the action's revision.
abbrev pub record_new :
    NewJob → TriggerRevision → ActionRevision → Exec TriggerGraph SchedulerError JobRecord
record_new n t action = do
  let job = new_job n t action
  modify (save_job job)
  modify (add_edge "Application" n.application_id "HAS_JOB" "JobRecord" job.id)
  modify (add_edge "TriggerRevision" t.id "HAS_JOB" "JobRecord" job.id)
  pure job

unfoldable pub record_job : NewJob → TriggerRevision → Exec TriggerGraph SchedulerError JobRecord
record_job n t = do
  g ← get_state
  action ← lift (action_revision g n.application_revision_id t.action_id)
  record_new n t action

abbrev pub find_attempt : TriggerGraph → Option JobAttempt → Option String → Option JobAttempt
find_attempt g (some a) id = some a
find_attempt g none none = none
find_attempt g none (some id) = Records.get g.job_attempts id

abbrev pub close_attempt :
    Option JobAttempt → JobAttemptStatus → ℕ → String → TriggerGraph → TriggerGraph
close_attempt none status now error g = g
close_attempt (some a) status now error g =
    save_attempt (record a { status = status; completed_at = some now; error = some error }) g

abbrev pub waiting : JobRecord → TriggerRevision → String → ℕ → JobRecord
waiting job t error now = record job {
  status = JobStatus.retry_wait;
  error = some error;
  lease_owner = none;
  lease_expires_at = none;
  next_retry_at = some (after now (retry_delay_seconds t job.attempt));
}

abbrev pub gave_up : JobRecord → String → ℕ → JobRecord
gave_up job error now = record job {
  status = JobStatus.failed;
  error = some error;
  completed_at = some now;
  lease_owner = none;
  lease_expires_at = none;
  next_retry_at = none;
}

-- The record that `_fail_or_retry` saves and returns.
unfoldable pub failed_or_waiting : JobRecord → TriggerRevision → String → ℕ → JobRecord
failed_or_waiting job t error now =
    if ltb job.attempt job.max_attempts then waiting job t error now else gave_up job error now

-- `closed` and `now` are the clock at the attempt's end and at the job's.
unfoldable pub fail_or_retry :
    JobRecord
    → TriggerRevision
    → String
    → JobAttemptStatus
    → Option JobAttempt
    → ℕ
    → ℕ
    → Exec TriggerGraph SchedulerError JobRecord
fail_or_retry job t error status attempt closed now = do
  g ← get_state
  modify (close_attempt (find_attempt g attempt job.current_attempt_id) status closed error)
  modify (save_job (failed_or_waiting job t error now))
  pure (failed_or_waiting job t error now)

abbrev pub paused_message : String
paused_message = "application triggers paused before execution"

abbrev pub deferred : JobRecord → ℕ → JobRecord
deferred job now = record job {
  status = JobStatus.retry_wait;
  lease_owner = none;
  lease_expires_at = none;
  next_retry_at = some now;
  error = some paused_message;
}

unfoldable pub defer_paused_job :
    JobRecord → JobAttempt → ℕ → Exec TriggerGraph SchedulerError JobRecord
defer_paused_job job attempt now = do
  modify (
      save_attempt (record attempt {
        status = JobAttemptStatus.expired;
        completed_at = some now;
        error = some paused_message;
      }))
  modify (save_job (deferred job now))
  pure (deferred job now)

abbrev pub attempt_runs : JobAttemptStatus → Bool
attempt_runs JobAttemptStatus.running = true
attempt_runs _ = false

abbrev pub owned_by : Option String → String → Bool
owned_by none owner = false
owned_by (some o) owner = o == owner

abbrev pub can_beat : TriggerRuntime → JobRecord → JobAttempt → Bool
can_beat rt job attempt =
    is_running job.status
    && attempt_runs attempt.status
    && owned_by job.lease_owner rt.lease_owner
    && attempt.lease_owner == rt.lease_owner

abbrev pub beat :
    TriggerRuntime → ℕ → Option JobRecord → Option JobAttempt → TriggerGraph → TriggerGraph
beat rt now none a g = g
beat rt now (some job) none g = g
beat rt now (some job) (some a) g =
    let expires : ℕ = now + seconds rt.lease_seconds in
    if can_beat rt job a
    then save_attempt (record a { heartbeat_at = some now; lease_expires_at = expires })
        (save_job (record job { heartbeat_at = some now; lease_expires_at = some expires }) g)
    else g

unfoldable pub heartbeat_job : TriggerRuntime → String → String → ℕ → TriggerGraph → TriggerGraph
heartbeat_job rt job_id attempt_id now g =
    beat rt now (Records.get g.job_records job_id) (Records.get g.job_attempts attempt_id) g

abbrev pub expired_message : String
expired_message = "lease expired before heartbeat"

-- The loop of `recover_expired_leases`; `clock` gives the two readings of each round.
unfoldable pub recover_jobs :
    List JobRecord → (ℕ → ℕ) → ℕ → Exec TriggerGraph SchedulerError (List JobRecord)
recover_jobs [] clock i = pure []
recover_jobs (job ∷ jobs) clock i = do
  g ← get_state
  t ← lift (get_item g.trigger_revisions job.trigger_revision_id)
  done ← fail_or_retry job t expired_message JobAttemptStatus.expired none (clock i) (clock (i + 1))
  rest ← recover_jobs jobs clock (i + 2)
  pure (done ∷ rest)

unfoldable pub recover_expired_leases :
    ℕ → (ℕ → ℕ) → Exec TriggerGraph SchedulerError (List JobRecord)
recover_expired_leases now clock =
    transaction (do g ← get_state; recover_jobs (expired_leases now g) clock 0)
