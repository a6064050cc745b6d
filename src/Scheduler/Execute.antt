-- ===== src/Scheduler/Execute.antt =====
-- `_execute_job` of runtime/scheduler.py in its three units of work: `lease_job`, the second look at
-- the application, and `finish_job`. Between them, outside any unit of work, the action runs:
-- `actions_run` is the call `self.actions.run`, whose effect on the graph includes the heartbeats.
use n4x_core.Prelude.{ℕ, ◌+◌, String, Bool, true, false, Option, none, some, if◌then◌else◌}
use n4x_core.Prelude.Result.{Result, ok, raise}
use n4x_core.Prelude.Exec.{Exec, pure, lift, get_state, modify, transaction, ◌>>=◌, ◌>>◌}
use n4x_core.Graph.Records
use n4x_core.Kernel.Jobs.{
  TriggerRevision, ActionRevision, JobRecord, JobStatus, JobAttempt, JobAttemptStatus, Invocation,
  InvocationStatus,
}
use n4x_core.Scheduler.State.{
  TriggerGraph, TriggerRuntime, SchedulerError, get_item, application_allows_triggers,
}
use n4x_core.Scheduler.Jobs.{
  seconds, save_job, save_attempt, add_edge, fail_or_retry, defer_paused_job,
}

-- The readings of the clock in the first unit of work, and the new attempt's id.
pub record Readings : Type 0 where
  pub attempt_id : String
  pub now : ℕ
  pub started : ℕ
  pub beat : ℕ
  pub extended : ℕ
  pub closed : ℕ
  pub retried : ℕ

-- Whether `_execute_job` returns after its first unit of work, or goes on.
pub data Leased : Type 0 where
  returns : JobRecord → Leased
  goes_on : JobRecord → JobAttempt → ActionRevision → Leased

abbrev pub attempt_number : JobRecord → Bool → ℕ
attempt_number job retry = if retry then job.attempt + 1 else job.attempt

abbrev pub leased_attempt : TriggerRuntime → Readings → JobRecord → Bool → JobAttempt
leased_attempt rt r current retry = record {
  id = r.attempt_id;
  job_id = current.id;
  attempt = attempt_number current retry;
  status = JobAttemptStatus.leased;
  lease_owner = rt.lease_owner;
  lease_expires_at = r.now + seconds rt.lease_seconds;
  started_at = none;
  completed_at = none;
  heartbeat_at = some r.now;
  invocation_id = none;
  error = none;
}

abbrev pub leased_job : TriggerRuntime → Readings → JobRecord → Bool → JobRecord
leased_job rt r current retry = record current {
  status = JobStatus.leased;
  attempt = attempt_number current retry;
  lease_owner = some rt.lease_owner;
  lease_expires_at = some (r.now + seconds rt.lease_seconds);
  heartbeat_at = some r.now;
  current_attempt_id = some r.attempt_id;
  started_at = some r.now;
  error = none;
  next_retry_at = none;
}

abbrev pub running_attempt : TriggerRuntime → Readings → JobRecord → Bool → JobAttempt
running_attempt rt r current retry =
    let attempt : JobAttempt = leased_attempt rt r current retry in
    record attempt {
      status = JobAttemptStatus.running;
      started_at = some r.started;
      heartbeat_at = some r.beat;
    }

abbrev pub running_job : TriggerRuntime → Readings → JobRecord → Bool → JobRecord
running_job rt r current retry =
    let leased : JobRecord = leased_job rt r current retry in
    record leased {
      status = JobStatus.running;
      heartbeat_at = some r.beat;
      lease_expires_at = some (r.extended + seconds rt.lease_seconds);
    }

abbrev pub gone_message : String
gone_message = "job application revision is gone"

-- What follows the lease, by whether the pinned revision is still there.
abbrev pub check_pinned :
    Bool
    → JobRecord
    → JobAttempt
    → TriggerRevision
    → ActionRevision
    → Readings
    → Exec TriggerGraph SchedulerError Leased
check_pinned true job attempt t action r = pure (goes_on job attempt action)
check_pinned false job attempt t action r = do
  failed ←
      fail_or_retry job t gone_message JobAttemptStatus.failed (some attempt) r.closed r.retried
  pure (returns failed)

abbrev pub is_found {ℓ} : {A : Type ℓ} → Option A → Bool
is_found none = false
is_found (some a) = true

unfoldable pub take_lease :
    TriggerRuntime
    → Readings
    → JobRecord
    → TriggerRevision
    → Bool
    → Exec TriggerGraph SchedulerError Leased
take_lease rt r current t retry = do
  let job = running_job rt r current retry
  let attempt = running_attempt rt r current retry
  modify (save_attempt (leased_attempt rt r current retry))
  modify (save_job (leased_job rt r current retry))
  modify (add_edge "JobRecord" current.id "HAS_ATTEMPT" "JobAttempt" r.attempt_id)
  modify (add_edge "JobRecord" current.id "CURRENT_ATTEMPT" "JobAttempt" r.attempt_id)
  modify (save_attempt attempt)
  modify (save_job job)
  g ← get_state
  action ← lift (get_item g.action_revisions current.action_revision_id)
  application ← lift (get_item g.applications current.application_id)
  check_pinned (is_found (Records.get g.revisions current.application_revision_id)) job attempt t
      action r

unfoldable pub lease_job :
    TriggerRuntime
    → Readings
    → String
    → TriggerRevision
    → Bool
    → Exec TriggerGraph SchedulerError Leased
lease_job rt r job_id t retry = transaction (do
  g ← get_state
  current ← lift (get_item g.job_records job_id)
  if application_allows_triggers g t
      then take_lease rt r current t retry
      else pure (returns current))

abbrev pub succeeded : InvocationStatus → Bool
succeeded InvocationStatus.succeeded = true
succeeded _ = false

abbrev pub completed_attempt : JobAttempt → Invocation → JobAttempt
completed_attempt attempt i = record attempt {
  status = JobAttemptStatus.succeeded;
  invocation_id = some i.id;
  completed_at = i.completed_at;
  heartbeat_at = i.last_heartbeat_at;
}

abbrev pub completed_job : JobRecord → Invocation → JobRecord
completed_job job i = record job {
  status = JobStatus.succeeded;
  invocation_id = some i.id;
  completed_at = i.completed_at;
  heartbeat_at = i.last_heartbeat_at;
  lease_owner = none;
  lease_expires_at = none;
  error = none;
}

-- `invocation.error or "action failed"`
abbrev pub failure_message : Option String → String
failure_message none = "action failed"
failure_message (some String.[]) = "action failed"
failure_message (some (String.◌∷◌ c s)) = String.◌∷◌ c s

abbrev pub complete :
    JobRecord → JobAttempt → Invocation → Exec TriggerGraph SchedulerError JobRecord
complete job attempt i = do
  modify (save_attempt (completed_attempt attempt i))
  modify (save_job (completed_job job i))
  pure (completed_job job i)

unfoldable pub finish_job :
    JobRecord
    → JobAttempt
    → TriggerRevision
    → Invocation
    → ℕ
    → ℕ
    → Exec TriggerGraph SchedulerError JobRecord
finish_job job attempt t i closed retried = transaction (do
  modify (add_edge "JobRecord" job.id "INVOKED" "Invocation" i.id)
  modify (add_edge "JobAttempt" attempt.id "INVOKED" "Invocation" i.id)
  if succeeded i.status
      then complete job attempt i
      else fail_or_retry (record job { invocation_id = some i.id }) t (failure_message i.error)
          JobAttemptStatus.failed
          (some (record attempt { invocation_id = some i.id; heartbeat_at = i.last_heartbeat_at }))
          closed retried)

module _ (rt : TriggerRuntime)
    (actions_run : ActionRevision → JobRecord → Exec TriggerGraph SchedulerError Invocation) where
  abbrev pub run_and_finish :
      JobRecord
      → JobAttempt
      → TriggerRevision
      → ActionRevision
      → Readings
      → Exec TriggerGraph SchedulerError JobRecord
  run_and_finish job attempt t action r = do
    invocation ← actions_run action job
    finish_job job attempt t invocation r.closed r.retried

  -- The rest of `_execute_job`, by the outcome of its first unit of work.
  abbrev pub after_lease :
      Readings
      → TriggerRevision
      → Result SchedulerError Leased × TriggerGraph
      → Result SchedulerError JobRecord × TriggerGraph
  after_lease r t (raise e, h) = (raise e, h)
  after_lease r t (ok (returns job), h) = (ok job, h)
  after_lease r t (ok (goes_on job attempt action), h) =
      if application_allows_triggers h t
      then run_and_finish job attempt t action r h
      else transaction (defer_paused_job job attempt r.closed) h

  unfoldable pub execute_job :
      Readings → String → TriggerRevision → Bool → Exec TriggerGraph SchedulerError JobRecord
  execute_job r job_id t retry g = after_lease r t (lease_job rt r job_id t retry g)
