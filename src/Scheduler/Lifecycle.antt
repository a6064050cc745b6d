-- ===== src/Scheduler/Lifecycle.antt =====
-- What becomes of a job that is executed.
use text.Mathlib.TextPositions.{eq_refl}
use n4x_core.Prelude.{
  ℕ, String, ◌≡◌, refl, subst, ◌∙◌, ◌⊎◌, inl, inr, Bool, true, false, Option, none, some, arith,
  if◌then◌else◌,
}
use n4x_core.Prelude.Result.{Result, ok, raise}
use n4x_core.Prelude.Exec.{Exec, settle, continue, transaction}
use n4x_core.Graph.Records
use n4x_core.Graph.Records.{get-save}
use n4x_core.Kernel.Jobs.{
  TriggerRevision, ActionRevision, JobRecord, JobAttempt, JobAttemptStatus, Invocation,
}
use n4x_core.Scheduler.State.{
  TriggerGraph, TriggerRuntime, SchedulerError, get_item, application_allows_triggers,
  is_leased_or_running,
}
use n4x_core.Scheduler.Jobs.{failed_or_waiting, fail_or_retry, defer_paused_job, deferred}
use n4x_core.Scheduler.Execute.{
  Readings, Leased, returns, goes_on, take_lease, lease_job, finish_job, execute_job, after_lease,
  succeeded, completed_job, check_pinned, gone_message,
}
use n4x_core.Scheduler.Recovery.{job_records-fail_or_retry}

-- The job is over or waits for a retry, and nobody holds its lease.
abbrev pub IsSettled : JobRecord → Type 0
IsSettled job =
    (is_leased_or_running job.status ≡ false)
    × (job.lease_owner ≡ none)
    × (job.lease_expires_at ≡ none)

-- The graph holds the job under its id, settled.
abbrev Holds : TriggerGraph → JobRecord → Type 0
Holds h job = (Records.get h.job_records job.id ≡ some job) × IsSettled job

failed_or_waiting-IsSettled :
    (job : JobRecord) (t : TriggerRevision) (error : String) (now : ℕ)
    → IsSettled (failed_or_waiting job t error now)
      × ((failed_or_waiting job t error now).id ≡ job.id)
unfolding failed_or_waiting
failed_or_waiting-IsSettled job t error now = ground arith

abbrev Answer : Type 0
Answer = Result SchedulerError JobRecord × TriggerGraph

-- A call that returns a job has settled it.
abbrev Settles : Answer → Type 0
Settles (ok job, h) = Holds h job
Settles (raise e, h) = Unit

settle-Settles : (s : TriggerGraph) (x : Answer) → Settles x → Settles (settle s x)
settle-Settles s (ok job, h) k = k
settle-Settles s (raise e, h) k = tt

continue-Settles :
    {A : Type 0} (x : Result SchedulerError A × TriggerGraph)
    (f : A → Exec TriggerGraph SchedulerError JobRecord)
    → ((a : A) (t : TriggerGraph) → Settles (f a t))
    → Settles (continue x f)
continue-Settles (ok a, t) f k = k a t
continue-Settles (raise e, t) f k = tt

choose-Settles :
    (b : Bool) (m n : Exec TriggerGraph SchedulerError JobRecord) (s : TriggerGraph)
    → Settles (m s)
    → Settles (n s)
    → Settles ((if b then m else n) s)
choose-Settles true m n s km kn = km
choose-Settles false m n s km kn = kn

choose_answer-Settles :
    (b : Bool) (x y : Answer) → Settles x → Settles y → Settles (if b then x else y)
choose_answer-Settles true x y kx ky = kx
choose_answer-Settles false x y kx ky = ky

fail_or_retry-Settles :
    (job : JobRecord) (t : TriggerRevision) (error : String) (status : JobAttemptStatus)
    (attempt : Option JobAttempt) (closed now : ℕ) (g : TriggerGraph)
    → Settles (fail_or_retry job t error status attempt closed now g)
unfolding fail_or_retry
fail_or_retry-Settles job t error status attempt closed now g = (
  job_records-fail_or_retry job t error status attempt closed now g
        (failed_or_waiting job t error now).id
      ∙ simp ((failed_or_waiting-IsSettled job t error now).1, eq_refl),
  (failed_or_waiting-IsSettled job t error now).0,
)

finish_job-Settles :
    (job : JobRecord) (attempt : JobAttempt) (t : TriggerRevision) (i : Invocation)
    (closed retried : ℕ) (g : TriggerGraph)
    → Settles (finish_job job attempt t i closed retried g)
unfolding finish_job
finish_job-Settles job attempt t i closed retried g = settle-Settles g _ (
    choose-Settles (succeeded i.status) _ _ _ (save_settled, (refl, refl, refl))
      (fail_or_retry-Settles (record job { invocation_id = some i.id }) t _ _ _ closed retried _))
  where
    save_settled :
        Records.get (Records.save g.job_records job.id (completed_job job i)) job.id
        ≡ some (completed_job job i)
    save_settled = rw get-save (simp eq_refl)

defer_paused_job-Settles :
    (job : JobRecord) (attempt : JobAttempt) (now : ℕ) (g : TriggerGraph)
    → Settles (transaction (defer_paused_job job attempt now) g)
unfolding defer_paused_job
defer_paused_job-Settles job attempt now g = (saved, (refl, refl, refl))
  where
    saved :
        Records.get (Records.save g.job_records job.id (deferred job now)) job.id
        ≡ some (deferred job now)
    saved = rw get-save (simp eq_refl)

-- What `_execute_job` answers: a settled job that the graph holds, or, if triggers are not allowed, the
-- job as it was, in the graph as it was.
abbrev Answers : String → TriggerRevision → TriggerGraph → Answer → Type 0
Answers job_id t g (ok job, h) =
    Holds h job
    ⊎ ((application_allows_triggers g t ≡ false)
        × (h ≡ g)
        × (Records.get g.job_records job_id ≡ some job))
Answers job_id t g (raise e, h) = Unit

Settles-Answers :
    (job_id : String) (t : TriggerRevision) (g : TriggerGraph) (x : Answer)
    → Settles x
    → Answers job_id t g x
Settles-Answers job_id t g (ok job, h) k = inl k
Settles-Answers job_id t g (raise e, h) k = tt

-- The same of its first unit of work, when it returns after that.
LeaseAnswers :
    String → TriggerRevision → TriggerGraph → Result SchedulerError Leased × TriggerGraph → Type 0
LeaseAnswers job_id t g (ok (returns job), h) =
    Holds h job
    ⊎ ((application_allows_triggers g t ≡ false)
        × (h ≡ g)
        × (Records.get g.job_records job_id ≡ some job))
LeaseAnswers job_id t g (ok (goes_on job attempt action), h) = Unit
LeaseAnswers job_id t g (raise e, h) = Unit

module _ (job_id : String) (asked : TriggerRevision) (g : TriggerGraph) where
  settle-LeaseAnswers :
      (s : TriggerGraph) (x : Result SchedulerError Leased × TriggerGraph)
      → LeaseAnswers job_id asked g x
      → LeaseAnswers job_id asked g (settle s x)
  unfolding LeaseAnswers
  settle-LeaseAnswers s (ok (returns job), h) k = k
  settle-LeaseAnswers s (ok (goes_on job attempt action), h) k = tt
  settle-LeaseAnswers s (raise e, h) k = tt

  continue-LeaseAnswers :
      {A : Type 0} (r : Result SchedulerError A) (t : TriggerGraph)
      (f : A → Exec TriggerGraph SchedulerError Leased)
      → ((a : A) → r ≡ ok a → LeaseAnswers job_id asked g (f a t))
      → LeaseAnswers job_id asked g (continue (r, t) f)
  unfolding LeaseAnswers
  continue-LeaseAnswers (ok a) t f k = k a refl
  continue-LeaseAnswers (raise e) t f k = tt

  choose-LeaseAnswers :
      (b : Bool) (m n : Exec TriggerGraph SchedulerError Leased) (s : TriggerGraph)
      → LeaseAnswers job_id asked g (m s)
      → (b ≡ false → LeaseAnswers job_id asked g (n s))
      → LeaseAnswers job_id asked g ((if b then m else n) s)
  unfolding LeaseAnswers
  choose-LeaseAnswers true m n s km kn = km
  choose-LeaseAnswers false m n s km kn = kn refl

  check_pinned-LeaseAnswers :
      (b : Bool) (job : JobRecord) (attempt : JobAttempt) (t : TriggerRevision)
      (action : ActionRevision) (r : Readings) (s : TriggerGraph)
      → LeaseAnswers job_id asked g (check_pinned b job attempt t action r s)
  unfolding LeaseAnswers
  check_pinned-LeaseAnswers true job attempt t action r s = tt
  check_pinned-LeaseAnswers false job attempt t action r s =
      failed
        (fail_or_retry job t gone_message JobAttemptStatus.failed (some attempt) r.closed r.retried
          s)
        (fail_or_retry-Settles job t gone_message JobAttemptStatus.failed (some attempt) r.closed
          r.retried s)
    where
      failed :
          (x : Answer)
          → Settles x
          → LeaseAnswers job_id asked g (continue x (λ done u. (ok (returns done), u)))
      failed (ok done, h) k = inl k
      failed (raise e, h) k = tt

  returns-LeaseAnswers :
      (current : JobRecord)
      → get_item g.job_records job_id ≡ ok current
      → application_allows_triggers g asked ≡ false
      → LeaseAnswers job_id asked g (ok (returns current), g)
  unfolding LeaseAnswers get_item
  returns-LeaseAnswers current found e = inr (e, refl, ground arith)

  take_lease-LeaseAnswers :
      (rt : TriggerRuntime) (r : Readings) (current : JobRecord) (t : TriggerRevision)
      (retry : Bool)
      → LeaseAnswers job_id asked g (take_lease rt r current t retry g)
  unfolding take_lease
  take_lease-LeaseAnswers rt r current t retry =
      continue-LeaseAnswers (get_item g.action_revisions current.action_revision_id) _ _ λ action e.
        continue-LeaseAnswers (get_item g.applications current.application_id) _ _
          λ application e'. check_pinned-LeaseAnswers _ _ _ t action r _

  lease_job-LeaseAnswers :
      (rt : TriggerRuntime) (r : Readings) (retry : Bool)
      → LeaseAnswers job_id asked g (lease_job rt r job_id asked retry g)
  unfolding lease_job
  lease_job-LeaseAnswers rt r retry = settle-LeaseAnswers g _ (
      continue-LeaseAnswers (get_item g.job_records job_id) g _ λ current found.
        choose-LeaseAnswers (application_allows_triggers g asked)
          (take_lease rt r current asked retry) (λ s. (ok (returns current), s)) g
          (take_lease-LeaseAnswers rt r current asked retry) (returns-LeaseAnswers current found))

module _ (rt : TriggerRuntime)
    (actions_run : ActionRevision → JobRecord → Exec TriggerGraph SchedulerError Invocation) where
  after_lease-Answers :
      (r : Readings) (job_id : String) (t : TriggerRevision) (g : TriggerGraph)
      (x : Result SchedulerError Leased × TriggerGraph)
      → LeaseAnswers job_id t g x
      → Answers job_id t g (after_lease rt actions_run r t x)
  unfolding LeaseAnswers
  after_lease-Answers r job_id t g (raise e, h) k = tt
  after_lease-Answers r job_id t g (ok (returns job), h) k = k
  after_lease-Answers r job_id t g (ok (goes_on job attempt action), h) k =
      Settles-Answers job_id t g _ (
        choose_answer-Settles (application_allows_triggers h t) _ _
          (continue-Settles (actions_run action job h) _
            (λ i s. finish_job-Settles job attempt t i r.closed r.retried s))
          (defer_paused_job-Settles job attempt r.closed h))

  -- Whatever the action does, a job that `_execute_job` returns is either in the graph under its
  -- id, no longer leased or running, with no lease left; or the application does not allow its
  -- triggers, and the job and the whole graph are as they were.
  pub execute_job-settles :
      (r : Readings) (job_id : String) (t : TriggerRevision) (retry : Bool) (g h : TriggerGraph)
      (done : JobRecord)
      → execute_job rt actions_run r job_id t retry g ≡ (ok done, h)
      → ((Records.get h.job_records done.id ≡ some done) × IsSettled done)
        ⊎ ((application_allows_triggers g t ≡ false)
            × (h ≡ g)
            × (Records.get g.job_records job_id ≡ some done))
  unfolding execute_job
  execute_job-settles r job_id t retry g h done e = subst (Answers job_id t g) e (
      after_lease-Answers r job_id t g (lease_job rt r job_id t retry g)
        (lease_job-LeaseAnswers job_id t g rt r retry))
