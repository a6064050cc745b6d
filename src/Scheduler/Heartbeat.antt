-- ===== src/Scheduler/Heartbeat.antt =====
-- Heartbeats: who may extend a lease, and for how long that keeps the job.
use text.Mathlib.TextPositions.{eq_refl}
use n4x_core.Prelude.{
  ℕ, String, ◌==◌, ◌+◌, ◌<◌, ◌≡◌, ◌≢◌, refl, ap, ◌⊎◌, inl, inr, Bool, true, false, ◌&&◌, Option,
  none, some, eq_iff, Bool-cases, arith,
}
use n4x_core.Graph.Records
use n4x_core.Graph.Records.{get-save}
use n4x_core.Kernel.Jobs.{JobRecord, JobStatus, JobAttempt, JobAttemptStatus}
use n4x_core.Scheduler.State.{TriggerGraph, TriggerRuntime, is_expired, is_running}
use n4x_core.Scheduler.Jobs.{seconds, attempt_runs, owned_by, can_beat, heartbeat_job}

-- For a job and an attempt that are in the graph, both running and leased by the runtime: after the
-- heartbeat the job has the status it had, and its lease has not expired at any time before the lease
-- length is over.
pub heartbeat_job-extends :
    (rt : TriggerRuntime) (g : TriggerGraph) (job : JobRecord) (attempt : JobAttempt)
    (now later : ℕ)
    → Records.get g.job_records job.id ≡ some job
    → Records.get g.job_attempts attempt.id ≡ some attempt
    → can_beat rt job attempt ≡ true
    → later < now + seconds rt.lease_seconds
    → (kept : JobRecord) × (Records.get
          (heartbeat_job rt job.id attempt.id now g).job_records
          job.id
        ≡ some kept)
      × (kept.status ≡ job.status)
      × (is_expired later kept ≡ false)
unfolding heartbeat_job
heartbeat_job-extends rt g job attempt now later found found_attempt may early =
    rw (found, found_attempt, may)
      (
        record job {
          heartbeat_at = some now;
          lease_expires_at = some (now + seconds rt.lease_seconds);
        },
        (rw get-save (simp eq_refl)),
        refl,
        (ground arith),
      )

can_beat-true :
    (rt : TriggerRuntime) (job : JobRecord) (attempt : JobAttempt)
    → can_beat rt job attempt ≡ true
    → (job.status ≡ JobStatus.running)
      × (attempt.status ≡ JobAttemptStatus.running)
      × (job.lease_owner ≡ some rt.lease_owner)
      × (attempt.lease_owner ≡ rt.lease_owner)
can_beat-true rt job attempt h =
    let (a, b, c, d) =
      parts (is_running job.status) (attempt_runs attempt.status)
        (owned_by job.lease_owner rt.lease_owner) (attempt.lease_owner == rt.lease_owner) h in
    (
      running job.status a,
      attempt_running attempt.status b,
      owner job.lease_owner c,
      (eq_iff attempt.lease_owner rt.lease_owner).0 d,
    )
  where
    parts :
        (a b c d : Bool)
        → (a && b && c && d) ≡ true
        → (a ≡ true) × (b ≡ true) × (c ≡ true) × (d ≡ true)
    parts a b c d e = ground arith

    running : (s : JobStatus) → is_running s ≡ true → s ≡ JobStatus.running
    running s e = ground arith

    attempt_running : (s : JobAttemptStatus) → attempt_runs s ≡ true → s ≡ JobAttemptStatus.running
    attempt_running s e = ground arith

    owner : (o : Option String) → owned_by o rt.lease_owner ≡ true → o ≡ some rt.lease_owner
    owner none e = cc
    owner (some o) e = ap some ((eq_iff o rt.lease_owner).0 e)

-- A heartbeat for a job or an attempt in the graph that is not running, or whose lease has another
-- owner or none, changes nothing.
pub heartbeat_job-refused :
    (rt : TriggerRuntime) (g : TriggerGraph) (job : JobRecord) (attempt : JobAttempt) (now : ℕ)
    → Records.get g.job_records job.id ≡ some job
    → Records.get g.job_attempts attempt.id ≡ some attempt
    → (job.status ≢ JobStatus.running)
      ⊎ (attempt.status ≢ JobAttemptStatus.running)
      ⊎ (job.lease_owner ≢ some rt.lease_owner)
      ⊎ (attempt.lease_owner ≢ rt.lease_owner)
    → heartbeat_job rt job.id attempt.id now g ≡ g
unfolding heartbeat_job
heartbeat_job-refused rt g job attempt now found found_attempt other =
    elim (Bool-cases (can_beat rt job attempt)) [
      | inr may_not ↦ rw (found, found_attempt, may_not) refl
      | inl may ↦ absurd (clash (can_beat-true rt job attempt may) other)
    ]
  where
    clash :
        (job.status ≡ JobStatus.running)
          × (attempt.status ≡ JobAttemptStatus.running)
          × (job.lease_owner ≡ some rt.lease_owner)
          × (attempt.lease_owner ≡ rt.lease_owner)
        → (job.status ≢ JobStatus.running)
          ⊎ (attempt.status ≢ JobAttemptStatus.running)
          ⊎ (job.lease_owner ≢ some rt.lease_owner)
          ⊎ (attempt.lease_owner ≢ rt.lease_owner)
        → ⊥
    clash (p, q, o, r) (inl n) = n p
    clash (p, q, o, r) (inr (inl n)) = n q
    clash (p, q, o, r) (inr (inr (inl n))) = n o
    clash (p, q, o, r) (inr (inr (inr n))) = n r
