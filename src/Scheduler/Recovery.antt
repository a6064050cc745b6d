-- ===== src/Scheduler/Recovery.antt =====
-- The jobs and leases after `recover_expired_leases` (runtime/scheduler.py).
use n4x_core.Prelude.{
  ℕ, ◌+◌, String, ◌≡◌, refl, ap, sym, subst, ◌∙◌, All, All-map, Bool-cases, inl, inr, true, false,
  Option, none, some, List, [], ◌∷◌, arith, ◌==◌, if◌then◌else◌, any,
}
use n4x_core.Prelude.Result.{Result, ok, raise}
use n4x_core.Prelude.Exec.{Exec, continue, continue-eq-ok}
use n4x_core.Graph.Records
use n4x_core.Graph.Records.{get-save, get-any, IsKeyed}
use n4x_core.Kernel.Jobs.{TriggerRevision, JobRecord, JobAttempt, JobAttemptStatus}
use n4x_core.Scheduler.State.{TriggerGraph, SchedulerError, get_item, is_expired, expired_leases}
use n4x_core.Scheduler.Jobs.{
  failed_or_waiting, fail_or_retry, recover_jobs, recover_expired_leases, expired_message,
  find_attempt, close_attempt,
}

-- A job that failed or waits holds no lease.
failed_or_waiting-not_expired :
    (job : JobRecord) (t : TriggerRevision) (error : String) (now later : ℕ)
    → (is_expired later (failed_or_waiting job t error now) ≡ false)
      × ((failed_or_waiting job t error now).id ≡ job.id)
unfolding failed_or_waiting
failed_or_waiting-not_expired job t error now later = ground arith

job_records-close_attempt :
    (o : Option JobAttempt) (status : JobAttemptStatus) (now : ℕ) (error : String)
    (g : TriggerGraph)
    → (close_attempt o status now error g).job_records ≡ g.job_records
job_records-close_attempt none status now error g = refl
job_records-close_attempt (some a) status now error g = refl

trigger_revisions-close_attempt :
    (o : Option JobAttempt) (status : JobAttemptStatus) (now : ℕ) (error : String)
    (g : TriggerGraph)
    → (close_attempt o status now error g).trigger_revisions ≡ g.trigger_revisions
trigger_revisions-close_attempt none status now error g = refl
trigger_revisions-close_attempt (some a) status now error g = refl

-- The job that `_fail_or_retry` returns is the one that it saved; it touches no other job.
pub job_records-fail_or_retry :
    (job : JobRecord) (t : TriggerRevision) (error : String) (status : JobAttemptStatus)
    (attempt : Option JobAttempt) (closed now : ℕ) (g : TriggerGraph) (id : String)
    → Records.get (fail_or_retry job t error status attempt closed now g).1.job_records id ≡ (
        if job.id == id
        then some (failed_or_waiting job t error now)
        else Records.get g.job_records id)
unfolding fail_or_retry
job_records-fail_or_retry job t error status attempt closed now g id =
    let a = find_attempt g attempt job.current_attempt_id in
    rw (
      get-save,
      job_records-close_attempt a status closed error g,
      (failed_or_waiting-not_expired job t error now 0).1,
    )

-- What the loop did to the job of one id, by whether the job was in its list.
abbrev Recovered : ℕ → List JobRecord → String → TriggerGraph → TriggerGraph → Type 0
Recovered later jobs id g h =
    (any (λ j. j.id == id) jobs ≡ false
      → Records.get h.job_records id ≡ Records.get g.job_records id)
    × (any (λ j. j.id == id) jobs ≡ true
        → (job : JobRecord) → Records.get h.job_records id ≡ some job
        → is_expired later job ≡ false)

-- One round of the loop, the rest of it given.
round-Recovered :
    (job : JobRecord) (jobs : List JobRecord) (later : ℕ) (id : String) (g h : TriggerGraph)
    (t : TriggerRevision) (closed now : ℕ)
    → Recovered later jobs id
        (fail_or_retry job t expired_message JobAttemptStatus.expired none closed now g).1
        h
    → Recovered later (job ∷ jobs) id g h
round-Recovered job jobs later id g h t closed now (kept, fixed) =
    let saved =
      job_records-fail_or_retry job t expired_message JobAttemptStatus.expired none closed now g
        id in
    let clear = failed_or_waiting-not_expired job t expired_message now later in
    elim (Bool-cases (job.id == id)) [
      | inl same ↦ elim (Bool-cases (any (λ j. j.id == id) jobs)) [
        | inl again ↦ ((λ x. ground arith), λ x. fixed again)
        | inr last ↦ ((λ x. ground arith), λ x found e. ground (arith, kept last, saved, clear.0))
      ]
      | inr other ↦ ((λ x. ground (arith, kept (ground arith), saved)), λ x. fixed (ground arith))
    ]

recover_jobs-Recovered :
    (jobs : List JobRecord) (clock : ℕ → ℕ) (i later : ℕ) (id : String) (g h : TriggerGraph)
    (done : List JobRecord)
    → recover_jobs jobs clock i g ≡ (ok done, h)
    → Recovered later jobs id g h
unfolding recover_jobs fail_or_retry
recover_jobs-Recovered [] clock i later id g h done e = (
  (λ x.
      ap
        (λ (p : Result SchedulerError (List JobRecord) × TriggerGraph).
          Records.get p.1.job_records id)
        (sym e)),
  λ x. cc,
)
recover_jobs-Recovered (job ∷ jobs) clock i later id g h done e =
    round (get_item g.trigger_revisions job.trigger_revision_id)
      (λ g' rest. recover_jobs-Recovered jobs clock (i + 2) later id g' h rest) e
  where
    after : TriggerRevision → TriggerGraph
    after t =
        (fail_or_retry job t expired_message JobAttemptStatus.expired none (clock i) (clock (i + 1))
          g).1

    round :
        (r : Result SchedulerError TriggerRevision)
        → ((g' : TriggerGraph) (rest : List JobRecord)
            → recover_jobs jobs clock (i + 2) g' ≡ (ok rest, h)
            → Recovered later jobs id g' h)
        → continue
            (r, g)
            (λ t s.
              continue
                (recover_jobs jobs clock
                  (i + 2)
                  (fail_or_retry job t expired_message JobAttemptStatus.expired none
                    (clock i)
                    (clock (i + 1))
                    s).1)
                (λ rest u.
                  (ok (failed_or_waiting job t expired_message (clock (i + 1)) ∷ rest), u)))
          ≡ (ok done, h)
        → Recovered later (job ∷ jobs) id g h
    round (raise x) ih e =
        absurd (cc (ap (λ (p : Result SchedulerError (List JobRecord) × TriggerGraph). p.0) e))
    round (ok t) ih e =
        let (rest, u, more, last) =
          continue-eq-ok (recover_jobs jobs clock (i + 2) (after t)) _ e in
        let same : u ≡ h =
          ap (λ (p : Result SchedulerError (List JobRecord) × TriggerGraph). p.1) last in
        round-Recovered job jobs later id g h t (clock i) (clock (i + 1)) (
          ih (after t) rest (
            subst (λ (v : TriggerGraph). recover_jobs jobs clock (i + 2) (after t) ≡ (ok rest, v))
              same more))

abbrev pub HasTrigger : TriggerGraph → JobRecord → Type 0
HasTrigger g job =
    (t : TriggerRevision) × (Records.get g.trigger_revisions job.trigger_revision_id ≡ some t)

recover_jobs-total :
    (jobs : List JobRecord) (clock : ℕ → ℕ) (i : ℕ) (g : TriggerGraph)
    → All (HasTrigger g) jobs
    → (done : List JobRecord) × (h : TriggerGraph) × (recover_jobs jobs clock i g ≡ (ok done, h))
unfolding recover_jobs fail_or_retry
recover_jobs-total [] clock i g all = ([], g, refl)
recover_jobs-total (job ∷ jobs) clock i g ((t, found), all) =
    let (rest, h, e) = recover_jobs-total jobs clock (i + 2) (after t g) (All-map still jobs all) in
    (fixed t ∷ rest, h, ap (λ r. continue (r, g) finish) named ∙ ap (λ x. continue x (prepend t)) e)
  where
    after : TriggerRevision → TriggerGraph → TriggerGraph
    after t s =
        (fail_or_retry job t expired_message JobAttemptStatus.expired none (clock i) (clock (i + 1))
          s).1

    fixed : TriggerRevision → JobRecord
    fixed t = failed_or_waiting job t expired_message (clock (i + 1))

    prepend : TriggerRevision → List JobRecord → Exec TriggerGraph SchedulerError (List JobRecord)
    prepend t rest u = (ok (fixed t ∷ rest), u)

    finish : TriggerRevision → Exec TriggerGraph SchedulerError (List JobRecord)
    finish t s = continue (recover_jobs jobs clock (i + 2) (after t s)) (prepend t)

    named : get_item g.trigger_revisions job.trigger_revision_id ≡ ok t
    named = unfold get_item in ground arith

    still : (j : JobRecord) → HasTrigger g j → HasTrigger (after t g) j
    still j (u, e) = (
      u,
      rw
          (trigger_revisions-close_attempt (find_attempt g none job.current_attempt_id)
            JobAttemptStatus.expired (clock i) expired_message g)
          e,
    )

-- If each job record stands under its own id and every job with an expired lease has its trigger's
-- revision, recovery succeeds: afterwards no job record has a lease that expired by `now`, and a job
-- whose id is not among the expired ones is as before.
pub recover_expired_leases-clears :
    (now : ℕ) (clock : ℕ → ℕ) (g : TriggerGraph)
    → IsKeyed (λ (j : JobRecord). j.id) g.job_records
    → All (HasTrigger g) (expired_leases now g)
    → (done : List JobRecord) × (h : TriggerGraph) × (recover_expired_leases now clock g
        ≡ (ok done, h))
      × ((id : String) (job : JobRecord)
          → Records.get h.job_records id ≡ some job
          → is_expired now job ≡ false)
      × ((id : String)
          → any (λ j. j.id == id) (expired_leases now g) ≡ false
          → Records.get h.job_records id ≡ Records.get g.job_records id)
unfolding recover_expired_leases
recover_expired_leases-clears now clock g keyed all =
    let (done, h, e) = recover_jobs-total (expired_leases now g) clock 0 g all in
    (
      done,
      h,
      rw e,
      (λ id job found. cleared h id job found (effect done h e id)),
      λ id. (effect done h e id).0,
    )
  where
    effect :
        (done : List JobRecord) (h : TriggerGraph)
        → recover_jobs (expired_leases now g) clock 0 g ≡ (ok done, h)
        → (id : String) → Recovered now (expired_leases now g) id g h
    effect done h e id = recover_jobs-Recovered (expired_leases now g) clock 0 now id g h done e

    listed_if_expired :
        (id : String) (job : JobRecord)
        → Records.get g.job_records id ≡ some job
        → is_expired now job ≡ true
        → any (λ j. j.id == id) (expired_leases now g) ≡ true
    listed_if_expired id job found e =
        unfold expired_leases in
        get-any (λ (j : JobRecord). j.id) (is_expired now) g.job_records id job keyed found e

    cleared :
        (h : TriggerGraph) (id : String) (job : JobRecord)
        → Records.get h.job_records id ≡ some job
        → Recovered now (expired_leases now g) id g h
        → is_expired now job ≡ false
    cleared h id job found (kept, fixed) =
        elim (Bool-cases (any (λ j. j.id == id) (expired_leases now g))) [
          | inl listed ↦ fixed listed job found
          | inr unlisted ↦ elim (Bool-cases (is_expired now job)) [
            | inl e ↦
                absurd (cc (unlisted, listed_if_expired id job (sym (kept unlisted) ∙ found) e))
            | inr e ↦ e
          ]
        ]
