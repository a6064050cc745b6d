-- ===== src/Scheduler/Guards.antt =====
-- When `run_trigger_revision` makes a job to be executed.
use text.Mathlib.TextPositions.{eq_refl}
use n4x_core.Prelude.{
  ℕ, String, ◌≡◌, refl, sym, subst, Bool, true, false, ◌&&◌, Option, none, some, arith,
  if◌then◌else◌,
}
use n4x_core.Prelude.Result.{Result, ok, raise, Returns, >>=-Returns}
use n4x_core.Prelude.Exec.{Exec, settle, continue}
use n4x_core.Graph.Records
use n4x_core.Graph.Records.{RecordCollection, get-save}
use n4x_core.Kernel.Json.{Json, JsonDict}
use n4x_core.Kernel.Jobs.{ApplicationRevision, TriggerRevision, ActionRevision, JobRecord}
use n4x_core.Scheduler.Active.{is_skip_if_running}
use n4x_core.Scheduler.State.{
  TriggerGraph, SchedulerError, get_item, application_for_trigger, application_allows_triggers,
  job_by_idempotency_key, has_running_job, action_revision,
}
use n4x_core.Scheduler.Jobs.{NewJob, record_new, record_job}
use n4x_core.Scheduler.Admission.{
  Admitted, returns, executes, admit, admit_unless, key_or, merge, resolve, scheduled_key,
  require_allowed, application_or_raise, id_or_key_error,
}

get_item-eq-ok {ℓ} :
    {V : Type ℓ} (c : RecordCollection V) (k : String) (v : V)
    → get_item c k ≡ ok v
    → Records.get c k ≡ some v
unfolding get_item
get_item-eq-ok c k v e = ground arith

require_allowed-eq-ok : (b : Bool) (u : Unit {0}) → require_allowed b ≡ ok u → b ≡ true
require_allowed-eq-ok true u e = refl
require_allowed-eq-ok false u e = cc

-- What the lookups of the first unit of work have found.
abbrev Resolved : String → TriggerGraph → TriggerRevision → Type 0
Resolved id g t =
    (Records.get g.trigger_revisions id ≡ some t) × (application_allows_triggers g t ≡ true)

resolve-Resolved :
    (id : String) (g : TriggerGraph) → Returns (λ p. Resolved id g p.0) (resolve g id)
unfolding resolve
resolve-Resolved id g = >>=-Returns _ (get_item g.trigger_revisions id) _ λ t found.
    >>=-Returns _ (require_allowed (application_allows_triggers g t)) _ λ _ allowed.
      >>=-Returns _ (application_or_raise (application_for_trigger g t)) _ λ application _.
        >>=-Returns _ (id_or_key_error application.active_revision_id) _ λ revision_id _.
          >>=-Returns _ (get_item g.revisions revision_id) _ λ revision _. (
            get_item-eq-ok g.trigger_revisions id t found,
            require_allowed-eq-ok (application_allows_triggers g t) tt allowed,
          )

-- A new job is in the graph, with the key that was asked for.
abbrev Saved : String → Result SchedulerError JobRecord × TriggerGraph → Type 0
Saved key (ok job, h) = (job.idempotency_key ≡ key) × (Records.get h.job_records job.id ≡ some job)
Saved key (raise e, h) = Unit

record_job-Saved :
    (n : NewJob) (t : TriggerRevision) (g : TriggerGraph)
    → Saved n.idempotency_key (record_job n t g)
unfolding record_job
record_job-Saved n t g = recorded (action_revision g n.application_revision_id t.action_id)
  where
    recorded :
        (r : Result SchedulerError ActionRevision)
        → Saved n.idempotency_key (continue (r, g) (record_new n t))
    recorded (ok action) = (refl, (rw get-save (simp eq_refl)))
    recorded (raise error) = tt

-- What has been checked when the first unit of work sends a job to be executed.
abbrev Guarded : String → TriggerGraph → Result SchedulerError Admitted × TriggerGraph → Type 0
Guarded id g (ok (executes job t), h) =
    Resolved id g t
    × (job_by_idempotency_key g job.idempotency_key ≡ none)
    × ((is_skip_if_running t.overlap_policy && has_running_job g t.id) ≡ false)
    × (Records.get h.job_records job.id ≡ some job)
Guarded id g (ok (returns job), h) = Unit
Guarded id g (raise e, h) = Unit

module _ (sha256_json : Json → String) (isoformat : ℕ → String) (id : String)
    (g : TriggerGraph) where
  choose-Guarded :
      (b c : Bool) (m n : Exec TriggerGraph SchedulerError Admitted) (s : TriggerGraph)
      → (b ≡ c)
      → Guarded id g (m s)
      → (c ≡ false → Guarded id g (n s))
      → Guarded id g ((if b then m else n) s)
  choose-Guarded true c m n s e km kn = km
  choose-Guarded false c m n s e km kn = kn (sym e)

  returned-Guarded :
      (x : Result SchedulerError JobRecord × TriggerGraph)
      → Guarded id g (continue x (λ job s. (ok (returns job), s)))
  returned-Guarded (ok job, h) = tt
  returned-Guarded (raise e, h) = tt

  executed-Guarded :
      (key : String) (t : TriggerRevision) (x : Result SchedulerError JobRecord × TriggerGraph)
      → Resolved id g t
      → job_by_idempotency_key g key ≡ none
      → (is_skip_if_running t.overlap_policy && has_running_job g t.id) ≡ false
      → Saved key x
      → Guarded id g (continue x (λ job s. (ok (executes job t), s)))
  executed-Guarded key t (ok job, h) found fresh idle saved =
      (found, subst (λ k. job_by_idempotency_key g k ≡ none) (sym saved.0) fresh, idle, saved.1)
  executed-Guarded key t (raise e, h) found fresh idle saved = tt

  admit_unless-Guarded :
      (o : Option JobRecord) (key : String) (t : TriggerRevision) (revision : ApplicationRevision)
      (input : JsonDict) (job_id : String) (now : ℕ)
      → job_by_idempotency_key g key ≡ o
      → Resolved id g t
      → Guarded id g (admit_unless sha256_json isoformat o t revision input key job_id now g g)
  admit_unless-Guarded (some job) key t revision input job_id now e found = tt
  admit_unless-Guarded none key t revision input job_id now fresh found =
      choose-Guarded (is_skip_if_running t.overlap_policy && has_running_job g t.id) _ _ _ g refl
        (returned-Guarded _)
        (λ idle. executed-Guarded key t _ found fresh idle (record_job-Saved _ t g))

  settle-Guarded :
      (x : Result SchedulerError Admitted × TriggerGraph)
      → Guarded id g x
      → Guarded id g (settle g x)
  settle-Guarded (ok (returns job), h) k = k
  settle-Guarded (ok (executes job t), h) k = k
  settle-Guarded (raise e, h) k = tt

  admit-Guarded :
      (job_id : String) (key : Option String) (input : JsonDict) (now : ℕ)
      → Guarded id g (admit sha256_json isoformat id input key job_id now g)
  unfolding admit
  admit-Guarded job_id key input now =
      settle-Guarded _ (resolved (resolve g id) (resolve-Resolved id g))
    where
      resolved :
          (r : Result SchedulerError (TriggerRevision × ApplicationRevision))
          → Returns (λ p. Resolved id g p.0) r
          → Guarded id g (
              continue
                (r, g)
                (λ p s.
                  let job_input = merge p.0.input_template input in
                  let k = key_or key (scheduled_key sha256_json isoformat p.0 job_input now) in
                  admit_unless sha256_json isoformat
                    (job_by_idempotency_key g k)
                    p.0
                    p.1
                    job_input
                    k
                    job_id
                    now
                    g
                    s))
      resolved (raise e) found = tt
      resolved (ok (t, revision)) found =
          admit_unless-Guarded _ _ t revision _ job_id now refl found

  -- A call sends a job to be executed only for the trigger revision that was asked for, when the
  -- application allows its triggers, when no job has the job's key yet, and when the overlap policy
  -- does not skip it for a leased or running job of the same trigger; the job is then in the graph.
  pub admit-executes :
      (job_id : String) (key : Option String) (input : JsonDict) (now : ℕ) (h : TriggerGraph)
      (job : JobRecord) (t : TriggerRevision)
      → admit sha256_json isoformat id input key job_id now g ≡ (ok (executes job t), h)
      → ((Records.get g.trigger_revisions id ≡ some t) × (application_allows_triggers g t ≡ true))
        × (job_by_idempotency_key g job.idempotency_key ≡ none)
        × ((is_skip_if_running t.overlap_policy && has_running_job g t.id) ≡ false)
        × (Records.get h.job_records job.id ≡ some job)
  admit-executes job_id key input now h job t e =
      subst (Guarded id g) e (admit-Guarded job_id key input now)
