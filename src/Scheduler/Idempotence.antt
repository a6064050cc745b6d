-- ===== src/Scheduler/Idempotence.antt =====
-- A call of `run_trigger_revision` with the key of an earlier one.
use text.Mathlib.TextPositions.{eq_refl}
use n4x_core.Prelude.{
  ℕ, String, ◌≡◌, ◌≢◌, refl, ap, sym, subst, ◌∙◌, Bool, true, false, ◌&&◌, Option, none, some, List,
  [], ◌∷◌, map, arith, ◌==◌, some_injective, if◌then◌else◌, find,
}
use n4x_core.Prelude.Result.{Result, ok, raise}
use n4x_core.Prelude.Exec.{Exec, settle, continue}
use n4x_core.Graph.Records
use n4x_core.Graph.Records.{RecordCollection, upsert_row, get-save}
use n4x_core.Kernel.Json.{Json, JsonDict}
use n4x_core.Kernel.Jobs.{ApplicationRevision, TriggerRevision, ActionRevision, JobRecord}
use n4x_core.Scheduler.Active.{is_skip_if_running}
use n4x_core.Scheduler.State.{
  TriggerGraph, SchedulerError, get_item, application_for_trigger, application_allows_triggers,
  job_by_idempotency_key, has_running_job, action_revision,
}
use n4x_core.Scheduler.Jobs.{NewJob, new_job, record_new, record_job}
use n4x_core.Scheduler.Admission.{
  Admitted, returns, executes, admit, admit_unless, key_or, merge, resolve, scheduled_key,
}

find-upsert_row {ℓ} :
    {V : Type ℓ} (p : V → Bool) (k : String) (v : V) (rows : List (String × V))
    → find p (map (λ r. r.1) rows) ≡ none
    → p v ≡ true
    → find p (map (λ r. r.1) (upsert_row k v rows)) ≡ some v
find-upsert_row p k v [] e pv = rw pv refl
find-upsert_row p k v ((j, w) ∷ rows) e pv = ground (arith, find-upsert_row p k v rows)

find-save {ℓ} :
    {V : Type ℓ} (p : V → Bool) (k : String) (v : V) (c : RecordCollection V)
    → find p (Records.values c) ≡ none
    → p v ≡ true
    → find p (Records.values (Records.save c k v)) ≡ some v
unfolding Records.values Records.save
find-save p k v c e pv = find-upsert_row p k v c.rows e pv

key_or-nonempty : (key d : String) → key ≢ "" → key_or (some key) d ≡ key
key_or-nonempty String.[] d n = absurd (n refl)
key_or-nonempty (String.◌∷◌ c s) d n = refl

abbrev admitted_job : Admitted → JobRecord
admitted_job (returns job) = job
admitted_job (executes job t) = job

-- The outcome of an admission answers the next one with the same key.
abbrev Repeats : String → String → Result SchedulerError Admitted × TriggerGraph → Type 0
Repeats id key (ok x, h) =
    ((p : TriggerRevision × ApplicationRevision) × (resolve h id ≡ ok p))
    × (job_by_idempotency_key h key ≡ some (admitted_job x))
Repeats id key (raise e, h) = Unit

-- What `_record_job` does to the two questions.
abbrev RecordsKey :
    String → String → TriggerGraph → Result SchedulerError JobRecord × TriggerGraph → Type 0
RecordsKey id key g (ok job, h) =
    (resolve h id ≡ resolve g id) × (job_by_idempotency_key h key ≡ some job)
RecordsKey id key g (raise e, h) = Unit

record_new-RecordsKey :
    (id : String) (n : NewJob) (t : TriggerRevision) (g : TriggerGraph) (action : ActionRevision)
    → job_by_idempotency_key g n.idempotency_key ≡ none
    → RecordsKey id n.idempotency_key g (record_new n t action g)
unfolding job_by_idempotency_key resolve application_allows_triggers application_for_trigger
    get_item
record_new-RecordsKey id n t g action e =
    (refl, find-save _ n.id (new_job n t action) _ e (simp eq_refl))

record_job-RecordsKey :
    (id : String) (n : NewJob) (t : TriggerRevision) (g : TriggerGraph)
    → job_by_idempotency_key g n.idempotency_key ≡ none
    → RecordsKey id n.idempotency_key g (record_job n t g)
unfolding record_job
record_job-RecordsKey id n t g e =
    recorded (action_revision g n.application_revision_id t.action_id)
  where
    recorded :
        (r : Result SchedulerError ActionRevision)
        → RecordsKey id n.idempotency_key g (continue (r, g) (record_new n t))
    recorded (ok action) = record_new-RecordsKey id n t g action e
    recorded (raise error) = tt

find-map {ℓ} :
    {V : Type ℓ} (p : V → Bool) (f : V → V) (vs : List V) {v : V}
    → ((w : V) → p (f w) ≡ p w)
    → find p vs ≡ some v
    → find p (map f vs) ≡ some (f v)
find-map p f [] same e = cc
find-map {V} p f (w ∷ vs) {v} same e = rw (same w) (here (p w) e (find-map p f vs same))
  where
    here :
        (b : Bool)
        → (if b then some w else find p vs) ≡ some v
        → (find p vs ≡ some v → find p (map f vs) ≡ some (f v))
        → (if b then some (f w) else find p (map f vs)) ≡ some (f v)
    here true i k = ap (λ x. some (f x)) (some_injective i)
    here false i k = k i

-- The job of a key is found again in rewritten rows.
rewritten_job :
    (key : String) (h k : TriggerGraph) (f : JobRecord → JobRecord)
    → ((job : JobRecord) → (f job).idempotency_key ≡ job.idempotency_key)
    → Records.values k.job_records ≡ map f (Records.values h.job_records)
    → (job : JobRecord) → job_by_idempotency_key h key ≡ some job
    → job_by_idempotency_key k key ≡ some (f job)
unfolding job_by_idempotency_key
rewritten_job key h k f same rows job e =
    ap (find (λ j. j.idempotency_key == key)) rows
    ∙ find-map (λ j. j.idempotency_key == key) f (Records.values h.job_records)
        (λ w. ap (λ x. x == key) (same w)) e

module _ (sha256_json : Json → String) (isoformat : ℕ → String) where
  choose-Repeats :
      (b : Bool) (id key : String) (m n : Exec TriggerGraph SchedulerError Admitted)
      (g : TriggerGraph)
      → Repeats id key (m g)
      → Repeats id key (n g)
      → Repeats id key ((if b then m else n) g)
  choose-Repeats true id key m n g km kn = km
  choose-Repeats false id key m n g km kn = kn

  recorded-Repeats :
      (id key : String) (g : TriggerGraph) (p : TriggerRevision × ApplicationRevision)
      (f : JobRecord → Admitted)
      → ((job : JobRecord) → admitted_job (f job) ≡ job)
      → resolve g id ≡ ok p
      → (x : Result SchedulerError JobRecord × TriggerGraph) → RecordsKey id key g x
      → Repeats id key (continue x (λ job s. (ok (f job), s)))
  recorded-Repeats id key g p f same found (ok job, h) k =
      ((p, k.0 ∙ found), k.1 ∙ ap some (sym (same job)))
  recorded-Repeats id key g p f same found (raise e, h) k = tt

  admit_unless-Repeats :
      (o : Option JobRecord) (id key : String) (g : TriggerGraph) (t : TriggerRevision)
      (revision : ApplicationRevision) (input : JsonDict) (job_id : String) (now : ℕ)
      → job_by_idempotency_key g key ≡ o
      → resolve g id ≡ ok (t, revision)
      → Repeats id key (admit_unless sha256_json isoformat o t revision input key job_id now g g)
  admit_unless-Repeats (some job) id key g t revision input job_id now e found =
      (((t, revision), found), e)
  admit_unless-Repeats none id key g t revision input job_id now fresh found =
      choose-Repeats (is_skip_if_running t.overlap_policy && has_running_job g t.id) id key _ _ g
        (recorded-Repeats id key g (t, revision) returns (λ job. refl) found _
          (record_job-RecordsKey id _ t g fresh))
        (recorded-Repeats id key g (t, revision) (λ job. executes job t) (λ job. refl) found _
          (record_job-RecordsKey id _ t g fresh))

  settle-Repeats :
      (id key : String) (g : TriggerGraph) (x : Result SchedulerError Admitted × TriggerGraph)
      → Repeats id key x
      → Repeats id key (settle g x)
  settle-Repeats id key g (ok a, h) k = k
  settle-Repeats id key g (raise e, h) k = tt

  admit-Repeats :
      (id key job_id : String) (input : JsonDict) (now : ℕ) (g : TriggerGraph)
      → key ≢ ""
      → Repeats id key (admit sha256_json isoformat id input (some key) job_id now g)
  unfolding admit
  admit-Repeats id key job_id input now g nonempty =
      settle-Repeats id key g _ (resolved (resolve g id) refl)
    where
      resolved :
          (r : Result SchedulerError (TriggerRevision × ApplicationRevision))
          → resolve g id ≡ r
          → Repeats id key (
              continue
                (r, g)
                (λ p s.
                  let job_input = merge p.0.input_template input in
                  let k =
                    key_or (some key) (scheduled_key sha256_json isoformat p.0 job_input now) in
                  admit_unless sha256_json isoformat
                    (job_by_idempotency_key g k)
                    p.0
                    p.1
                    job_input
                    k
                    job_id
                    now
                    g
                    s))
      resolved (raise e) found = tt
      resolved (ok (t, revision)) found = rw (key_or-nonempty key _ nonempty) (
          admit_unless-Repeats (job_by_idempotency_key g key) id key g t revision _ job_id now refl
            found)

  -- When a call with a key that is not empty has found or made its job, and since then no job
  -- has been added or taken away and each has kept its key (jobs are executed, paused or retried, say):
  -- a later call for the same trigger revision with that key, which is not refused because the
  -- application no longer allows its triggers, returns that job as it is now, whatever its input, and
  -- changes nothing.
  pub admit-again :
      (id key job_id later_id : String) (input later_input : JsonDict) (now later : ℕ)
      (g h k : TriggerGraph) (x : Admitted) (rewritten : JobRecord → JobRecord)
      (p : TriggerRevision × ApplicationRevision)
      → key ≢ ""
      → admit sha256_json isoformat id input (some key) job_id now g ≡ (ok x, h)
      → ((job : JobRecord) → (rewritten job).idempotency_key ≡ job.idempotency_key)
      → Records.values k.job_records ≡ map rewritten (Records.values h.job_records)
      → resolve k id ≡ ok p
      → admit sha256_json isoformat id later_input (some key) later_id later k
        ≡ (ok (returns (rewritten (admitted_job x))), k)
  unfolding admit
  admit-again id key job_id later_id input later_input now later g h k x rewritten p nonempty e same
        rows found =
      let again = subst (Repeats id key) e (admit-Repeats id key job_id input now g nonempty) in
      let row = rewritten_job key h k rewritten same rows (admitted_job x) again.1 in
      rw (found, key_or-nonempty key _ nonempty, row) refl
