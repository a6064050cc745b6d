-- ===== src/Scheduler/Due.antt =====
-- Which waiting jobs `process_due_work` executes.
use n4x_core.Prelude.{
  ℕ, String, ◌≡◌, refl, ap, subst, ◌∙◌, Bool, true, false, Option, none, some, List, [], ◌∷◌, map,
  filter, All, arith, if◌then◌else◌,
}
use n4x_core.Prelude.Result.{Result, ok, raise, Returns, >>=-Returns}
use n4x_core.Prelude.Exec.{Exec, settle}
use n4x_core.Graph.Records
use n4x_core.Kernel.Jobs.{TriggerRevision, JobRecord, Invocation, ActionRevision}
use n4x_core.Kernel.Json.{Json}
use n4x_core.Scheduler.State.{
  TriggerGraph, TriggerRuntime, SchedulerError, get_item, application_allows_triggers, due_retries,
}
use n4x_core.Scheduler.Triggers.{with_triggers, due_work}

-- The job's trigger revision exists, and its application allows it to run.
abbrev pub may_run_by : TriggerGraph → Option TriggerRevision → Bool
may_run_by g none = false
may_run_by g (some t) = application_allows_triggers g t

abbrev pub may_run : TriggerGraph → JobRecord → Bool
may_run g job = may_run_by g (Records.get g.trigger_revisions job.trigger_revision_id)

abbrev pub IsPaired : TriggerGraph → JobRecord × TriggerRevision → Type 0
IsPaired g p =
    (Records.get g.trigger_revisions p.0.trigger_revision_id ≡ some p.1)
    × (application_allows_triggers g p.1 ≡ true)

abbrev Paired : TriggerGraph → List JobRecord → List (JobRecord × TriggerRevision) → Type 0
Paired g jobs pairs = (map (λ p. p.0) pairs ≡ filter (may_run g) jobs) × All (IsPaired g) pairs

found-eq-some :
    (g : TriggerGraph) (id : String) (t : TriggerRevision)
    → get_item g.trigger_revisions id ≡ ok t
    → Records.get g.trigger_revisions id ≡ some t
unfolding get_item
found-eq-some g id t e = ground arith

Paired-cons :
    (g : TriggerGraph) (job : JobRecord) (t : TriggerRevision) (jobs : List JobRecord)
    (pairs : List (JobRecord × TriggerRevision)) (b : Bool)
    → application_allows_triggers g t ≡ b
    → Records.get g.trigger_revisions job.trigger_revision_id ≡ some t
    → Paired g jobs pairs
    → Paired g (job ∷ jobs) (if b then (job, t) ∷ pairs else pairs)
Paired-cons g job t jobs pairs true e found (firsts, all) =
    let runs : may_run g job ≡ true = ap (may_run_by g) found ∙ e in
    ((rw runs (ap (λ l. job ∷ l) firsts)), ((found, e), all))
Paired-cons g job t jobs pairs false e found (firsts, all) =
    let waits : may_run g job ≡ false = ap (may_run_by g) found ∙ e in ((rw waits firsts), all)

module _ (sha256_json : Json → String) (isoformat : ℕ → String) (rt : TriggerRuntime)
    (actions_run : ActionRevision → JobRecord → Exec TriggerGraph SchedulerError Invocation) where
  with_triggers-Paired :
      (g : TriggerGraph) (jobs : List JobRecord)
      → Returns (Paired g jobs) (with_triggers sha256_json isoformat rt actions_run g jobs)
  with_triggers-Paired g [] = (refl, tt)
  with_triggers-Paired g (job ∷ jobs) =
      >>=-Returns _ (get_item g.trigger_revisions job.trigger_revision_id) _ λ t e.
        >>=-Returns _ (with_triggers sha256_json isoformat rt actions_run g jobs) _ λ rest e1.
          Paired-cons g job t jobs rest (application_allows_triggers g t) refl
            (found-eq-some g job.trigger_revision_id t e)
            (subst (Returns (Paired g jobs)) e1 (with_triggers-Paired g jobs))

  -- The jobs that are handed on for a retry are, in their order, the due ones whose trigger revision
  -- is there and whose application allows it to run, each with that revision; nothing is written.
  pub due_work-allowed :
      (now : ℕ) (g h : TriggerGraph) (pairs : List (JobRecord × TriggerRevision))
      → due_work sha256_json isoformat rt actions_run now g ≡ (ok pairs, h)
      → (h ≡ g)
        × (map (λ p. p.0) pairs ≡ filter (may_run g) (due_retries now g))
        × All (IsPaired g) pairs
  unfolding due_work
  due_work-allowed now g h pairs e = subst Handed e (
      handed (with_triggers sha256_json isoformat rt actions_run g (due_retries now g))
        (with_triggers-Paired g (due_retries now g)))
    where
      Handed : Result SchedulerError (List (JobRecord × TriggerRevision)) × TriggerGraph → Type 0
      Handed (ok ps, s) =
          (s ≡ g)
          × (map (λ p. p.0) ps ≡ filter (may_run g) (due_retries now g))
          × All (IsPaired g) ps
      Handed (raise error, s) = Unit

      handed :
          (r : Result SchedulerError (List (JobRecord × TriggerRevision)))
          → Returns (Paired g (due_retries now g)) r
          → Handed (settle g (r, g))
      handed (ok ps) (firsts, all) = (refl, firsts, all)
      handed (raise error) paired = tt
