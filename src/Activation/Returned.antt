-- ===== src/Activation/Returned.antt =====
-- What `activate` has done when it returns.
use n4x_core.Prelude.{
  String, Bool, true, false, ◌≡◌, refl, ap, ◌∙◌, ◌==◌, Option, none, some, ◌⊎◌, inl, inr,
  Bool-cases,
}
use n4x_core.Prelude.Result.{Result, ok, raise}
use n4x_core.Prelude.Exec.{transaction}
use n4x_core.Prelude.Outcomes.{
  Returns, continue-Returns, lift-Returns, transaction-Returns, Returns-anyway,
}
use n4x_core.Kernel.Jobs.{ApplicationRevision, RevisionStatus}
use n4x_core.Graph.Records
use n4x_core.Graph.Bindings.{get_item-eq-ok}
use n4x_core.Activation.State.{ActivationGraph, ActivationError, key_error, Act, Ports, get_item}
use n4x_core.Activation.Switch.{activate_edges, freeze_status, freeze}
use n4x_core.Activation.Service.{
  prepare, migrate_unless, evict, switch, recover, after_switch, after_prepare, activate_with,
  activate, rollback,
}
use n4x_core.Activation.Consistent.{IsConsistent}
use n4x_core.Activation.Units.{Activated, activate_edges-Returns}
use n4x_core.Activation.Services.{KeepConsistent, prepare-Stays, migrate_unless-Stays}

-- The two calls, and which revisions they take.
pub data Call : Type 0 where
  activation : (policy : String) → Call
  rollback_of : (application_id : String) → Call

abbrev pub Takes : Call → ApplicationRevision → Type 0
Takes (activation policy) v =
    (v.status ≡ RevisionStatus.draft) ⊎ (v.status ≡ RevisionStatus.validating)
Takes (rollback_of application_id) v =
    (v.application_id ≡ application_id)
    × ((v.status ≡ RevisionStatus.active) ⊎ (v.status ≡ RevisionStatus.superseded))

abbrev pub call : Ports → Call → String → Act ApplicationRevision
call ports (activation policy) revision_id = activate ports revision_id policy
call ports (rollback_of application_id) revision_id = rollback ports application_id revision_id

abbrev pub Taken : Call → String → ActivationGraph → Type 0
Taken c revision_id g =
    (v : ApplicationRevision) × (Records.get g.revisions revision_id ≡ some v) × Takes c v

abbrev pub Done : Call → String → ActivationGraph → ApplicationRevision → ActivationGraph → Type 0
Done c revision_id g r h = Taken c revision_id g × Activated revision_id r h

-- The process pool and the scheduler do not write revisions.
pub record LeaveRevisions (ports : Ports) : Type 0 where
  pub evicting :
      (revision_id : String) (g : ActivationGraph)
      → (ports.evict_revision revision_id g).1.revisions ≡ g.revisions
  pub remounting : (g : ActivationGraph) → (ports.remount g).1.revisions ≡ g.revisions

module _ (ports : Ports) (laws : KeepConsistent ports) (leave : LeaveRevisions ports) where
  kept :
      (revision_id : String) (r : ApplicationRevision) (g h : ActivationGraph)
      → h.revisions ≡ g.revisions
      → IsConsistent h
      → Activated revision_id r g
      → Activated revision_id r h
  kept revision_id r g h same c (_, i, p, e) =
      (c, i, ap (λ x. Records.get x revision_id) same ∙ p, e)

  pub evict-Activated :
      (revision_id : String) (r : ApplicationRevision) (superseded_id : Option String)
      (g : ActivationGraph)
      → Activated revision_id r g
      → Activated revision_id r (evict ports superseded_id g).1
  evict-Activated revision_id r none g k = k
  evict-Activated revision_id r (some id) g k =
      kept revision_id r g _ (leave.evicting id g) (laws.evicts id g k.0).0 k

  freeze-Returns :
      (revision_id policy : String) (g : ActivationGraph)
      → Returns (λ u h. Taken (activation policy) revision_id g) (freeze ports revision_id g)
  unfolding freeze
  freeze-Returns revision_id policy g =
      lift-Returns Q (get_item g.revisions revision_id) g _
        (λ r h. by_status r r.status (get_item-eq-ok key_error g.revisions revision_id h) refl)
    where
      Q : Unit {0} → ActivationGraph → Type 0
      Q u h = Taken (activation policy) revision_id g

      by_status :
          (r : ApplicationRevision) (status : RevisionStatus)
          → Records.get g.revisions revision_id ≡ some r
          → r.status ≡ status
          → Returns Q (freeze_status ports r status g)
      by_status r RevisionStatus.draft p e = Returns-anyway Q _ (λ u. (r, p, inl e))
      by_status r RevisionStatus.validating p e = Returns-anyway Q _ (λ u. (r, p, inr e))
      by_status r RevisionStatus.active p e = tt
      by_status r RevisionStatus.rejected p e = tt
      by_status r RevisionStatus.superseded p e = tt

  prepare-Returns :
      (installs : Bool) (revision_id policy : String) (g : ActivationGraph)
      → Returns
          (λ u h. Taken (activation policy) revision_id g)
          (prepare ports installs revision_id g)
  unfolding prepare
  prepare-Returns installs revision_id policy g =
      continue-Returns (λ u h. K) (λ u h. K) (transaction (freeze ports revision_id) g) _
        (transaction-Returns (λ u h. K) (freeze ports revision_id) g
          (freeze-Returns revision_id policy g))
        (λ u s k. Returns-anyway (λ u h. K) _ (λ u. k))
    where
      K : Type 0
      K = Taken (activation policy) revision_id g

  switch-Returns :
      (installs : Bool) (revision_id : String) (g : ActivationGraph)
      → IsConsistent g
      → Returns (Activated revision_id) (switch ports installs revision_id g)
  unfolding switch
  switch-Returns installs revision_id g c =
      continue-Returns (λ u. IsConsistent) Q (migrate_unless ports installs revision_id g) _
        (Returns-anyway (λ u. IsConsistent) _
          (λ u. (migrate_unless-Stays ports laws none installs revision_id g (c, tt)).0))
        (λ u s k.
          continue-Returns R Q (transaction (activate_edges revision_id) s) _
            (transaction-Returns R (activate_edges revision_id) s
              (activate_edges-Returns revision_id s k))
            (λ (a, superseded_id) t k.
              continue-Returns (λ u. Q a) Q (evict ports superseded_id t) _
                (Returns-anyway (λ u. Q a) (evict ports superseded_id t)
                  (λ u. evict-Activated revision_id a superseded_id t k))
                (λ u t k. k)))
    where
      Q : ApplicationRevision → ActivationGraph → Type 0
      Q = Activated revision_id

      R : ApplicationRevision × Option String → ActivationGraph → Type 0
      R a h = Activated revision_id a.0 h

  after_prepare-Returns :
      (installs : Bool) (revision_id policy : String) (g : ActivationGraph)
      (x : Result ActivationError (Option String) × ActivationGraph)
      → Returns (λ u h. Taken (activation policy) revision_id g) x
      → IsConsistent x.1
      → Returns
          (Done (activation policy) revision_id g)
          (after_prepare ports installs revision_id x)
  unfolding recover
  after_prepare-Returns installs revision_id policy g (raise e, t) taken c = tt
  after_prepare-Returns installs revision_id policy g (ok checkpoint_id, t) taken c =
      by_switch installs (switch ports installs revision_id t)
        (switch-Returns installs revision_id t c)
    where
      by_switch :
          (b : Bool) (x : Result ActivationError ApplicationRevision × ActivationGraph)
          → Returns (Activated revision_id) x
          → Returns
              (Done (activation policy) revision_id g)
              (after_switch ports b revision_id checkpoint_id x)
      by_switch b (raise e, s) k = tt
      by_switch true (ok r, s) k = (taken, k)
      by_switch false (ok r, s) k =
          continue-Returns (λ u. Activated revision_id r) (Done (activation policy) revision_id g)
            (ports.remount s) _
            (Returns-anyway (λ u. Activated revision_id r) (ports.remount s)
              (λ u. kept revision_id r s _ (leave.remounting s) (laws.remounts s k.0).0 k))
            (λ u s k. (taken, k))

  pub activate-Returns :
      (revision_id policy : String) (g : ActivationGraph)
      → IsConsistent g
      → Returns (Done (activation policy) revision_id g) (activate ports revision_id policy g)
  unfolding activate activate_with
  activate-Returns revision_id policy g c = elim (Bool-cases (policy == "normal")) [
    | inl e ↦ rw e (with_policy false)
    | inr e ↦ elim (Bool-cases (policy == "package_install")) [
      | inl p ↦ rw (e, p) (with_policy true)
      | inr p ↦ rw (e, p) tt
    ]
  ]
    where
      with_policy :
          (b : Bool)
          → Returns (Done (activation policy) revision_id g) (activate_with ports b revision_id g)
      with_policy b =
          after_prepare-Returns b revision_id policy g (prepare ports b revision_id g)
            (prepare-Returns b revision_id policy g) (prepare-Stays ports laws b revision_id g c)
