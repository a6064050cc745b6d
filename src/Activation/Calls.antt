-- ===== src/Activation/Calls.antt =====
-- `activate` and `rollback` keep the invariant, whether they raise or not.
use n4x_core.Prelude.{
  String, Bool, true, false, ◌==◌, Option, none, some, Bool-cases, inl, inr, subst, sym,
}
use n4x_core.Prelude.Result.{Result, ok, raise}
use n4x_core.Prelude.Exec.{transaction}
use n4x_core.Prelude.Outcomes.{
  Ends, Stays, continue-Ends, lift-Ends, continue-Stays, transaction-Stays, Returns, Returns-Ends,
}
use n4x_core.Kernel.Jobs.{ApplicationRevision}
use n4x_core.Activation.State.{
  ActivationGraph, ActivationError, validation_failure, value_error, Ports, get_item,
}
use n4x_core.Activation.Switch.{activate_edges, reject}
use n4x_core.Activation.Service.{
  prepare, migrate_unless, evict, switch, swallow, then_remount, restore_checkpoint, recover,
  after_switch, after_prepare, activate_with, activate, was_active, check, roll_back_edges,
  rollback,
}
use n4x_core.Activation.Consistent.{IsConsistent}
use n4x_core.Activation.Units.{SwitchedFrom, activate_edges-switches, reject-IsConsistent}
use n4x_core.Activation.Restored.{Restored-IsConsistent}
use n4x_core.Activation.Services.{
  KeepConsistent, RestoreCaptured, IsRecoverable, Keeps-IsRecoverable, prepare-Stays,
  prepare-Returns, migrate_unless-Stays, evict-Stays,
}

module _ (ports : Ports) (laws : KeepConsistent ports) (restoring : RestoreCaptured ports) where
  switch-Stays :
      (checkpoint_id : Option String) (installs : Bool) (revision_id : String) (g : ActivationGraph)
      → IsRecoverable ports checkpoint_id g
      → Stays (IsRecoverable ports checkpoint_id) (switch ports installs revision_id g)
  unfolding switch
  switch-Stays checkpoint_id installs revision_id g c =
      continue-Stays P (migrate_unless ports installs revision_id g) _
        (migrate_unless-Stays ports laws checkpoint_id installs revision_id g c)
        (λ u s k.
          continue-Stays P (transaction (activate_edges revision_id) s) _
            (transaction-Stays P (activate_edges revision_id) s k (
              Returns-Ends (SwitchedFrom s revision_id) P (activate_edges revision_id s)
                (λ a t j. Keeps-IsRecoverable ports checkpoint_id s t k (j.0.0, j.1))
                (activate_edges-switches revision_id s k.0)))
            (λ (a, superseded_id) t k.
              continue-Stays P (evict ports superseded_id t) _
                (evict-Stays ports laws checkpoint_id superseded_id t k) (λ u t k. k)))
    where
      P : ActivationGraph → Type 0
      P = IsRecoverable ports checkpoint_id

  swallow-IsConsistent :
      (x : Result ActivationError Unit × ActivationGraph)
      → IsConsistent x.1
      → IsConsistent (swallow x)
  swallow-IsConsistent (ok u, t) k = k
  swallow-IsConsistent (raise e, t) k = k

  restored-IsConsistent :
      (checkpoint_id : String) (g : ActivationGraph)
      → IsRecoverable ports (some checkpoint_id) g
      → IsConsistent (ports.restore_checkpoint checkpoint_id g).1
  restored-IsConsistent checkpoint_id g (k, (a, c, d, e, was, same)) =
      elim (restoring.restores a checkpoint_id c d g e was k) [
        | inl i ↦ subst IsConsistent (sym i) k
        | inr r ↦ Restored-IsConsistent a c g _ was k same r
      ]

  restore_checkpoint-IsConsistent :
      (checkpoint_id : Option String) (g : ActivationGraph)
      → IsRecoverable ports checkpoint_id g
      → IsConsistent (restore_checkpoint ports checkpoint_id g)
  unfolding restore_checkpoint
  restore_checkpoint-IsConsistent none g c = c.0
  restore_checkpoint-IsConsistent (some checkpoint_id) g c =
      then_remounted (ports.restore_checkpoint checkpoint_id g)
        (restored-IsConsistent checkpoint_id g c)
    where
      then_remounted :
          (x : Result ActivationError Unit × ActivationGraph)
          → IsConsistent x.1
          → IsConsistent (then_remount ports x)
      then_remounted (ok u, t) k = swallow-IsConsistent (ports.remount t) (laws.remounts t k).0
      then_remounted (raise e, t) k = k

  recover-Stays :
      (revision_id : String) (checkpoint_id : Option String) (g : ActivationGraph)
      → IsRecoverable ports checkpoint_id g
      → Stays IsConsistent (recover ports revision_id checkpoint_id g)
  unfolding recover
  recover-Stays revision_id checkpoint_id g c =
      let restored = restore_checkpoint ports checkpoint_id g in
      swallow-IsConsistent (reject revision_id restored) (
        reject-IsConsistent revision_id restored
          (restore_checkpoint-IsConsistent checkpoint_id g c))

  after_switch-Stays :
      (installs : Bool) (revision_id : String) (checkpoint_id : Option String)
      (x : Result ActivationError ApplicationRevision × ActivationGraph)
      → IsRecoverable ports checkpoint_id x.1
      → Stays IsConsistent (after_switch ports installs revision_id checkpoint_id x)
  after_switch-Stays installs revision_id checkpoint_id (raise e, t) k =
      recover-Stays revision_id checkpoint_id t k
  after_switch-Stays true revision_id checkpoint_id (ok a, t) k = k.0
  after_switch-Stays false revision_id checkpoint_id (ok a, t) k =
      continue-Stays IsConsistent (ports.remount t) _ (laws.remounts t k.0).0 (λ u s k. k)

  after_prepare-Stays :
      (installs : Bool) (revision_id : String)
      (x : Result ActivationError (Option String) × ActivationGraph)
      → IsConsistent x.1
      → Returns (IsRecoverable ports) x
      → Stays IsConsistent (after_prepare ports installs revision_id x)
  after_prepare-Stays installs revision_id (raise e, t) k r =
      recover-Stays revision_id none t (k, tt)
  after_prepare-Stays installs revision_id (ok checkpoint_id, t) k r =
      after_switch-Stays installs revision_id checkpoint_id (switch ports installs revision_id t)
        (switch-Stays checkpoint_id installs revision_id t r)

  activate_with-Stays :
      (installs : Bool) (revision_id : String) (g : ActivationGraph)
      → IsConsistent g
      → Stays IsConsistent (activate_with ports installs revision_id g)
  unfolding activate_with
  activate_with-Stays installs revision_id g c =
      after_prepare-Stays installs revision_id (prepare ports installs revision_id g)
        (prepare-Stays ports laws installs revision_id g c)
        (prepare-Returns ports laws installs revision_id g c)

  pub activate-IsConsistent :
      (revision_id policy : String) (g : ActivationGraph)
      → IsConsistent g
      → IsConsistent (activate ports revision_id policy g).1
  unfolding activate
  activate-IsConsistent revision_id policy g c = elim (Bool-cases (policy == "normal")) [
    | inl e ↦ rw e (activate_with-Stays false revision_id g c)
    | inr e ↦ elim (Bool-cases (policy == "package_install")) [
      | inl p ↦ rw (e, p) (activate_with-Stays true revision_id g c)
      | inr p ↦ rw (e, p) c
    ]
  ]

  check-Ends :
      (b : Bool) (e : ActivationError) (g : ActivationGraph)
      → IsConsistent g
      → Ends IsConsistent (check b e g)
  check-Ends true e g c = c
  check-Ends false e g c = tt

  roll_back_edges-Ends :
      (application_id revision_id : String) (g : ActivationGraph)
      → IsConsistent g
      → Ends IsConsistent (roll_back_edges application_id revision_id g)
  unfolding roll_back_edges
  roll_back_edges-Ends application_id revision_id g c =
      lift-Ends IsConsistent (get_item g.revisions revision_id) g _ (λ target h.
        continue-Ends IsConsistent (check (target.application_id == application_id) value_error g) _
          (check-Ends (target.application_id == application_id) value_error g c)
          (λ u s k.
            continue-Ends IsConsistent (check (was_active target.status) validation_failure s) _
              (check-Ends (was_active target.status) validation_failure s k)
              (λ u s k.
                Returns-Ends (SwitchedFrom s revision_id) IsConsistent
                  (activate_edges revision_id s) (λ a t j. j.0.0)
                  (activate_edges-switches revision_id s k))))

  pub rollback-IsConsistent :
      (application_id revision_id : String) (g : ActivationGraph)
      → IsConsistent g
      → IsConsistent (rollback ports application_id revision_id g).1
  unfolding rollback
  rollback-IsConsistent application_id revision_id g c =
      continue-Stays IsConsistent (transaction (roll_back_edges application_id revision_id) g) _
        (transaction-Stays IsConsistent (roll_back_edges application_id revision_id) g c
          (roll_back_edges-Ends application_id revision_id g c))
        (λ (a, superseded_id) t k.
          continue-Stays IsConsistent (evict ports superseded_id t) _
            (evict-Stays ports laws none superseded_id t (k, tt)).0 (λ u t k. k))
