-- ===== src/Activation/Service.antt =====
-- `activate`, with what it does when a step raises, and `rollback`.
use n4x_core.Prelude.{
  String, Bool, true, false, Option, none, some, List, [], ◌∷◌, any, if◌then◌else◌, ◌==◌,
}
use n4x_core.Prelude.Result.{Result, ok, raise}
use n4x_core.Prelude.Exec.{pure, lift, throw, transaction, get_state, ◌>>=◌, ◌>>◌}
use n4x_core.Kernel.Jobs.{ApplicationRevision, RevisionStatus}
use n4x_core.Kernel.Definitions.{DefinitionRevision}
use n4x_core.Activation.State.{
  ActivationGraph, ActivationError, validation_failure, value_error, Act, Ports, get_item,
  migrations,
}
use n4x_core.Activation.Switch.{activate_edges, freeze, reject}

-- The graph after code whose exceptions are swallowed.
abbrev pub swallow : Result ActivationError (Unit {0}) × ActivationGraph → ActivationGraph
swallow (ok u, g) = g
swallow (raise e, g) = g

module _ (ports : Ports) where
  abbrev pub run_each : String → List DefinitionRevision → Act Unit
  run_each revision_id [] = pure tt
  run_each revision_id (item ∷ items) = do
    ports.run_migration revision_id item.id
    run_each revision_id items

  unfoldable pub run_migrations : String → Act Unit
  run_migrations revision_id = do
    g ← get_state
    items ← lift (migrations revision_id g)
    run_each revision_id items

  abbrev pub checkpoint_of : Bool → String → Act (Option String)
  checkpoint_of false application_id = pure none
  checkpoint_of true application_id = do id ← ports.create_checkpoint application_id; pure (some id)

  unfoldable pub checkpoint_if_mutating : String → Act (Option String)
  checkpoint_if_mutating revision_id = do
    g ← get_state
    items ← lift (migrations revision_id g)
    r ← lift (get_item g.revisions revision_id)
    checkpoint_of (any (λ item. item.mutates_application_data) items) r.application_id

  abbrev pub checkpoint_unless : Bool → String → Act (Option String)
  checkpoint_unless true revision_id = pure none
  checkpoint_unless false revision_id = checkpoint_if_mutating revision_id

  -- The steps up to the checkpoint, which returns its id. `installs` tells the policy
  -- "package_install".
  unfoldable pub prepare : Bool → String → Act (Option String)
  prepare installs revision_id = do
    transaction (freeze ports revision_id)
    ports.resolve_dependencies revision_id
    ports.build_revision_artifacts revision_id
    checkpoint_unless installs revision_id

  abbrev pub migrate_unless : Bool → String → Act Unit
  migrate_unless true revision_id = pure tt
  migrate_unless false revision_id = run_migrations revision_id

  abbrev pub evict : Option String → Act Unit
  evict none = pure tt
  evict (some revision_id) = ports.evict_revision revision_id

  -- The steps after the checkpoint, up to the switch.
  unfoldable pub switch : Bool → String → Act ApplicationRevision
  switch installs revision_id = do
    migrate_unless installs revision_id
    (activated, superseded_id) ← transaction (activate_edges revision_id)
    evict superseded_id
    pure activated

  abbrev pub then_remount : Result ActivationError (Unit {0}) × ActivationGraph → ActivationGraph
  then_remount (ok u, g) = swallow (ports.remount g)
  then_remount (raise e, g) = g

  unfoldable pub restore_checkpoint : Option String → ActivationGraph → ActivationGraph
  restore_checkpoint none g = g
  restore_checkpoint (some checkpoint_id) g =
      then_remount (ports.restore_checkpoint checkpoint_id g)

  -- `except Exception` before the switch: whatever was raised, a `ValidationFailure` is.
  unfoldable pub recover :
      String
      → Option String
      → ActivationGraph
      → Result ActivationError ApplicationRevision × ActivationGraph
  recover revision_id checkpoint_id g =
      (raise validation_failure, swallow (reject revision_id (restore_checkpoint checkpoint_id g)))

  abbrev pub remount_unless : Bool → Act Unit
  remount_unless true = pure tt
  remount_unless false = ports.remount

  -- After the switch what `remount` raises goes through.
  abbrev pub after_switch :
      Bool
      → String
      → Option String
      → Result ActivationError ApplicationRevision × ActivationGraph
      → Result ActivationError ApplicationRevision × ActivationGraph
  after_switch installs revision_id checkpoint_id (raise e, g) = recover revision_id checkpoint_id g
  after_switch installs revision_id checkpoint_id (ok activated, g) =
      (remount_unless installs >> pure activated) g

  abbrev pub after_prepare :
      Bool
      → String
      → Result ActivationError (Option String) × ActivationGraph
      → Result ActivationError ApplicationRevision × ActivationGraph
  after_prepare installs revision_id (raise e, g) = recover revision_id none g
  after_prepare installs revision_id (ok checkpoint_id, g) =
      after_switch installs revision_id checkpoint_id (switch installs revision_id g)

  unfoldable pub activate_with : Bool → String → Act ApplicationRevision
  activate_with installs revision_id g =
      after_prepare installs revision_id (prepare installs revision_id g)

  unfoldable pub activate : String → String → Act ApplicationRevision
  activate revision_id policy =
      if policy == "normal"
      then activate_with false revision_id
      else if policy == "package_install"
      then activate_with true revision_id
      else throw value_error

abbrev pub was_active : RevisionStatus → Bool
was_active RevisionStatus.active = true
was_active RevisionStatus.superseded = true
was_active _ = false

abbrev pub check : Bool → ActivationError → Act Unit
check true e = pure tt
check false e = throw e

unfoldable pub roll_back_edges : String → String → Act (ApplicationRevision × Option String)
roll_back_edges application_id revision_id = do
  g ← get_state
  target ← lift (get_item g.revisions revision_id)
  check (target.application_id == application_id) value_error
  check (was_active target.status) validation_failure
  activate_edges revision_id

module _ (ports : Ports) where
  unfoldable pub rollback : String → String → Act ApplicationRevision
  rollback application_id revision_id = do
    (activated, superseded_id) ← transaction (roll_back_edges application_id revision_id)
    evict ports superseded_id
    pure activated
