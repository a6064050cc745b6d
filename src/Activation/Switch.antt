-- ===== src/Activation/Switch.antt =====
-- The units of work of an activation: `_freeze`, `_activate_edges` with `_activate_revision_set`, and
-- `_reject`.
use n4x_core.Prelude.{
  String, Bool, true, false, not, ◌&&◌, Option, none, some, List, [], ◌∷◌, filter, if◌then◌else◌,
  ◌==◌,
}
use n4x_core.Prelude.Result.{Result, ok, raise}
use n4x_core.Prelude.Exec.{pure, lift, throw, transaction, get_state, modify, ◌>>=◌, ◌>>◌}
use n4x_core.Kernel.Jobs.{Application, ApplicationStatus, ApplicationRevision, RevisionStatus}
use n4x_core.Kernel.Experiences.{Definition}
use n4x_core.Kernel.Definitions.{DefinitionRevision}
use n4x_core.Graph.Records
use n4x_core.Graph.Edges.{NodeRef, EdgeRecord, node_ref, ref_eq, create_edge, list_edges}
use n4x_core.Activation.State.{
  Kind, action, trigger, object_type, relation_type, kind_eq, stable_label, revision_label,
  ActivationGraph, ActivationError, immutable_revision, concurrent_update, key_error, Act, Ports,
  get_item, bound_revisions,
}

abbrev pub save_revision : ApplicationRevision → ActivationGraph → ActivationGraph
save_revision r g = record g { revisions = Records.save g.revisions r.id r }

abbrev pub save_application : Application → ActivationGraph → ActivationGraph
save_application a g = record g { applications = Records.save g.applications a.id a }

abbrev pub save_definition : Kind → Definition → ActivationGraph → ActivationGraph
save_definition kind d g = record g {
  definitions =
      λ k. if kind_eq k kind then Records.save (g.definitions k) d.id d else g.definitions k;
}

-- `delete_edge` and then `create_edge`.
abbrev pub replace_edge : NodeRef → String → NodeRef → ActivationGraph → ActivationGraph
replace_edge ref edge_type to_ref g = record g {
  edges =
      create_edge ref edge_type to_ref
        (filter (λ e. not (ref_eq e.from_ref ref && e.edge_type == edge_type)) g.edges);
}

-- `require_current_match`: no edge where none is expected, else one to what is expected.
abbrev pub matches_current : Option NodeRef → List EdgeRecord → Bool
matches_current none [] = true
matches_current none (e ∷ es) = false
matches_current (some ref) [] = false
matches_current (some ref) (e ∷ []) = ref_eq e.to_ref ref
matches_current (some ref) (e ∷ f ∷ es) = false

abbrev pub revision_ref : Option String → Option NodeRef
revision_ref none = none
revision_ref (some id) = some (node_ref "ApplicationRevision" id)

abbrev pub replace_if : Bool → String → String → Act Unit
replace_if false application_id revision_id = throw concurrent_update
replace_if true application_id revision_id = modify (
    replace_edge (node_ref "Application" application_id) "ACTIVE_REVISION"
      (node_ref "ApplicationRevision" revision_id))

unfoldable pub replace_active_revision : String → String → Option String → Act Unit
replace_active_revision application_id revision_id expected = do
  g ← get_state
  let current = list_edges (node_ref "Application" application_id) "ACTIVE_REVISION" g.edges
  replace_if (matches_current (revision_ref expected) current) application_id revision_id

abbrev pub activate_each : Kind → List DefinitionRevision → Act Unit
activate_each kind [] = pure tt
activate_each kind (revision ∷ revisions) = do
  g ← get_state
  stable ← lift (get_item (g.definitions kind) revision.stable_id)
  modify (save_definition kind (record stable { active_revision_id = some revision.id }))
  modify (
      replace_edge (node_ref (stable_label kind) stable.id) "ACTIVE_REVISION"
        (node_ref (revision_label kind) revision.id))
  activate_each kind revisions

abbrev pub activate_set : String → Kind → Act Unit
activate_set revision_id kind = do
  g ← get_state
  revisions ← lift (bound_revisions kind revision_id g)
  activate_each kind revisions

unfoldable pub activate_sets : String → Act Unit
activate_sets revision_id = do
  activate_set revision_id action
  activate_set revision_id trigger
  activate_set revision_id object_type
  activate_set revision_id relation_type

abbrev pub enabled_status : ApplicationStatus → ApplicationStatus
enabled_status ApplicationStatus.disabled = ApplicationStatus.triggers_paused
enabled_status ApplicationStatus.active = ApplicationStatus.active
enabled_status ApplicationStatus.triggers_paused = ApplicationStatus.triggers_paused
enabled_status ApplicationStatus.importing = ApplicationStatus.importing

-- What `_activate_edges` saves, with the id of the revision that is superseded.
pub record Switched : Type 0 where
  pub graph : ActivationGraph
  pub superseded_id : Option String

abbrev pub with_active : ApplicationRevision → Application → ActivationGraph → ActivationGraph
with_active target application g =
    save_application
      (record application {
        active_revision_id = some target.id;
        status = enabled_status application.status;
      })
      (save_revision (record target { status = RevisionStatus.active }) g)

abbrev pub supersede : ApplicationRevision → ApplicationRevision → ActivationGraph → Switched
supersede target current g =
    if current.id == target.id then record { graph = g; superseded_id = none } else record {
      graph = save_revision (record current { status = RevisionStatus.superseded }) g;
      superseded_id = some current.id;
    }

abbrev pub supersede_found :
    ApplicationRevision
    → Option ApplicationRevision
    → ActivationGraph
    → Result ActivationError Switched
supersede_found target none g = raise key_error
supersede_found target (some current) g = ok (supersede target current g)

abbrev pub supersede_active :
    ApplicationRevision → Option String → ActivationGraph → Result ActivationError Switched
supersede_active target none g = ok (record { graph = g; superseded_id = none })
supersede_active target (some current_id) g =
    supersede_found target (Records.get g.revisions current_id) g

unfoldable pub activate_edges : String → Act (ApplicationRevision × Option String)
activate_edges revision_id = do
  g ← get_state
  target ← lift (get_item g.revisions revision_id)
  application ← lift (get_item g.applications target.application_id)
  s ← lift (supersede_active target application.active_revision_id g)
  modify (λ _. with_active target application s.graph)
  replace_active_revision application.id target.id application.active_revision_id
  activate_sets target.id
  pure (record target { status = RevisionStatus.active }, s.superseded_id)

module _ (ports : Ports) where
  abbrev pub freeze_status : ApplicationRevision → RevisionStatus → Act Unit
  freeze_status r RevisionStatus.draft = do
    modify (save_revision (record r { status = RevisionStatus.validating }))
    ports.intern_tree r.id
  freeze_status r RevisionStatus.validating = ports.intern_tree r.id
  freeze_status r _ = throw immutable_revision

  unfoldable pub freeze : String → Act Unit
  freeze revision_id = do
    g ← get_state
    r ← lift (get_item g.revisions revision_id)
    freeze_status r r.status

abbrev pub reject_status : ApplicationRevision → RevisionStatus → Act Unit
reject_status r RevisionStatus.validating =
    modify (save_revision (record r { status = RevisionStatus.rejected }))
reject_status r _ = pure tt

abbrev pub reject_found : Option ApplicationRevision → Act Unit
reject_found none = pure tt
reject_found (some r) = reject_status r r.status

unfoldable pub reject : String → Act Unit
reject revision_id =
    transaction do g ← get_state; reject_found (Records.get g.revisions revision_id)
