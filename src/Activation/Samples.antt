-- ===== src/Activation/Samples.antt =====
-- An Application with an active revision and a draft, and the theorems at these inputs.
use n4x_core.Prelude.{
  String, ◌≡◌, refl, sym, ◌∙◌, true, Option, some_injective, map, none, some, [], ◌∷◌, ap, ◌⊎◌, inl,
  inr,
}
use n4x_core.Prelude.Result.{raise}
use n4x_core.Prelude.Exec.{pure, throw}
use n4x_core.Kernel.Jobs.{Application, ApplicationStatus, ApplicationRevision, RevisionStatus}
use n4x_core.Kernel.Experiences.{Definition}
use n4x_core.Kernel.Definitions.{DefinitionRevision}
use n4x_core.Graph.Records
use n4x_core.Graph.Records.{RecordCollection, get-save-cases}
use n4x_core.Graph.Edges.{node_ref, create_edge, list_edges}
use n4x_core.Graph.Bindings.{get_item, targets}
use n4x_core.Activation.State.{
  Kind, action, ActivationGraph, validation_failure, service_error, Ports, action_revisions,
  migrations,
}
use n4x_core.Activation.Switch.{
  activate_edges, activate_sets, replace_active_revision, freeze, reject,
}
use n4x_core.Activation.Service.{
  prepare, switch, run_migrations, checkpoint_if_mutating, recover, restore_checkpoint, activate,
  activate_with, rollback, roll_back_edges,
}
use n4x_core.Activation.Consistent.{IsConsistent}
use n4x_core.Activation.Services.{KeepConsistent, RestoreCaptured}
use n4x_core.Activation.Steps.{here, next, activated, rolled_back, Reach-IsConsistent}

program : Unit {0}
unfolding Records.get Records.save create_edge list_edges get_item targets action_revisions
    migrations activate_edges activate_sets replace_active_revision freeze reject prepare switch
    run_migrations checkpoint_if_mutating recover restore_checkpoint activate activate_with rollback
    roll_back_edges
program = tt

abbrev no_rows : {V : Type 0} → RecordCollection V
no_rows = record { rows = [] }

-- Services with nothing to do.
abbrev idle : Ports
idle = record {
  intern_tree = λ revision_id. pure tt;
  resolve_dependencies = λ revision_id. pure tt;
  build_revision_artifacts = λ revision_id. pure tt;
  run_migration = λ revision_id action_id. pure tt;
  create_checkpoint = λ application_id. pure "cp";
  restore_checkpoint = λ checkpoint_id. pure tt;
  remount = pure tt;
  evict_revision = λ revision_id. pure tt;
}

abbrev application : Application
application = record {
  id = "a";
  active_revision_id = some "r1";
  status = ApplicationStatus.disabled;
}

abbrev revision : String → RevisionStatus → ApplicationRevision
revision id status = record {
  id = id;
  application_id = "a";
  parent_revision_id = none;
  status = status;
}

abbrev definitions : Kind → RecordCollection Definition
definitions action = record {
  rows = ("act", record { id = "act"; application_id = "a"; active_revision_id = none }) ∷ [];
}
definitions _ = no_rows

abbrev definition_revisions : Kind → RecordCollection DefinitionRevision
definition_revisions action = record {
  rows =
      (
        "ar",
        record {
          id = "ar";
          stable_id = "act";
          source_paths = [];
          is_migration = true;
          mutates_application_data = true;
          from_object_type_id = "";
          to_object_type_id = "";
        },
      )
      ∷ [];
}
definition_revisions _ = no_rows

abbrev graph : ActivationGraph
graph = record {
  applications = Records.save no_rows "a" application;
  revisions =
      Records.save (Records.save no_rows "r1" (revision "r1" RevisionStatus.active)) "r2"
        (revision "r2" RevisionStatus.draft);
  definitions = definitions;
  definition_revisions = definition_revisions;
  edges =
      create_edge (node_ref "ApplicationRevision" "r2") "HAS_ACTION_REVISION"
        (node_ref "ActionRevision" "ar")
        (create_edge (node_ref "Application" "a") "ACTIVE_REVISION"
          (node_ref "ApplicationRevision" "r1") []);
}

absent : {V : Type 0} (k : String) (v : V) → ¬ (◌≡◌ {A = Option V} (Records.get no_rows k) (some v))
unfolding Records.get
absent k v h = cc

application_row :
    (k : String) {a : Application}
    → Records.get graph.applications k ≡ some a
    → ("a" ≡ k) × (application ≡ a)
application_row k {a} h = elim (get-save-cases no_rows "a" k application h) [
  | inl e ↦ e
  | inr (ne, e) ↦ absurd (absent k a e)
]

revision_row :
    (r : String) {v : ApplicationRevision}
    → Records.get graph.revisions r ≡ some v
    → (("r1" ≡ r) × (revision "r1" RevisionStatus.active ≡ v))
      ⊎ (("r2" ≡ r) × (revision "r2" RevisionStatus.draft ≡ v))
revision_row r {v} h = elim (get-save-cases _ "r2" r (revision "r2" RevisionStatus.draft) h) [
  | inl e ↦ inr e
  | inr (ne, e) ↦ elim (get-save-cases no_rows "r1" r (revision "r1" RevisionStatus.active) e) [
    | inl q ↦ inl q
    | inr (_, q) ↦ absurd (absent r v q)
  ]
]

graph-IsConsistent : IsConsistent graph
graph-IsConsistent = record {
  keyed = λ {r} {v} h. elim (revision_row r h) [
    | inl (i, e) ↦ sym (ap (λ (u : ApplicationRevision). u.id) e) ∙ i
    | inr (i, e) ↦ sym (ap (λ (u : ApplicationRevision). u.id) e) ∙ i
  ];
  app_keyed =
      λ {k} {a} h. let (i, e) = application_row k h in sym (ap (λ (u : Application). u.id) e) ∙ i;
  named = λ {k} {a} {r} h e.
      let (i, p) = application_row k h in
      (
        revision "r1" RevisionStatus.active,
        ap (λ x. Records.get graph.revisions x)
              (some_injective (sym e ∙ sym (ap (λ (u : Application). u.active_revision_id) p)))
            ∙ (unfold program in refl),
        refl,
        i,
      );
  only = λ {r} {v} h e. elim (revision_row r h) [
    | inl (i, p) ↦ (
      application,
      ap (λ x. Records.get graph.applications x)
            (sym (ap (λ (u : ApplicationRevision). u.application_id) p))
          ∙ (unfold program in refl),
      ap (λ x. some x) i,
    )
    | inr (i, p) ↦ absurd (cc (ap (λ (u : ApplicationRevision). u.status) p ∙ e))
  ];
}

-- Every migration fails, so that an activation takes its checkpoint back.
abbrev failing : Ports
failing = record idle { run_migration = λ revision_id action_id. throw service_error }

failing-KeepConsistent : KeepConsistent failing
failing-KeepConsistent = record {
  interns = λ revision_id g c. (c, λ r. refl);
  resolves = λ revision_id g c. (c, λ r. refl);
  builds = λ revision_id g c. (c, λ r. refl);
  migrates = λ revision_id action_id g c. (c, λ r. refl);
  captures = λ application_id g c. (c, λ r. refl);
  remounts = λ g c. (c, λ r. refl);
  evicts = λ revision_id g c. (c, λ r. refl);
}

failing-RestoreCaptured : RestoreCaptured failing
failing-RestoreCaptured = record {
  restores = λ application_id checkpoint_id c d g e was now. inl refl;
}

abbrev after : ActivationGraph
after = (activate idle "r2" "normal" graph).1

abbrev recovered : ActivationGraph
recovered = (activate failing "r2" "normal" graph).1

Reach-IsConsistent_example : IsConsistent (rollback failing "a" "r1" recovered).1
Reach-IsConsistent_example =
    Reach-IsConsistent failing failing-KeepConsistent failing-RestoreCaptured graph
      (rollback failing "a" "r1" recovered).1 graph-IsConsistent
      (next (next here (activated "r2" "normal")) (rolled_back "a" "r1"))

-- A disabled Application is switched with its triggers paused, and the old revision is superseded.
switched :
    (Records.get after.applications "a"
      ≡ some (record {
        id = "a";
        active_revision_id = some "r2";
        status = ApplicationStatus.triggers_paused;
      }))
    × (Records.get after.revisions "r1" ≡ some (revision "r1" RevisionStatus.superseded))
    × (map
          (λ e. e.to_ref.id)
          (list_edges (node_ref "Application" "a") "ACTIVE_REVISION" after.edges)
        ≡ "r2" ∷ [])
unfolding program
switched = (refl, refl, refl)

-- An active revision is not activated again.
not_again : (activate idle "r1" "normal" graph).0 ≡ raise validation_failure
unfolding program
not_again = refl

-- The draft of an activation whose build fails is rejected, and the Application is as it was.
rejected :
    let outcome =
      activate
        (record idle { build_revision_artifacts = λ revision_id. throw service_error })
        "r2"
        "normal"
        graph in
    (outcome.0 ≡ raise validation_failure)
    × (Records.get outcome.1.revisions "r2" ≡ some (revision "r2" RevisionStatus.rejected))
    × (Records.get outcome.1.applications "a" ≡ some application)
unfolding program
rejected = (refl, refl, refl)

-- So is the one whose migration fails.
recovered_state :
    (Records.get recovered.revisions "r2" ≡ some (revision "r2" RevisionStatus.rejected))
    × (Records.get recovered.applications "a" ≡ some application)
unfolding program
recovered_state = (refl, refl)
