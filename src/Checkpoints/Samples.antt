-- ===== src/Checkpoints/Samples.antt =====
-- A checkpoint before an activation, restored after it, and the theorem at these inputs.
use n4x_core.Prelude.{
  String, ◌≡◌, refl, sym, ap, ◌∙◌, Option, none, some, some_injective, [], ◌∷◌, inl, inr,
}
use n4x_core.Prelude.Result.{ok, raise}
use n4x_core.Kernel.Jobs.{Application, ApplicationStatus, ApplicationRevision, RevisionStatus}
use n4x_core.Graph.Records
use n4x_core.Graph.Records.{RecordCollection, get-save-cases}
use n4x_core.Graph.Edges.{create_edge}
use n4x_core.Graph.Bindings.{get_item}
use n4x_core.Activation.State.{ActivationGraph, key_error}
use n4x_core.Activation.Consistent.{IsConsistent}
use n4x_core.Checkpoints.State.{
  CheckpointLevel, CheckpointGraph, Codec, revision_statuses, definition_states,
}
use n4x_core.Checkpoints.Service.{
  restore_statuses, restore_revision_state, capture_payload, new_checkpoint, create, restore,
}
use n4x_core.Checkpoints.Statuses.{status_or, restored}
use n4x_core.Checkpoints.RoundTrip.{restore-create}
use n4x_core.Activation.Restored.{Restored}

program : Unit {0}
unfolding Records.get Records.save Records.values definition_states create_edge get_item
    revision_statuses restore_statuses restore_revision_state capture_payload create restore
program = tt

abbrev no_rows : {V : Type 0} → RecordCollection V
no_rows = record { rows = [] }

abbrev application : Option String → Application
application active_revision_id = record {
  id = "a";
  active_revision_id = active_revision_id;
  status = ApplicationStatus.active;
}

abbrev revision_with : RevisionStatus → ApplicationRevision
revision_with status = record {
  id = "r";
  application_id = "a";
  parent_revision_id = none;
  status = status;
}

abbrev graph_with : Option String → RevisionStatus → ActivationGraph
graph_with active_revision_id status = record {
  applications = Records.save no_rows "a" (application active_revision_id);
  revisions = Records.save no_rows "r" (revision_with status);
  definitions = λ kind. no_rows;
  definition_revisions = λ kind. no_rows;
  edges = [];
}

abbrev before : CheckpointGraph (Unit {0})
before = record {
  graph = graph_with none RevisionStatus.draft;
  data_of = tt;
  checkpoints = no_rows;
  checkpoint_snapshots = no_rows;
  checkpoint_blobs = no_rows;
}

-- There is one payload, whose text is empty.
abbrev codec : Codec (Unit {0}) (Unit {0})
codec = record {
  serialize = λ p. "";
  parse = λ text. record {
    application_id = "a";
    active_revision_id = none;
    revision_statuses = ("r", RevisionStatus.draft) ∷ [];
    definitions = [];
    objects_and_relations = none;
  };
  b64encode = λ text. text;
  b64decode = λ text. text;
  sha256_text = λ text. text;
  list_data = λ application_id d. tt;
  replace_data = λ application_id x d. ok d;
}

abbrev after : CheckpointGraph (Unit {0})
after = record (create codec "a" CheckpointLevel.revision "activation" "cp" before).1 {
  graph = graph_with (some "r") RevisionStatus.active;
}

absent : {V : Type 0} (k : String) (v : V) → ¬ (◌≡◌ {A = Option V} (Records.get no_rows k) (some v))
unfolding Records.get
absent k v h = cc

only_row :
    {V : Type 0} (j k : String) (w : V) {v : V}
    → Records.get (Records.save no_rows j w) k ≡ some v
    → (j ≡ k) × (w ≡ v)
only_row j k w {v} h = elim (get-save-cases no_rows j k w h) [
  | inl e ↦ e
  | inr (ne, e) ↦ absurd (absent k v e)
]

after-IsConsistent : IsConsistent after.graph
after-IsConsistent = record {
  keyed = λ {r} {v} h.
      let (i, e) = only_row "r" r (revision_with RevisionStatus.active) h in
      sym (ap (λ (u : ApplicationRevision). u.id) e) ∙ i;
  app_keyed = λ {k} {a} h.
      let (i, e) = only_row "a" k (application (some "r")) h in
      sym (ap (λ (u : Application). u.id) e) ∙ i;
  named = λ {k} {a} {r} h e.
      let (i, p) = only_row "a" k (application (some "r")) h in
      (
        revision_with RevisionStatus.active,
        ap (λ x. Records.get after.graph.revisions x)
              (some_injective (sym e ∙ sym (ap (λ (u : Application). u.active_revision_id) p)))
            ∙ (unfold program in refl),
        refl,
        i,
      );
  only = λ {r} {v} h e.
      let (i, p) = only_row "r" r (revision_with RevisionStatus.active) h in
      (
        application (some "r"),
        ap (λ x. Records.get after.graph.applications x)
              (sym (ap (λ (u : ApplicationRevision). u.application_id) p))
            ∙ (unfold program in refl),
        ap (λ x. some x) i,
      );
}

restore-create_example :
    (u : CheckpointGraph (Unit {0})) × (restore codec "cp" after ≡ (
      ok (new_checkpoint codec "a" CheckpointLevel.revision "activation" "cp" (application none)),
      u,
    ))
    × (Records.get u.graph.applications "a" ≡ some (application none))
    × ((r : String)
        → Records.get u.graph.revisions r
          ≡ restored
              (status_or "a" (Records.get before.graph.revisions r) none)
              (Records.get after.graph.revisions r))
restore-create_example =
    restore-create codec (λ text. refl) (λ application_id x d. (d, refl)) "a"
      CheckpointLevel.revision "activation" "cp" (application none) (application (some "r")) before
      after (unfold program in refl) (unfold program in refl) (unfold program in (refl, tt))
      (unfold program in (refl, tt)) after-IsConsistent (unfold program in refl)
      (unfold program in tt) refl refl refl

-- The application is as it was, and its revision is a draft again.
restored_state :
    let outcome = restore codec "cp" after in
    (Records.get outcome.1.graph.applications "a" ≡ some (application none))
    × (Records.get outcome.1.graph.revisions "r" ≡ some (revision_with RevisionStatus.draft))
unfolding program
restored_state = (refl, refl)

-- There is no such checkpoint.
missing : (restore codec "other" after).0 ≡ raise key_error
unfolding program
missing = refl
