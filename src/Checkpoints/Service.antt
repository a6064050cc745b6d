-- ===== src/Checkpoints/Service.antt =====
-- `create` and `restore`. The fresh id of a checkpoint is an argument.
use n4x_core.Prelude.{
  String, Bool, true, false, not, ◌&&◌, Option, none, some, List, [], ◌∷◌, filter, ◌==◌, ◌<>◌,
}
use n4x_core.Prelude.Result.{Result, ok}
use n4x_core.Prelude.Exec.{Exec, pure, lift, throw, transaction, get_state, modify, ◌>>=◌, ◌>>◌}
use n4x_core.Kernel.Jobs.{Application, ApplicationRevision, RevisionStatus}
use n4x_core.Graph.Records
use n4x_core.Graph.Records.{RecordCollection}
use n4x_core.Graph.Edges.{NodeRef, node_ref, ref_eq, create_edge}
use n4x_core.Activation.State.{
  stable_label, revision_label, ActivationGraph, ActivationError, value_error, Act, get_item,
}
use n4x_core.Activation.Switch.{save_application, save_definition}
use n4x_core.Checkpoints.State.{
  CheckpointLevel, revision, application_data, GraphCheckpoint, CheckpointSnapshot, CheckpointBlob,
  DefinitionState, Payload, CheckpointGraph, Codec, revision_statuses, definition_states,
}

-- `delete_edge`, and `create_edge` if there is an active revision.
abbrev pub active_edge : NodeRef → String → Option String → ActivationGraph → ActivationGraph
active_edge ref label id g =
    let rest =
      filter (λ e. not (ref_eq e.from_ref ref && e.edge_type == "ACTIVE_REVISION")) g.edges in
    record g {
      edges = elim id [
        | none ↦ rest
        | some i ↦ create_edge ref "ACTIVE_REVISION" (node_ref label i) rest
      ];
    }

abbrev pub with_status :
    RevisionStatus
    → Option ApplicationRevision
    → RecordCollection ApplicationRevision
    → RecordCollection ApplicationRevision
with_status status none c = c
with_status status (some r) c = Records.save c r.id (record r { status = status })

unfoldable pub restore_statuses :
    List (String × RevisionStatus)
    → RecordCollection ApplicationRevision
    → RecordCollection ApplicationRevision
restore_statuses [] c = c
restore_statuses ((revision_id, status) ∷ statuses) c =
    restore_statuses statuses (with_status status (Records.get c revision_id) c)

abbrev pub restore_definitions : List DefinitionState → Act Unit
restore_definitions [] = pure tt
restore_definitions (item ∷ items) = do
  g ← get_state
  stable ← lift (get_item (g.definitions item.kind) item.id)
  modify
      (save_definition item.kind (record stable { active_revision_id = item.active_revision_id }))
  modify (
      active_edge (node_ref (stable_label item.kind) stable.id) (revision_label item.kind)
        item.active_revision_id)
  restore_definitions items

abbrev pub require_same : Bool → Act Unit
require_same true = pure tt
require_same false = throw value_error

unfoldable pub restore_revision_state : {X : Type 0} → String → Payload X → Act Unit
restore_revision_state application_id payload = do
  require_same (payload.application_id == application_id)
  g ← get_state
  application ← lift (get_item g.applications application_id)
  modify (save_application (record application { active_revision_id = payload.active_revision_id }))
  modify (
      active_edge (node_ref "Application" application_id) "ApplicationRevision"
        payload.active_revision_id)
  modify (λ h. record h { revisions = restore_statuses payload.revision_statuses h.revisions })
  restore_definitions payload.definitions

module _ {D X : Type 0} (codec : Codec D X) where
  abbrev pub Stored : Type 0 → Type 0
  Stored A = Exec (CheckpointGraph D) ActivationError A

  abbrev pub data_at : CheckpointLevel → String → D → Option X
  data_at revision application_id d = none
  data_at application_data application_id d = some (codec.list_data application_id d)

  unfoldable pub capture_payload :
      String → CheckpointLevel → Application → CheckpointGraph D → Payload X
  capture_payload application_id level application s = record {
    application_id = application_id;
    active_revision_id = application.active_revision_id;
    revision_statuses = revision_statuses application_id s.graph.revisions.rows [];
    definitions = definition_states application_id s.graph;
    objects_and_relations = data_at level application_id s.data_of;
  }

  -- The three records that `create` saves.
  abbrev pub new_checkpoint :
      String → CheckpointLevel → String → String → Application → GraphCheckpoint
  new_checkpoint application_id level reason checkpoint_id application = record {
    id = checkpoint_id;
    level = level;
    application_id = application_id;
    application_revision_id = application.active_revision_id;
    snapshot_id = checkpoint_id <> ".snapshot";
    reason = reason;
  }

  abbrev pub new_snapshot : CheckpointLevel → String → String → CheckpointSnapshot
  new_snapshot level checkpoint_id serialized = record {
    id = checkpoint_id <> ".snapshot";
    checkpoint_id = checkpoint_id;
    level = level;
    content_hash = codec.sha256_text serialized;
    blob_id = checkpoint_id <> ".blob";
  }

  abbrev pub new_blob : String → String → CheckpointBlob
  new_blob checkpoint_id serialized = record {
    id = checkpoint_id <> ".blob";
    checkpoint_id = checkpoint_id;
    snapshot_id = checkpoint_id <> ".snapshot";
    payload = codec.b64encode serialized;
  }

  unfoldable pub create : String → CheckpointLevel → String → String → Stored GraphCheckpoint
  create application_id level reason checkpoint_id = transaction do
    s ← get_state
    application ← lift (get_item s.graph.applications application_id)
    let serialized = codec.serialize (capture_payload application_id level application s)
    let checkpoint = new_checkpoint application_id level reason checkpoint_id application
    modify (λ t. record t {
      checkpoints = Records.save t.checkpoints checkpoint_id checkpoint;
      checkpoint_snapshots =
          Records.save t.checkpoint_snapshots (checkpoint_id <> ".snapshot")
            (new_snapshot level checkpoint_id serialized);
      checkpoint_blobs =
          Records.save t.checkpoint_blobs (checkpoint_id <> ".blob")
            (new_blob checkpoint_id serialized);
    })
    pure checkpoint

  abbrev pub restore_data : CheckpointLevel → String → Option X → D → Result ActivationError D
  restore_data revision application_id x d = ok d
  restore_data application_data application_id x d = codec.replace_data application_id x d

  abbrev pub put_graph :
      CheckpointGraph D
      → Result ActivationError (Unit {0}) × ActivationGraph
      → Result ActivationError (Unit {0}) × CheckpointGraph D
  put_graph s (r, g) = (r, record s { graph = g })

  abbrev pub check_hash : Bool → Stored Unit
  check_hash true = pure tt
  check_hash false = throw value_error

  abbrev pub restore_payload : GraphCheckpoint → Payload X → Stored GraphCheckpoint
  restore_payload checkpoint payload = do
    (λ t. put_graph t (restore_revision_state checkpoint.application_id payload t.graph))
    t ← get_state
    restored ← lift (
        restore_data checkpoint.level checkpoint.application_id payload.objects_and_relations
          t.data_of)
    modify (λ u. record u { data_of = restored })
    pure checkpoint

  abbrev pub restore_serialized : GraphCheckpoint → String → String → Stored GraphCheckpoint
  restore_serialized checkpoint content_hash serialized = do
    check_hash (codec.sha256_text serialized == content_hash)
    restore_payload checkpoint (codec.parse serialized)

  unfoldable pub restore : String → Stored GraphCheckpoint
  restore checkpoint_id = transaction do
    s ← get_state
    checkpoint ← lift (get_item s.checkpoints checkpoint_id)
    snapshot ← lift (get_item s.checkpoint_snapshots checkpoint.snapshot_id)
    blob ← lift (get_item s.checkpoint_blobs snapshot.blob_id)
    restore_serialized checkpoint snapshot.content_hash (codec.b64decode blob.payload)
