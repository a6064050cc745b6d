-- ===== src/Checkpoints/State.antt =====
-- Checkpoints with their snapshots, and the payload that a snapshot holds.
use n4x_core.Prelude.{String, Option, List, [], ◌∷◌, ◌++◌, filter, map, if◌then◌else◌, ◌==◌}
use n4x_core.Prelude.Sorting.{sorted_by}
use n4x_core.Prelude.Result.{Result}
use n4x_core.Kernel.Jobs.{ApplicationRevision, RevisionStatus}
use n4x_core.Kernel.Experiences.{Definition}
use n4x_core.Graph.Records
use n4x_core.Graph.Records.{RecordCollection, upsert_row}
use n4x_core.Activation.State.{
  Kind, action, trigger, object_type, relation_type, ActivationGraph, ActivationError,
}

pub data CheckpointLevel : Type 0 where
  revision application_data : CheckpointLevel

pub record GraphCheckpoint : Type 0 where
  pub id : String
  pub level : CheckpointLevel
  pub application_id : String
  pub application_revision_id : Option String
  pub snapshot_id : String
  pub reason : String

pub record CheckpointSnapshot : Type 0 where
  pub id : String
  pub checkpoint_id : String
  pub level : CheckpointLevel
  pub content_hash : String
  pub blob_id : String

pub record CheckpointBlob : Type 0 where
  pub id : String
  pub checkpoint_id : String
  pub snapshot_id : String
  pub payload : String

pub record DefinitionState : Type 0 where
  pub kind : Kind
  pub id : String
  pub active_revision_id : Option String

-- `X` is what `objects` and `relations` hold; there is none at the level "revision".
pub record Payload (X : Type 0) : Type 0 where
  pub application_id : String
  pub active_revision_id : Option String
  pub revision_statuses : List (String × RevisionStatus)
  pub definitions : List DefinitionState
  pub objects_and_relations : Option X

-- `D` is what the repositories of objects and relations keep.
pub record CheckpointGraph (D : Type 0) : Type 0 where
  pub graph : ActivationGraph
  pub data_of : D
  pub checkpoints : RecordCollection GraphCheckpoint
  pub checkpoint_snapshots : RecordCollection CheckpointSnapshot
  pub checkpoint_blobs : RecordCollection CheckpointBlob

-- `json.dumps` with base64, and back, sha256, and the repositories of objects and relations.
pub record Codec (D X : Type 0) : Type 0 where
  pub serialize : Payload X → String
  pub parse : String → Payload X
  pub b64encode : String → String
  pub b64decode : String → String
  pub sha256_text : String → String
  pub list_data : String → D → X
  pub replace_data : String → Option X → D → Result ActivationError D

-- The dict of the statuses of an application's revisions.
unfoldable pub revision_statuses :
    String
    → List (String × ApplicationRevision)
    → List (String × RevisionStatus)
    → List (String × RevisionStatus)
revision_statuses application_id [] statuses = statuses
revision_statuses application_id ((_, item) ∷ rows) statuses =
    revision_statuses application_id rows (
      if item.application_id == application_id
      then upsert_row item.id item.status statuses
      else statuses)

abbrev pub states_of : String → Kind → RecordCollection Definition → List DefinitionState
states_of application_id kind c =
    map (λ d. record { kind = kind; id = d.id; active_revision_id = d.active_revision_id })
      (filter (λ d. d.application_id == application_id) (Records.values c))

-- The labels in their order as texts.
unfoldable pub definition_states : String → ActivationGraph → List DefinitionState
definition_states application_id g =
    let of = λ (kind : Kind).
      sorted_by (λ (d : DefinitionState). d.id)
        (states_of application_id kind (g.definitions kind)) in
    of action ++ of object_type ++ of relation_type ++ of trigger
