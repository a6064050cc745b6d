-- ===== src/Activation/State.antt =====
-- The graph as `ActivationService` sees it, the services it is constructed with, and its migrations.
use n4x_core.Prelude.{
  String, Bool, true, false, Option, none, some, List, [], ◌∷◌, if◌then◌else◌, ◌==◌,
}
use n4x_core.Prelude.Sorting.{sorted_by}
use n4x_core.Prelude.Result.{Result, ok, ◌>>=◌}
use n4x_core.Prelude.Exec.{Exec}
use n4x_core.Kernel.Jobs.{Application, ApplicationRevision}
use n4x_core.Kernel.Experiences.{Definition}
use n4x_core.Kernel.Definitions.{DefinitionRevision}
use n4x_core.Graph.Records.{RecordCollection, get_row, upsert_row}
use n4x_core.Graph.Edges.{EdgeRecord}
use n4x_core.Graph.Bindings.{bound, get_item as item_of}

-- The four kinds of definition that a revision binds.
pub data Kind : Type 0 where
  action trigger object_type relation_type : Kind

abbrev pub kind_eq : Kind → Kind → Bool
kind_eq action action = true
kind_eq trigger trigger = true
kind_eq object_type object_type = true
kind_eq relation_type relation_type = true
kind_eq _ _ = false

abbrev pub stable_label : Kind → String
stable_label action = "Action"
stable_label trigger = "Trigger"
stable_label object_type = "ObjectType"
stable_label relation_type = "RelationType"

abbrev pub revision_label : Kind → String
revision_label action = "ActionRevision"
revision_label trigger = "TriggerRevision"
revision_label object_type = "ObjectTypeRevision"
revision_label relation_type = "RelationTypeRevision"

abbrev pub binding : Kind → String
binding action = "HAS_ACTION_REVISION"
binding trigger = "HAS_TRIGGER_REVISION"
binding object_type = "HAS_OBJECT_TYPE_REVISION"
binding relation_type = "HAS_RELATION_TYPE_REVISION"

pub record ActivationGraph : Type 0 where
  pub applications : RecordCollection Application
  pub revisions : RecordCollection ApplicationRevision
  pub definitions : Kind → RecordCollection Definition
  pub definition_revisions : Kind → RecordCollection DefinitionRevision
  pub edges : List EdgeRecord

-- `ValidationFailure`, `ImmutableRevisionError`, `ConcurrentGraphUpdateError`, Python's own, and what
-- the other services raise.
pub data ActivationError : Type 0 where
  validation_failure immutable_revision concurrent_update key_error value_error service_error :
      ActivationError

abbrev pub Act : Type 0 → Type 0
Act = Exec ActivationGraph ActivationError

-- The services that `ActivationService` is constructed with, and `CheckpointService`.
pub record Ports : Type 0 where
  pub intern_tree : String → Act Unit
  pub resolve_dependencies : String → Act Unit
  pub build_revision_artifacts : String → Act Unit
  pub run_migration : String → String → Act Unit
  pub create_checkpoint : String → Act String
  pub restore_checkpoint : String → Act Unit
  pub remount : Act Unit
  pub evict_revision : String → Act Unit

abbrev pub get_item : {V : Type 0} → RecordCollection V → String → Result ActivationError V
get_item c key = item_of key_error c key

-- `RevisionBindings.action_revisions` and its likes.
abbrev pub bound_revisions :
    Kind → String → ActivationGraph → Result ActivationError (List DefinitionRevision)
bound_revisions kind revision_id g =
    bound key_error (g.definition_revisions kind) revision_id (binding kind) g.edges

unfoldable pub action_revisions :
    String → ActivationGraph → Result ActivationError (List DefinitionRevision)
action_revisions revision_id g = do
  items ← bound_revisions action revision_id g
  ok (sorted_by (λ item. item.id) items)

-- {item.action_id: item for item in items if item.kind == "migration"}
abbrev pub migrations_by_action :
    List DefinitionRevision
    → List (String × DefinitionRevision)
    → List (String × DefinitionRevision)
migrations_by_action [] rows = rows
migrations_by_action (item ∷ items) rows =
    migrations_by_action items
      (if item.is_migration then upsert_row item.stable_id item rows else rows)

abbrev pub is_same_item : Option DefinitionRevision → DefinitionRevision → Bool
is_same_item none item = false
is_same_item (some parent) item = parent.id == item.id

abbrev pub new_items :
    List (String × DefinitionRevision)
    → List (String × DefinitionRevision)
    → List DefinitionRevision
new_items parents [] = []
new_items parents ((action_id, item) ∷ rows) =
    let rest = new_items parents rows in
    if is_same_item (get_row action_id parents) item then rest else item ∷ rest

abbrev pub parent_actions :
    Option String → ActivationGraph → Result ActivationError (List DefinitionRevision)
parent_actions none g = ok []
parent_actions (some parent_id) g = action_revisions parent_id g

unfoldable pub migrations :
    String → ActivationGraph → Result ActivationError (List DefinitionRevision)
migrations revision_id g = do
  items ← action_revisions revision_id g
  target ← get_item g.revisions revision_id
  parents ← parent_actions target.parent_revision_id g
  ok (new_items (migrations_by_action parents []) (migrations_by_action items []))
