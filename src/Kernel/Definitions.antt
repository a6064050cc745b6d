-- ===== src/Kernel/Definitions.antt =====
-- The revisions of actions, triggers, object types and relation types of kernel/models.py, as far as
-- activation reads them: what each belongs to, an action's source paths, whether it is a migration that
-- mutates data, and the ends of a relation type.
use n4x_core.Prelude.{String, Bool, List}

pub record DefinitionRevision : Type 0 where
  pub id : String
  pub stable_id : String
  pub source_paths : List String
  pub is_migration : Bool
  pub mutates_application_data : Bool
  pub from_object_type_id : String
  pub to_object_type_id : String
