-- ===== src/Kernel/Experiences.antt =====
-- The records of kernel/models.py that the Experience bridge reads. `Definition` is `Action`,
-- `ObjectType` and `RelationType`, which have the same fields. Names, times and hashes that nothing
-- here reads are left out.
use n4x_core.Prelude.{String, Option, List}
use n4x_core.Kernel.Json.{JsonDict}
use n4x_core.Kernel.Jobs.{ApplicationStatus, RevisionStatus}

pub record ApplicationAccessDeclaration : Type 0 where
  pub application_id : String
  pub object_type_ids : Option (List String)
  pub relation_type_ids : Option (List String)
  pub action_ids : Option (List String)
  pub secret_reference_ids : Option (List String)

pub record Experience : Type 0 where
  pub id : String
  pub active_revision_id : Option String
  pub status : ApplicationStatus

pub record ExperienceRevision : Type 0 where
  pub id : String
  pub experience_id : String
  pub status : RevisionStatus
  pub application_access : List ApplicationAccessDeclaration

pub record ApplicationObject : Type 0 where
  pub id : String
  pub application_id : String
  pub data_space_id : String
  pub object_type_id : String
  pub object_values : JsonDict

pub record ApplicationRelation : Type 0 where
  pub id : String
  pub application_id : String
  pub data_space_id : String
  pub relation_type_id : String
  pub from_object_id : String
  pub to_object_id : String
  pub relation_values : JsonDict

pub record Definition : Type 0 where
  pub id : String
  pub application_id : String
  pub active_revision_id : Option String

pub record ObjectTypeRevision : Type 0 where
  pub id : String
  pub object_type_id : String

pub record RelationTypeRevision : Type 0 where
  pub id : String
  pub relation_type_id : String

pub record SecretReference : Type 0 where
  pub id : String
  pub application_id : String
  pub uri : String
  pub name : String
  pub description : String
