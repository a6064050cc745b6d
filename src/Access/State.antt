-- ===== src/Access/State.antt =====
-- What the Experience bridge reads in the graph, its errors, and the services behind it (the
-- Protocols and the file delivery of system/experience_access.py).
use n4x_core.Prelude.{ℕ, String, Bool, true, false, Option, none, some, List}
use n4x_core.Prelude.Result.{Result, ok, raise}
use n4x_core.Prelude.Exec.{Exec}
use n4x_core.Graph.Records.{RecordCollection}
use n4x_core.Graph.Edges.{EdgeRecord}
use n4x_core.Kernel.Json.{Json, JsonDict}
use n4x_core.Kernel.Jobs.{Application, ApplicationRevision, ActionRevision, Invocation}
use n4x_core.Kernel.Experiences.{
  Experience, ExperienceRevision, ApplicationObject, ApplicationRelation, Definition,
  ObjectTypeRevision, RelationTypeRevision, SecretReference,
}

pub record AccessGraph : Type 0 where
  pub experiences : RecordCollection Experience
  pub experience_revisions : RecordCollection ExperienceRevision
  pub applications : RecordCollection Application
  pub revisions : RecordCollection ApplicationRevision
  pub objects : List ApplicationObject
  pub actions : RecordCollection Definition
  pub action_revisions : RecordCollection ActionRevision
  pub object_types : RecordCollection Definition
  pub object_type_revisions : RecordCollection ObjectTypeRevision
  pub relation_types : RecordCollection Definition
  pub relation_type_revisions : RecordCollection RelationTypeRevision
  pub secret_references : RecordCollection SecretReference
  pub invocations : RecordCollection Invocation
  pub edges : List EdgeRecord

-- `ExperienceAccessError` with its code and status, `KeyError`, and the errors of the services.
pub data AccessError : Type 0 where
  access_error : String → ℕ → AccessError
  key_error : AccessError
  service_error : String → AccessError

-- `FileDeliveryError`
pub record DeliveryError : Type 0 where
  pub code : String
  pub status_code : ℕ

-- The services that the bridge delegates to, by the calls that it makes.
pub record Services (DeliveredFile : Type 0) : Type 1 where
  pub objects_list : AccessGraph → String → Option String → List ApplicationObject
  pub relations_list :
      AccessGraph
      → String
      → Option String
      → Option String
      → Option String
      → List ApplicationRelation
  pub run_active_action : String → String → JsonDict → Exec AccessGraph AccessError Invocation
  pub prepare_output : Json → String → String → String → Result DeliveryError Json
  pub strip_delivery_fields : Json → Json
  pub resolve_file : String → String → String → String → Result DeliveryError DeliveredFile
  pub secret_status : String → String → Exec AccessGraph AccessError JsonDict
  pub set_secret_reference : String → String → String → Exec AccessGraph AccessError JsonDict
  pub delete_secret_reference_value : String → String → Exec AccessGraph AccessError JsonDict

-- `_fail`
abbrev pub fail {ℓ} : {A : Type ℓ} → String → ℕ → Result AccessError A
fail code status = raise (access_error code status)

abbrev pub or_fail {ℓ} : {A : Type ℓ} → Option A → String → ℕ → Result AccessError A
or_fail none code status = fail code status
or_fail (some a) code status = ok a

abbrev pub check : Bool → String → ℕ → Result AccessError (Unit {0})
check true code status = ok tt
check false code status = fail code status
