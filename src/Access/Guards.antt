-- ===== src/Access/Guards.antt =====
-- The guards of the bridge: `active_revision`, `_application_access`, `_require_definition`,
-- `_require_secret_access` and the object filters of `list_relations`.
use n4x_core.Prelude.{
  String, Bool, true, false, not, ◌&&◌, Option, none, some, List, any, find, ◌==◌, is_blank,
  contains,
}
use n4x_core.Prelude.Result.{Result, ok, ◌>>=◌, ◌>>◌}
use n4x_core.Graph.Records
use n4x_core.Graph.Records.{RecordCollection}
use n4x_core.Graph.Bindings.{get_item, bound}
use n4x_core.Kernel.Jobs.{ApplicationStatus, RevisionStatus, ActionRevision}
use n4x_core.Kernel.Experiences.{
  ExperienceRevision, ApplicationAccessDeclaration, ApplicationObject, Definition,
  ObjectTypeRevision, RelationTypeRevision,
}
use n4x_core.Access.State.{AccessGraph, AccessError, key_error, or_fail, check}

abbrev pub is_active : RevisionStatus → Bool
is_active RevisionStatus.active = true
is_active _ = false

-- `None` unless the Experience is active
abbrev pub if_active : ApplicationStatus → Option String → Option String
if_active ApplicationStatus.active id = id
if_active _ id = none

unfoldable pub active_revision : AccessGraph → String → Result AccessError ExperienceRevision
active_revision g experience_id = do
  experience ← or_fail (Records.get g.experiences experience_id) "not_found" 404
  revision_id ←
      or_fail (if_active experience.status experience.active_revision_id) "inactive_experience" 409
  revision ← or_fail (Records.get g.experience_revisions revision_id) "inactive_experience" 409
  check (revision.experience_id == experience.id && is_active revision.status) "inactive_experience"
      409
  ok revision

-- An Application with paused triggers still serves its Experiences.
abbrev pub if_serving : ApplicationStatus → Option String → Option String
if_serving ApplicationStatus.active id = id
if_serving ApplicationStatus.triggers_paused id = id
if_serving _ id = none

unfoldable pub application_access :
    AccessGraph
    → String
    → String
    → Result AccessError (ExperienceRevision × ApplicationAccessDeclaration)
application_access g experience_id application_id = do
  revision ← active_revision g experience_id
  access ←
      or_fail (find (λ item. item.application_id == application_id) revision.application_access)
        "undeclared_application" 403
  application ← or_fail (Records.get g.applications application_id) "undeclared_application" 404
  revision_id ←
      or_fail (if_serving application.status application.active_revision_id) "inactive_application"
        409
  app_revision ← or_fail (Records.get g.revisions revision_id) "inactive_application" 409
  check (app_revision.application_id == application.id && is_active app_revision.status)
      "inactive_application" 409
  ok (revision, access)

-- None admits every identifier, a list those that it names.
abbrev pub admits : Option (List String) → String → Bool
admits none identifier = true
admits (some ids) identifier = contains identifier ids

-- Where the stable records and the revisions of one kind of definition are, and their edges.
pub record Kind (V : Type 0) : Type 1 where
  pub stable_records : RecordCollection Definition
  pub revision_records : RecordCollection V
  pub revision_id : V → String
  pub edge_type : String

abbrev pub action_kind : AccessGraph → Kind ActionRevision
action_kind g = record {
  stable_records = g.actions;
  revision_records = g.action_revisions;
  revision_id = λ r. r.id;
  edge_type = "HAS_ACTION_REVISION";
}

abbrev pub object_type_kind : AccessGraph → Kind ObjectTypeRevision
object_type_kind g = record {
  stable_records = g.object_types;
  revision_records = g.object_type_revisions;
  revision_id = λ r. r.id;
  edge_type = "HAS_OBJECT_TYPE_REVISION";
}

abbrev pub relation_type_kind : AccessGraph → Kind RelationTypeRevision
relation_type_kind g = record {
  stable_records = g.relation_types;
  revision_records = g.relation_type_revisions;
  revision_id = λ r. r.id;
  edge_type = "HAS_RELATION_TYPE_REVISION";
}

unfoldable pub require_definition :
    {V : Type 0}
    → AccessGraph
    → Kind V
    → String
    → String
    → Option (List String)
    → Result AccessError (Unit {0})
require_definition g kind application_id identifier allowlist = do
  check (not (is_blank identifier)) "invalid_filter" 400
  stable ← or_fail (Records.get kind.stable_records identifier) "not_found" 404
  check (stable.application_id == application_id) "undeclared_definition" 403
  application ← get_item key_error g.applications application_id
  active_id ← or_fail application.active_revision_id "inactive_definition" 409
  revision_id ← or_fail stable.active_revision_id "inactive_definition" 409
  revision ← or_fail (Records.get kind.revision_records revision_id) "inactive_definition" 409
  items ← bound key_error kind.revision_records active_id kind.edge_type g.edges
  check (any (λ item. kind.revision_id item == revision_id) items) "inactive_definition" 409
  check (admits allowlist identifier) "access_denied" 403

-- `uow.objects.get` in the production data space
abbrev pub get_object : AccessGraph → String → String → Option ApplicationObject
get_object g application_id object_id =
    find
      (λ o.
        o.application_id == application_id && o.data_space_id == "production" && o.id == object_id)
      g.objects

unfoldable pub require_object : AccessGraph → String → Option String → Result AccessError (Unit {0})
require_object g application_id none = ok tt
require_object g application_id (some object_id) = do
  obj ← or_fail (get_object g application_id object_id) "invalid_filter" 400
  check (obj.application_id == application_id) "invalid_filter" 400

-- Secrets are denied by None and by the empty list alike.
abbrev pub grants : Option (List String) → String → Bool
grants none identifier = false
grants (some ids) identifier = contains identifier ids

unfoldable pub require_secret_access :
    AccessGraph → String → String → String → Result AccessError (Unit {0})
require_secret_access g experience_id application_id secret_reference_id = do
  check (not (is_blank secret_reference_id)) "invalid_secret_reference" 400
  (revision, access) ← application_access g experience_id application_id
  check (grants access.secret_reference_ids secret_reference_id) "access_denied" 403
  reference ← or_fail (Records.get g.secret_references secret_reference_id) "not_found" 404
  check (reference.application_id == application_id) "undeclared_definition" 403
