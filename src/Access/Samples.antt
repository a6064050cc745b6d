-- ===== src/Access/Samples.antt =====
-- A small Experience over one Application, and the theorems at these inputs.
use mathlib.Core.Logic.{◌↔◌}
use n4x_core.Prelude.{String, ◌≡◌, refl, ◌⊎◌, true, none, some, [], ◌∷◌, All}
use n4x_core.Prelude.Result.{Result, ok, raise}
use n4x_core.Graph.Records
use n4x_core.Graph.Records.{RecordCollection}
use n4x_core.Graph.Edges.{node_ref, list_edges}
use n4x_core.Graph.Bindings.{get_item, targets}
use n4x_core.Kernel.Json.{Json}
use n4x_core.Kernel.Jobs.{ApplicationStatus, RevisionStatus, Invocation, InvocationStatus}
use n4x_core.Kernel.Experiences.{
  ExperienceRevision, ApplicationAccessDeclaration, ApplicationObject,
}
use n4x_core.Access.State.{AccessGraph, AccessError, access_error, DeliveryError, Services}
use n4x_core.Access.Guards.{
  active_revision, application_access, admits, require_definition, require_secret_access,
}
use n4x_core.Access.Operations.{
  annotated, bridge, delivery_error, list_objects, invoke_action, secret_status, set_secret_value,
  delete_secret_value,
}
use n4x_core.Access.Authorized.{Authorized, application_access_iff}
use n4x_core.Access.Calls.{
  list_objects-admitted, MayInvoke, invoke_action-guarded, invoke_action-annotates, SecretGranted,
  secret_calls-guarded,
}

program : Unit {0}
unfolding active_revision application_access require_definition require_secret_access list_objects
    invoke_action secret_status set_secret_value delete_secret_value get_item targets list_edges
    Records.get Records.save
program = tt

abbrev no_rows : {V : Type 0} → RecordCollection V
no_rows = record { rows = [] }

abbrev one_row : {V : Type 0} → String → V → RecordCollection V
one_row k v = record { rows = (k, v) ∷ [] }

abbrev access : ApplicationAccessDeclaration
access = record {
  application_id = "a";
  object_type_ids = some ("note" ∷ []);
  relation_type_ids = none;
  action_ids = some ("act" ∷ []);
  secret_reference_ids = none;
}

abbrev revision : ExperienceRevision
revision = record {
  id = "er";
  experience_id = "e";
  status = RevisionStatus.active;
  application_access = access ∷ [];
}

abbrev object_of : String → String → ApplicationObject
object_of id object_type_id = record {
  id = id;
  application_id = "a";
  data_space_id = "production";
  object_type_id = object_type_id;
  object_values = [];
}

abbrev graph : AccessGraph
graph = record {
  experiences =
      one_row "e"
        (record { id = "e"; active_revision_id = some "er"; status = ApplicationStatus.active });
  experience_revisions = one_row "er" revision;
  applications = one_row "a" (record {
    id = "a";
    active_revision_id = some "r";
    status = ApplicationStatus.triggers_paused;
  });
  revisions = one_row "r" (record {
    id = "r";
    application_id = "a";
    parent_revision_id = none;
    status = RevisionStatus.active;
  });
  objects = object_of "o1" "note" ∷ object_of "o2" "mail" ∷ [];
  actions =
      one_row "act" (record { id = "act"; application_id = "a"; active_revision_id = some "ar" });
  action_revisions = one_row "ar" (record { id = "ar"; action_id = "act" });
  object_types = no_rows;
  object_type_revisions = no_rows;
  relation_types = no_rows;
  relation_type_revisions = no_rows;
  secret_references = no_rows;
  invocations = no_rows;
  edges =
      record {
        from_ref = node_ref "ApplicationRevision" "r";
        edge_type = "HAS_ACTION_REVISION";
        to_ref = node_ref "ActionRevision" "ar";
      }
      ∷ [];
}

abbrev invocation : Invocation
invocation = record {
  id = "i";
  status = InvocationStatus.succeeded;
  error = none;
  completed_at = some 3;
  last_heartbeat_at = none;
  output = Json.number 7;
  metadata = [];
}

abbrev expired : DeliveryError
expired = record { code = "file_missing"; status_code = 404 }

-- Services over which the file of every output is missing.
abbrev services : Services String
services = record {
  objects_list = λ g application_id o. g.objects;
  relations_list = λ g application_id o f t. [];
  run_active_action = λ application_id action_id input_value g. (ok invocation, g);
  prepare_output = λ output application_id experience_id revision_id. raise expired;
  strip_delivery_fields = λ output. Json.null;
  resolve_file = λ token application_id experience_id revision_id. ok token;
  secret_status = λ application_id reference_id g. (ok [], g);
  set_secret_reference = λ application_id reference_id value g. (ok [], g);
  delete_secret_reference_value = λ application_id reference_id g. (ok [], g);
}

application_access_iff_example :
    (application_access graph "e" "a" ≡ ok (revision, access))
    ↔ Authorized graph "e" "a" revision access
application_access_iff_example = application_access_iff graph "e" "a" revision access

list_objects-admitted_example :
    (r : ExperienceRevision) × (a : ApplicationAccessDeclaration) × Authorized graph "e" "a" r a
    × All (λ item. admits a.object_type_ids item.object_type_id ≡ true) (object_of "o1" "note" ∷ [])
list_objects-admitted_example =
    list_objects-admitted services graph "e" "a" none (object_of "o1" "note" ∷ [])
      (unfold program in refl)

invoke_action-guarded_example :
    ((r : ExperienceRevision) × MayInvoke graph "e" "a" "act" r)
    ⊎ ((e : AccessError) × (invoke_action services "e" "a" "act" [] graph ≡ (raise e, graph)))
invoke_action-guarded_example = invoke_action-guarded services graph "e" "a" "act" []

invoke_action-annotates_example :
    let outcome = invoke_action services "e" "a" "act" [] graph in
    let mark = bridge "e" "er" "a" "act" in
    ((output : Json)
      → ◌≡◌ {A = Result DeliveryError Json} (raise expired) (ok output)
      → (outcome.0 ≡ ok (annotated invocation output mark))
        × (Records.get outcome.1.invocations "i" ≡ some (annotated invocation output mark)))
    × ((error : DeliveryError)
        → ◌≡◌ {A = Result DeliveryError Json} (raise expired) (raise error)
        → (outcome.0 ≡ raise (delivery_error error))
          × (Records.get outcome.1.invocations "i" ≡ some (annotated invocation Json.null mark)))
invoke_action-annotates_example =
    invoke_action-annotates services graph graph "e" "a" "act" [] revision invocation
      (unfold program in refl) refl

secret_calls-guarded_example :
    SecretGranted graph "e" "a" "s"
    ⊎ ((e : AccessError) × (secret_status services "e" "a" "s" graph ≡ (raise e, graph))
        × (set_secret_value services "e" "a" "s" "v" graph ≡ (raise e, graph))
        × (delete_secret_value services "e" "a" "s" graph ≡ (raise e, graph)))
secret_calls-guarded_example = secret_calls-guarded services graph "e" "a" "s" "v"

-- The file is missing: the error is raised, and the invocation is kept.
not_delivered :
    (invoke_action services "e" "a" "act" [] graph).0 ≡ raise (access_error "file_missing" 404)
unfolding program
not_delivered = refl

-- No secret is declared.
denied :
    set_secret_value services "e" "a" "s" "v" graph
    ≡ (raise (access_error "access_denied" 403), graph)
unfolding program
denied = refl
