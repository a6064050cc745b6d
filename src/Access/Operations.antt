-- ===== src/Access/Operations.antt =====
-- The operations of the bridge: `list_objects`, `list_relations`, `invoke_action`, `deliver_file`,
-- `secret_status`, `list_secrets`, `set_secret_value` and `delete_secret_value`.
use Prim.Native.String.{compare}
use Prim.Native.Nat.{Ordering}
use n4x_core.Prelude.{
  String, Bool, true, false, Option, none, some, List, [], ◌∷◌, map, filter, ◌==◌, if◌then◌else◌,
  contains,
}
use n4x_core.Prelude.Result
use n4x_core.Prelude.Result.{Result, ok, raise}
use n4x_core.Prelude.Exec.{Exec, pure, lift, get_state, modify, ◌>>=◌, ◌>>◌}
use n4x_core.Graph.Records
use n4x_core.Graph.Records.{upsert_row}
use n4x_core.Kernel.Json.{Json, JsonDict, object, text, field, end}
use n4x_core.Kernel.Jobs.{Invocation}
use n4x_core.Kernel.Experiences.{
  ExperienceRevision, ApplicationObject, ApplicationRelation, SecretReference,
}
use n4x_core.Access.State.{
  AccessGraph, AccessError, access_error, DeliveryError, Services, or_fail, check,
}
use n4x_core.Access.Guards.{
  Kind, application_access, require_definition, require_object, require_secret_access, action_kind,
  object_type_kind, relation_type_kind,
}

-- The filter's definition is checked only if there is a filter.
abbrev pub require_filter :
    {V : Type 0}
    → AccessGraph
    → Kind V
    → String
    → Option String
    → Option (List String)
    → Result AccessError (Unit {0})
require_filter g kind application_id none allowlist = ok tt
require_filter g kind application_id (some identifier) allowlist =
    require_definition g kind application_id identifier allowlist

-- [item for item in items if id_of(item) in allowed]
abbrev pub keep_allowed : {A : Type 0} → Option (List String) → (A → String) → List A → List A
keep_allowed none id_of items = items
keep_allowed (some ids) id_of items = filter (λ item. contains (id_of item) ids) items

abbrev pub delivery_error : DeliveryError → AccessError
delivery_error e = access_error e.code e.status_code

abbrev pub bridge : String → String → String → String → Json
bridge experience_id experience_revision_id application_id action_id = object (
    field "experience_id" (text experience_id) (
      field "experience_revision_id" (text experience_revision_id)
        (field "application_id" (text application_id) (field "action_id" (text action_id) end))))

abbrev pub annotated : Invocation → Json → Json → Invocation
annotated invocation output mark = record invocation {
  output = output;
  metadata = upsert_row "bridge" mark invocation.metadata;
}

abbrev pub save_invocation : Invocation → AccessGraph → AccessGraph
save_invocation i g = record g { invocations = Records.save g.invocations i.id i }

-- What the bridge sends of the output: what is prepared, or what is left without delivery fields.
abbrev pub sent_output : (Json → Json) → Json → Result DeliveryError Json → Json
sent_output strip output (ok prepared) = prepared
sent_output strip output (raise e) = strip output

abbrev pub delivered : Invocation → Result DeliveryError Json → Result AccessError Invocation
delivered invocation (ok prepared) = ok invocation
delivered invocation (raise e) = raise (delivery_error e)

abbrev pub described : JsonDict → SecretReference → JsonDict
described status reference =
    upsert_row "description" (text reference.description)
      (upsert_row "name" (text reference.name) (upsert_row "uri" (text reference.uri) status))

abbrev pub or_empty : Option (List String) → List String
or_empty none = []
or_empty (some ids) = ids

abbrev pub text_le : String → String → Bool
text_le a b = elim (compare a b) [ Ordering.gt ↦ false | _ ↦ true ]

-- `sorted(..., key=...)` on pairs of a key and an item
abbrev pub insert_by_key : {A : Type 0} → String × A → List (String × A) → List (String × A)
insert_by_key p [] = p ∷ []
insert_by_key p (q ∷ qs) = if text_le p.0 q.0 then p ∷ q ∷ qs else q ∷ insert_by_key p qs

abbrev pub sorted_by_key : {A : Type 0} → List (String × A) → List (String × A)
sorted_by_key [] = []
sorted_by_key (p ∷ ps) = insert_by_key p (sorted_by_key ps)

module _ {DeliveredFile : Type 0} (services : Services DeliveredFile) where
  unfoldable pub list_objects :
      AccessGraph → String → String → Option String → Result AccessError (List ApplicationObject)
  list_objects g experience_id application_id object_type_id =
      Result.◌>>=◌ (application_access g experience_id application_id) λ found.
        let ids = found.1.object_type_ids in
        Result.◌>>=◌ (require_filter g (object_type_kind g) application_id object_type_id ids) λ _.
          ok (
            keep_allowed ids (λ item. item.object_type_id)
              (services.objects_list g application_id object_type_id))

  unfoldable pub list_relations :
      AccessGraph
      → String
      → String
      → Option String
      → Option String
      → Option String
      → Result AccessError (List ApplicationRelation)
  list_relations g experience_id application_id relation_type_id from_object_id to_object_id =
      Result.◌>>=◌ (application_access g experience_id application_id) λ found.
        let ids = found.1.relation_type_ids in
        Result.◌>>=◌ (require_filter g (relation_type_kind g) application_id relation_type_id ids)
          λ _. Result.◌>>=◌ (require_object g application_id from_object_id) λ _.
            Result.◌>>=◌ (require_object g application_id to_object_id) λ _. ok (
              keep_allowed ids (λ item. item.relation_type_id)
                (services.relations_list g application_id relation_type_id from_object_id
                  to_object_id))

  -- What `invoke_action` checks; the revision is the Experience's.
  abbrev pub may_invoke :
      AccessGraph → String → String → String → Result AccessError ExperienceRevision
  may_invoke g experience_id application_id action_id =
      Result.◌>>=◌ (application_access g experience_id application_id) λ found.
        Result.◌>>=◌
          (require_definition g (action_kind g) application_id action_id found.1.action_ids)
          λ _. ok found.0

  -- The rest of `invoke_action` once the action has run.
  abbrev pub annotate :
      String → String → String → String → Invocation → Exec AccessGraph AccessError Invocation
  annotate experience_id revision_id application_id action_id invocation = do
    let prepared =
        services.prepare_output invocation.output application_id experience_id revision_id
    let output = sent_output services.strip_delivery_fields invocation.output prepared
    let mark = bridge experience_id revision_id application_id action_id
    modify (save_invocation (annotated invocation output mark))
    lift (delivered (annotated invocation output mark) prepared)

  unfoldable pub invoke_action :
      String → String → String → JsonDict → Exec AccessGraph AccessError Invocation
  invoke_action experience_id application_id action_id input_value = do
    g ← get_state
    revision ← lift (may_invoke g experience_id application_id action_id)
    invocation ← services.run_active_action application_id action_id input_value
    annotate experience_id revision.id application_id action_id invocation

  abbrev pub resolved : Result DeliveryError DeliveredFile → Result AccessError DeliveredFile
  resolved (ok file) = ok file
  resolved (raise e) = raise (delivery_error e)

  unfoldable pub deliver_file :
      AccessGraph → String → String → String → Result AccessError DeliveredFile
  deliver_file g experience_id application_id token =
      Result.◌>>=◌ (application_access g experience_id application_id)
        λ found. resolved (services.resolve_file token application_id experience_id found.0.id)

  unfoldable pub secret_status : String → String → String → Exec AccessGraph AccessError JsonDict
  secret_status experience_id application_id reference_id = do
    g ← get_state
    _ ← lift (require_secret_access g experience_id application_id reference_id)
    services.secret_status application_id reference_id

  unfoldable pub set_secret_value :
      String → String → String → String → Exec AccessGraph AccessError JsonDict
  set_secret_value experience_id application_id reference_id value = do
    g ← get_state
    _ ← lift (require_secret_access g experience_id application_id reference_id)
    services.set_secret_reference application_id reference_id value

  unfoldable pub delete_secret_value :
      String → String → String → Exec AccessGraph AccessError JsonDict
  delete_secret_value experience_id application_id reference_id = do
    g ← get_state
    _ ← lift (require_secret_access g experience_id application_id reference_id)
    services.delete_secret_reference_value application_id reference_id

  -- A declared reference, if the application owns it.
  abbrev pub owned_reference : AccessGraph → String → String → Result AccessError SecretReference
  owned_reference g application_id reference_id =
      Result.◌>>=◌
        (or_fail (Records.get g.secret_references reference_id) "invalid_access_declaration" 500)
        λ reference.
          Result.◌>>=◌
            (check (reference.application_id == application_id) "invalid_access_declaration" 500)
            λ _. ok reference

  -- The loop of `list_secrets`; each item stands with the key that it is sorted by.
  unfoldable pub describe_each :
      String → List String → Exec AccessGraph AccessError (List (String × JsonDict))
  describe_each application_id [] = pure []
  describe_each application_id (reference_id ∷ ids) = do
    g ← get_state
    reference ← lift (owned_reference g application_id reference_id)
    status ← services.secret_status application_id reference_id
    rest ← describe_each application_id ids
    pure ((reference.uri, described status reference) ∷ rest)

  unfoldable pub list_secrets : String → String → Exec AccessGraph AccessError (List JsonDict)
  list_secrets experience_id application_id = do
    g ← get_state
    (revision, access) ← lift (application_access g experience_id application_id)
    items ← describe_each application_id (or_empty access.secret_reference_ids)
    pure (map (λ item. item.1) (sorted_by_key items))
