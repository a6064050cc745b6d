-- ===== src/Access/Calls.antt =====
-- The calls of the bridge (system/experience_access.py) against what its guards amount to.
use text.Mathlib.TextPositions.{eq_refl}
use n4x_core.Prelude.{
  String, ◌≡◌, refl, subst, ◌⊎◌, inl, inr, Bool, true, false, not, Option, none, some, List, [],
  ◌∷◌, filter, arith, eq_iff, ◌==◌, is_blank, contains, All, if◌then◌else◌,
}
use n4x_core.Prelude.Result.{ok, raise, Returns, >>=-Returns, Result-cases}
use n4x_core.Graph.Records
use n4x_core.Graph.Records.{get-save}
use n4x_core.Kernel.Json.{Json, JsonDict}
use n4x_core.Kernel.Jobs.{Invocation}
use n4x_core.Kernel.Experiences.{
  ExperienceRevision, ApplicationAccessDeclaration, ApplicationObject, SecretReference,
}
use n4x_core.Access.State.{AccessGraph, AccessError, DeliveryError, Services, or_fail, check}
use n4x_core.Access.Guards.{
  application_access, admits, action_kind, object_type_kind, require_definition, grants,
  require_secret_access,
}
use n4x_core.Access.Operations.{
  require_filter, keep_allowed, delivery_error, bridge, annotated, may_invoke, list_objects,
  invoke_action, secret_status, set_secret_value, delete_secret_value,
}
use n4x_core.Access.Declared.{Declared, require_definition-Declared}
use n4x_core.Access.Authorized.{
  Authorized, application_access-Authorized, or_fail-eq-ok, check-eq-ok,
}

keep_allowed-admits :
    {A : Type 0} (o : Option (List String)) (id_of : A → String) (items : List A)
    → All (λ item. admits o (id_of item) ≡ true) (keep_allowed o id_of items)
keep_allowed-admits none id_of [] = tt
keep_allowed-admits none id_of (x ∷ xs) = (refl, keep_allowed-admits none id_of xs)
keep_allowed-admits (some ids) id_of xs = all_kept xs
  where
    kept :
        (b : Bool) (x : _) (rest : List _)
        → contains (id_of x) ids ≡ b
        → All (λ item. contains (id_of item) ids ≡ true) rest
        → All (λ item. contains (id_of item) ids ≡ true) (if b then x ∷ rest else rest)
    kept true x rest e h = (e, h)
    kept false x rest e h = h

    all_kept :
        (ys : List _)
        → All
            (λ item. contains (id_of item) ids ≡ true)
            (filter (λ item. contains (id_of item) ids) ys)
    all_kept [] = tt
    all_kept (y ∷ ys) = kept (contains (id_of y) ids) y _ refl (all_kept ys)

-- Objects are listed only for an Experience that the Application is declared by, and each of them is
-- of a type that the declaration admits.
pub list_objects-admitted :
    {File : Type 0} (services : Services File) (g : AccessGraph)
    (experience_id application_id : String) (object_type_id : Option String)
    (items : List ApplicationObject)
    → list_objects services g experience_id application_id object_type_id ≡ ok items
    → (revision : ExperienceRevision) × (access : ApplicationAccessDeclaration) × Authorized g
        experience_id application_id revision access
      × All (λ item. admits access.object_type_ids item.object_type_id ≡ true) items
unfolding list_objects
list_objects-admitted {File} services g experience_id application_id object_type_id items e =
    subst (Returns Admitted) e (
      >>=-Returns Admitted (application_access g experience_id application_id) _ λ found e1.
        >>=-Returns Admitted
          (require_filter g (object_type_kind g) application_id object_type_id
            found.1.object_type_ids)
          _
          λ u e2. (
            found.0,
            found.1,
            subst (Returns (λ p. Authorized g experience_id application_id p.0 p.1)) e1
                (application_access-Authorized g experience_id application_id),
            keep_allowed-admits found.1.object_type_ids _ _,
          ))
  where
    Admitted : List ApplicationObject → Type 0
    Admitted xs =
        (revision : ExperienceRevision) × (access : ApplicationAccessDeclaration) × Authorized g
          experience_id application_id revision access
        × All (λ item. admits access.object_type_ids item.object_type_id ≡ true) xs

-- What lets an Experience invoke an action.
abbrev pub MayInvoke : AccessGraph → String → String → String → ExperienceRevision → Type 0
MayInvoke g experience_id application_id action_id revision =
    (access : ApplicationAccessDeclaration) × Authorized g experience_id application_id revision
      access
    × Declared g (action_kind g) application_id action_id access.action_ids

may_invoke-MayInvoke :
    {File : Type 0} (services : Services File) (g : AccessGraph)
    (experience_id application_id action_id : String)
    → Returns
        (MayInvoke g experience_id application_id action_id)
        (may_invoke services g experience_id application_id action_id)
may_invoke-MayInvoke services g experience_id application_id action_id =
    >>=-Returns _ (application_access g experience_id application_id) _ λ found e.
      >>=-Returns _
        (require_definition g (action_kind g) application_id action_id found.1.action_ids) _
        λ u e1. (
          found.1,
          subst (Returns (λ p. Authorized g experience_id application_id p.0 p.1)) e
              (application_access-Authorized g experience_id application_id),
          subst
              (Returns
                (λ _. Declared g (action_kind g) application_id action_id found.1.action_ids))
              e1
              (require_definition-Declared g (action_kind g) application_id action_id
                found.1.action_ids),
        )

-- An action runs only for an Experience that may invoke it; any other call raises at once, and
-- changes nothing.
pub invoke_action-guarded :
    {File : Type 0} (services : Services File) (g : AccessGraph)
    (experience_id application_id action_id : String) (input_value : JsonDict)
    → ((revision : ExperienceRevision) × MayInvoke g experience_id application_id action_id
          revision)
      ⊎ ((e : AccessError) × (invoke_action services experience_id application_id action_id
              input_value g
            ≡ (raise e, g)))
unfolding invoke_action
invoke_action-guarded services g experience_id application_id action_id input_value =
    elim (Result-cases (may_invoke services g experience_id application_id action_id)) [
      | inl (revision, e) ↦ inl (
        revision,
        subst (Returns (MayInvoke g experience_id application_id action_id)) e
            (may_invoke-MayInvoke services g experience_id application_id action_id),
      )
      | inr (e, raised) ↦ inr (e, rw raised refl)
    ]

-- When an action that was let through has run, its invocation is in the graph with the bridge's
-- mark, whether or not its files could be delivered: with the prepared output, which is also
-- returned, or without the delivery fields, and then the delivery's error is raised.
pub invoke_action-annotates :
    {File : Type 0} (services : Services File) (g h : AccessGraph)
    (experience_id application_id action_id : String) (input_value : JsonDict)
    (revision : ExperienceRevision) (i : Invocation)
    → may_invoke services g experience_id application_id action_id ≡ ok revision
    → services.run_active_action application_id action_id input_value g ≡ (ok i, h)
    → let outcome = invoke_action services experience_id application_id action_id input_value g in
      let mark = bridge experience_id revision.id application_id action_id in
      let prepared = services.prepare_output i.output application_id experience_id revision.id in
      ((output : Json)
        → prepared ≡ ok output
        → (outcome.0 ≡ ok (annotated i output mark))
          × (Records.get outcome.1.invocations i.id ≡ some (annotated i output mark)))
      × ((error : DeliveryError)
          → prepared ≡ raise error
          → (outcome.0 ≡ raise (delivery_error error))
            × (Records.get outcome.1.invocations i.id
                ≡ some (annotated i (services.strip_delivery_fields i.output) mark)))
unfolding invoke_action
invoke_action-annotates services g h experience_id application_id action_id input_value revision i
      may ran =
    rw (may, ran)
      (
        (λ output e. rw e (refl, (rw get-save (simp eq_refl)))),
        (λ error e. rw e (refl, (rw get-save (simp eq_refl)))),
      )

-- The secret is named by the declaration, and is the Application's.
abbrev pub SecretGranted : AccessGraph → String → String → String → Type 0
SecretGranted g experience_id application_id reference_id =
    (revision : ExperienceRevision) × (access : ApplicationAccessDeclaration)
    × (reference : SecretReference) × Authorized g experience_id application_id revision access
    × (grants access.secret_reference_ids reference_id ≡ true)
    × (Records.get g.secret_references reference_id ≡ some reference)
    × (reference.application_id ≡ application_id)

require_secret_access-SecretGranted :
    (g : AccessGraph) (experience_id application_id reference_id : String)
    → Returns
        (λ _. SecretGranted g experience_id application_id reference_id)
        (require_secret_access g experience_id application_id reference_id)
unfolding require_secret_access
require_secret_access-SecretGranted g experience_id application_id reference_id =
    >>=-Returns _ (check (not (is_blank reference_id)) _ _) _ λ u e.
      >>=-Returns _ (application_access g experience_id application_id) _ λ found e1.
        >>=-Returns _ (check (grants found.1.secret_reference_ids reference_id) _ _) _ λ v e2.
          >>=-Returns _ (or_fail (Records.get g.secret_references reference_id) _ _) _
            λ reference e3.
              owned found reference e1 (check-eq-ok _ _ _ v e2) (or_fail-eq-ok _ _ _ _ e3)
                (reference.application_id == application_id) refl
  where
    owned :
        (found : ExperienceRevision × ApplicationAccessDeclaration) (reference : SecretReference)
        → application_access g experience_id application_id ≡ ok found
        → grants found.1.secret_reference_ids reference_id ≡ true
        → Records.get g.secret_references reference_id ≡ some reference
        → (b : Bool) → (reference.application_id == application_id) ≡ b
        → Returns
            (λ _. SecretGranted g experience_id application_id reference_id)
            (check b "undeclared_definition" 403)
    owned found reference e1 e2 e3 true e = (
      found.0,
      found.1,
      reference,
      subst (Returns (λ p. Authorized g experience_id application_id p.0 p.1)) e1
          (application_access-Authorized g experience_id application_id),
      e2,
      e3,
      (ground (arith, eq_iff reference.application_id application_id, e)),
    )
    owned found reference e1 e2 e3 false e = tt

-- A secret's status is read, and its value is set or deleted, only under a declaration that names
-- the secret (None and the empty list name none) and for the Application that owns it; otherwise all
-- three raise, with the same error, and change nothing.
pub secret_calls-guarded :
    {File : Type 0} (services : Services File) (g : AccessGraph)
    (experience_id application_id reference_id value : String)
    → SecretGranted g experience_id application_id reference_id
      ⊎ ((e : AccessError) × (secret_status services experience_id application_id reference_id g
            ≡ (raise e, g))
          × (set_secret_value services experience_id application_id reference_id value g
              ≡ (raise e, g))
          × (delete_secret_value services experience_id application_id reference_id g
              ≡ (raise e, g)))
unfolding secret_status set_secret_value delete_secret_value
secret_calls-guarded services g experience_id application_id reference_id value =
    elim (Result-cases (require_secret_access g experience_id application_id reference_id)) [
      | inl (u, e) ↦ inl (
          subst (Returns (λ _. SecretGranted g experience_id application_id reference_id)) e
            (require_secret_access-SecretGranted g experience_id application_id reference_id))
      | inr (e, raised) ↦ inr (e, (rw raised refl), (rw raised refl), (rw raised refl))
    ]
