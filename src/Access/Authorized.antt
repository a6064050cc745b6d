-- ===== src/Access/Authorized.antt =====
-- What `active_revision` and `_application_access` of system/experience_access.py amount to.
use mathlib.Core.Logic.{◌↔◌}
use text.Mathlib.TextPositions.{eq_refl}
use n4x_core.Prelude.{
  ℕ, String, ◌≡◌, refl, subst, ◌⊎◌, inl, inr, Bool, true, false, ◌&&◌, Option, none, some, find,
  arith, eq_iff, ◌==◌,
}
use n4x_core.Prelude.Result.{ok, Returns, >>=-Returns}
use n4x_core.Graph.Records
use n4x_core.Kernel.Jobs.{Application, ApplicationStatus, ApplicationRevision, RevisionStatus}
use n4x_core.Kernel.Experiences.{Experience, ExperienceRevision, ApplicationAccessDeclaration}
use n4x_core.Access.State.{AccessGraph, or_fail, check}
use n4x_core.Access.Guards.{is_active, if_active, active_revision, if_serving, application_access}

pub or_fail-eq-ok {ℓ} :
    {A : Type ℓ} (o : Option A) (code : String) (status : ℕ) (a : A)
    → or_fail o code status ≡ ok a
    → o ≡ some a
or_fail-eq-ok none code status a e = cc
or_fail-eq-ok (some b) code status a e = cc

pub check-eq-ok :
    (b : Bool) (code : String) (status : ℕ) (u : Unit {0}) → check b code status ≡ ok u → b ≡ true
check-eq-ok true code status u e = refl
check-eq-ok false code status u e = cc

is_active-eq-true : (s : RevisionStatus) → is_active s ≡ true → s ≡ RevisionStatus.active
is_active-eq-true RevisionStatus.active e = refl
is_active-eq-true RevisionStatus.draft e = cc
is_active-eq-true RevisionStatus.validating e = cc
is_active-eq-true RevisionStatus.rejected e = cc
is_active-eq-true RevisionStatus.superseded e = cc

-- The Experience is active, and this is its active revision.
abbrev pub HasRevision : AccessGraph → String → ExperienceRevision → Type 0
HasRevision g experience_id revision =
    (experience : Experience) × (revision_id : String) × (Records.get g.experiences experience_id
      ≡ some experience)
    × (experience.status ≡ ApplicationStatus.active)
    × (experience.active_revision_id ≡ some revision_id)
    × (Records.get g.experience_revisions revision_id ≡ some revision)
    × (revision.experience_id ≡ experience.id)
    × (revision.status ≡ RevisionStatus.active)

-- The Application is active or has its triggers paused, and its revision is active.
abbrev pub Serves : AccessGraph → String → Type 0
Serves g application_id =
    (application : Application) × (revision : ApplicationRevision) × (revision_id : String)
    × (Records.get g.applications application_id ≡ some application)
    × ((application.status ≡ ApplicationStatus.active)
        ⊎ (application.status ≡ ApplicationStatus.triggers_paused))
    × (application.active_revision_id ≡ some revision_id)
    × (Records.get g.revisions revision_id ≡ some revision)
    × (revision.application_id ≡ application.id)
    × (revision.status ≡ RevisionStatus.active)

-- The active revision of the Experience declares the Application, which serves it.
abbrev pub Authorized :
    AccessGraph → String → String → ExperienceRevision → ApplicationAccessDeclaration → Type 0
Authorized g experience_id application_id revision access =
    HasRevision g experience_id revision
    × (find (λ item. item.application_id == application_id) revision.application_access
        ≡ some access)
    × Serves g application_id

if_active-eq-some :
    (s : ApplicationStatus) (o : Option String) (id : String)
    → if_active s o ≡ some id
    → (s ≡ ApplicationStatus.active) × (o ≡ some id)
if_active-eq-some ApplicationStatus.active o id e = (refl, e)
if_active-eq-some ApplicationStatus.disabled o id e = cc
if_active-eq-some ApplicationStatus.triggers_paused o id e = cc
if_active-eq-some ApplicationStatus.importing o id e = cc

if_serving-eq-some :
    (s : ApplicationStatus) (o : Option String) (id : String)
    → if_serving s o ≡ some id
    → ((s ≡ ApplicationStatus.active) ⊎ (s ≡ ApplicationStatus.triggers_paused)) × (o ≡ some id)
if_serving-eq-some ApplicationStatus.active o id e = (inl refl, e)
if_serving-eq-some ApplicationStatus.triggers_paused o id e = (inr refl, e)
if_serving-eq-some ApplicationStatus.disabled o id e = cc
if_serving-eq-some ApplicationStatus.importing o id e = cc

-- What the check of a revision says: whose it is, and that it is active.
owned_active :
    (owner id : String) (s : RevisionStatus) (code : String) (status : ℕ) (u : Unit {0})
    → check (owner == id && is_active s) code status ≡ ok u
    → (owner ≡ id) × (s ≡ RevisionStatus.active)
owned_active owner id s code status u e =
    let both : (owner == id && is_active s) ≡ true = check-eq-ok _ code status u e in
    ((ground (arith, eq_iff owner id, both)), is_active-eq-true s (ground (arith, both)))

active_revision-HasRevision :
    (g : AccessGraph) (experience_id : String)
    → Returns (HasRevision g experience_id) (active_revision g experience_id)
unfolding active_revision
active_revision-HasRevision g experience_id =
    >>=-Returns _ (or_fail (Records.get g.experiences experience_id) _ _) _ λ experience e.
      >>=-Returns _ (or_fail (if_active experience.status experience.active_revision_id) _ _) _
        λ revision_id e1.
          >>=-Returns _ (or_fail (Records.get g.experience_revisions revision_id) _ _) _
            λ revision e2.
              >>=-Returns _
                (check (revision.experience_id == experience.id && is_active revision.status) _ _) _
                λ u e3.
                  let enabled =
                    if_active-eq-some experience.status experience.active_revision_id revision_id
                      (or_fail-eq-ok _ _ _ _ e1) in
                  let valid = owned_active _ _ _ _ _ u e3 in
                  (
                    experience,
                    revision_id,
                    or_fail-eq-ok _ _ _ _ e,
                    enabled.0,
                    enabled.1,
                    or_fail-eq-ok _ _ _ _ e2,
                    valid.0,
                    valid.1,
                  )

pub application_access-Authorized :
    (g : AccessGraph) (experience_id application_id : String)
    → Returns
        (λ p. Authorized g experience_id application_id p.0 p.1)
        (application_access g experience_id application_id)
unfolding application_access
application_access-Authorized g experience_id application_id =
    >>=-Returns _ (active_revision g experience_id) _ λ revision e.
      >>=-Returns _
        (or_fail (find (λ item. item.application_id == application_id) revision.application_access)
          _ _)
        _
        λ access e1.
          >>=-Returns _ (or_fail (Records.get g.applications application_id) _ _) _
            λ application e2.
              >>=-Returns _
                (or_fail (if_serving application.status application.active_revision_id) _ _) _
                λ revision_id e3.
                  >>=-Returns _ (or_fail (Records.get g.revisions revision_id) _ _) _
                    λ app_revision e4.
                      >>=-Returns _
                        (check
                          (app_revision.application_id == application.id
                            && is_active app_revision.status)
                          _ _)
                        _
                        λ u e5.
                          let serving =
                            if_serving-eq-some application.status application.active_revision_id
                              revision_id (or_fail-eq-ok _ _ _ _ e3) in
                          let valid = owned_active _ _ _ _ _ u e5 in
                          (
                            subst (Returns (HasRevision g experience_id)) e
                                (active_revision-HasRevision g experience_id),
                            or_fail-eq-ok _ _ _ _ e1,
                            (
                              application,
                              app_revision,
                              revision_id,
                              or_fail-eq-ok _ _ _ _ e2,
                              serving.0,
                              serving.1,
                              or_fail-eq-ok _ _ _ _ e4,
                              valid.0,
                              valid.1,
                            ),
                          )

if_serving-of :
    (s : ApplicationStatus) (o : Option String)
    → (s ≡ ApplicationStatus.active) ⊎ (s ≡ ApplicationStatus.triggers_paused)
    → if_serving s o ≡ o
if_serving-of s o (inl e) = rw e refl
if_serving-of s o (inr e) = rw e refl

active_revision-of :
    (g : AccessGraph) (experience_id : String) (revision : ExperienceRevision)
    → HasRevision g experience_id revision
    → active_revision g experience_id ≡ ok revision
unfolding active_revision
active_revision-of g experience_id revision (x, id, e, active, e1, e2, own, valid) =
    rw (e, active, e1, e2, own, valid, eq_refl x.id) refl

-- The bridge lets an Experience reach an Application, under a declaration, exactly when the
-- Experience is active and has an active revision of its own, that revision declares the Application
-- (the first declaration counts), and the Application is active or has its triggers paused and has
-- an active revision of its own.
pub application_access_iff :
    (g : AccessGraph) (experience_id application_id : String) (revision : ExperienceRevision)
    (access : ApplicationAccessDeclaration)
    → (application_access g experience_id application_id ≡ ok (revision, access))
      ↔ Authorized g experience_id application_id revision access
unfolding application_access
application_access_iff g experience_id application_id revision access = (
  (λ e.
      subst (Returns (λ p. Authorized g experience_id application_id p.0 p.1)) e
        (application_access-Authorized g experience_id application_id)),
  granted,
)
  where
    granted :
        Authorized g experience_id application_id revision access
        → application_access g experience_id application_id ≡ ok (revision, access)
    granted (has, declared, (x, r, id, e, serving, e1, e2, own, valid)) =
        rw
          (
            active_revision-of g experience_id revision has,
            declared,
            e,
            if_serving-of x.status x.active_revision_id serving,
            e1,
            e2,
            own,
            valid,
            eq_refl x.id,
          )
          refl
