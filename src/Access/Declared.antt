-- ===== src/Access/Declared.antt =====
-- What `_require_definition` of system/experience_access.py amounts to.
use n4x_core.Prelude.{
  String, ◌≡◌, refl, Bool, true, false, not, Option, some, List, any, arith, eq_iff, ◌==◌, is_blank,
}
use n4x_core.Prelude.Result.{ok, Returns, >>=-Returns}
use n4x_core.Graph.Records
use n4x_core.Graph.Bindings.{get_item, bound}
use n4x_core.Kernel.Jobs.{Application}
use n4x_core.Kernel.Experiences.{Definition}
use n4x_core.Access.State.{AccessGraph, key_error, or_fail, check}
use n4x_core.Access.Authorized.{or_fail-eq-ok, check-eq-ok}
use n4x_core.Access.Guards.{admits, Kind, require_definition}

-- The definition is the Application's, is bound to its active revision, and is in the allowlist.
abbrev pub Declared :
    {V : Type 0} → AccessGraph → Kind V → String → String → Option (List String) → Type 0
Declared {V} g kind application_id identifier allowlist =
    (stable : Definition) × (application : Application) × (active_id : String)
    × (revision_id : String) × (items : List V) × (is_blank identifier ≡ false)
    × (Records.get kind.stable_records identifier ≡ some stable)
    × (stable.application_id ≡ application_id)
    × (Records.get g.applications application_id ≡ some application)
    × (application.active_revision_id ≡ some active_id)
    × (stable.active_revision_id ≡ some revision_id)
    × (bound key_error kind.revision_records active_id kind.edge_type g.edges ≡ ok items)
    × (any (λ item. kind.revision_id item == revision_id) items ≡ true)
    × (admits allowlist identifier ≡ true)

get_item-eq-ok {ℓ} :
    {V : Type ℓ} (c : Records.RecordCollection V) (k : String) (v : V)
    → get_item key_error c k ≡ ok v
    → Records.get c k ≡ some v
unfolding get_item
get_item-eq-ok c k v e = ground arith

pub require_definition-Declared :
    {V : Type 0} (g : AccessGraph) (kind : Kind V) (application_id identifier : String)
    (allowlist : Option (List String))
    → Returns
        (λ _. Declared g kind application_id identifier allowlist)
        (require_definition g kind application_id identifier allowlist)
unfolding require_definition
require_definition-Declared g kind application_id identifier allowlist =
    >>=-Returns _ (check (not (is_blank identifier)) _ _) _ λ u e.
      >>=-Returns _ (or_fail (Records.get kind.stable_records identifier) _ _) _ λ stable e1.
        >>=-Returns _ (check (stable.application_id == application_id) _ _) _ λ v e2.
          >>=-Returns _ (get_item key_error g.applications application_id) _ λ application e3.
            >>=-Returns _ (or_fail application.active_revision_id _ _) _ λ active_id e4.
              >>=-Returns _ (or_fail stable.active_revision_id _ _) _ λ revision_id e5.
                >>=-Returns _ (or_fail (Records.get kind.revision_records revision_id) _ _) _
                  λ revision e6.
                    >>=-Returns _
                      (bound key_error kind.revision_records active_id kind.edge_type g.edges) _
                      λ items e7.
                        >>=-Returns _
                          (check (any (λ item. kind.revision_id item == revision_id) items) _ _) _
                          λ w e8.
                            admitted stable application active_id revision_id items
                              (check-eq-ok _ _ _ u e) (or_fail-eq-ok _ _ _ _ e1)
                              (check-eq-ok _ _ _ v e2) (get_item-eq-ok _ _ _ e3)
                              (or_fail-eq-ok _ _ _ _ e4) (or_fail-eq-ok _ _ _ _ e5) e7
                              (check-eq-ok _ _ _ w e8) (admits allowlist identifier) refl
  where
    admitted :
        (stable : Definition) (application : Application) (active_id revision_id : String)
        (items : List _)
        → not (is_blank identifier) ≡ true
        → Records.get kind.stable_records identifier ≡ some stable
        → (stable.application_id == application_id) ≡ true
        → Records.get g.applications application_id ≡ some application
        → application.active_revision_id ≡ some active_id
        → stable.active_revision_id ≡ some revision_id
        → bound key_error kind.revision_records active_id kind.edge_type g.edges ≡ ok items
        → any (λ item. kind.revision_id item == revision_id) items ≡ true
        → (b : Bool) → admits allowlist identifier ≡ b
        → Returns
            (λ _. Declared g kind application_id identifier allowlist)
            (check b "access_denied" 403)
    admitted stable application active_id revision_id items n e1 own e3 e4 e5 e7 e8 true allowed = (
      stable,
      application,
      active_id,
      revision_id,
      items,
      (ground (arith, n)),
      e1,
      (ground (arith, eq_iff stable.application_id application_id, own)),
      e3,
      e4,
      e5,
      e7,
      e8,
      allowed,
    )
    admitted stable application active_id revision_id items n e1 own e3 e4 e5 e7 e8 false denied =
        tt
