-- ===== src/Activation/Units.antt =====
-- The units of work of an activation keep the invariant, where they end.
use n4x_core.Prelude.{
  String, Bool, true, false, ◌≡◌, refl, Option, none, some, List, [], ◌∷◌, sym, ap, ◌∙◌,
}
use n4x_core.Prelude.Result.{ok}
use n4x_core.Prelude.Outcomes.{
  Ends, Stays, continue-Ends, lift-Ends, transaction-Stays, Returns, continue-Returns, lift-Returns,
  Ends-Returns, Returns-map,
}
use n4x_core.Kernel.Jobs.{Application, ApplicationRevision, RevisionStatus}
use n4x_core.Kernel.Definitions.{DefinitionRevision}
use n4x_core.Kernel.Experiences.{Definition}
use n4x_core.Graph.Records
use n4x_core.Graph.Records.{get-save-same}
use n4x_core.Graph.Edges.{EdgeRecord, node_ref, list_edges}
use n4x_core.Graph.Bindings.{get_item-eq-ok}
use n4x_core.Activation.State.{
  Kind, action, trigger, object_type, relation_type, ActivationGraph, key_error, get_item,
  bound_revisions,
}
use n4x_core.Activation.Switch.{
  matches_current, revision_ref, replace_if, replace_active_revision, activate_each, activate_set,
  activate_sets, save_revision, supersede_active, Switched, with_active, activate_edges,
  reject_status, reject_found, reject,
}
use n4x_core.Activation.Superseded.{supersede_active-IsConsistent}
use n4x_core.Activation.Consistent.{IsConsistent, save_revision-IsConsistent}
use n4x_core.Activation.Roster.{SameRoster, with_active-SameRoster}

-- Definitions and edges are not looked at.
elsewhere-IsConsistent :
    (g : ActivationGraph) (definitions : Kind → Records.RecordCollection Definition)
    (edges : List EdgeRecord)
    → IsConsistent g
    → IsConsistent (record g { definitions = definitions; edges = edges })
elsewhere-IsConsistent g definitions edges c = record {
  keyed = λ h. c.keyed h;
  app_keyed = λ h. c.app_keyed h;
  named = λ h e. c.named h e;
  only = λ h e. c.only h e;
}

-- What does not look at definitions and edges is kept by the edges' and the definitions' changes.
module _ (P : ActivationGraph → Type 0)
    (keep : (g : ActivationGraph) (definitions : Kind → Records.RecordCollection Definition)
        (edges : List EdgeRecord)
      → P g
      → P (record g { definitions = definitions; edges = edges })) where
  replace_if-Ends :
      (b : Bool) (application_id revision_id : String) (g : ActivationGraph)
      → P g
      → Ends P (replace_if b application_id revision_id g)
  replace_if-Ends false application_id revision_id g c = tt
  replace_if-Ends true application_id revision_id g c = keep g _ _ c

  activate_each-Ends :
      (kind : Kind) (revisions : List DefinitionRevision) (g : ActivationGraph)
      → P g
      → Ends P (activate_each kind revisions g)
  activate_each-Ends kind [] g c = c
  activate_each-Ends kind (revision ∷ revisions) g c =
      lift-Ends P (get_item (g.definitions kind) revision.stable_id) g _
        (λ stable h. activate_each-Ends kind revisions _ (keep g _ _ c))

  activate_set-Ends :
      (revision_id : String) (kind : Kind) (g : ActivationGraph)
      → P g
      → Ends P (activate_set revision_id kind g)
  activate_set-Ends revision_id kind g c =
      lift-Ends P (bound_revisions kind revision_id g) g _
        (λ revisions h. activate_each-Ends kind revisions g c)

  activate_sets-Ends :
      (revision_id : String) (g : ActivationGraph) → P g → Ends P (activate_sets revision_id g)
  unfolding activate_sets
  activate_sets-Ends revision_id g c =
      continue-Ends P _ _ (activate_set-Ends revision_id action g c) (λ u s k.
        continue-Ends P _ _ (activate_set-Ends revision_id trigger s k) (λ u s k.
          continue-Ends P _ _ (activate_set-Ends revision_id object_type s k)
            (λ u s k. activate_set-Ends revision_id relation_type s k)))

-- What `_activate_edges` returns stands among the revisions, and its status is "active".
abbrev pub Activated : String → ApplicationRevision → ActivationGraph → Type 0
Activated revision_id r g =
    IsConsistent g
    × (r.id ≡ revision_id)
    × (Records.get g.revisions revision_id ≡ some r)
    × (r.status ≡ RevisionStatus.active)

Activated-elsewhere :
    (revision_id : String) (r : ApplicationRevision) (g : ActivationGraph)
    (definitions : Kind → Records.RecordCollection Definition) (edges : List EdgeRecord)
    → Activated revision_id r g
    → Activated revision_id r (record g { definitions = definitions; edges = edges })
Activated-elsewhere revision_id r g definitions edges (c, i, p, e) =
    (elsewhere-IsConsistent g definitions edges c, i, p, e)

-- And no revision comes or goes.
abbrev pub SwitchedFrom :
    ActivationGraph → String → ApplicationRevision × Option String → ActivationGraph → Type 0
SwitchedFrom g revision_id a h = Activated revision_id a.0 h × SameRoster g h

pub activate_edges-switches :
    (revision_id : String) (g : ActivationGraph)
    → IsConsistent g
    → Returns (SwitchedFrom g revision_id) (activate_edges revision_id g)
unfolding activate_edges replace_active_revision
activate_edges-switches revision_id g c =
    lift-Returns Q (get_item g.revisions revision_id) g _ (λ target t.
      lift-Returns Q (get_item g.applications target.application_id) g _ (λ application a.
        lift-Returns Q (supersede_active target application.active_revision_id g) g _ (λ s h.
          let P : ActivationGraph → Type 0 =
            λ d. SwitchedFrom g revision_id (made target, none) d in
          continue-Returns (λ u. P) Q _ _
            (Ends-Returns P _ (
              replace_if-Ends P (elsewhere (made target))
                (matches_current (revision_ref application.active_revision_id) (
                  list_edges (node_ref "Application" application.id) "ACTIVE_REVISION"
                    s.graph.edges))
                application.id target.id _ (switched target t application a s h)))
            (λ u d k.
              continue-Returns (λ u. P) Q _ _
                (Ends-Returns P _ (activate_sets-Ends P (elsewhere (made target)) target.id d k))
                (λ u d k. k)))))
  where
    Q : ApplicationRevision × Option String → ActivationGraph → Type 0
    Q = SwitchedFrom g revision_id

    made : ApplicationRevision → ApplicationRevision
    made target = record target { status = RevisionStatus.active }

    elsewhere :
        (r : ApplicationRevision) (h : ActivationGraph)
        (definitions : Kind → Records.RecordCollection Definition) (edges : List EdgeRecord)
        → SwitchedFrom g revision_id (r, none) h
        → SwitchedFrom g revision_id
            (r, none)
            (record h { definitions = definitions; edges = edges })
    elsewhere r h definitions edges (k, same) =
        (Activated-elsewhere revision_id r h definitions edges k, same)

    switched :
        (target : ApplicationRevision)
        → get_item g.revisions revision_id ≡ ok target
        → (application : Application)
        → get_item g.applications target.application_id ≡ ok application
        → (s : Switched) → supersede_active target application.active_revision_id g ≡ ok s
        → SwitchedFrom g revision_id (made target, none) (with_active target application s.graph)
    switched target t application a s h =
        let p = get_item-eq-ok key_error g.revisions revision_id t in
        let i = c.keyed p in
        let q = ap (λ x. Records.get g.revisions x) i ∙ p in
        (
          (
            supersede_active-IsConsistent g target application c q
                (get_item-eq-ok key_error g.applications target.application_id a) s h,
            i,
            ap (λ x. Records.get (Records.save s.graph.revisions target.id (made target)) x) (sym i)
                ∙ get-save-same s.graph.revisions target.id (made target),
            refl,
          ),
          with_active-SameRoster target application g s c q h,
        )

pub activate_edges-Returns :
    (revision_id : String) (g : ActivationGraph)
    → IsConsistent g
    → Returns
        (λ (a : ApplicationRevision × Option String) h. Activated revision_id a.0 h)
        (activate_edges revision_id g)
activate_edges-Returns revision_id g c =
    Returns-map (SwitchedFrom g revision_id)
      (λ (a : ApplicationRevision × Option String) h. Activated revision_id a.0 h)
      (activate_edges revision_id g) (λ a t k. k.0) (activate_edges-switches revision_id g c)

pub found-IsConsistent :
    (r : ApplicationRevision) (status : RevisionStatus) (revision_id : String) (g : ActivationGraph)
    → IsConsistent g
    → Records.get g.revisions revision_id ≡ some r
    → ¬ (r.status ≡ RevisionStatus.active)
    → ¬ (status ≡ RevisionStatus.active)
    → IsConsistent (save_revision (record r { status = status }) g)
found-IsConsistent r status revision_id g c p was is =
    save_revision-IsConsistent g r status c (ap (λ x. Records.get g.revisions x) (c.keyed p) ∙ p)
      was is

reject_status-IsConsistent :
    (r : ApplicationRevision) (status : RevisionStatus) (revision_id : String) (g : ActivationGraph)
    → IsConsistent g
    → Records.get g.revisions revision_id ≡ some r
    → r.status ≡ status
    → Ends IsConsistent (reject_status r status g)
reject_status-IsConsistent r RevisionStatus.validating revision_id g c p e =
    found-IsConsistent r RevisionStatus.rejected revision_id g c p (λ i. cc (sym e ∙ i)) (λ i. cc)
reject_status-IsConsistent r RevisionStatus.draft revision_id g c p e = c
reject_status-IsConsistent r RevisionStatus.active revision_id g c p e = c
reject_status-IsConsistent r RevisionStatus.rejected revision_id g c p e = c
reject_status-IsConsistent r RevisionStatus.superseded revision_id g c p e = c

pub reject-IsConsistent :
    (revision_id : String) (g : ActivationGraph)
    → IsConsistent g
    → Stays IsConsistent (reject revision_id g)
unfolding reject
reject-IsConsistent revision_id g c =
    transaction-Stays IsConsistent (λ h. reject_found (Records.get h.revisions revision_id) h) g c
      (by_row (Records.get g.revisions revision_id) refl)
  where
    by_row :
        (o : Option ApplicationRevision)
        → Records.get g.revisions revision_id ≡ o
        → Ends IsConsistent (reject_found o g)
    by_row none p = c
    by_row (some r) p = reject_status-IsConsistent r r.status revision_id g c p refl
