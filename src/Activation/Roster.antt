-- ===== src/Activation/Roster.antt =====
-- The revisions that are there, each with its application: what a change of statuses leaves alone.
use n4x_core.Prelude.{
  String, Bool, true, false, ◌≡◌, refl, sym, ap, if◌then◌else◌, ◌∙◌, Option, none, some, ◌==◌,
  eq_iff, Bool-cases, some_injective, inl, inr,
}
use n4x_core.Prelude.Result.{ok, ok_injective, raise-not-ok}
use n4x_core.Kernel.Jobs.{Application, ApplicationRevision, RevisionStatus}
use n4x_core.Graph.Records
use n4x_core.Graph.Records.{get-save}
use n4x_core.Activation.State.{ActivationGraph}
use n4x_core.Activation.Switch.{
  save_revision, Switched, with_active, supersede, supersede_found, supersede_active,
}
use n4x_core.Activation.Consistent.{IsConsistent}

abbrev pub owner_of : Option ApplicationRevision → Option String
owner_of none = none
owner_of (some v) = some v.application_id

-- The same revisions, each of the same application.
abbrev pub SameRoster : ActivationGraph → ActivationGraph → Type 0
SameRoster g h =
    (r : String) → owner_of (Records.get h.revisions r) ≡ owner_of (Records.get g.revisions r)

-- The second graph is consistent, with the roster of the first.
abbrev pub Keeps : ActivationGraph → ActivationGraph → Type 0
Keeps g h = IsConsistent h × SameRoster g h

pub owner_of-some :
    (o : Option ApplicationRevision) {k : String}
    → owner_of o ≡ some k
    → (v : ApplicationRevision) × (o ≡ some v) × (v.application_id ≡ k)
owner_of-some none e = absurd (cc e)
owner_of-some (some v) e = (v, refl, some_injective e)

save_revision-SameRoster :
    (w : ApplicationRevision) (g : ActivationGraph)
    → owner_of (Records.get g.revisions w.id) ≡ some w.application_id
    → SameRoster g (save_revision w g)
save_revision-SameRoster w g e r = by_id (w.id == r) refl
  where
    saved :
        (b : Bool)
        → (w.id == r) ≡ b
        → Records.get (save_revision w g).revisions r
          ≡ (if b then some w else Records.get g.revisions r)
    saved b i =
        get-save g.revisions w.id r w
        ∙ ap (λ (x : Bool). if x then some w else Records.get g.revisions r) i

    by_id :
        (b : Bool)
        → (w.id == r) ≡ b
        → owner_of (Records.get (save_revision w g).revisions r)
          ≡ owner_of (Records.get g.revisions r)
    by_id true i =
        ap owner_of (saved true i)
        ∙ sym e
        ∙ ap (λ x. owner_of (Records.get g.revisions x)) ((eq_iff w.id r).0 i)
    by_id false i = ap owner_of (saved false i)

supersede-SameRoster :
    (v old : ApplicationRevision) (g : ActivationGraph)
    → Records.get g.revisions old.id ≡ some old
    → SameRoster g (supersede v old g).graph
supersede-SameRoster v old g h = elim (Bool-cases (old.id == v.id)) [
  | inl i ↦ rw i (λ r. refl)
  | inr i ↦ rw i (
      save_revision-SameRoster (record old { status = RevisionStatus.superseded }) g
        (ap owner_of h))
]

supersede_active-SameRoster :
    (v : ApplicationRevision) (o : Option String) (g : ActivationGraph) (s : Switched)
    → IsConsistent g
    → supersede_active v o g ≡ ok s
    → SameRoster g s.graph
supersede_active-SameRoster v none g s c h r =
    ap (λ (x : Switched). owner_of (Records.get x.graph.revisions r)) (sym (ok_injective h))
supersede_active-SameRoster v (some k) g s c h r = by_row (Records.get g.revisions k) refl h
  where
    by_row :
        (o : Option ApplicationRevision)
        → Records.get g.revisions k ≡ o
        → supersede_found v o g ≡ ok s
        → owner_of (Records.get s.graph.revisions r) ≡ owner_of (Records.get g.revisions r)
    by_row none p q = absurd (raise-not-ok q)
    by_row (some old) p q =
        ap (λ (x : Switched). owner_of (Records.get x.graph.revisions r)) (sym (ok_injective q))
        ∙ supersede-SameRoster v old g (ap (λ x. Records.get g.revisions x) (c.keyed p) ∙ p) r

pub with_active-SameRoster :
    (v : ApplicationRevision) (a : Application) (g : ActivationGraph) (s : Switched)
    → IsConsistent g
    → Records.get g.revisions v.id ≡ some v
    → supersede_active v a.active_revision_id g ≡ ok s
    → SameRoster g (with_active v a s.graph)
with_active-SameRoster v a g s c here h r =
    let before = supersede_active-SameRoster v a.active_revision_id g s c h in
    save_revision-SameRoster (record v { status = RevisionStatus.active }) s.graph
      (before v.id ∙ ap owner_of here) r
    ∙ before r
