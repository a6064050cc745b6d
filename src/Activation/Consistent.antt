-- ===== src/Activation/Consistent.antt =====
-- The invariant of the active revisions. It is kept when a revision that is not active gets another
-- status than "active".
use n4x_core.Prelude.{String, ◌≡◌, sym, ap, subst, ◌∙◌, some, some_injective, inl, inr}
use n4x_core.Kernel.Jobs.{Application, ApplicationRevision, RevisionStatus}
use n4x_core.Graph.Records
use n4x_core.Graph.Records.{RecordCollection, get-save-cases, get-save-same, get-save-other}
use n4x_core.Activation.State.{ActivationGraph}
use n4x_core.Activation.Switch.{save_revision}

-- Rows stand under their ids, an application's active revision is one of its revisions whose status
-- is "active", and a revision with this status is the active one of its application.
pub record IsConsistent (g : ActivationGraph) : Type 0 where
  pub keyed : {r : String} {v : ApplicationRevision} → Records.get g.revisions r ≡ some v → v.id ≡ r
  pub app_keyed : {k : String} {a : Application} → Records.get g.applications k ≡ some a → a.id ≡ k
  pub named :
      {k : String} {a : Application} {r : String}
      → Records.get g.applications k ≡ some a
      → a.active_revision_id ≡ some r
      → (v : ApplicationRevision) × (Records.get g.revisions r ≡ some v)
        × (v.status ≡ RevisionStatus.active)
        × (v.application_id ≡ k)
  pub only :
      {r : String} {v : ApplicationRevision}
      → Records.get g.revisions r ≡ some v
      → v.status ≡ RevisionStatus.active
      → (a : Application) × (Records.get g.applications v.application_id ≡ some a)
        × (a.active_revision_id ≡ some r)

-- A revision that is not active gets another status than "active".
module _ (g : ActivationGraph) (v : ApplicationRevision) (status : RevisionStatus)
    (c : IsConsistent g) (here : Records.get g.revisions v.id ≡ some v)
    (was : ¬ (v.status ≡ RevisionStatus.active)) (is : ¬ (status ≡ RevisionStatus.active)) where
  abbrev changed : ApplicationRevision
  changed = record v { status = status }

  pub save_revision-IsConsistent : IsConsistent (save_revision changed g)
  save_revision-IsConsistent = record {
    keyed = λ {r} {v = w} h. elim (get-save-cases g.revisions v.id r changed h) [
      | inl (p, q) ↦ cc
      | inr (p, q) ↦ c.keyed q
    ];
    app_keyed = λ h. c.app_keyed h;
    named = λ {k} {a} {r} h e.
        let (w, p, q, s) = c.named h e in
        (
          w,
          get-save-other g.revisions v.id r changed
              (λ i. was (
                subst (λ (u : ApplicationRevision). u.status ≡ RevisionStatus.active) (same p i) q))
              p,
          q,
          s,
        );
    only = λ {r} {v = w} h s. elim (get-save-cases g.revisions v.id r changed h) [
      | inl (p, q) ↦ absurd (is (ap (λ (u : ApplicationRevision). u.status) q ∙ s))
      | inr (p, q) ↦ c.only q s
    ];
  }
    where
      same :
          {r : String} {w : ApplicationRevision}
          → Records.get g.revisions r ≡ some w
          → v.id ≡ r
          → w ≡ v
      same {r} p i = some_injective (sym p ∙ ap (λ x. Records.get g.revisions x) (sym i) ∙ here)
