-- ===== src/Activation/Superseded.antt =====
-- The switch to another revision: the revision that was active is superseded, and then the target is
-- made active.
use n4x_core.Prelude.{
  String, ◌≡◌, refl, sym, ap, subst, ◌∙◌, Option, none, some, ◌==◌, eq_iff, arith, Bool-cases,
  some_injective, inl, inr,
}
use n4x_core.Prelude.Result.{ok, ok_injective, raise-not-ok}
use n4x_core.Kernel.Jobs.{Application, ApplicationRevision, RevisionStatus}
use n4x_core.Graph.Records
use n4x_core.Graph.Records.{RecordCollection, get-save-cases, get-save-same, get-save-other}
use n4x_core.Activation.State.{ActivationGraph}
use n4x_core.Activation.Switch.{
  save_revision, enabled_status, Switched, with_active, supersede, supersede_found,
  supersede_active,
}
use n4x_core.Activation.Consistent.{IsConsistent}

-- What stands of the revisions when the target of an application is about to become active.
record MayActivate (g : ActivationGraph) (s : ActivationGraph) (k t : String) : Type 0 where
  same_applications : s.applications ≡ g.applications
  keyed : {r : String} {v : ApplicationRevision} → Records.get s.revisions r ≡ some v → v.id ≡ r
  others :
      {r : String} {w : ApplicationRevision}
      → Records.get s.revisions r ≡ some w
      → w.status ≡ RevisionStatus.active
      → ¬ (t ≡ r)
      → (Records.get g.revisions r ≡ some w) × (¬ (w.application_id ≡ k))
  kept :
      (r : String) {w : ApplicationRevision}
      → Records.get g.revisions r ≡ some w
      → ¬ (w.application_id ≡ k)
      → Records.get s.revisions r ≡ some w

module _ (g : ActivationGraph) (v : ApplicationRevision) (a : Application) (c : IsConsistent g)
    (here : Records.get g.applications v.application_id ≡ some a) where
  -- Only the revision that the application names is active.
  the_active :
      {r : String} {w : ApplicationRevision}
      → Records.get g.revisions r ≡ some w
      → w.status ≡ RevisionStatus.active
      → w.application_id ≡ v.application_id
      → a.active_revision_id ≡ some r
  the_active {r} {w} h s i =
      let (b, p, q) = c.only h s in
      ap (λ (x : Application). x.active_revision_id)
        (some_injective (sym here ∙ ap (λ x. Records.get g.applications x) (sym i) ∙ p))
      ∙ q

  unchanged-MayActivate :
      ((r : String) → a.active_revision_id ≡ some r → v.id ≡ r)
      → MayActivate g g v.application_id v.id
  unchanged-MayActivate names = record {
    same_applications = refl;
    keyed = λ h. c.keyed h;
    others = λ {r} {w} h s ne. (h, λ i. ne (names r (the_active h s i)));
    kept = λ r h ne. h;
  }

  superseded-MayActivate :
      (old : ApplicationRevision) (r : String)
      → a.active_revision_id ≡ some r
      → Records.get g.revisions r ≡ some old
      → MayActivate g
          (save_revision (record old { status = RevisionStatus.superseded }) g)
          v.application_id
          v.id
  superseded-MayActivate old r e p = record {
    same_applications = refl;
    keyed = λ {r = j} {v = w} h. elim (get-save-cases g.revisions old.id j older h) [
      | inl (i, q) ↦ sym (ap (λ (u : ApplicationRevision). u.id) q) ∙ i
      | inr (ne, q) ↦ c.keyed q
    ];
    others = λ {r = j} {w} h s ne. elim (get-save-cases g.revisions old.id j older h) [
      | inl (i, q) ↦ absurd (cc (ap (λ (u : ApplicationRevision). u.status) q ∙ s))
      | inr (other, q) ↦ (q, λ i. other (c.keyed p ∙ some_injective (sym e ∙ the_active q s i)))
    ];
    kept = λ j {w} h ne. get-save-other g.revisions old.id j older (λ i. ne (belongs h i)) h;
  }
    where
      older : ApplicationRevision
      older = record old { status = RevisionStatus.superseded }

      belongs :
          {j : String} {w : ApplicationRevision}
          → Records.get g.revisions j ≡ some w
          → old.id ≡ j
          → w.application_id ≡ v.application_id
      belongs {j} {w} h i =
          let (u, q, _, s) = c.named here e in
          ap (λ (x : ApplicationRevision). x.application_id)
            (some_injective (sym h ∙ ap (λ x. Records.get g.revisions x) (sym i ∙ c.keyed p) ∙ q))
          ∙ s

module _ (g s : ActivationGraph) (v : ApplicationRevision) (a : Application) (c : IsConsistent g)
    (here : Records.get g.revisions v.id ≡ some v)
    (owner : Records.get g.applications v.application_id ≡ some a)
    (m : MayActivate g s v.application_id v.id) where
  abbrev made_active : ApplicationRevision
  made_active = record v { status = RevisionStatus.active }

  abbrev renewed : Application
  renewed = record a { active_revision_id = some v.id; status = enabled_status a.status }

  found :
      (k : String) {b : Application}
      → Records.get s.applications k ≡ some b
      → Records.get g.applications k ≡ some b
  found k h = sym (ap (λ x. Records.get x k) m.same_applications) ∙ h

  with_active-IsConsistent : IsConsistent (with_active v a s)
  with_active-IsConsistent = record {
    keyed = λ {r} {v = w} h. elim (get-save-cases s.revisions v.id r made_active h) [
      | inl (i, q) ↦ sym (ap (λ (u : ApplicationRevision). u.id) q) ∙ i
      | inr (ne, q) ↦ m.keyed q
    ];
    app_keyed = λ {k} {a = b} h. elim (get-save-cases s.applications a.id k renewed h) [
      | inl (i, q) ↦ sym (ap (λ (u : Application). u.id) q) ∙ i
      | inr (ne, q) ↦ c.app_keyed (found k q)
    ];
    named = λ {k} {a = b} {r} h e. elim (get-save-cases s.applications a.id k renewed h) [
      | inl (i, q) ↦ (
        made_active,
        ap (λ x. Records.get (Records.save s.revisions v.id made_active) x)
              (some_injective (sym e ∙ sym (ap (λ (u : Application). u.active_revision_id) q)))
            ∙ get-save-same s.revisions v.id made_active,
        refl,
        sym (c.app_keyed owner) ∙ i,
      )
      | inr (ne, q) ↦ elsewhere k r (λ i. ne (c.app_keyed owner ∙ i)) (c.named (found k q) e)
    ];
    only = λ {r} {v = w} h e. elim (get-save-cases s.revisions v.id r made_active h) [
      | inl (i, q) ↦ (
        renewed,
        ap (λ x. Records.get (Records.save s.applications a.id renewed) x)
              (sym (ap (λ (u : ApplicationRevision). u.application_id) q) ∙ sym (c.app_keyed owner))
            ∙ get-save-same s.applications a.id renewed,
        ap (λ x. some x) i,
      )
      | inr (ne, q) ↦
          let (p, other) = m.others q e ne in
          let (b, o, f) = c.only p e in
          (
            b,
            get-save-other s.applications a.id w.application_id renewed
                (λ i. other (sym i ∙ c.app_keyed owner))
                (ap (λ x. Records.get x w.application_id) m.same_applications ∙ o),
            f,
          )
    ];
  }
    where
      elsewhere :
          (k r : String)
          → ¬ (v.application_id ≡ k)
          → (w : ApplicationRevision) × (Records.get g.revisions r ≡ some w)
            × (w.status ≡ RevisionStatus.active)
            × (w.application_id ≡ k)
          → (w : ApplicationRevision) × (Records.get (with_active v a s).revisions r ≡ some w)
            × (w.status ≡ RevisionStatus.active)
            × (w.application_id ≡ k)
      elsewhere k r ne (w, p, e, i) = (
        w,
        get-save-other s.revisions v.id r made_active
            (λ j. ne (
              ap (λ (u : ApplicationRevision). u.application_id)
                (some_injective (sym here ∙ ap (λ x. Records.get g.revisions x) j ∙ p))
              ∙ i))
            (m.kept r p (λ j. ne (sym j ∙ i))),
        e,
        i,
      )

module _ (g : ActivationGraph) (v : ApplicationRevision) (a : Application) (c : IsConsistent g)
    (here : Records.get g.revisions v.id ≡ some v)
    (owner : Records.get g.applications v.application_id ≡ some a) where
  supersede-MayActivate :
      (old : ApplicationRevision) (r : String)
      → a.active_revision_id ≡ some r
      → Records.get g.revisions r ≡ some old
      → MayActivate g (supersede v old g).graph v.application_id v.id
  supersede-MayActivate old r e p = elim (Bool-cases (old.id == v.id)) [
    | inl i ↦ rw i (
        unchanged-MayActivate g v a c owner (λ j f.
          sym (ground (arith, eq_iff old.id v.id)) ∙ c.keyed p ∙ some_injective (sym e ∙ f)))
    | inr i ↦ rw i (superseded-MayActivate g v a c owner old r e p)
  ]

  supersede_active-MayActivate :
      (o : Option String) (s : Switched)
      → a.active_revision_id ≡ o
      → supersede_active v o g ≡ ok s
      → MayActivate g s.graph v.application_id v.id
  supersede_active-MayActivate none s e h =
      subst (λ (x : Switched). MayActivate g x.graph v.application_id v.id) (ok_injective h)
        (unchanged-MayActivate g v a c owner (λ r f. absurd (cc (sym e ∙ f))))
  supersede_active-MayActivate (some r) s e h = by_row (Records.get g.revisions r) refl h
    where
      by_row :
          (o : Option ApplicationRevision)
          → Records.get g.revisions r ≡ o
          → supersede_found v o g ≡ ok s
          → MayActivate g s.graph v.application_id v.id
      by_row none p h = absurd (raise-not-ok h)
      by_row (some old) p h =
          subst (λ (x : Switched). MayActivate g x.graph v.application_id v.id) (ok_injective h)
            (supersede-MayActivate old r e p)

  -- The switch to another revision keeps the invariant, whichever revision was active.
  pub supersede_active-IsConsistent :
      (s : Switched)
      → supersede_active v a.active_revision_id g ≡ ok s
      → IsConsistent (with_active v a s.graph)
  supersede_active-IsConsistent s h =
      with_active-IsConsistent g s.graph v a c here owner
        (supersede_active-MayActivate a.active_revision_id s refl h)
