-- ===== src/Activation/Restored.antt =====
-- A restored checkpoint keeps the invariant, if the revisions are those that were there when it was
-- captured.
use n4x_core.Prelude.{
  String, Bool, true, false, ◌≡◌, refl, sym, ap, subst, ◌∙◌, Option, none, some, ◌==◌, eq_iff,
  Bool-cases, some_injective, ◌⊎◌, inl, inr, if◌then◌else◌,
}
use n4x_core.Kernel.Jobs.{Application, ApplicationRevision, RevisionStatus}
use n4x_core.Graph.Records
use n4x_core.Checkpoints.Statuses.{status_or, restored}
use n4x_core.Activation.State.{ActivationGraph}
use n4x_core.Activation.Consistent.{IsConsistent}
use n4x_core.Activation.Roster.{owner_of, SameRoster, owner_of-some}

-- What a restoration of an application makes of a graph: the active revision that was captured, the
-- captured status for each revision that was captured and is there, and nothing else.
pub record Restored (k : String) (c g h : ActivationGraph) : Type 0 where
  pub at :
      (a : Application) × (b : Application) × (Records.get g.applications k ≡ some a)
      × (Records.get c.applications k ≡ some b)
      × (Records.get h.applications k
          ≡ some (record a { active_revision_id = b.active_revision_id }))
  pub elsewhere :
      (j : String) → ¬ (k ≡ j) → Records.get h.applications j ≡ Records.get g.applications j
  pub statuses :
      (r : String)
      → Records.get h.revisions r
        ≡ restored (status_or k (Records.get c.revisions r) none) (Records.get g.revisions r)

differ : {b : Bool} → b ≡ true → b ≡ false → ⊥
differ p q = cc

restored-cases :
    (o : Option RevisionStatus) (p : Option ApplicationRevision) {v : ApplicationRevision}
    → restored o p ≡ some v
    → (u : ApplicationRevision) × (p ≡ some u)
      × (v.id ≡ u.id)
      × (v.application_id ≡ u.application_id)
      × (((o ≡ none) × (u ≡ v)) ⊎ (o ≡ some v.status))
restored-cases none none h = absurd (cc h)
restored-cases (some s) none h = absurd (cc h)
restored-cases none (some u) h =
    let e = some_injective h in
    (
      u,
      refl,
      ap (λ (x : ApplicationRevision). x.id) (sym e),
      ap (λ (x : ApplicationRevision). x.application_id) (sym e),
      inl (refl, e),
    )
restored-cases (some s) (some u) h =
    let e = some_injective h in
    (
      u,
      refl,
      ap (λ (x : ApplicationRevision). x.id) (sym e),
      ap (λ (x : ApplicationRevision). x.application_id) (sym e),
      inr (ap (λ (x : ApplicationRevision). some x.status) e),
    )

status_or-some :
    (k : String) (o : Option ApplicationRevision) {s : RevisionStatus}
    → status_or k o none ≡ some s
    → (w : ApplicationRevision) × (o ≡ some w) × (w.application_id ≡ k) × (w.status ≡ s)
status_or-some k none h = absurd (cc h)
status_or-some k (some w) {s} h = by_test (w.application_id == k) refl h
  where
    by_test :
        (b : Bool)
        → (w.application_id == k) ≡ b
        → (if b then some w.status else none) ≡ some s
        → (u : ApplicationRevision) × (◌≡◌ {A = Option ApplicationRevision} (some w) (some u))
          × (u.application_id ≡ k)
          × (u.status ≡ s)
    by_test true e p = (w, refl, (eq_iff w.application_id k).0 e, some_injective p)
    by_test false e p = absurd (cc p)

status_or-own :
    (k : String) (w : ApplicationRevision)
    → w.application_id ≡ k
    → status_or k (some w) none ≡ some w.status
status_or-own k w e = let t = (eq_iff w.application_id k).1 e in rw t refl

status_or-other :
    (k : String) (w : ApplicationRevision)
    → ¬ (w.application_id ≡ k)
    → status_or k (some w) none ≡ none
status_or-other k w n = elim (Bool-cases (w.application_id == k)) [
  | inl e ↦ absurd (n ((eq_iff w.application_id k).0 e))
  | inr e ↦ rw e refl
]

module _ (k : String) (c g h : ActivationGraph) (was : IsConsistent c) (now : IsConsistent g)
    (same : SameRoster c g) (d : Restored k c g h) where
  restored_app :
      {a : Application}
      → Records.get h.applications k ≡ some a
      → (b : Application) × (Records.get c.applications k ≡ some b)
        × (a.active_revision_id ≡ b.active_revision_id)
        × (a.id ≡ k)
  restored_app {a} p =
      let (x, b, in_g, in_c, in_h) = d.at in
      let e = some_injective (sym in_h ∙ p) in
      (
        b,
        in_c,
        ap (λ (y : Application). y.active_revision_id) (sym e),
        ap (λ (y : Application). y.id) (sym e) ∙ now.app_keyed in_g,
      )

  captured_named :
      (b : Application) (r : String)
      → Records.get c.applications k ≡ some b
      → b.active_revision_id ≡ some r
      → (v : ApplicationRevision) × (Records.get h.revisions r ≡ some v)
        × (v.status ≡ RevisionStatus.active)
        × (v.application_id ≡ k)
  captured_named b r in_c e =
      let (w, p, active, own) = was.named in_c e in
      let (u, q, i) =
        owner_of-some (Records.get g.revisions r) (same r ∙ ap owner_of p ∙ ap some own) in
      (
        record u { status = w.status },
        d.statuses r
            ∙ ap (λ o. restored (status_or k o none) (Records.get g.revisions r)) p
            ∙ ap (λ o. restored o (Records.get g.revisions r)) (status_or-own k w own)
            ∙ ap (restored (some w.status)) q,
        active,
        i,
      )

  other_named :
      (j r : String)
      → ¬ (k ≡ j)
      → (w : ApplicationRevision) × (Records.get g.revisions r ≡ some w)
        × (w.status ≡ RevisionStatus.active)
        × (w.application_id ≡ j)
      → (v : ApplicationRevision) × (Records.get h.revisions r ≡ some v)
        × (v.status ≡ RevisionStatus.active)
        × (v.application_id ≡ j)
  other_named j r n (w, p, active, own) =
      let (u, q, i) =
        owner_of-some (Records.get c.revisions r) (sym (same r) ∙ ap owner_of p ∙ ap some own) in
      (
        w,
        d.statuses r
            ∙ ap (λ o. restored (status_or k o none) (Records.get g.revisions r)) q
            ∙ ap (λ o. restored o (Records.get g.revisions r))
                (status_or-other k u (λ e. n (sym e ∙ i)))
            ∙ p,
        active,
        own,
      )

  only_of :
      (r : String) (v u : ApplicationRevision)
      → v.status ≡ RevisionStatus.active
      → Records.get g.revisions r ≡ some u
      → v.application_id ≡ u.application_id
      → ((status_or k (Records.get c.revisions r) none ≡ none) × (u ≡ v))
        ⊎ (status_or k (Records.get c.revisions r) none ≡ some v.status)
      → (a : Application) × (Records.get h.applications v.application_id ≡ some a)
        × (a.active_revision_id ≡ some r)
  only_of r v u active p own (inl (unset, e)) =
      let (a, q, f) = now.only p (ap (λ (x : ApplicationRevision). x.status) e ∙ active) in
      (
        a,
        ap (λ x. Records.get h.applications x) own
            ∙ d.elsewhere u.application_id (λ i. captured (sym i))
            ∙ q,
        f,
      )
    where
      captured : u.application_id ≡ k → ⊥
      captured i =
          let (w, q, j) =
            owner_of-some (Records.get c.revisions r) (sym (same r) ∙ ap owner_of p ∙ ap some i) in
          cc (sym unset ∙ ap (λ o. status_or k o none) q ∙ status_or-own k w j)
  only_of r v u active p own (inr set) =
      let (w, q, i, s) = status_or-some k (Records.get c.revisions r) set in
      let (b, in_c, f) = was.only q (s ∙ active) in
      let (x, y, in_g, at_c, in_h) = d.at in
      let (z, t, j) =
        owner_of-some (Records.get g.revisions r) (same r ∙ ap owner_of q ∙ ap some i) in
      (
        record x { active_revision_id = y.active_revision_id },
        ap (λ n. Records.get h.applications n)
              (own
                ∙ ap (λ (n : ApplicationRevision). n.application_id) (some_injective (sym p ∙ t))
                ∙ j)
            ∙ in_h,
        ap (λ (n : Application). n.active_revision_id)
              (some_injective (sym at_c ∙ ap (λ n. Records.get c.applications n) (sym i) ∙ in_c))
            ∙ f,
      )

  pub Restored-IsConsistent : IsConsistent h
  Restored-IsConsistent = record {
    keyed = λ {r} {v} p.
        let (u, q, i, _, _) = restored-cases _ _ (sym (d.statuses r) ∙ p) in i ∙ now.keyed q;
    app_keyed = λ {k = j} {a} p. elim (Bool-cases (k == j)) [
      | inl e ↦
          let i = (eq_iff k j).0 e in
          (restored_app (ap (λ x. Records.get h.applications x) i ∙ p)).3 ∙ i
      | inr e ↦ now.app_keyed (sym (d.elsewhere j (λ i. differ ((eq_iff k j).1 i) e)) ∙ p)
    ];
    named = λ {k = j} {a} {r} p e. elim (Bool-cases (k == j)) [
      | inl t ↦
          let i = (eq_iff k j).0 t in
          let (b, q, f, _) = restored_app (ap (λ x. Records.get h.applications x) i ∙ p) in
          subst
            (λ n.
              (v : ApplicationRevision) × (Records.get h.revisions r ≡ some v)
              × (v.status ≡ RevisionStatus.active)
              × (v.application_id ≡ n))
            i (captured_named b r q (sym f ∙ e))
      | inr t ↦
          let n : ¬ (k ≡ j) = λ i. differ ((eq_iff k j).1 i) t in
          other_named j r n (now.named (sym (d.elsewhere j n) ∙ p) e)
    ];
    only = λ {r} {v} p e.
        let (u, q, _, own, how) = restored-cases _ _ (sym (d.statuses r) ∙ p) in
        only_of r v u e q own how;
  }
