-- ===== src/Graph/InternGc/Live.antt =====
-- The nodes that an uninterned node or a pinned action revision holds through keepers, and what it is
-- to keep them.
use mathlib.Core.List.{Memᴰ}
use n4x_core.Prelude.{
  String, ◌≡◌, ◌≢◌, refl, sym, subst, ◌∙◌, Bool, true, false, not, ◌&&◌, ◌||◌, inl, inr, Option,
  List, filter, any, contains, arith, eq_iff, Bool-cases, ◌==◌,
}
use n4x_core.Prelude.Members.{Memᴰ-any, Memᴰ-filter, filter-Memᴰ}
use n4x_core.Graph.Edges.{NodeRef, ref_eq}
use n4x_core.Graph.Store.{GraphStore, EdgeRecord, get_node, inbound}
use n4x_core.Graph.InternGc.{interned_labels, keeper_labels, pinned_action_revision_ids, is_pinned}
use n4x_core.Graph.InternGc.Ends.{ref_eq_refl}

pub ref_eq-true : (a b : NodeRef) → ref_eq a b ≡ true → a ≡ b
ref_eq-true a b h =
    let (same_label, same_id) = (both (a.label == b.label) (a.id == b.id) h) in
    same ((eq_iff a.label b.label).0 same_label) ((eq_iff a.id b.id).0 same_id)
  where
    both : (p q : Bool) → (p && q) ≡ true → (p ≡ true) × (q ≡ true)
    both p q t = ground arith

    same : a.label ≡ b.label → a.id ≡ b.id → a ≡ b
    same l i j = record { label = l j; id = i j }

abbrev pub edges_from : {M : Type 0} → NodeRef → GraphStore M → List EdgeRecord
edges_from ref g = filter (λ e. ref_eq e.from_ref ref) g.edges

neither : (x y : Bool) → (x || y) ≡ false → (x ≢ true) × (y ≢ true)
neither x y f = ground arith

module _ {M : Type 0} (named_action : M → Option String) where
  -- What the revisions and the running work hold.
  pub data Live (g : GraphStore M) : NodeRef → Type 0 where
    uninterned : {r : NodeRef} → contains r.label interned_labels ≡ false → Live g r
    pinned :
        {r : NodeRef}
        → r.label ≡ "ActionRevision"
        → contains r.id (pinned_action_revision_ids named_action g) ≡ true
        → Live g r
    held :
        {r : NodeRef} (f : NodeRef) (e : EdgeRecord)
        → Live g f
        → contains f.label keeper_labels ≡ true
        → Memᴰ e (edges_from f g)
        → e.to_ref ≡ r
        → Live g r

  pub record Keeps (g h : GraphStore M) : Type 0 where
    pub node : (r : NodeRef) → Live g r → get_node r h ≡ get_node r g
    pub links :
        (r : NodeRef)
        → Live g r
        → contains r.label keeper_labels ≡ true
        → edges_from r h ≡ edges_from r g
    pub pins : pinned_action_revision_ids named_action h ≡ pinned_action_revision_ids named_action g

  pub Live-Keeps : {g h : GraphStore M} → Keeps g h → {r : NodeRef} → Live g r → Live h r
  Live-Keeps k (uninterned u) = uninterned u
  Live-Keeps k {r} (pinned a p) = pinned a (subst (λ ids. contains r.id ids ≡ true) (sym k.pins) p)
  Live-Keeps k (held f e l b m t) =
      held f e (Live-Keeps k l) b (subst (Memᴰ e) (sym (k.links f l b)) m) t

  pub Keeps-Keeps : {g h i : GraphStore M} → Keeps g h → Keeps h i → Keeps g i
  Keeps-Keeps a b = record {
    node = λ r l. b.node r (Live-Keeps a l) ∙ a.node r l;
    links = λ r l k. b.links r (Live-Keeps a l) k ∙ a.links r l k;
    pins = b.pins ∙ a.pins;
  }

  abbrev pub IsOrphan : GraphStore M → NodeRef → Type 0
  IsOrphan g d =
      (contains d.label interned_labels ≡ true)
      × (is_pinned named_action g (pinned_action_revision_ids named_action g) d ≡ false)

  IsOrphan-Live : (g : GraphStore M) (d : NodeRef) → IsOrphan g d → Live g d → ⊥
  unfolding is_pinned inbound
  IsOrphan-Live g d o (uninterned u) = ground (arith, o.0)
  IsOrphan-Live g d o (pinned a p) =
      (neither (any (λ e. contains e.from_ref.label keeper_labels) (inbound d g))
          (d.label == "ActionRevision" && contains d.id (pinned_action_revision_ids named_action g))
          o.1).1
        (rw (a, p) refl)
  IsOrphan-Live g d o (held f e l b m t) =
      let (member, from) = Memᴰ-filter (λ x. ref_eq x.from_ref f) g.edges m in
      let inside = filter-Memᴰ (λ x. ref_eq x.to_ref d) g.edges member (rw t (ref_eq_refl d)) in
      (neither _ _ o.1).0 (
        Memᴰ-any (λ x. contains x.from_ref.label keeper_labels) inside
          (rw (ref_eq-true e.from_ref f from) b))

  pub Live-differs :
      {g : GraphStore M} (d r : NodeRef) → IsOrphan g d → Live g r → not (ref_eq r d) ≡ true
  Live-differs {g} d r o l = elim (Bool-cases (ref_eq r d)) [
    | inl e ↦ absurd (IsOrphan-Live g d o (subst (Live g) (ref_eq-true r d e) l))
    | inr e ↦ rw e refl
  ]
