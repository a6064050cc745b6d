-- ===== src/Graph/InternGc/Keeps.antt =====
-- What the collector must not touch, it keeps.
use mathlib.Core.List.{Memᴰ}
use n4x_core.Prelude.{
  ℕ, zero, suc, String, ◌≡◌, refl, sym, ap, subst, ◌∙◌, Bool, true, false, not, ◌&&◌, inl, inr,
  Option, List, [], ◌∷◌, map, filter, contains, All, All-append, arith, eq_iff, Bool-cases, ◌==◌,
}
use n4x_core.Prelude.Members.{All-of, All-at, Memᴰ-filter, filter-under, find-filter}
use n4x_core.Graph.Edges.{NodeRef, ref_eq}
use n4x_core.Graph.Store.{
  GraphStore, NodeRecord, EdgeRecord, get_node, list_nodes, delete_node, model_of, node_count,
}
use n4x_core.Graph.InternGc.{
  interned_labels, keeper_labels, pinned_action_revision_ids, is_pinned, delete_batch, orphans_of,
  orphans, collect, delete_interned_orphans,
}
use n4x_core.Graph.InternGc.Ends.{List-cases}
use n4x_core.Graph.InternGc.Live.{
  ref_eq-true, edges_from, Live, held, Keeps, Keeps-Keeps, IsOrphan, Live-differs,
}

module _ {M : Type 0} (named_action : M → Option String) where
  interned_differs :
      (d r : NodeRef)
      → contains d.label interned_labels ≡ true
      → contains r.label interned_labels ≡ false
      → ref_eq r d ≡ false
  interned_differs d r i u = elim (Bool-cases (ref_eq r d)) [
    | inl e ↦ absurd (
        clash (
          sym i
          ∙ ap (λ (x : NodeRef). contains x.label interned_labels) (sym (ref_eq-true r d e))
          ∙ u))
    | inr e ↦ e
  ]
    where
      clash : true ≡ false → ⊥
      clash p = cc

  list_nodes-delete_node :
      (label : String) (d : NodeRef) (h : GraphStore M)
      → contains label interned_labels ≡ false
      → contains d.label interned_labels ≡ true
      → list_nodes label (delete_node d h) ≡ list_nodes label h
  unfolding list_nodes delete_node
  list_nodes-delete_node label d h u i =
      filter-under (λ n. n.ref.label == label) (λ n. not (ref_eq n.ref d)) h.nodes
        (λ n m.
          rw
            (interned_differs d n.ref i (
              (ap (λ l. contains l interned_labels)
                ((eq_iff n.ref.label label).0
                  (Memᴰ-filter (λ x. x.ref.label == label) h.nodes m).1))
              ∙ u))
            refl)

  Keeps-delete_node :
      {g h : GraphStore M} (d : NodeRef)
      → IsOrphan named_action g d
      → Keeps named_action g h
      → Keeps named_action g (delete_node d h)
  unfolding pinned_action_revision_ids get_node delete_node
  Keeps-delete_node {g} {h} d o k = record {
    node = λ r l.
        (ap model_of (
          find-filter (λ n. ref_eq n.ref r) (λ n. not (ref_eq n.ref d)) h.nodes
            (λ n e. rw (ref_eq-true n.ref r e) (Live-differs named_action d r o l))))
        ∙ k.node r l;
    links = λ r l b.
        filter-under (λ e. ref_eq e.from_ref r)
          (λ e. not (ref_eq e.from_ref d) && not (ref_eq e.to_ref d)) h.edges
          (λ e m. edge r l b e m)
        ∙ k.links r l b;
    pins =
        rw
          (
            list_nodes-delete_node "CallbackRoute" d h refl o.0,
            list_nodes-delete_node "Invocation" d h refl o.0,
            list_nodes-delete_node "JobRecord" d h refl o.0,
          )
          k.pins;
  }
    where
      edge :
          (r : NodeRef)
          → Live named_action g r
          → contains r.label keeper_labels ≡ true
          → (e : EdgeRecord) → Memᴰ e (edges_from r h)
          → (not (ref_eq e.from_ref d) && not (ref_eq e.to_ref d)) ≡ true
      edge r l b e m =
          let from =
            ref_eq-true e.from_ref r (Memᴰ-filter (λ x. ref_eq x.from_ref r) h.edges m).1 in
          let to = held r e l b (subst (Memᴰ e) (k.links r l b) m) refl in
          rw (from, Live-differs named_action d r o l, Live-differs named_action d e.to_ref o to)
            refl

  Keeps-delete_batch :
      {g : GraphStore M} (ds : List NodeRef) (h : GraphStore M)
      → All (IsOrphan named_action g) ds
      → Keeps named_action g h
      → Keeps named_action g (delete_batch ds h)
  Keeps-delete_batch [] h o k = k
  Keeps-delete_batch (d ∷ ds) h o k =
      Keeps-delete_batch ds (delete_node d h) o.1 (Keeps-delete_node d o.0 k)

  refs_labelled :
      (label : String) (ns : List (NodeRecord M))
      → All (λ r. r.label ≡ label) (map (λ n. n.ref) (filter (λ n. n.ref.label == label) ns))
  refs_labelled label [] = tt
  refs_labelled label (n ∷ ns) = elim (Bool-cases (n.ref.label == label)) [
    | inl e ↦ rw e ((eq_iff n.ref.label label).0 e, refs_labelled label ns)
    | inr e ↦ rw e (refs_labelled label ns)
  ]

  orphans_of-IsOrphan :
      (g : GraphStore M) (labels : List String)
      → All (λ l. contains l interned_labels ≡ true) labels
      → All
          (IsOrphan named_action g)
          (orphans_of named_action g (pinned_action_revision_ids named_action g) labels)
  unfolding list_nodes
  orphans_of-IsOrphan g [] i = tt
  orphans_of-IsOrphan g (label ∷ labels) i =
      All-append _ _ _ (All-of _ (λ d m. orphan d m)) (orphans_of-IsOrphan g labels i.1)
    where
      test : NodeRef → Bool
      test = is_pinned named_action g (pinned_action_revision_ids named_action g)

      orphan :
          (d : NodeRef)
          → Memᴰ d (filter (λ r. not (test r)) (map (λ n. n.ref) (list_nodes label g)))
          → IsOrphan named_action g d
      orphan d m =
          let (listed, loose) = Memᴰ-filter (λ r. not (test r)) _ m in
          let named = All-at (λ r. r.label ≡ label) _ (refs_labelled label g.nodes) listed in
          (ap (λ l. contains l interned_labels) named ∙ i.0, ground (arith, loose))

  orphans-IsOrphan : (g : GraphStore M) → All (IsOrphan named_action g) (orphans named_action g)
  unfolding orphans
  orphans-IsOrphan g =
      orphans_of-IsOrphan g interned_labels
        (refl, (refl, (refl, (refl, (refl, (refl, (refl, (refl, (refl, tt)))))))))

  Keeps-refl : (g : GraphStore M) → Keeps named_action g g
  Keeps-refl g = record { node = λ r l. refl; links = λ r l b. refl; pins = refl }

  collect-Keeps :
      (fuel : ℕ) (deleted : List (String × List String)) (g : GraphStore M)
      → Keeps named_action g (collect named_action fuel deleted g).1
  unfolding collect
  collect-Keeps zero deleted g = Keeps-refl g
  collect-Keeps (suc fuel) deleted g = elim (List-cases (orphans named_action g)) [
    | inl e ↦ rw (e, collect) (Keeps-refl g)
    | inr (ref, refs, e) ↦
        rw (e, collect)
          (Keeps-Keeps named_action
            (Keeps-delete_batch (ref ∷ refs) g
              (subst (All (IsOrphan named_action g)) e (orphans-IsOrphan g)) (Keeps-refl g))
            (collect-Keeps fuel _ _))
  ]

  -- Nothing that is alive is taken away.
  pub delete_interned_orphans-Keeps :
      (g : GraphStore M) → Keeps named_action g (delete_interned_orphans named_action g).1
  unfolding delete_interned_orphans
  delete_interned_orphans-Keeps g = collect-Keeps (node_count g) [] g
