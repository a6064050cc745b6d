-- ===== src/Graph/InternGc/Ends.antt =====
-- The collector's loop ends: it stops at a store without orphans.
use n4x_core.Prelude.{
  ℕ, zero, suc, ◌≤◌, ◌<◌, String, ◌≡◌, refl, Bool, true, not, ◌⊎◌, inl, inr, List, [], ◌∷◌, Option,
  subst, map, filter, any, length, All, All-append, All-filter, All-map, arith, eq_iff, Bool-cases,
  ◌==◌,
}
use n4x_core.Graph.Edges.{NodeRef, ref_eq}
use n4x_core.Graph.Store.{GraphStore, NodeRecord, list_nodes, delete_node, node_count}
use n4x_core.Graph.InternGc.{
  interned_labels, pinned_action_revision_ids, delete_batch, orphans_of, orphans, collect,
  delete_interned_orphans,
}

module _ {ℓ} {A : Type ℓ} where
  length-filter : (p : A → Bool) (xs : List A) → length (filter p xs) ≤ length xs
  length-filter p [] = omega arith
  length-filter p (x ∷ xs) = ground (arith, length-filter p xs)

  length-filter_fewer :
      (p : A → Bool) (xs : List A)
      → any (λ x. not (p x)) xs ≡ true
      → length (filter p xs) < length xs
  length-filter_fewer p [] h = cc
  length-filter_fewer p (x ∷ xs) h = ground (arith, length-filter p xs, length-filter_fewer p xs)

  pub List-cases : (xs : List A) → (xs ≡ []) ⊎ ((y : A) × (ys : List A) × (xs ≡ y ∷ ys))
  List-cases [] = inl refl
  List-cases (y ∷ ys) = inr (y, ys, refl)

pub ref_eq_refl : (r : NodeRef) → ref_eq r r ≡ true
ref_eq_refl r = ground (arith, eq_iff r.label r.label, eq_iff r.id r.id)

module _ {M : Type 0} where
  abbrev has_node : NodeRef → List (NodeRecord M) → Bool
  has_node ref ns = any (λ n. not (not (ref_eq n.ref ref))) ns

  node_count-delete_node :
      (ref : NodeRef) (g : GraphStore M) → node_count (delete_node ref g) ≤ node_count g
  unfolding node_count delete_node
  node_count-delete_node ref g = length-filter _ g.nodes

  node_count-delete_batch :
      (refs : List NodeRef) (g : GraphStore M) → node_count (delete_batch refs g) ≤ node_count g
  node_count-delete_batch [] g = omega arith
  node_count-delete_batch (ref ∷ refs) g =
      omega (arith, node_count-delete_batch refs (delete_node ref g), node_count-delete_node ref g)

  node_count-delete_node_fewer :
      (ref : NodeRef) (g : GraphStore M)
      → has_node ref g.nodes ≡ true
      → node_count (delete_node ref g) < node_count g
  unfolding node_count delete_node
  node_count-delete_node_fewer ref g h = length-filter_fewer (λ n. not (ref_eq n.ref ref)) g.nodes h

  has-more :
      (n : NodeRecord M) (ns : List (NodeRecord M)) (rs : List NodeRef)
      → All (λ r. has_node r ns ≡ true) rs
      → All (λ r. has_node r (n ∷ ns) ≡ true) rs
  has-more n ns rs h = All-map (λ r k. ground (arith, k)) rs h

  listed :
      (label : String) (ns : List (NodeRecord M))
      → All (λ r. has_node r ns ≡ true) (map (λ n. n.ref) (filter (λ n. n.ref.label == label) ns))
  listed label [] = tt
  listed label (n ∷ ns) = elim (Bool-cases (n.ref.label == label)) [
    | inl e ↦ rw e (ground (arith, ref_eq_refl n.ref), has-more n ns _ (listed label ns))
    | inr e ↦ rw e (has-more n ns _ (listed label ns))
  ]

module _ {M : Type 0} (named_action : M → Option String) where
  orphans_of-listed :
      (g : GraphStore M) (pinned labels : List String)
      → All (λ r. has_node r g.nodes ≡ true) (orphans_of named_action g pinned labels)
  unfolding list_nodes
  orphans_of-listed g pinned [] = tt
  orphans_of-listed g pinned (label ∷ labels) =
      All-append _ _ _ (All-filter _ _ _ (listed label g.nodes)) (orphans_of-listed g pinned labels)

  round_deletes :
      (g : GraphStore M) (ref : NodeRef) (refs : List NodeRef)
      → orphans named_action g ≡ ref ∷ refs
      → node_count (delete_batch (ref ∷ refs) g) < node_count g
  unfolding orphans
  round_deletes g ref refs e =
      let all = orphans_of-listed g (pinned_action_revision_ids named_action g) interned_labels in
      let one =
        node_count-delete_node_fewer ref g (subst (All (λ r. has_node r g.nodes ≡ true)) e all).0 in
      omega (arith, one, node_count-delete_batch refs (delete_node ref g))

  collect-done :
      (fuel : ℕ) (deleted : List (String × List String)) (g : GraphStore M)
      → node_count g ≤ fuel
      → orphans named_action (collect named_action fuel deleted g).1 ≡ []
  unfolding collect
  collect-done zero deleted g h = elim (List-cases (orphans named_action g)) [
    | inl e ↦ e
    | inr (ref, refs, e) ↦ absurd (omega (arith, round_deletes g ref refs e))
  ]
  collect-done (suc fuel) deleted g h = elim (List-cases (orphans named_action g)) [
    | inl e ↦ rw (e, collect, e) refl
    | inr (ref, refs, e) ↦
        rw (e, collect) (collect-done fuel _ _ (omega (arith, round_deletes g ref refs e)))
  ]

  -- The garbage collector's loop comes to an end: after it, no interned node is an orphan any more.
  pub delete_interned_orphans-ends :
      (g : GraphStore M) → orphans named_action (delete_interned_orphans named_action g).1 ≡ []
  unfolding delete_interned_orphans
  delete_interned_orphans-ends g = collect-done (node_count g) [] g (omega arith)

  -- What each deletion of a node keeps, the collector keeps.
  collect_rule {ℓ} :
      (P : GraphStore M → Type ℓ)
      → ((d : NodeRef) (g : GraphStore M) → P g → P (delete_node d g))
      → (fuel : ℕ) (deleted : List (String × List String)) (g : GraphStore M) → P g
      → P (collect named_action fuel deleted g).1
  unfolding collect
  collect_rule P keep zero deleted g p = p
  collect_rule P keep (suc fuel) deleted g p = elim (List-cases (orphans named_action g)) [
    | inl e ↦ rw (e, collect) p
    | inr (ref, refs, e) ↦ rw (e, collect) (collect_rule P keep fuel _ _ (batch (ref ∷ refs) g p))
  ]
    where
      batch : (ds : List NodeRef) (g : GraphStore M) → P g → P (delete_batch ds g)
      batch [] g p = p
      batch (d ∷ ds) g p = batch ds (delete_node d g) (keep d g p)

  pub delete_interned_orphans_rule {ℓ} :
      (P : GraphStore M → Type ℓ)
      → ((d : NodeRef) (g : GraphStore M) → P g → P (delete_node d g))
      → (g : GraphStore M) → P g
      → P (delete_interned_orphans named_action g).1
  unfolding delete_interned_orphans
  delete_interned_orphans_rule P keep g p = collect_rule P keep (node_count g) [] g p
