-- ===== src/SourceStore/Writes.antt =====
-- What `_unlink_path`, `_put_file` and the saving of contents do to the edges and contents that a tree
-- is read from.
use n4x_core.Prelude.{
  String, ◌≡◌, refl, sym, ap, ◌∙◌, Bool, true, false, not, ◌&&◌, inl, inr, Option, none, some, List,
  [], ◌∷◌, ◌++◌, find, filter, if◌then◌else◌, ◌==◌, arith, eq_iff, Bool-cases,
}
use n4x_core.Kernel.Sources.{SourceContent, SourceFile}
use n4x_core.Graph.Edges.{NodeRef, ref_eq}
use n4x_core.Graph.Store.{
  GraphStore, NodeRecord, EdgeRecord, text_option_eq, is_from, is_same, merge_edge, put_node,
  model_of, get_node, upsert_node, create_edge, delete_edge, list_edges,
}
use n4x_core.Graph.InternGc.Ends.{ref_eq_refl}
use n4x_core.SourceStore.State.{SourceGraph, tree_ref}
use n4x_core.SourceStore.Files.{unlink_path, file_edge, keep_content, put_file}
use n4x_core.SourceStore.View.{at_path, edge_at}

module _ {M : Type 0} where
  put_node-find :
      (r q : NodeRef) (m : M) (ns : List (NodeRecord M))
      → model_of (find (λ n. ref_eq n.ref r) (put_node (record { ref = q; model = m }) ns))
        ≡ (if ref_eq q r then some m else model_of (find (λ n. ref_eq n.ref r) ns))
  put_node-find r q m [] = ground arith
  put_node-find r q m (n ∷ ns) = ground (
    arith,
    eq_iff n.ref.label r.label,
    eq_iff n.ref.id r.id,
    eq_iff n.ref.label q.label,
    eq_iff n.ref.id q.id,
    eq_iff q.label r.label,
    eq_iff q.id r.id,
    put_node-find r q m ns,
  )

  pub get_node-upsert_node :
      (r q : NodeRef) (m : M) (g : GraphStore M)
      → get_node r (upsert_node q m g) ≡ (if ref_eq q r then some m else get_node r g)
  unfolding get_node upsert_node
  get_node-upsert_node r q m g = put_node-find r q m g.nodes

pub keep_content-edges : (c : SourceContent) (g : SourceGraph) → (keep_content c g).edges ≡ g.edges
unfolding keep_content upsert_node
keep_content-edges c g = ground arith

at_path-same : (p q : String) (e : EdgeRecord) → at_path q e ≡ true → at_path p e ≡ (q == p)
at_path-same p q e h = same e.props.path h
  where
    same :
        (o : Option String)
        → text_option_eq o (some q) ≡ true
        → text_option_eq o (some p) ≡ (q == p)
    same none h = cc
    same (some s) h = ap (λ x. x == p) ((eq_iff s q).0 h)

at_path-other :
    (p q : String) (e : EdgeRecord) → at_path q e ≡ false → (q == p) ≡ true → at_path p e ≡ false
at_path-other p q e a h = ap (λ x. at_path x e) (sym ((eq_iff q p).0 h)) ∙ a

module _ {ℓ} {A : Type ℓ} where
  else_if :
      (c : Bool) (x y : Option A)
      → (if c then none else x) ≡ (if c then none else if c then y else x)
  else_if true x y = refl
  else_if false x y = refl

  hit_or :
      (b c : Bool) (x : Option A) {u : Option A} (v : Option A)
      → (c ≡ true → b ≡ false)
      → u ≡ (if c then none else v)
      → (if b then x else u) ≡ (if c then none else if b then x else v)
  hit_or true true x v h e = absurd (cc (h refl))
  hit_or false true x v h e = e
  hit_or true false x v h e = refl
  hit_or false false x v h e = e

  abbrev pub or_else : Option A → Option A → Option A
  or_else none b = b
  or_else (some a) b = some a

  place :
      (c : Bool) (x v : Option A)
      → or_else (if c then none else v) (if c then x else none) ≡ (if c then x else v)
  place true x v = refl
  place false x none = refl
  place false x (some a) = refl

  find-append :
      (test keep : A → Bool) (x : A) (xs : List A)
      → keep x ≡ true
      → find test (filter keep (xs ++ x ∷ []))
        ≡ or_else (find test (filter keep xs)) (if test x then some x else none)
  find-append test keep x [] h = rw h refl
  find-append test keep x (y ∷ xs) h = ground (arith, find-append test keep x xs h)

merge_edge-append :
    (same : EdgeRecord → Bool) (e : EdgeRecord) (es : List EdgeRecord)
    → merge_edge same e (filter (λ x. not (same x)) es) ≡ filter (λ x. not (same x)) es ++ e ∷ []
merge_edge-append same e [] = refl
merge_edge-append same e (x ∷ es) = elim (Bool-cases (same x)) [
  | inl h ↦ rw h (merge_edge-append same e es)
  | inr h ↦ rw (h, h) (ap (λ rest. x ∷ rest) (merge_edge-append same e es))
]

-- In these, `from` tells the edges of the tree.
module _ (from : EdgeRecord → Bool) (p q : String) where
  unlinked : List EdgeRecord → Option EdgeRecord
  unlinked es = find (at_path p) (filter from (filter (λ e. not (from e && at_path q e)) es))

  found : List EdgeRecord → Option EdgeRecord
  found es = find (at_path p) (filter from es)

  -- The first edge, from the tree or not, is at the path that is unlinked, or at another.
  find-unlinked : (es : List EdgeRecord) → unlinked es ≡ (if q == p then none else found es)
  unfolding unlinked found
  find-unlinked [] = ground arith
  find-unlinked (e ∷ es) = elim (Bool-cases (from e)) [
    | inr f ↦ rw (f, f) (find-unlinked es)
    | inl f ↦ elim (Bool-cases (at_path q e)) [
      | inl a ↦
          rw (f, a, at_path-same p q e a) (find-unlinked es ∙ else_if (q == p) (found es) (some e))
      | inr a ↦
          rw (f, a, f)
            (hit_or (at_path p e) (q == p) (some e) (found es) (at_path-other p q e a)
              (find-unlinked es))
    ]
  ]

module _ (source_tree_id path : String) where
  pub edge_at-unlink_path :
      (p : String) (g : SourceGraph)
      → edge_at source_tree_id p (unlink_path source_tree_id path g)
        ≡ (if path == p then none else edge_at source_tree_id p g)
  unfolding list_edges delete_edge unlink_path find-unlinked unlinked found
  edge_at-unlink_path p g =
      find-unlinked (is_from (tree_ref source_tree_id) "HAS_FILE") p path g.edges

pub put_file-edges :
    (source_tree_id : String) (file : SourceFile) (g : SourceGraph)
    → (put_file source_tree_id file g).edges
      ≡ (unlink_path source_tree_id file.path g).edges ++ file_edge source_tree_id file ∷ []
unfolding put_file unlink_path create_edge delete_edge
put_file-edges source_tree_id file g =
    rw
      (keep_content-edges (record { id = file.content_hash; content = file.content })
        (unlink_path source_tree_id file.path g))
      (merge_edge-append (is_same (file_edge source_tree_id file)) (file_edge source_tree_id file)
        g.edges)

pub edge_at-put_file :
    (source_tree_id p : String) (file : SourceFile) (g : SourceGraph)
    → edge_at source_tree_id p (put_file source_tree_id file g) ≡ (
        if file.path == p then some (file_edge source_tree_id file) else edge_at source_tree_id p g)
unfolding list_edges
edge_at-put_file source_tree_id p file g =
    let edge = file_edge source_tree_id file in
    let from = is_from (tree_ref source_tree_id) "HAS_FILE" in
    ap (λ es. find (at_path p) (filter from es)) (put_file-edges source_tree_id file g)
    ∙ find-append (at_path p) from edge (unlink_path source_tree_id file.path g).edges
        (rw (ref_eq_refl (tree_ref source_tree_id)) refl)
    ∙ ap (λ o. or_else o (if at_path p edge then some edge else none))
        (edge_at-unlink_path source_tree_id file.path p g)
    ∙ place (file.path == p) (some edge) (edge_at source_tree_id p g)
