-- ===== src/SourceStore/Singles.antt =====
-- How often a tree has a path, after each kind of write.
use n4x_core.Prelude.{
  ◌+◌, ◌≤◌, String, ◌≡◌, refl, ap, ◌∙◌, Bool, true, false, not, ◌&&◌, inl, inr, List, [], ◌∷◌, ◌++◌,
  filter, if◌then◌else◌, ◌==◌, arith, eq_iff, Bool-cases,
}
use n4x_core.Kernel.Sources.{SourceFile}
use n4x_core.Graph.Edges.{NodeRef}
use n4x_core.Graph.Store.{
  EdgeRecord, is_from, is_same, merge_edge, create_edge, delete_edge, list_edges,
}
use n4x_core.SourceStore.State.{SourceGraph, tree_ref}
use n4x_core.SourceStore.Files.{unlink_path, file_edge, put_file}
use n4x_core.SourceStore.View.{at_path}
use n4x_core.SourceStore.Writes.{put_file-edges}
use n4x_core.SourceStore.Listing.{count, HasOneEach}

module _ {ℓ} {A : Type ℓ} where
  count-filter : (p k : A → Bool) (xs : List A) → count p (filter k xs) ≤ count p xs
  count-filter p k [] = omega arith
  count-filter p k (x ∷ xs) = ground (arith, count-filter p k xs)

  count-filter-filter :
      (p k d : A → Bool) (xs : List A) → count p (filter k (filter d xs)) ≤ count p (filter k xs)
  count-filter-filter p k d [] = omega arith
  count-filter-filter p k d (x ∷ xs) = ground (arith, count-filter-filter p k d xs)

  count-filter-none :
      (p k : A → Bool) (xs : List A) → count p (filter k (filter (λ x. not (k x && p x)) xs)) ≡ 0
  count-filter-none p k [] = refl
  count-filter-none p k (x ∷ xs) = ground (arith, count-filter-none p k xs)

  count-filter-append :
      (p k : A → Bool) (x : A) (xs : List A)
      → count p (filter k (xs ++ x ∷ []))
        ≡ count p (filter k xs) + (if k x then (if p x then 1 else 0) else 0)
  count-filter-append p k x [] = ground arith
  count-filter-append p k x (y ∷ xs) = ground (arith, count-filter-append p k x xs)

-- Deleting edges leaves each path once at most.
pub fewer-edges :
    (d : EdgeRecord → Bool) (g h : SourceGraph) (source_tree_id : String)
    → h.edges ≡ filter d g.edges
    → HasOneEach source_tree_id g
    → HasOneEach source_tree_id h
unfolding list_edges
fewer-edges d g h source_tree_id e one p = rw e (
    omega (
      arith,
      one p,
      count-filter-filter (at_path p) (is_from (tree_ref source_tree_id) "HAS_FILE") d g.edges,
    ))

-- The edges of a tree after the unlinking of a path of a tree.
abbrev unlinked_edges : String → String → SourceGraph → List EdgeRecord
unlinked_edges source_tree_id path g =
    filter (λ e. not (is_from (tree_ref source_tree_id) "HAS_FILE" e && at_path path e)) g.edges

count-unlinked_edges :
    (source_tree_id path : String) (g : SourceGraph) (id p : String)
    → (source_tree_id == id) ≡ true
    → (path == p) ≡ true
    → count
        (at_path p)
        (filter (is_from (tree_ref id) "HAS_FILE") (unlinked_edges source_tree_id path g))
      ≡ 0
count-unlinked_edges source_tree_id path g id p a b =
    rw ((eq_iff source_tree_id id).0 a, (eq_iff path p).0 b)
      (count-filter-none (at_path p) (is_from (tree_ref id) "HAS_FILE") g.edges)

pub HasOneEach-put_file :
    (source_tree_id : String) (file : SourceFile) (g : SourceGraph) (id : String)
    → HasOneEach id g
    → HasOneEach id (put_file source_tree_id file g)
unfolding list_edges unlink_path delete_edge
HasOneEach-put_file source_tree_id file g id one p =
    let from = is_from (tree_ref id) "HAS_FILE" in
    let left = unlinked_edges source_tree_id file.path g in
    let edge = file_edge source_tree_id file in
    let fewer =
      count-filter-filter (at_path p) from
        (λ e. not (is_from (tree_ref source_tree_id) "HAS_FILE" e && at_path file.path e))
        g.edges in
    rw (put_file-edges source_tree_id file g, count-filter-append (at_path p) from edge left)
      (elim (Bool-cases (source_tree_id == id)) [
        | inr a ↦ rw a (omega (arith, one p, fewer))
        | inl a ↦ elim (Bool-cases (file.path == p)) [
          | inr b ↦ rw (a, b) (omega (arith, one p, fewer))
          | inl b ↦
              rw (a, b, count-unlinked_edges source_tree_id file.path g id p a b) (omega arith)
        ]
      ])

not-from :
    (ref : NodeRef) (x : EdgeRecord)
    → (x.edge_type == "HAS_FILE") ≡ false
    → is_from ref "HAS_FILE" x ≡ false
not-from ref x t = ground arith

same-type : (e x : EdgeRecord) → is_same e x ≡ true → x.edge_type ≡ e.edge_type
same-type e x h = (eq_iff x.edge_type e.edge_type).0 (ground arith)

-- An edge of another type does not show among the files.
pub list_edges-create_edge :
    (e : EdgeRecord) (g : SourceGraph) (id : String)
    → (e.edge_type == "HAS_FILE") ≡ false
    → list_edges (tree_ref id) "HAS_FILE" (create_edge e g) ≡ list_edges (tree_ref id) "HAS_FILE" g
unfolding list_edges create_edge
list_edges-create_edge e g id t = merged g.edges
  where
    merged :
        (es : List EdgeRecord)
        → filter (is_from (tree_ref id) "HAS_FILE") (merge_edge (is_same e) e es)
          ≡ filter (is_from (tree_ref id) "HAS_FILE") es
    merged [] = rw (not-from (tree_ref id) e t) refl
    merged (x ∷ es) = elim (Bool-cases (is_same e x)) [
      | inl s ↦
          let u = ap (λ y. y == "HAS_FILE") (same-type e x s) ∙ t in
          rw (s, not-from (tree_ref id) x u) refl
      | inr s ↦ rw (s, merged es) refl
    ]
