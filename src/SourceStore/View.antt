-- ===== src/SourceStore/View.antt =====
-- The files of a tree, path by path, and what single writes do to them.
use n4x_core.Prelude.{
  String, ◌≡◌, refl, sym, ap, Bool, inl, inr, Option, none, some, List, [], ◌∷◌, find, ◌==◌, arith,
  Bool-cases, All,
}
use n4x_core.Prelude.Result.{ok, ok_injective, map-eq-ok, cons-eq-ok}
use n4x_core.Prelude.Sorting.{sorted_by, find-sorted_by}
use n4x_core.Kernel.Sources.{SourceFile}
use n4x_core.Graph.Store.{EdgeRecord, text_option_eq, list_edges}
use n4x_core.SourceStore.State.{SourceGraph, SourceError, or_raise, tree_ref, get_content}
use n4x_core.SourceStore.Trees.{hydrate, file_of, files_of, list_source_tree}

abbrev pub at_path : String → EdgeRecord → Bool
at_path path e = text_option_eq e.props.path (some path)

-- The first edge of the tree with the path.
abbrev pub edge_at : String → String → SourceGraph → Option EdgeRecord
edge_at source_tree_id path g =
    find (at_path path) (list_edges (tree_ref source_tree_id) "HAS_FILE" g)

-- The file is what the edge stands for.
abbrev pub Matches : String → SourceGraph → Option SourceFile → Option EdgeRecord → Type 0
Matches source_tree_id g none none = Unit
Matches source_tree_id g (some file) (some edge) = file_of source_tree_id g edge ≡ ok file
Matches source_tree_id g none (some edge) = ⊥
Matches source_tree_id g (some file) none = ⊥

pub or_raise-eq-ok :
    {A : Type 0} (e : SourceError) (o : Option A) {a : A} → or_raise e o ≡ ok a → o ≡ some a
or_raise-eq-ok e none h = cc
or_raise-eq-ok e (some b) h = cc

module _ (source_tree_id : String) (g : SourceGraph) where
  pub file_of-path :
      (e : EdgeRecord) (file : SourceFile)
      → file_of source_tree_id g e ≡ ok file
      → e.props.path ≡ some file.path
  unfolding hydrate
  file_of-path e file h = ground arith

  Matches-files_of :
      (path : String) (edges : List EdgeRecord) (files : List SourceFile)
      → files_of source_tree_id g edges ≡ ok files
      → Matches source_tree_id g (find (λ f. f.path == path) files) (find (at_path path) edges)
  Matches-files_of path [] files h = rw (sym (ok_injective h)) tt
  Matches-files_of path (e ∷ edges) files h =
      let (file, others, first, listed, made) =
        cons-eq-ok (file_of source_tree_id g e) (files_of source_tree_id g edges) h in
      let at = ap (λ o. text_option_eq o (some path)) (file_of-path e file first) in
      rw (sym made, at)
        (elim (Bool-cases (file.path == path)) [
          | inl q ↦ rw q first
          | inr q ↦ rw q (Matches-files_of path edges others listed)
        ])

  pub Matches-list_source_tree :
      (path : String) (files : List SourceFile)
      → list_source_tree source_tree_id g ≡ ok files
      → Matches source_tree_id g (find (λ f. f.path == path) files) (edge_at source_tree_id path g)
  unfolding list_source_tree
  Matches-list_source_tree path files h =
      let edges = list_edges (tree_ref source_tree_id) "HAS_FILE" g in
      let (unsorted, listed, made) =
        map-eq-ok (files_of source_tree_id g edges) (sorted_by (λ (f : SourceFile). f.path)) h in
      rw (sym made, find-sorted_by (λ (f : SourceFile). f.path) path unsorted)
        (Matches-files_of path edges unsorted listed)

-- Listings agree where the contents do.
pub files_of_same :
    (source_tree_id : String) (g h : SourceGraph) (edges : List EdgeRecord)
    → All (λ e. get_content e.to_ref.id g ≡ get_content e.to_ref.id h) edges
    → files_of source_tree_id g edges ≡ files_of source_tree_id h edges
files_of_same source_tree_id g h [] a = refl
files_of_same source_tree_id g h (e ∷ edges) a =
    rw (a.0, files_of_same source_tree_id g h edges a.1) refl
