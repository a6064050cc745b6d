-- ===== src/SourceStore/Outcomes/Copies.antt =====
-- The parts of the operations on revisions: files put into a tree, and a revision bound to a tree.
use n4x_core.Prelude.{String, ◌≡◌, refl, subst, List, [], ◌∷◌, All}
use n4x_core.Prelude.Sorting.{sorted_by, All-sorted_by}
use n4x_core.Prelude.Result.{ok, cons-eq-ok, map-eq-ok, ok_injective}
use n4x_core.Kernel.Sources.{SourceFile}
use n4x_core.Graph.Store.{EdgeRecord, list_edges, replace_single_edge}
use n4x_core.Graph.Edges.{node_ref}
use n4x_core.SourceStore.State.{SourceGraph, Hashing, tree_ref, resolve, set_tree}
use n4x_core.SourceStore.Trees.{file_of, files_of, list_source_tree, listed}
use n4x_core.SourceStore.Files.{put_file, put_files}
use n4x_core.SourceStore.Contents.{IsHashed}
use n4x_core.SourceStore.Agrees.{file_of-IsWhole}
use n4x_core.SourceStore.Sound.{IsSound, IsSound-put_file, IsSound-replace_single_edge}

module _ (hashing : Hashing) where
  abbrev pub IsOwn : SourceFile → Type 0
  IsOwn file = hashing.sha256_text file.content ≡ file.content_hash

  pub files_of-IsOwn :
      (source_tree_id : String) (g : SourceGraph) (edges : List EdgeRecord)
      (files : List SourceFile)
      → IsHashed hashing g
      → files_of source_tree_id g edges ≡ ok files
      → All IsOwn files
  files_of-IsOwn id g [] files k h = subst (All IsOwn) (ok_injective h) tt
  files_of-IsOwn id g (e ∷ edges) files k h =
      let (file, others, first, listed, made) =
        cons-eq-ok (file_of id g e) (files_of id g edges) h in
      subst (All IsOwn) made (
        (file_of-IsWhole hashing id g e file k first).hash,
        files_of-IsOwn id g edges others k listed,
      )

  pub list_source_tree-IsOwn :
      (source_tree_id : String) (g : SourceGraph) (files : List SourceFile)
      → IsHashed hashing g
      → list_source_tree source_tree_id g ≡ ok files
      → All IsOwn files
  unfolding list_source_tree
  list_source_tree-IsOwn id g files k h =
      let edges = list_edges (tree_ref id) "HAS_FILE" g in
      let (unsorted, listed, made) =
        map-eq-ok (files_of id g edges) (sorted_by (λ (f : SourceFile). f.path)) h in
      subst (All IsOwn) made (
        All-sorted_by (λ (f : SourceFile). f.path) IsOwn unsorted
          (files_of-IsOwn id g edges unsorted k listed))

  pub put_files-IsSound :
      (source_tree_id : String) (files : List SourceFile) (g : SourceGraph)
      → All IsOwn files
      → IsSound hashing g
      → IsSound hashing (put_files source_tree_id files g)
  put_files-IsSound id [] g w s = s
  put_files-IsSound id (file ∷ files) g w s =
      put_files-IsSound id files (put_file id file g) w.1 (IsSound-put_file hashing id file g w.0 s)

  pub set_tree-IsSound :
      (revision_id tree_id : String) (g h : SourceGraph)
      → IsSound hashing g
      → set_tree revision_id tree_id g ≡ ok h
      → IsSound hashing h
  unfolding set_tree
  set_tree-IsSound revision_id tree_id g h s e =
      let (label, _, made) =
        map-eq-ok (resolve revision_id g)
          (λ label.
            replace_single_edge (node_ref label revision_id) "HAS_SOURCE_TREE" (tree_ref tree_id) g)
          e in
      subst (IsSound hashing) made (
        IsSound-replace_single_edge hashing (node_ref label revision_id) (tree_ref tree_id)
          "HAS_SOURCE_TREE" g refl s)
