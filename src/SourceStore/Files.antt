-- ===== src/SourceStore/Files.antt =====
-- Changing the files of a tree: `_unlink_path`, `_put_file`, `_write_blob`, `_delete_working_tree` and
-- `_refresh_tree_hash`.
use Prim.Native.String.{len}
use n4x_core.Prelude.{String, Option, none, some, List, [], ◌∷◌, map}
use n4x_core.Prelude.Exec.{Exec, pure, lift, throw, get_state, modify, ◌>>=◌}
use n4x_core.Kernel.Sources.{SourceTree, SourceContent, SourceFile, draft, interned}
use n4x_core.Graph.Store.{EdgeRecord, create_edge, delete_edge, delete_node, upsert_node}
use n4x_core.SourceStore.State.{
  SourceGraph, SourceError, key_error, immutable_revision, Hashing, tree_ref, content_ref, get_tree,
  source_tree, get_content, save_content, or_raise,
}
use n4x_core.SourceStore.Trees.{list_source_tree, listed, listing_hash}

unfoldable pub unlink_path : String → String → SourceGraph → SourceGraph
unlink_path source_tree_id path g = delete_edge (tree_ref source_tree_id) "HAS_FILE" (some path) g

abbrev pub file_edge : String → SourceFile → EdgeRecord
file_edge source_tree_id file = record {
  from_ref = tree_ref source_tree_id;
  edge_type = "HAS_FILE";
  to_ref = content_ref file.content_hash;
  props = record {
    path = some file.path;
    role = some file.role;
    language = some file.language;
    size = some file.size;
  };
}

abbrev pub keep_or_save : Option SourceContent → SourceContent → SourceGraph → SourceGraph
keep_or_save none content g = save_content content g
keep_or_save (some found) content g = g

-- The content is saved only where there is none of its hash.
unfoldable pub keep_content : SourceContent → SourceGraph → SourceGraph
keep_content content g = keep_or_save (get_content content.id g) content g

unfoldable pub put_file : String → SourceFile → SourceGraph → SourceGraph
put_file source_tree_id file g = create_edge (file_edge source_tree_id file) (
    keep_content (record { id = file.content_hash; content = file.content })
      (unlink_path source_tree_id file.path g))

-- What `_put_file` returns.
abbrev pub put_in : String → SourceFile → SourceFile
put_in source_tree_id file = record file { source_tree_id = source_tree_id }

abbrev pub put_files : String → List SourceFile → SourceGraph → SourceGraph
put_files source_tree_id [] g = g
put_files source_tree_id (file ∷ files) g =
    put_files source_tree_id files (put_file source_tree_id file g)

unfoldable pub delete_working : String → SourceGraph → SourceGraph
delete_working tree_id g =
    delete_node (tree_ref tree_id) (delete_edge (tree_ref tree_id) "HAS_FILE" none g)

abbrev pub delete_draft : String → Option SourceTree → Exec SourceGraph SourceError Unit
delete_draft tree_id none = pure tt
delete_draft tree_id (some t) = elim t.status [
  | draft ↦ modify (delete_working tree_id)
  | interned ↦ throw immutable_revision
]

unfoldable pub delete_working_tree : String → Exec SourceGraph SourceError Unit
delete_working_tree tree_id = do g ← get_state; delete_draft tree_id (get_tree tree_id g)

module _ (hashing : Hashing) where
  unfoldable pub write_blob :
      String → String → String → String → String → SourceGraph → SourceFile × SourceGraph
  write_blob source_tree_id path content role language g =
      let content_id = hashing.sha256_text content in
      let file : SourceFile = record {
        source_tree_id = source_tree_id;
        path = path;
        role = role;
        language = language;
        content = content;
        content_hash = content_id;
        size = len content;
      } in
      (
        file,
        put_file source_tree_id file
            (keep_content (record { id = content_id; content = content }) g),
      )

  unfoldable pub refresh_tree_hash : String → Exec SourceGraph SourceError Unit
  refresh_tree_hash source_tree_id = do
    g ← get_state
    files ← lift (list_source_tree source_tree_id g)
    t ← lift (or_raise key_error (get_tree source_tree_id g))
    modify (
        upsert_node (tree_ref source_tree_id)
          (source_tree (record t { tree_hash = listing_hash hashing (map listed files) })))
