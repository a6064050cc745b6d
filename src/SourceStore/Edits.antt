-- ===== src/SourceStore/Edits.antt =====
-- The calls that write one file: `write_source_file`, `rename_source_file`, `delete_source_file` and
-- `apply_source_patch`.
use n4x_core.Prelude.{String, Option, none, some, List, [], ◌∷◌}
use n4x_core.Prelude.Result.{Result, ok, raise}
use n4x_core.Prelude.Exec.{Exec, pure, lift, transaction, get_state, ◌>>=◌, ◌>>◌}
use n4x_core.Kernel.Sources.{SourceFile}
use n4x_core.SourcePatch.Apply.{PatchError, apply_unified_diff}
use n4x_core.SourceStore.State.{
  SourceGraph, SourceError, source_conflict, index_error, Hashing, tree,
}
use n4x_core.SourceStore.Trees.{read_source_file}
use n4x_core.SourceStore.Changes.{SourceUpdate, write, delete, rename, given, check_hash}
use n4x_core.SourceStore.Revisions.{batch_update_revision}

-- `[0]` of what a batch has written.
abbrev pub first : List SourceFile → Result SourceError SourceFile
first [] = raise index_error
first (file ∷ files) = ok file

abbrev pub write_update : String → String → String → String → Option String → SourceUpdate
write_update path content role language expected_hash = record {
  operation = write;
  path = path;
  content = some content;
  new_path = none;
  role = role;
  language = language;
  expected_hash = expected_hash;
}

abbrev pub delete_update : String → Option String → SourceUpdate
delete_update path expected_hash = record {
  operation = delete;
  path = path;
  content = none;
  new_path = none;
  role = "helper";
  language = "text";
  expected_hash = expected_hash;
}

abbrev pub rename_update : String → String → Option String → SourceUpdate
rename_update path new_path expected_hash = record {
  operation = rename;
  path = path;
  content = none;
  new_path = some new_path;
  role = "helper";
  language = "text";
  expected_hash = expected_hash;
}

abbrev pub patched : Result PatchError String → Result SourceError String
patched (ok text) = ok text
patched (raise e) = raise source_conflict

module _ (hashing : Hashing) where
  unfoldable pub write_source :
      String
      → String
      → String
      → String
      → String
      → Option String
      → Exec SourceGraph SourceError SourceFile
  write_source revision_id path content role language expected_hash = do
    files ←
        batch_update_revision hashing revision_id
          (write_update path content role language expected_hash ∷ []) none
    lift (first files)

  unfoldable pub write_source_file :
      String
      → String
      → String
      → String
      → String
      → Option String
      → Exec SourceGraph SourceError SourceFile
  write_source_file revision_id path content role language expected_hash =
      transaction (write_source revision_id path content role language expected_hash)

  unfoldable pub rename_source :
      String → String → String → Option String → Exec SourceGraph SourceError SourceFile
  rename_source revision_id path new_path expected_hash = do
    files ←
        batch_update_revision hashing revision_id (rename_update path new_path expected_hash ∷ [])
          none
    lift (first files)

  unfoldable pub rename_source_file :
      String → String → String → Option String → Exec SourceGraph SourceError SourceFile
  rename_source_file revision_id path new_path expected_hash =
      transaction (rename_source revision_id path new_path expected_hash)

  unfoldable pub delete_source : String → String → Option String → Exec SourceGraph SourceError Unit
  delete_source revision_id path expected_hash = do
    files ← batch_update_revision hashing revision_id (delete_update path expected_hash ∷ []) none
    pure tt

  unfoldable pub delete_source_file :
      String → String → Option String → Exec SourceGraph SourceError Unit
  delete_source_file revision_id path expected_hash =
      transaction (delete_source revision_id path expected_hash)

  unfoldable pub patch_source :
      String → String → String → Option String → Exec SourceGraph SourceError SourceFile
  patch_source revision_id path patch expected_hash = do
    g ← get_state
    t ← lift (tree revision_id g)
    current ← lift (read_source_file t.id path g)
    lift (check_hash (given expected_hash) (some current))
    text ← lift (patched (apply_unified_diff current.content patch))
    write_source_file revision_id path text current.role current.language
        (some current.content_hash)

  unfoldable pub apply_source_patch :
      String → String → String → Option String → Exec SourceGraph SourceError SourceFile
  apply_source_patch revision_id path patch expected_hash =
      transaction (patch_source revision_id path patch expected_hash)
