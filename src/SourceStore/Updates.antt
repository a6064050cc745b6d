-- ===== src/SourceStore/Updates.antt =====
-- Applying a batch to a draft tree: `_batch_update_working_tree`.
use n4x_core.Prelude.{String, Option, none, some, List, [], ◌∷◌, ◌++◌}
use n4x_core.Prelude.Exec.{Exec, pure, lift, transaction, get_state, modify, ◌>>=◌, ◌>>◌}
use n4x_core.Kernel.Sources.{SourceFile}
use n4x_core.Graph.Records.{get_row, upsert_row}
use n4x_core.Graph.InternGc.{delete_interned_orphans}
use n4x_core.SourceStore.State.{
  SourceGraph, SourceError, assertion_error, Hashing, named_action, or_raise,
}
use n4x_core.SourceStore.Files.{unlink_path, put_file, put_in, write_blob, refresh_tree_hash}
use n4x_core.SourceStore.Changes.{SourceUpdate, write, delete, rename, ByPath, delete_row, prepare}

-- What the loop carries: `by_path` and `written`.
pub record Batch : Type 0 where
  pub by_path : ByPath
  pub written : List SourceFile

abbrev pub role_of : Option SourceFile → String → String
role_of none role = role
role_of (some file) role = file.role

abbrev pub language_of : Option SourceFile → String → String
language_of none language = language
language_of (some file) language = file.language

abbrev pub wrote : SourceFile → ByPath → Batch → Batch
wrote file by_path b = record {
  by_path = upsert_row file.path file by_path;
  written = b.written ++ file ∷ [];
}

module _ (hashing : Hashing) (source_tree_id : String) where
  abbrev pub apply_write :
      SourceUpdate → Option SourceFile → String → Batch → Exec SourceGraph SourceError Batch
  apply_write change current content b = do
    g ← get_state
    let (file, h) =
        write_blob hashing source_tree_id change.path content (role_of current change.role)
          (language_of current change.language) g
    modify (λ _. h)
    pure (wrote (put_in source_tree_id file) b.by_path b)

  abbrev pub apply_delete : SourceUpdate → Batch → Exec SourceGraph SourceError Batch
  apply_delete change b = do
    modify (unlink_path source_tree_id change.path)
    pure (record b { by_path = delete_row change.path b.by_path })

  abbrev pub apply_rename :
      SourceUpdate → SourceFile → String → Batch → Exec SourceGraph SourceError Batch
  apply_rename change current new_path b = do
    modify (unlink_path source_tree_id change.path)
    let file = record current { path = new_path }
    modify (put_file source_tree_id file)
    pure (wrote (put_in source_tree_id file) (delete_row change.path b.by_path) b)

  -- The assertions of the code are the raises of `assertion_error`.
  unfoldable pub apply_change : SourceUpdate → Batch → Exec SourceGraph SourceError Batch
  apply_change change b = do
    let current = get_row change.path b.by_path
    elim change.operation [
      | write ↦ do
        content ← lift (or_raise assertion_error change.content)
        apply_write change current content b
      | delete ↦ do file ← lift (or_raise assertion_error current); apply_delete change b
      | rename ↦ do
        file ← lift (or_raise assertion_error current)
        new_path ← lift (or_raise assertion_error change.new_path)
        apply_rename change file new_path b
    ]

  abbrev pub apply_changes : List SourceUpdate → Batch → Exec SourceGraph SourceError Batch
  apply_changes [] b = pure b
  apply_changes (change ∷ changes) b = do c ← apply_change change b; apply_changes changes c

  unfoldable pub finish : Batch → Exec SourceGraph SourceError (List SourceFile)
  finish b = do refresh_tree_hash hashing source_tree_id; pure b.written

  abbrev pub apply_prepared :
      List SourceUpdate → ByPath → Exec SourceGraph SourceError (List SourceFile)
  apply_prepared changes by_path = do
    b ← apply_changes changes (record { by_path = by_path; written = [] })
    finish b

  -- Up to the new hash of the tree.
  unfoldable pub update_files :
      List SourceUpdate → Option String → Exec SourceGraph SourceError (List SourceFile)
  update_files changes expected_tree_hash = do
    g ← get_state
    by_path ← lift (prepare source_tree_id changes expected_tree_hash g)
    apply_prepared changes by_path

  unfoldable pub update_tree :
      List SourceUpdate → Option String → Exec SourceGraph SourceError (List SourceFile)
  update_tree changes expected_tree_hash = do
    written ← update_files changes expected_tree_hash
    modify (λ h. (delete_interned_orphans named_action h).1)
    pure written

  unfoldable pub batch_update_working_tree :
      List SourceUpdate → Option String → Exec SourceGraph SourceError (List SourceFile)
  batch_update_working_tree changes expected_tree_hash =
      transaction (update_tree changes expected_tree_hash)
