-- ===== src/SourceStore/Revisions.antt =====
-- The operations on a revision's sources: `interned_empty_tree`, `create_working_tree`,
-- `ensure_writable`, `intern_tree`, `batch_update_revision` and the calls of it.
use n4x_core.Prelude.{String, ◌==◌, Option, none, some, List, ◌<>◌, map, if◌then◌else◌}
use n4x_core.Prelude.Exec.{Exec, pure, lift, transaction, get_state, modify, ◌>>=◌, ◌>>◌}
use n4x_core.Kernel.Sources.{SourceTree, SourceTreeStatus, SourceFile, draft, interned}
use n4x_core.Graph.InternGc.{delete_interned_orphans}
use n4x_core.SourceStore.State.{
  SourceGraph, SourceError, Hashing, named_action, get_tree, save_tree, resolve, tree, set_tree,
}
use n4x_core.SourceStore.Trees.{list_source_tree, listed, listing_hash, empty_tree_hash}
use n4x_core.SourceStore.Files.{put_files, delete_working}
use n4x_core.SourceStore.Changes.{SourceUpdate, given, check_tree_hash, validate_batch}
use n4x_core.SourceStore.Updates.{batch_update_working_tree}

-- f"{revision_id}.source"
abbrev pub working_id : String → String
working_id revision_id = revision_id <> ".source"

abbrev pub interned_tree : String → SourceTree
interned_tree tree_hash = record {
  id = tree_hash;
  status = interned;
  tree_hash = tree_hash;
  owner_kind = none;
  owner_id = none;
}

abbrev pub working_tree : String → String → String → SourceTree
working_tree revision_id owner_kind tree_hash = record {
  id = working_id revision_id;
  status = draft;
  tree_hash = tree_hash;
  owner_kind = some owner_kind;
  owner_id = some revision_id;
}

abbrev collect_orphans : Exec SourceGraph SourceError Unit
collect_orphans = modify (λ g. (delete_interned_orphans named_action g).1)

-- The draft that takes the place of an interned tree, with the files of that.
unfoldable pub copy_tree : String → SourceTree → Exec SourceGraph SourceError SourceTree
copy_tree revision_id current = do
  g ← get_state
  label ← lift (resolve revision_id g)
  let working = working_tree revision_id label current.tree_hash
  modify (save_tree working)
  saved ← get_state
  files ← lift (list_source_tree current.id saved)
  modify (put_files working.id files)
  filled ← get_state
  bound ← lift (set_tree revision_id working.id filled)
  modify (λ _. (delete_interned_orphans named_action bound).1)
  pure working

abbrev pub writable :
    String → SourceTree → SourceTreeStatus → Exec SourceGraph SourceError SourceTree
writable revision_id current draft = pure current
writable revision_id current interned = copy_tree revision_id current

unfoldable pub make_writable : String → Exec SourceGraph SourceError SourceTree
make_writable revision_id = do
  g ← get_state
  current ← lift (tree revision_id g)
  writable revision_id current current.status

unfoldable pub ensure_writable : String → Exec SourceGraph SourceError SourceTree
ensure_writable revision_id = transaction (make_writable revision_id)

abbrev pub drop_draft : String → SourceTreeStatus → Exec SourceGraph SourceError Unit
drop_draft tree_id draft = modify (delete_working tree_id)
drop_draft tree_id interned = pure tt

-- The revision moves to the interned tree, and a draft that it had is deleted.
unfoldable pub move_to : String → SourceTree → String → Exec SourceGraph SourceError Unit
move_to revision_id current tree_id = do
  g ← get_state
  bound ← lift (set_tree revision_id tree_id g)
  modify (λ _. bound)
  drop_draft current.id current.status

abbrev pub rebind : String → SourceTree → String → Exec SourceGraph SourceError Unit
rebind revision_id current tree_id =
    if current.id == tree_id then pure tt else move_to revision_id current tree_id

abbrev pub or_save_empty : String → Option SourceTree → Exec SourceGraph SourceError SourceTree
or_save_empty tree_hash (some existing) = pure existing
or_save_empty tree_hash none = do
  modify (save_tree (interned_tree tree_hash))
  pure (interned_tree tree_hash)

-- An interned tree that is already there is used as it is.
abbrev pub as_interned : Option SourceTree → Option SourceTree
as_interned none = none
as_interned (some t) = elim t.status [ interned ↦ some t | draft ↦ none ]

unfoldable pub interned_or_new :
    SourceTree → String → Option SourceTree → Exec SourceGraph SourceError SourceTree
interned_or_new current tree_hash (some t) = pure t
interned_or_new current tree_hash none = do
  modify (save_tree (interned_tree tree_hash))
  saved ← get_state
  files ← lift (list_source_tree current.id saved)
  modify (put_files tree_hash files)
  pure (interned_tree tree_hash)

module _ (hashing : Hashing) where
  unfoldable pub interned_empty_tree : Exec SourceGraph SourceError SourceTree
  interned_empty_tree = do
    g ← get_state
    let tree_hash = empty_tree_hash hashing
    or_save_empty tree_hash (get_tree tree_hash g)

  unfoldable pub create_working_tree : String → String → Exec SourceGraph SourceError SourceTree
  create_working_tree revision_id owner_kind = transaction do
    let working = working_tree revision_id owner_kind (empty_tree_hash hashing)
    modify (save_tree working)
    pure working

  unfoldable pub intern : String → Exec SourceGraph SourceError SourceTree
  intern revision_id = do
    g ← get_state
    current ← lift (tree revision_id g)
    files ← lift (list_source_tree current.id g)
    let tree_hash = listing_hash hashing (map listed files)
    found ← interned_or_new current tree_hash (as_interned (get_tree tree_hash g))
    rebind revision_id current found.id
    collect_orphans
    pure found

  unfoldable pub intern_tree : String → Exec SourceGraph SourceError SourceTree
  intern_tree revision_id = transaction (intern revision_id)

  unfoldable pub update_revision :
      String → List SourceUpdate → Option String → Exec SourceGraph SourceError (List SourceFile)
  update_revision revision_id changes expected_tree_hash = do
    g ← get_state
    current ← lift (tree revision_id g)
    lift (check_tree_hash (given expected_tree_hash) current)
    by_path ← lift (validate_batch current.id changes g)
    working ← ensure_writable revision_id
    batch_update_working_tree hashing working.id changes none

  unfoldable pub batch_update_revision :
      String → List SourceUpdate → Option String → Exec SourceGraph SourceError (List SourceFile)
  batch_update_revision revision_id changes expected_tree_hash =
      transaction (update_revision revision_id changes expected_tree_hash)
