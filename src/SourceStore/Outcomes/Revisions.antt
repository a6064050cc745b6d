-- ===== src/SourceStore/Outcomes/Revisions.antt =====
-- The operations on revisions leave sound sources, whichever way they end.
use n4x_core.Prelude.{
  String, ◌≡◌, refl, subst, inl, inr, Option, none, some, List, [], map, ◌==◌, Bool-cases,
}
use n4x_core.Prelude.Result.{Result, ok, raise, passed_on}
use n4x_core.Prelude.Exec.{continue}
use n4x_core.Kernel.Sources.{SourceTree, SourceTreeStatus, SourceFile, draft, interned}
use n4x_core.SourceStore.State.{
  SourceGraph, SourceError, Hashing, tree_ref, get_tree, tree, resolve, set_tree, save_tree,
}
use n4x_core.SourceStore.Trees.{list_source_tree, listed, listing_hash}
use n4x_core.SourceStore.Files.{put_files, delete_working}
use n4x_core.SourceStore.Changes.{
  SourceUpdate, prepare, index_from, given, check_tree_hash, checked, validate_batch,
}
use n4x_core.SourceStore.Updates.{
  Batch, apply_changes, finish, apply_prepared, update_files, update_tree,
  batch_update_working_tree,
}
use n4x_core.SourceStore.Revisions.{
  copy_tree, ensure_writable, interned_or_new, move_to, intern_tree, batch_update_revision,
  working_tree, interned_tree, writable, make_writable, drop_draft, rebind, intern, as_interned,
  update_revision,
}
use n4x_core.SourceStore.Batches.{index-IsIndexed, prepare-eq-ok, checked-eq-ok}
use n4x_core.SourceStore.Sound.{
  IsSound, IsSound-delete_edge, IsSound-delete_node, IsSound-delete_interned_orphans,
  IsSound-upsert_node,
}
use n4x_core.SourceStore.Outcomes.{apply_changes-IsSound, finish-IsSound}
use n4x_core.Prelude.Outcomes.{Ends, continue-Ends, lift-Ends, transaction-Stays, Ends-Stays}
use n4x_core.SourceStore.Outcomes.Copies.{
  list_source_tree-IsOwn, put_files-IsSound, set_tree-IsSound,
}

module _ (hashing : Hashing) where
  -- The files of a tree are put into another, whose node has just been saved.
  copied :
      (current_id : String) (t : SourceTree) (g : SourceGraph)
      → IsSound hashing g
      → (files : List SourceFile) → list_source_tree current_id (save_tree t g) ≡ ok files
      → IsSound hashing (put_files t.id files (save_tree t g))
  copied current_id t g s files l =
      let saved = IsSound-upsert_node hashing t.id t g s in
      put_files-IsSound hashing t.id files (save_tree t g)
        (list_source_tree-IsOwn hashing current_id (save_tree t g) files saved.hashed l) saved

  copy_tree-Ends :
      (revision_id : String) (current : SourceTree) (g : SourceGraph)
      → IsSound hashing g
      → Ends (IsSound hashing) (copy_tree revision_id current g)
  unfolding copy_tree
  copy_tree-Ends revision_id current g s =
      lift-Ends (IsSound hashing) (resolve revision_id g) g _ (λ label e.
        let working = working_tree revision_id label current.tree_hash in
        lift-Ends (IsSound hashing) (list_source_tree current.id (save_tree working g))
          (save_tree working g) _
          (λ files l.
            lift-Ends (IsSound hashing)
              (set_tree revision_id working.id (put_files working.id files (save_tree working g))) _
              _
              (λ bound b. IsSound-delete_interned_orphans hashing bound (
                set_tree-IsSound hashing revision_id working.id _ bound
                  (copied current.id working g s files l) b))))

  writable-Ends :
      (revision_id : String) (current : SourceTree) (status : SourceTreeStatus) (g : SourceGraph)
      → IsSound hashing g
      → Ends (IsSound hashing) (writable revision_id current status g)
  writable-Ends revision_id current draft g s = s
  writable-Ends revision_id current interned g s = copy_tree-Ends revision_id current g s

  make_writable-Ends :
      (revision_id : String) (g : SourceGraph)
      → IsSound hashing g
      → Ends (IsSound hashing) (make_writable revision_id g)
  unfolding make_writable
  make_writable-Ends revision_id g s =
      lift-Ends (IsSound hashing) (tree revision_id g) g _
        (λ current e. writable-Ends revision_id current current.status g s)

  pub ensure_writable-IsSound :
      (revision_id : String) (g : SourceGraph)
      → IsSound hashing g
      → IsSound hashing (ensure_writable revision_id g).1
  unfolding ensure_writable
  ensure_writable-IsSound revision_id g s =
      transaction-Stays (IsSound hashing) (make_writable revision_id) g s
        (make_writable-Ends revision_id g s)

  interned_or_new-Ends :
      (current : SourceTree) (tree_hash : String) (o : Option SourceTree) (g : SourceGraph)
      → IsSound hashing g
      → Ends (IsSound hashing) (interned_or_new current tree_hash o g)
  unfolding interned_or_new
  interned_or_new-Ends current tree_hash (some t) g s = s
  interned_or_new-Ends current tree_hash none g s =
      lift-Ends (IsSound hashing)
        (list_source_tree current.id (save_tree (interned_tree tree_hash) g)) _ _
        (λ files l. copied current.id (interned_tree tree_hash) g s files l)

  pub drop_draft-Ends :
      (tree_id : String) (status : SourceTreeStatus) (g : SourceGraph)
      → IsSound hashing g
      → Ends (IsSound hashing) (drop_draft tree_id status g)
  unfolding delete_working
  drop_draft-Ends tree_id draft g s =
      IsSound-delete_node hashing (tree_ref tree_id) _
        (IsSound-delete_edge hashing (tree_ref tree_id) "HAS_FILE" none g s)
  drop_draft-Ends tree_id interned g s = s

  rebind-Ends :
      (revision_id : String) (current : SourceTree) (tree_id : String) (g : SourceGraph)
      → IsSound hashing g
      → Ends (IsSound hashing) (rebind revision_id current tree_id g)
  unfolding move_to
  rebind-Ends revision_id current tree_id g s = elim (Bool-cases (current.id == tree_id)) [
    | inl e ↦ rw e s
    | inr e ↦ rw e (
        lift-Ends (IsSound hashing) (set_tree revision_id tree_id g) g _ (λ bound b.
          drop_draft-Ends current.id current.status bound
            (set_tree-IsSound hashing revision_id tree_id g bound s b)))
  ]

  intern-Ends :
      (revision_id : String) (g : SourceGraph)
      → IsSound hashing g
      → Ends (IsSound hashing) (intern hashing revision_id g)
  unfolding intern
  intern-Ends revision_id g s = lift-Ends (IsSound hashing) (tree revision_id g) g _ (λ current e.
      lift-Ends (IsSound hashing) (list_source_tree current.id g) g _ (λ files l.
        let tree_hash = listing_hash hashing (map listed files) in
        let there = as_interned (get_tree tree_hash g) in
        continue-Ends (IsSound hashing) (interned_or_new current tree_hash there g) _
          (interned_or_new-Ends current tree_hash there g s)
          (λ found t u.
            continue-Ends (IsSound hashing) (rebind revision_id current found.id t) _
              (rebind-Ends revision_id current found.id t u)
              (λ v w x. IsSound-delete_interned_orphans hashing w x))))

  pub intern_tree-IsSound :
      (revision_id : String) (g : SourceGraph)
      → IsSound hashing g
      → IsSound hashing (intern_tree hashing revision_id g).1
  unfolding intern_tree
  intern_tree-IsSound revision_id g s =
      transaction-Stays (IsSound hashing) (intern hashing revision_id) g s
        (intern-Ends revision_id g s)

  module _ (distinct : (u v : String) → hashing.sha256_text u ≡ hashing.sha256_text v → u ≡ v) where
    prepared-Ends :
        (source_tree_id : String) (changes : List SourceUpdate) (g : SourceGraph)
        (files : List SourceFile)
        → IsSound hashing g
        → list_source_tree source_tree_id g ≡ ok files
        → Ends
            (IsSound hashing)
            (apply_prepared hashing source_tree_id changes (index_from files []) g)
    prepared-Ends id changes g files s l =
        let start : Batch = record { by_path = index_from files []; written = [] } in
        applied (apply_changes hashing id changes start g) refl
      where
        applied :
            (x : Result SourceError Batch × SourceGraph)
            → apply_changes hashing id changes
                (record { by_path = index_from files []; written = [] })
                g
              ≡ x
            → Ends (IsSound hashing) (continue x (finish hashing id))
        applied (raise e, h) r = tt
        applied (ok b, h) r = Ends-Stays (IsSound hashing) _ (
            finish-IsSound hashing distinct id b h (
              apply_changes-IsSound hashing distinct id changes _ b g h
                (index-IsIndexed hashing id g files s.hashed (s.single id) l) s r))

    update_files-Ends :
        (source_tree_id : String) (changes : List SourceUpdate) (expected : Option String)
        (g : SourceGraph)
        → IsSound hashing g
        → Ends (IsSound hashing) (update_files hashing source_tree_id changes expected g)
    unfolding update_files validate_batch
    update_files-Ends id changes expected g s =
        lift-Ends (IsSound hashing) (prepare id changes expected g) g _ (λ by_path prepared.
          let (files, l, made) =
            passed_on (list_source_tree id g) (λ files. checked changes (index_from files []))
              (prepare-eq-ok id changes expected g by_path prepared) in
          subst (λ b. Ends (IsSound hashing) (apply_prepared hashing id changes b g))
            (checked-eq-ok changes (index_from files []) by_path made)
            (prepared-Ends id changes g files s l))

    pub batch_update_working_tree-IsSound :
        (source_tree_id : String) (changes : List SourceUpdate) (expected : Option String)
        (g : SourceGraph)
        → IsSound hashing g
        → IsSound hashing (batch_update_working_tree hashing source_tree_id changes expected g).1
    unfolding batch_update_working_tree update_tree
    batch_update_working_tree-IsSound id changes expected g s =
        transaction-Stays (IsSound hashing) (update_tree hashing id changes expected) g s (
          continue-Ends (IsSound hashing) (update_files hashing id changes expected g) _
            (update_files-Ends id changes expected g s)
            (λ written h k. IsSound-delete_interned_orphans hashing h k))

    update_revision-Ends :
        (revision_id : String) (changes : List SourceUpdate) (expected : Option String)
        (g : SourceGraph)
        → IsSound hashing g
        → Ends (IsSound hashing) (update_revision hashing revision_id changes expected g)
    unfolding update_revision
    update_revision-Ends revision_id changes expected g s =
        lift-Ends (IsSound hashing) (tree revision_id g) g _ (λ current e.
          lift-Ends (IsSound hashing) (check_tree_hash (given expected) current) g _ (λ u c.
            lift-Ends (IsSound hashing) (validate_batch current.id changes g) g _ (λ by_path v.
              continue-Ends (IsSound hashing) (ensure_writable revision_id g) _
                (Ends-Stays (IsSound hashing) (ensure_writable revision_id g)
                  (ensure_writable-IsSound revision_id g s))
                (λ working t k.
                  Ends-Stays (IsSound hashing)
                    (batch_update_working_tree hashing working.id changes none t)
                    (batch_update_working_tree-IsSound working.id changes none t k)))))

    pub batch_update_revision-IsSound :
        (revision_id : String) (changes : List SourceUpdate) (expected : Option String)
        (g : SourceGraph)
        → IsSound hashing g
        → IsSound hashing (batch_update_revision hashing revision_id changes expected g).1
    unfolding batch_update_revision
    batch_update_revision-IsSound revision_id changes expected g s =
        transaction-Stays (IsSound hashing) (update_revision hashing revision_id changes expected) g
          s (update_revision-Ends revision_id changes expected g s)
