-- ===== src/SourceStore/Outcomes/Steps.antt =====
-- The calls of `SourceStore`, in any order.
use n4x_core.Prelude.{String, ◌≡◌, refl, Option, none, List, [], ◌∷◌, some}
use n4x_core.Kernel.Sources.{SourceTree, SourceTreeStatus, draft, interned}
use n4x_core.SourceStore.State.{SourceGraph, Hashing, tree, get_tree}
use n4x_core.SourceStore.Trees.{empty_tree_hash, read_source_file}
use n4x_core.SourceStore.Files.{delete_working_tree, delete_draft}
use n4x_core.SourceStore.Changes.{SourceUpdate, given, check_hash}
use n4x_core.SourceStore.Revisions.{
  interned_empty_tree, or_save_empty, create_working_tree, ensure_writable, intern_tree,
  batch_update_revision,
}
use n4x_core.SourceStore.Edits.{
  write_source, write_source_file, rename_source, rename_source_file, delete_source,
  delete_source_file, patch_source, apply_source_patch, write_update, rename_update, delete_update,
  first, patched,
}
use n4x_core.SourcePatch.Apply.{apply_unified_diff}
use n4x_core.SourceStore.Sound.{IsSound, IsSound-upsert_node}
use n4x_core.Prelude.Outcomes.{Ends, continue-Ends, lift-Ends, transaction-Stays, Ends-Stays}
use n4x_core.SourceStore.Outcomes.Revisions.{
  ensure_writable-IsSound, intern_tree-IsSound, batch_update_revision-IsSound, drop_draft-Ends,
}

module _ (hashing : Hashing) where
  -- The calls that change a graph.
  pub data Step : SourceGraph → SourceGraph → Type 0 where
    emptied : {g : SourceGraph} → Step g (interned_empty_tree hashing g).1
    created :
        {g : SourceGraph} (revision_id owner_kind : String)
        → Step g (create_working_tree hashing revision_id owner_kind g).1
    made_writable :
        {g : SourceGraph} (revision_id : String) → Step g (ensure_writable revision_id g).1
    interned_tree_of :
        {g : SourceGraph} (revision_id : String) → Step g (intern_tree hashing revision_id g).1
    updated :
        {g : SourceGraph} (revision_id : String) (changes : List SourceUpdate)
        (expected_tree_hash : Option String)
        → Step g (batch_update_revision hashing revision_id changes expected_tree_hash g).1
    wrote :
        {g : SourceGraph} (revision_id path content role language : String)
        (expected_hash : Option String)
        → Step g
            (write_source_file hashing revision_id path content role language expected_hash g).1
    renamed :
        {g : SourceGraph} (revision_id path new_path : String) (expected_hash : Option String)
        → Step g (rename_source_file hashing revision_id path new_path expected_hash g).1
    deleted :
        {g : SourceGraph} (revision_id path : String) (expected_hash : Option String)
        → Step g (delete_source_file hashing revision_id path expected_hash g).1
    applied :
        {g : SourceGraph} (revision_id path patch : String) (expected_hash : Option String)
        → Step g (apply_source_patch hashing revision_id path patch expected_hash g).1
    dropped : {g : SourceGraph} (tree_id : String) → Step g (delete_working_tree tree_id g).1

  pub data Reach (g : SourceGraph) : SourceGraph → Type 0 where
    here : Reach g g
    next : {s t : SourceGraph} → Reach g s → Step s t → Reach g t

  interned_empty_tree-IsSound :
      (g : SourceGraph) → IsSound hashing g → IsSound hashing (interned_empty_tree hashing g).1
  unfolding interned_empty_tree
  interned_empty_tree-IsSound g s = saved (get_tree (empty_tree_hash hashing) g)
    where
      saved :
          (o : Option SourceTree) → IsSound hashing (or_save_empty (empty_tree_hash hashing) o g).1
      saved (some t) = s
      saved none = IsSound-upsert_node hashing (empty_tree_hash hashing) _ g s

  create_working_tree-IsSound :
      (revision_id owner_kind : String) (g : SourceGraph)
      → IsSound hashing g
      → IsSound hashing (create_working_tree hashing revision_id owner_kind g).1
  unfolding create_working_tree
  create_working_tree-IsSound revision_id owner_kind g s = IsSound-upsert_node hashing _ _ g s

  delete_working_tree-IsSound :
      (tree_id : String) (g : SourceGraph)
      → IsSound hashing g
      → IsSound hashing (delete_working_tree tree_id g).1
  unfolding delete_working_tree
  delete_working_tree-IsSound tree_id g s = dropped_one (get_tree tree_id g)
    where
      by_status :
          (t : SourceTree) (status : SourceTreeStatus)
          → t.status ≡ status
          → IsSound hashing (delete_draft tree_id (some t) g).1
      by_status t draft e = rw e (drop_draft-Ends hashing tree_id draft g s)
      by_status t interned e = rw e s

      dropped_one : (o : Option SourceTree) → IsSound hashing (delete_draft tree_id o g).1
      dropped_one none = s
      dropped_one (some t) = by_status t t.status refl

  module _ (distinct : (u v : String) → hashing.sha256_text u ≡ hashing.sha256_text v → u ≡ v) where
    batch_of_one :
        (revision_id : String) (change : SourceUpdate) (g : SourceGraph)
        → IsSound hashing g
        → Ends (IsSound hashing) (batch_update_revision hashing revision_id (change ∷ []) none g)
    batch_of_one revision_id change g s =
        Ends-Stays (IsSound hashing) _
          (batch_update_revision-IsSound hashing distinct revision_id (change ∷ []) none g s)

    write_source_file-IsSound :
        (revision_id path content role language : String) (expected_hash : Option String)
        (g : SourceGraph)
        → IsSound hashing g
        → IsSound hashing
            (write_source_file hashing revision_id path content role language expected_hash g).1
    unfolding write_source_file write_source
    write_source_file-IsSound revision_id path content role language expected_hash g s =
        transaction-Stays (IsSound hashing)
          (write_source hashing revision_id path content role language expected_hash) g s
          (continue-Ends (IsSound hashing) _ _
            (batch_of_one revision_id (write_update path content role language expected_hash) g s)
            (λ files t k. Ends-Stays (IsSound hashing) (first files, t) k))

    rename_source_file-IsSound :
        (revision_id path new_path : String) (expected_hash : Option String) (g : SourceGraph)
        → IsSound hashing g
        → IsSound hashing (rename_source_file hashing revision_id path new_path expected_hash g).1
    unfolding rename_source_file rename_source
    rename_source_file-IsSound revision_id path new_path expected_hash g s =
        transaction-Stays (IsSound hashing)
          (rename_source hashing revision_id path new_path expected_hash) g s
          (continue-Ends (IsSound hashing) _ _
            (batch_of_one revision_id (rename_update path new_path expected_hash) g s)
            (λ files t k. Ends-Stays (IsSound hashing) (first files, t) k))

    delete_source_file-IsSound :
        (revision_id path : String) (expected_hash : Option String) (g : SourceGraph)
        → IsSound hashing g
        → IsSound hashing (delete_source_file hashing revision_id path expected_hash g).1
    unfolding delete_source_file delete_source
    delete_source_file-IsSound revision_id path expected_hash g s =
        transaction-Stays (IsSound hashing) (delete_source hashing revision_id path expected_hash) g
          s
          (continue-Ends (IsSound hashing) _ _
            (batch_of_one revision_id (delete_update path expected_hash) g s) (λ files t k. k))

    apply_source_patch-IsSound :
        (revision_id path patch : String) (expected_hash : Option String) (g : SourceGraph)
        → IsSound hashing g
        → IsSound hashing (apply_source_patch hashing revision_id path patch expected_hash g).1
    unfolding apply_source_patch patch_source
    apply_source_patch-IsSound revision_id path patch expected_hash g s =
        transaction-Stays (IsSound hashing)
          (patch_source hashing revision_id path patch expected_hash) g s
          (lift-Ends (IsSound hashing) (tree revision_id g) g _ (λ t e.
            lift-Ends (IsSound hashing) (read_source_file t.id path g) g _ (λ current r.
              lift-Ends (IsSound hashing) (check_hash (given expected_hash) (some current)) g _
                (λ u c.
                  lift-Ends (IsSound hashing) (patched (apply_unified_diff current.content patch)) g
                    _
                    (λ text p.
                      Ends-Stays (IsSound hashing)
                        (write_source_file hashing revision_id path text current.role
                          current.language (some current.content_hash) g)
                        (write_source_file-IsSound revision_id path text current.role
                          current.language (some current.content_hash) g s))))))

    Step-IsSound : {s t : SourceGraph} → Step s t → IsSound hashing s → IsSound hashing t
    Step-IsSound {s} emptied k = interned_empty_tree-IsSound s k
    Step-IsSound {s} (created revision_id owner_kind) k =
        create_working_tree-IsSound revision_id owner_kind s k
    Step-IsSound {s} (made_writable revision_id) k = ensure_writable-IsSound hashing revision_id s k
    Step-IsSound {s} (interned_tree_of revision_id) k = intern_tree-IsSound hashing revision_id s k
    Step-IsSound {s} (updated revision_id changes expected_tree_hash) k =
        batch_update_revision-IsSound hashing distinct revision_id changes expected_tree_hash s k
    Step-IsSound {s} (wrote revision_id path content role language expected_hash) k =
        write_source_file-IsSound revision_id path content role language expected_hash s k
    Step-IsSound {s} (renamed revision_id path new_path expected_hash) k =
        rename_source_file-IsSound revision_id path new_path expected_hash s k
    Step-IsSound {s} (deleted revision_id path expected_hash) k =
        delete_source_file-IsSound revision_id path expected_hash s k
    Step-IsSound {s} (applied revision_id path patch expected_hash) k =
        apply_source_patch-IsSound revision_id path patch expected_hash s k
    Step-IsSound {s} (dropped tree_id) k = delete_working_tree-IsSound tree_id s k

    -- However a graph with sound sources is written through the source store, and whichever of the
    -- calls raise: each content stands under the hash of its text, and no tree has a path twice. Hashes
    -- of different texts differ.
    pub Reach-IsSound : (g h : SourceGraph) → IsSound hashing g → Reach g h → IsSound hashing h
    Reach-IsSound g h k here = k
    Reach-IsSound g h k (next {s} r step) = Step-IsSound step (Reach-IsSound g s k r)
