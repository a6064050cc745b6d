-- ===== src/SourceStore/Outcomes.antt =====
-- Every operation on the sources that ends leaves them sound.
pub mod Copies
pub mod Revisions
pub mod Steps
use n4x_core.Prelude.{
  String, ◌≡◌, refl, sym, ap, subst, ◌∙◌, Bool, true, false, inl, inr, Option, none, some, List, [],
  ◌∷◌, map, All, if◌then◌else◌, ◌==◌, arith, eq_iff, Bool-cases, Option-cases,
}
use n4x_core.Prelude.Sorting.{sorted_by, All-sorted_by}
use n4x_core.Prelude.Result.{
  Result, ok, raise, Result-cases, passed_on, cons-eq-ok, map-eq-ok, ok_injective,
}
use n4x_core.Prelude.Exec.{Exec, transaction, settle, continue, continue-eq-ok, lift-eq-ok, lift}
use n4x_core.Kernel.Sources.{SourceTree, SourceContent, SourceFile, draft, interned}
use n4x_core.Graph.Records.{get_row}
use n4x_core.Graph.Store.{EdgeRecord, list_edges, upsert_node, delete_edge}
use n4x_core.Graph.InternGc.{delete_interned_orphans}
use n4x_core.SourceStore.State.{
  SourceGraph, SourceError, Hashing, tree_ref, source_tree, get_tree, named_action, tree, resolve,
  set_tree,
}
use n4x_core.SourceStore.Trees.{file_of, files_of, list_source_tree}
use n4x_core.SourceStore.Files.{
  put_file, put_files, keep_content, write_blob, refresh_tree_hash, delete_working,
}
use n4x_core.SourceStore.Changes.{
  SourceUpdate, Operation, write, delete, rename, prepare, index_from, checked, validate_batch,
}
use n4x_core.SourceStore.Updates.{
  Batch, apply_change, apply_changes, finish, apply_prepared, update_files, update_tree,
  batch_update_working_tree,
}
use n4x_core.SourceStore.Writes.{keep_content-edges}
use n4x_core.SourceStore.Contents.{IsHashed, IsHashed-keep_content}
use n4x_core.SourceStore.Agrees.{IsIndexed, IsWhole, indexed-IsWhole, file_of-IsWhole}
use n4x_core.SourceStore.Refines.{Describes, apply_change-Describes}
use n4x_core.SourceStore.Batches.{index-IsIndexed, prepare-eq-ok, checked-eq-ok}
use n4x_core.SourceStore.Sound.{
  IsSound, IsSound-put_file, IsSound-unlink_path, IsSound-delete_edge, IsSound-delete_node,
  IsSound-delete_interned_orphans, IsSound-upsert_node, IsSound-replace_single_edge,
}

module _ (hashing : Hashing) where
  IsSound-keep_content :
      (c : SourceContent) (g : SourceGraph)
      → hashing.sha256_text c.content ≡ c.id
      → IsSound hashing g
      → IsSound hashing (keep_content c g)
  unfolding list_edges
  IsSound-keep_content c g e s = record {
    hashed = IsHashed-keep_content hashing c g e s.hashed;
    single = λ id p. rw (keep_content-edges c g) (s.single id p);
  }

  module _ (source_tree_id path role language : String) (expected_hash : Option String) (b : Batch)
      (g : SourceGraph) (i : IsIndexed hashing source_tree_id b.by_path g)
      (s : IsSound hashing g) where
    change-IsSound :
        (operation : Operation) (content new_path : Option String)
        → IsSound hashing
            (apply_change hashing source_tree_id
              (record {
                operation = operation;
                path = path;
                content = content;
                new_path = new_path;
                role = role;
                language = language;
                expected_hash = expected_hash;
              })
              b
              g).1
    unfolding apply_change write_blob
    change-IsSound write none new_path = s
    change-IsSound write (some content) new_path =
        IsSound-put_file hashing source_tree_id _ _ refl (
          IsSound-keep_content (record { id = hashing.sha256_text content; content = content }) g
            refl s)
    change-IsSound delete content new_path = elim (Option-cases (get_row path b.by_path)) [
      | inl e ↦ rw e s
      | inr (f, e) ↦ rw e (IsSound-unlink_path hashing source_tree_id path g s)
    ]
    change-IsSound rename content none = elim (Option-cases (get_row path b.by_path)) [
      | inl e ↦ rw e s
      | inr (f, e) ↦ rw e s
    ]
    change-IsSound rename content (some new_path) = elim (Option-cases (get_row path b.by_path)) [
      | inl e ↦ rw e s
      | inr (f, e) ↦ rw e (
          IsSound-put_file hashing source_tree_id (record f { path = new_path }) _
            (indexed-IsWhole hashing source_tree_id b.by_path g path f i e).0.hash
            (IsSound-unlink_path hashing source_tree_id path g s))
    ]

  module _ (distinct : (u v : String) → hashing.sha256_text u ≡ hashing.sha256_text v → u ≡ v) where
    pub apply_changes-IsSound :
        (source_tree_id : String) (changes : List SourceUpdate) (b c : Batch) (g h : SourceGraph)
        → IsIndexed hashing source_tree_id b.by_path g
        → IsSound hashing g
        → apply_changes hashing source_tree_id changes b g ≡ (ok c, h)
        → IsSound hashing h
    apply_changes-IsSound id [] b c g h i s e =
        subst (IsSound hashing) (ap (λ (x : Result SourceError Batch × SourceGraph). x.1) e) s
    apply_changes-IsSound id (change ∷ changes) b c g h i s e =
        let (d, k, first, rest) =
          continue-eq-ok (apply_change hashing id change b g) (apply_changes hashing id changes)
            e in
        let (j, _) =
          subst (Describes hashing id change b.by_path) first
            (apply_change-Describes hashing id distinct change b g i) in
        apply_changes-IsSound id changes d c k h j
          (subst (λ (x : Result SourceError Batch × SourceGraph). IsSound hashing x.1) first
            (change-IsSound id change.path change.role change.language change.expected_hash b g i s
              change.operation change.content change.new_path))
          rest

    pub finish-IsSound :
        (source_tree_id : String) (b : Batch) (g : SourceGraph)
        → IsSound hashing g
        → IsSound hashing (finish hashing source_tree_id b g).1
    unfolding finish refresh_tree_hash
    finish-IsSound id b g s = elim (Result-cases (list_source_tree id g)) [
      | inr (e, l) ↦ rw l s
      | inl (files, l) ↦ elim (Option-cases (get_tree id g)) [
        | inl e ↦ rw (l, e) s
        | inr (t, e) ↦ rw (l, e) (IsSound-upsert_node hashing id _ g s)
      ]
    ]
