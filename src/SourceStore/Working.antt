-- ===== src/SourceStore/Working.antt =====
-- `_batch_update_working_tree` with its collector, against the description of its batch.
use n4x_core.Prelude.{String, ◌≡◌, refl, sym, ap, subst, ◌∙◌, Option, List}
use n4x_core.Prelude.Result.{Result, ok}
use n4x_core.Prelude.Exec.{continue-eq-ok, transaction-eq-ok}
use n4x_core.Prelude.Outcomes.{Ends}
use n4x_core.Kernel.Sources.{SourceFile}
use n4x_core.Graph.InternGc.{delete_interned_orphans}
use n4x_core.SourceStore.State.{SourceGraph, SourceError, Hashing, named_action}
use n4x_core.SourceStore.Trees.{read_source_file}
use n4x_core.SourceStore.Changes.{SourceUpdate}
use n4x_core.SourceStore.Updates.{update_files, update_tree, batch_update_working_tree}
use n4x_core.SourceStore.Contents.{IsHashed}
use n4x_core.SourceStore.Listing.{HasOneEach}
use n4x_core.SourceStore.Refines.{describe_all}
use n4x_core.SourceStore.Bound.{
  IsFiled, IsBound, Stays, update_files-Ends, bound-other, list_source_tree-collected,
}
use n4x_core.SourceStore.Batches.{view, update_files-describes}

view-collected :
    (source_tree_id : String) (g : SourceGraph) (p : String)
    → IsBound source_tree_id g
    → IsFiled source_tree_id g
    → view source_tree_id (delete_interned_orphans named_action g).1 p ≡ view source_tree_id g p
unfolding read_source_file
view-collected source_tree_id g p bound filed =
    rw (list_source_tree-collected source_tree_id g bound filed) refl

module _ (hashing : Hashing) (source_tree_id : String)
    (distinct : (u v : String) → hashing.sha256_text u ≡ hashing.sha256_text v → u ≡ v) where
  -- A batch of updates of a working tree that returns has made of its files what its description says,
  -- path by path, and the collector at its end has left them: writes put their file there and keep the
  -- role and the language of what they replace, deletions leave none and renames move the file. Hashes
  -- of different texts differ, contents stand under the hash of their text, no path was there twice,
  -- the tree's files lead to contents, and a revision binds the tree.
  pub batch_update_working_tree-describes :
      (changes : List SourceUpdate) (expected_tree_hash : Option String) (g h : SourceGraph)
      (written : List SourceFile)
      → IsHashed hashing g
      → HasOneEach source_tree_id g
      → IsFiled source_tree_id g
      → IsBound source_tree_id g
      → batch_update_working_tree hashing source_tree_id changes expected_tree_hash g
        ≡ (ok written, h)
      → (p : String)
      → view source_tree_id h p
        ≡ describe_all hashing source_tree_id changes (view source_tree_id g) p
  unfolding batch_update_working_tree update_tree
  batch_update_working_tree-describes changes expected g h written k one filed (e, m, n, holder, t)
        ran p =
      let (w, d, updated, collected) =
        continue-eq-ok (update_files hashing source_tree_id changes expected g) _
          (transaction-eq-ok (update_tree hashing source_tree_id changes expected) g ran) in
      let (stays, still) =
        subst (Ends (Stays hashing source_tree_id e (bound-other source_tree_id e.from_ref n)))
          updated
          (update_files-Ends hashing source_tree_id e (bound-other source_tree_id e.from_ref n)
            changes expected g (m, filed)) in
      ap (λ (x : Result SourceError (List SourceFile) × SourceGraph). view source_tree_id x.1 p)
        (sym collected)
      ∙ view-collected source_tree_id d p (e, stays, n, holder, t) still
      ∙ update_files-describes hashing source_tree_id distinct changes expected g d w k one updated
          p
