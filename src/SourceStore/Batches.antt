-- ===== src/SourceStore/Batches.antt =====
-- `_batch_update_working_tree` up to the collector, against the description of its batch.
use n4x_core.Prelude.{
  String, ◌≡◌, refl, sym, ap, subst, ◌∙◌, Option, none, some, List, [], find, ◌==◌, arith,
  Option-cases, inl, inr,
}
use n4x_core.Prelude.Result.{Result, ok, raise, passed_on, ◌>>=◌, ok_injective, Result-cases}
use n4x_core.Prelude.Members.{All-of}
use n4x_core.Prelude.Sorting.{sorted_by}
use n4x_core.Prelude.Exec.{continue-eq-ok, lift-eq-ok}
use n4x_core.Kernel.Sources.{SourceTree, SourceFile}
use n4x_core.Graph.Records.{get_row}
use n4x_core.Graph.Store.{EdgeRecord, upsert_node, list_edges}
use n4x_core.SourceStore.State.{
  SourceGraph, SourceError, Hashing, source_tree, tree_ref, content_ref, get_tree, get_content,
}
use n4x_core.SourceStore.Trees.{list_source_tree, read_source_file}
use n4x_core.SourceStore.Files.{refresh_tree_hash}
use n4x_core.SourceStore.Changes.{
  SourceUpdate, ByPath, index_from, checked, validate_batch, prepare,
}
use n4x_core.SourceStore.Updates.{Batch, apply_changes, apply_prepared, finish, update_files}
use n4x_core.SourceStore.View.{edge_at, Matches, Matches-list_source_tree, files_of_same}
use n4x_core.SourceStore.Writes.{get_node-upsert_node}
use n4x_core.SourceStore.Contents.{IsHashed}
use n4x_core.SourceStore.Agrees.{IsIndexed}
use n4x_core.SourceStore.Refines.{Files, describe_all, describe_all_same, apply_changes-Describes}
use n4x_core.SourceStore.Listing.{HasOneEach, get_row-index}

-- The file that reading finds.
abbrev pub found : Result SourceError SourceFile → Option SourceFile
found (ok file) = some file
found (raise e) = none

-- The files of a tree in the graph.
abbrev pub view : String → SourceGraph → Files
view source_tree_id g p = found (read_source_file source_tree_id p g)

view-list_source_tree :
    (source_tree_id : String) (g : SourceGraph) (files : List SourceFile)
    → list_source_tree source_tree_id g ≡ ok files
    → (p : String) → view source_tree_id g p ≡ find (λ f. f.path == p) files
unfolding read_source_file
view-list_source_tree source_tree_id g files h p = rw h (ground arith)

-- An index that agrees with the graph has the files that the listing has.
get_row-listed :
    (hashing : Hashing) (source_tree_id : String) (b : ByPath) (g : SourceGraph)
    (files : List SourceFile)
    → IsIndexed hashing source_tree_id b g
    → list_source_tree source_tree_id g ≡ ok files
    → (p : String) → find (λ f. f.path == p) files ≡ get_row p b
get_row-listed hashing source_tree_id b g files i h p =
    same (find (λ (f : SourceFile). f.path == p) files) (get_row p b) (edge_at source_tree_id p g)
      (Matches-list_source_tree source_tree_id g p files h) (i.agrees p)
  where
    same :
        (f k : Option SourceFile) (e : Option EdgeRecord)
        → Matches source_tree_id g f e
        → Matches source_tree_id g k e
        → f ≡ k
    same none none none m n = refl
    same (some f) (some k) (some e) m n = ap some (ok_injective (sym m ∙ n))
    same none (some k) none m n = absurd n
    same (some f) none none m n = absurd m
    same (some f) (some k) none m n = absurd m
    same none none (some e) m n = absurd m
    same none (some k) (some e) m n = absurd m
    same (some f) none (some e) m n = absurd n

pub index-IsIndexed :
    (hashing : Hashing) (source_tree_id : String) (g : SourceGraph) (files : List SourceFile)
    → IsHashed hashing g
    → HasOneEach source_tree_id g
    → list_source_tree source_tree_id g ≡ ok files
    → IsIndexed hashing source_tree_id (index_from files []) g
index-IsIndexed hashing source_tree_id g files k one h = record {
  hashed = k;
  agrees = λ p.
      rw (get_row-index source_tree_id g p files one h)
        (Matches-list_source_tree source_tree_id g p files h);
}

pub checked-eq-ok : (changes : List SourceUpdate) (b c : ByPath) → checked changes b ≡ ok c → b ≡ c
checked-eq-ok changes b c h = ground arith

pub prepare-eq-ok :
    (source_tree_id : String) (changes : List SourceUpdate) (expected : Option String)
    (g : SourceGraph) (b : ByPath)
    → prepare source_tree_id changes expected g ≡ ok b
    → validate_batch source_tree_id changes g ≡ ok b
unfolding prepare
prepare-eq-ok source_tree_id changes expected g b h = ground arith

pub content_stays :
    (i id : String) (t : SourceTree) (g : SourceGraph)
    → get_content i (upsert_node (tree_ref id) (source_tree t) g) ≡ get_content i g
unfolding get_content
content_stays i id t g =
    rw (get_node-upsert_node (content_ref i) (tree_ref id) (source_tree t) g) refl

list-upsert_node :
    (source_tree_id id : String) (t : SourceTree) (g : SourceGraph)
    → list_source_tree source_tree_id (upsert_node (tree_ref id) (source_tree t) g)
      ≡ list_source_tree source_tree_id g
unfolding list_source_tree list_edges upsert_node
list-upsert_node source_tree_id id t g =
    ap (λ r. r >>= λ files. ok (sorted_by (λ (f : SourceFile). f.path) files))
      (files_of_same source_tree_id (upsert_node (tree_ref id) (source_tree t) g) g
        (list_edges (tree_ref source_tree_id) "HAS_FILE" g)
        (All-of _ (λ e m. content_stays e.to_ref.id id t g)))

-- The refreshed graph lists the files that were there.
abbrev Refreshed :
    String → SourceGraph → Result SourceError (List SourceFile) × SourceGraph → Type 0
Refreshed source_tree_id k (ok w, h) =
    (files : List SourceFile) × (list_source_tree source_tree_id k ≡ ok files)
    × (list_source_tree source_tree_id h ≡ ok files)
Refreshed source_tree_id k (raise e, h) = Unit

finish-Refreshed :
    (hashing : Hashing) (source_tree_id : String) (b : Batch) (k : SourceGraph)
    → Refreshed source_tree_id k (finish hashing source_tree_id b k)
unfolding finish refresh_tree_hash
finish-Refreshed hashing source_tree_id b k =
    elim (Result-cases (list_source_tree source_tree_id k)) [
      | inr (e, l) ↦ rw l tt
      | inl (files, l) ↦ elim (Option-cases (get_tree source_tree_id k)) [
        | inl e ↦ rw (l, e) tt
        | inr (t, e) ↦ rw (l, e) (files, l, list-upsert_node source_tree_id source_tree_id _ k ∙ l)
      ]
    ]

module _ (hashing : Hashing) (source_tree_id : String)
    (distinct : (u v : String) → hashing.sha256_text u ≡ hashing.sha256_text v → u ≡ v) where
  prepared-describes :
      (changes : List SourceUpdate) (g h : SourceGraph) (files written : List SourceFile)
      → IsHashed hashing g
      → HasOneEach source_tree_id g
      → list_source_tree source_tree_id g ≡ ok files
      → apply_prepared hashing source_tree_id changes (index_from files []) g ≡ (ok written, h)
      → (p : String)
      → view source_tree_id h p
        ≡ describe_all hashing source_tree_id changes (view source_tree_id g) p
  prepared-describes changes g h files written k one l e p =
      let start : Batch = record { by_path = index_from files []; written = [] } in
      let (b, m, ran, done) =
        continue-eq-ok (apply_changes hashing source_tree_id changes start g)
          (finish hashing source_tree_id) e in
      let (i, all) =
        apply_changes-Describes hashing source_tree_id distinct changes start b g m
          (index-IsIndexed hashing source_tree_id g files k one l) ran in
      let (after, here, there) =
        subst (Refreshed source_tree_id m) done (finish-Refreshed hashing source_tree_id b m) in
      view-list_source_tree source_tree_id h after there p
      ∙ get_row-listed hashing source_tree_id b.by_path m after i here p
      ∙ all p
      ∙ describe_all_same hashing source_tree_id distinct changes
          (λ q. get_row q (index_from files [])) (view source_tree_id g)
          (λ q.
            get_row-index source_tree_id g q files one l
            ∙ sym (view-list_source_tree source_tree_id g files l q))
          p

  -- A batch of updates of a working tree that returns has made of its files what its description says,
  -- path by path: writes put their file there and keep the role and the language of what they replace,
  -- deletions leave none and renames move the file. Hashes of different texts differ, contents stand
  -- under the hash of their text, and no path was there twice.
  pub update_files-describes :
      (changes : List SourceUpdate) (expected_tree_hash : Option String) (g h : SourceGraph)
      (written : List SourceFile)
      → IsHashed hashing g
      → HasOneEach source_tree_id g
      → update_files hashing source_tree_id changes expected_tree_hash g ≡ (ok written, h)
      → (p : String)
      → view source_tree_id h p
        ≡ describe_all hashing source_tree_id changes (view source_tree_id g) p
  unfolding update_files validate_batch
  update_files-describes changes expected g h written k one e p =
      let (by_path, prepared, rest) =
        lift-eq-ok (prepare source_tree_id changes expected g) g
          (apply_prepared hashing source_tree_id changes) e in
      let (files, l, made) =
        passed_on (list_source_tree source_tree_id g)
          (λ files. checked changes (index_from files []))
          (prepare-eq-ok source_tree_id changes expected g by_path prepared) in
      prepared-describes changes g h files written k one l
        (subst (λ b. apply_prepared hashing source_tree_id changes b g ≡ (ok written, h))
          (sym (checked-eq-ok changes (index_from files []) by_path made)) rest)
        p
