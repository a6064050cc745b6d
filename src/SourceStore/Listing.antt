-- ===== src/SourceStore/Listing.antt =====
-- The index of a listing finds what the listing has, when no path is listed twice.
use n4x_core.Prelude.{
  ℕ, ◌+◌, ◌≤◌, String, ◌≡◌, refl, sym, ap, ◌∙◌, Bool, inl, inr, Option, none, some, List, [], ◌∷◌,
  find, if◌then◌else◌, ◌==◌, arith, Bool-cases,
}
use n4x_core.Prelude.Result.{ok, ok_injective, cons-eq-ok, map-eq-ok}
use n4x_core.Prelude.Sorting.{insert_by, sorted_by}
use n4x_core.Kernel.Sources.{SourceFile}
use n4x_core.Graph.Records.{get_row, upsert_row, get-upsert_row}
use n4x_core.Graph.Store.{EdgeRecord, list_edges, text_option_eq}
use n4x_core.SourceStore.State.{SourceGraph, tree_ref}
use n4x_core.SourceStore.Trees.{file_of, files_of, list_source_tree}
use n4x_core.SourceStore.Changes.{ByPath, index_from}
use n4x_core.SourceStore.View.{at_path, file_of-path}
use n4x_core.SourceStore.Writes.{or_else}

module _ {ℓ} {A : Type ℓ} where
  abbrev pub count : (A → Bool) → List A → ℕ
  count p [] = 0
  count p (x ∷ xs) = (if p x then 1 else 0) + count p xs

  count-insert_by :
      (key : A → String) (p : A → Bool) (x : A) (xs : List A)
      → count p (insert_by key x xs) ≡ count p (x ∷ xs)
  count-insert_by key p x [] = refl
  count-insert_by key p x (y ∷ xs) = ground (arith, count-insert_by key p x xs)

  count-sorted_by :
      (key : A → String) (p : A → Bool) (xs : List A) → count p (sorted_by key xs) ≡ count p xs
  count-sorted_by key p [] = refl
  count-sorted_by key p (x ∷ xs) =
      omega (arith, count-insert_by key p x (sorted_by key xs), count-sorted_by key p xs)

  find-count : (p : A → Bool) (xs : List A) → count p xs ≡ 0 → find p xs ≡ none
  find-count p [] h = refl
  find-count p (x ∷ xs) h = ground (arith, find-count p xs)

-- No two files of the tree have the same path.
abbrev pub HasOneEach : String → SourceGraph → Type 0
HasOneEach source_tree_id g =
    (p : String) → count (at_path p) (list_edges (tree_ref source_tree_id) "HAS_FILE" g) ≤ 1

get_row-index_from :
    (p : String) (files : List SourceFile) (b : ByPath)
    → count (λ f. f.path == p) files ≤ 1
    → get_row p (index_from files b) ≡ or_else (find (λ f. f.path == p) files) (get_row p b)
get_row-index_from p [] b h = refl
get_row-index_from p (f ∷ files) b h =
    get_row-index_from p files (upsert_row f.path f b) (omega arith)
    ∙ ap (or_else (find (λ x. x.path == p) files)) (get-upsert_row f.path p f b)
    ∙ last
  where
    last :
        or_else
          (find (λ (x : SourceFile). x.path == p) files)
          (if f.path == p then some f else get_row p b)
        ≡ or_else
            (if f.path == p then some f else find (λ (x : SourceFile). x.path == p) files)
            (get_row p b)
    last = elim (Bool-cases (f.path == p)) [
      | inl e ↦
          rw (e, find-count (λ (x : SourceFile). x.path == p) files (ground (arith, h, e))) refl
      | inr e ↦ rw e refl
    ]

count-files_of :
    (source_tree_id : String) (g : SourceGraph) (p : String) (edges : List EdgeRecord)
    (files : List SourceFile)
    → files_of source_tree_id g edges ≡ ok files
    → count (λ f. f.path == p) files ≡ count (at_path p) edges
count-files_of source_tree_id g p [] files h =
    ap (count (λ (f : SourceFile). f.path == p)) (sym (ok_injective h))
count-files_of source_tree_id g p (e ∷ edges) files h =
    let (file, others, first, listed, made) =
      cons-eq-ok (file_of source_tree_id g e) (files_of source_tree_id g edges) h in
    let at = ap (λ o. text_option_eq o (some p)) (file_of-path source_tree_id g e file first) in
    rw (sym made, at, count-files_of source_tree_id g p edges others listed) refl

pub get_row-index :
    (source_tree_id : String) (g : SourceGraph) (p : String) (files : List SourceFile)
    → HasOneEach source_tree_id g
    → list_source_tree source_tree_id g ≡ ok files
    → get_row p (index_from files []) ≡ find (λ f. f.path == p) files
unfolding list_source_tree
get_row-index source_tree_id g p files one h =
    let edges = list_edges (tree_ref source_tree_id) "HAS_FILE" g in
    let (unsorted, listed, made) =
      map-eq-ok (files_of source_tree_id g edges) (sorted_by (λ (f : SourceFile). f.path)) h in
    get_row-index_from p files [] (
      omega (
        arith,
        one p,
        count-files_of source_tree_id g p edges unsorted listed,
        count-sorted_by (λ (f : SourceFile). f.path) (λ f. f.path == p) unsorted,
        ap (count (λ (f : SourceFile). f.path == p)) made,
      ))
    ∙ or_none (find (λ (f : SourceFile). f.path == p) files)
  where
    or_none : (o : Option SourceFile) → or_else o none ≡ o
    or_none none = refl
    or_none (some f) = refl
