-- ===== src/SourceStore/Trees.antt =====
-- Reading a tree: `list_source_tree`, `read_source_file`, `read_source_file_range`, `_hydrate` and
-- the hash of a listing (kernel/intern.py).
use Prim.Native.String.{len}
use n4x_core.Prelude.{
  ℕ, ◌-◌, ◌+◌, String, ◌==◌, Option, none, some, List, [], ◌∷◌, find, length, if◌then◌else◌, nat_eq,
  ltb,
}
use n4x_core.Prelude.Slices.{slice}
use n4x_core.Prelude.Sorting.{sorted_by}
use n4x_core.Prelude.Result.{Result, ok, raise, ◌>>=◌, ◌>>◌}
use n4x_core.Kernel.Sources.{SourceContent, SourceFile}
use n4x_core.Graph.Store.{EdgeRecord, Props, list_edges}
use n4x_core.SourcePatch.Lines.{splitlines, join}
use n4x_core.SourceStore.State.{
  SourceGraph, SourceError, key_error, value_error, Hashing, ListedFile, tree_ref, get_content,
  or_raise,
}

abbrev pub or_default : String → Option String → String
or_default d none = d
or_default d (some s) = s

-- int(props.get("size") or len(content.encode("utf-8")))
abbrev pub size_or : String → Option ℕ → ℕ
size_or content none = len content
size_or content (some n) = if nat_eq n 0 then len content else n

unfoldable pub hydrate : String → Props → SourceContent → Result SourceError SourceFile
hydrate source_tree_id props content = do
  path ← or_raise key_error props.path
  ok (record {
    source_tree_id = source_tree_id;
    path = path;
    role = or_default "helper" props.role;
    language = or_default "text" props.language;
    content = content.content;
    content_hash = content.id;
    size = size_or content.content props.size;
  })

abbrev pub file_of : String → SourceGraph → EdgeRecord → Result SourceError SourceFile
file_of source_tree_id g edge = do
  content ← or_raise key_error (get_content edge.to_ref.id g)
  hydrate source_tree_id edge.props content

abbrev pub files_of : String → SourceGraph → List EdgeRecord → Result SourceError (List SourceFile)
files_of source_tree_id g [] = ok []
files_of source_tree_id g (edge ∷ edges) = do
  file ← file_of source_tree_id g edge
  files ← files_of source_tree_id g edges
  ok (file ∷ files)

unfoldable pub list_source_tree : String → SourceGraph → Result SourceError (List SourceFile)
list_source_tree source_tree_id g = do
  files ← files_of source_tree_id g (list_edges (tree_ref source_tree_id) "HAS_FILE" g)
  ok (sorted_by (λ file. file.path) files)

unfoldable pub read_source_file : String → String → SourceGraph → Result SourceError SourceFile
read_source_file source_tree_id path g = do
  files ← list_source_tree source_tree_id g
  or_raise key_error (find (λ file. file.path == path) files)

pub record FileRange : Type 0 where
  pub file : SourceFile
  pub content : String
  pub total_lines : ℕ
  pub offset : ℕ
  pub limit : Option ℕ

abbrev pub at_least_one : Option ℕ → Result SourceError (Unit {0})
at_least_one none = ok tt
at_least_one (some n) = if ltb n 1 then raise value_error else ok tt

abbrev pub first_line : Option ℕ → ℕ
first_line none = 1
first_line (some n) = n

abbrev pub last_line : ℕ → ℕ → Option ℕ → ℕ
last_line start total none = total
last_line start total (some limit) = start + limit

-- Python's slice `lines[start:end]`.
unfoldable pub read_source_file_range :
    String → String → Option ℕ → Option ℕ → SourceGraph → Result SourceError FileRange
read_source_file_range source_tree_id path offset limit g = do
  file ← read_source_file source_tree_id path g
  let lines = splitlines file.content
  let start = first_line offset - 1
  at_least_one offset
  at_least_one limit
  ok (record {
    file = file;
    content = join (slice start (last_line start (length lines) limit) lines);
    total_lines = length lines;
    offset = first_line offset;
    limit = limit;
  })

abbrev pub listed : SourceFile → ListedFile
listed file = record {
  path = file.path;
  hash = file.content_hash;
  role = file.role;
  language = file.language;
}

module _ (hashing : Hashing) where
  unfoldable pub listing_hash : List ListedFile → String
  listing_hash files = hashing.sha256_json (sorted_by (λ file. file.path) files)

  unfoldable pub empty_tree_hash : String
  empty_tree_hash = listing_hash []
