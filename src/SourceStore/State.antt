-- ===== src/SourceStore/State.antt =====
-- The graph as `SourceStore` sees it, its errors, and `RevisionBindings.resolve`, `tree` and
-- `set_tree` of graph/bindings.py.
use n4x_core.Prelude.{String, Option, none, some, List, [], ◌∷◌, if◌then◌else◌, is_none}
use n4x_core.Prelude.Result.{Result, ok, raise, ◌>>=◌}
use n4x_core.Kernel.Sources.{SourceTree, SourceContent}
use n4x_core.Graph.Edges.{NodeRef, node_ref}
use n4x_core.Graph.Store.{
  GraphStore, EdgeRecord, get_node, upsert_node, list_edges, replace_single_edge,
}

-- What a node holds. A callback route, an invocation or a job holds the action revision that it names.
pub data Model : Type 0 where
  source_tree : SourceTree → Model
  source_content : SourceContent → Model
  in_flight : String → Model
  other : Model

abbrev pub SourceGraph : Type 0
SourceGraph = GraphStore Model

abbrev pub named_action : Model → Option String
named_action (in_flight action_revision_id) = some action_revision_id
named_action (source_tree t) = none
named_action (source_content c) = none
named_action other = none

-- `ImmutableRevisionError`, `SourceConflictError`, and Python's own.
pub data SourceError : Type 0 where
  immutable_revision source_conflict key_error value_error assertion_error index_error : SourceError

-- One file of the listing that `listing_hash` hashes.
pub record ListedFile : Type 0 where
  pub path : String
  pub hash : String
  pub role : String
  pub language : String

-- `sha256_text`, and `sha256_json` of a listing.
pub record Hashing : Type 0 where
  pub sha256_text : String → String
  pub sha256_json : List ListedFile → String

abbrev pub as_tree : Option Model → Option SourceTree
as_tree (some (source_tree t)) = some t
as_tree (some (source_content c)) = none
as_tree (some (in_flight i)) = none
as_tree (some other) = none
as_tree none = none

abbrev pub as_content : Option Model → Option SourceContent
as_content (some (source_content c)) = some c
as_content (some (source_tree t)) = none
as_content (some (in_flight i)) = none
as_content (some other) = none
as_content none = none

abbrev pub tree_ref : String → NodeRef
tree_ref = node_ref "SourceTree"

abbrev pub content_ref : String → NodeRef
content_ref = node_ref "SourceContent"

unfoldable pub get_tree : String → SourceGraph → Option SourceTree
get_tree id g = as_tree (get_node (tree_ref id) g)

abbrev pub save_tree : SourceTree → SourceGraph → SourceGraph
save_tree t g = upsert_node (tree_ref t.id) (source_tree t) g

unfoldable pub get_content : String → SourceGraph → Option SourceContent
get_content id g = as_content (get_node (content_ref id) g)

abbrev pub save_content : SourceContent → SourceGraph → SourceGraph
save_content c g = upsert_node (content_ref c.id) (source_content c) g

-- `collection[key]`
abbrev pub or_raise : {A : Type 0} → SourceError → Option A → Result SourceError A
or_raise e none = raise e
or_raise e (some a) = ok a

abbrev pub revision_labels : List String
revision_labels = "ApplicationRevision" ∷ "ExperienceRevision" ∷ "SystemRevision" ∷ []

abbrev pub resolve_among : List String → String → SourceGraph → Result SourceError String
resolve_among [] revision_id g = raise key_error
resolve_among (label ∷ labels) revision_id g =
    let rest = resolve_among labels revision_id g in
    if is_none (get_node (node_ref label revision_id) g) then rest else ok label

-- The label of the revision; `resolve` returns the revision with it.
unfoldable pub resolve : String → SourceGraph → Result SourceError String
resolve = resolve_among revision_labels

abbrev pub exactly_one : List EdgeRecord → Result SourceError EdgeRecord
exactly_one [] = raise value_error
exactly_one (e ∷ []) = ok e
exactly_one (e ∷ f ∷ es) = raise value_error

unfoldable pub tree : String → SourceGraph → Result SourceError SourceTree
tree revision_id g = do
  label ← resolve revision_id g
  edge ← exactly_one (list_edges (node_ref label revision_id) "HAS_SOURCE_TREE" g)
  or_raise key_error (get_tree edge.to_ref.id g)

unfoldable pub set_tree : String → String → SourceGraph → Result SourceError SourceGraph
set_tree revision_id tree_id g = do
  label ← resolve revision_id g
  ok (replace_single_edge (node_ref label revision_id) "HAS_SOURCE_TREE" (tree_ref tree_id) g)
