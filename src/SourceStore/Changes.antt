-- ===== src/SourceStore/Changes.antt =====
-- A batch of updates as data, and what is checked before it: `SourceUpdate`,
-- `_validate_batch` and the checks of `_batch_update_working_tree`.
use n4x_core.Prelude.{
  String, ◌==◌, not, Bool, false, Option, none, some, List, [], ◌∷◌, filter, if◌then◌else◌, is_none,
}
use n4x_core.Prelude.Result.{Result, ok, raise, ◌>>=◌, ◌>>◌}
use n4x_core.Kernel.Sources.{SourceTree, SourceFile, draft, interned}
use n4x_core.Graph.Records.{get_row, upsert_row}
use n4x_core.SourceStore.State.{
  SourceGraph, SourceError, source_conflict, value_error, immutable_revision, key_error, or_raise,
  get_tree,
}
use n4x_core.SourceStore.Trees.{list_source_tree}

pub data Operation : Type 0 where
  write delete rename : Operation

pub record SourceUpdate : Type 0 where
  pub operation : Operation
  pub path : String
  pub content : Option String
  pub new_path : Option String
  pub role : String
  pub language : String
  pub expected_hash : Option String

-- `by_path`, a dict of the files by their paths.
abbrev pub ByPath : Type 0
ByPath = List (String × SourceFile)

abbrev pub index_from : List SourceFile → ByPath → ByPath
index_from [] by_path = by_path
index_from (file ∷ files) by_path = index_from files (upsert_row file.path file by_path)

abbrev pub delete_row : String → ByPath → ByPath
delete_row path by_path = filter (λ r. not (r.0 == path)) by_path

-- A text that is given and not empty.
abbrev pub given : Option String → Option String
given none = none
given (some s) = if s == "" then none else some s

abbrev pub has_hash : Option SourceFile → String → Bool
has_hash none h = false
has_hash (some file) h = file.content_hash == h

abbrev pub check_hash : Option String → Option SourceFile → Result SourceError (Unit {0})
check_hash none current = ok tt
check_hash (some h) current = if has_hash current h then ok tt else raise source_conflict

abbrev pub check_exists : Operation → Option SourceFile → Result SourceError (Unit {0})
check_exists write current = ok tt
check_exists delete current = if is_none current then raise source_conflict else ok tt
check_exists rename current = if is_none current then raise source_conflict else ok tt

abbrev pub check_free : Option String → ByPath → Result SourceError (Unit {0})
check_free none by_path = raise value_error
check_free (some new_path) by_path =
    if is_none (get_row new_path by_path) then ok tt else raise source_conflict

abbrev pub check_target : Operation → Option String → ByPath → Result SourceError (Unit {0})
check_target write new_path by_path = ok tt
check_target delete new_path by_path = ok tt
check_target rename new_path by_path = check_free (given new_path) by_path

unfoldable pub validate_change : ByPath → SourceUpdate → Result SourceError (Unit {0})
validate_change by_path change = do
  let current = get_row change.path by_path
  check_hash (given change.expected_hash) current
  check_exists change.operation current
  check_target change.operation change.new_path by_path

-- Each change is checked against the files as they are before the batch.
abbrev pub validate_changes : ByPath → List SourceUpdate → Result SourceError (Unit {0})
validate_changes by_path [] = ok tt
validate_changes by_path (change ∷ changes) = do
  validate_change by_path change
  validate_changes by_path changes

abbrev pub checked : List SourceUpdate → ByPath → Result SourceError ByPath
checked changes by_path = do validate_changes by_path changes; ok by_path

unfoldable pub validate_batch : String → List SourceUpdate → SourceGraph → Result SourceError ByPath
validate_batch source_tree_id changes g = do
  files ← list_source_tree source_tree_id g
  checked changes (index_from files [])

abbrev pub check_status : SourceTree → Result SourceError (Unit {0})
check_status t = elim t.status [ draft ↦ ok tt | interned ↦ raise immutable_revision ]

abbrev pub check_tree_hash : Option String → SourceTree → Result SourceError (Unit {0})
check_tree_hash none t = ok tt
check_tree_hash (some h) t = if t.tree_hash == h then ok tt else raise source_conflict

-- What is checked before the first change.
unfoldable pub prepare :
    String → List SourceUpdate → Option String → SourceGraph → Result SourceError ByPath
prepare source_tree_id changes expected_tree_hash g = do
  t ← or_raise key_error (get_tree source_tree_id g)
  check_status t
  check_tree_hash (given expected_tree_hash) t
  validate_batch source_tree_id changes g
