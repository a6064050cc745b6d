-- ===== src/SourcePatch/Apply.antt =====
-- `_find_unique_hunk_start` and `_apply_unified_diff`. The two loops over the lines of the patch are
-- one here: a line that starts with "@@" ends the hunk before it, as does the patch's end.
use Prim.Native.Char.{Char, code}
use n4x_core.Prelude.{
  ℕ, zero, suc, ◌+◌, ◌-◌, String, Bool, true, false, Option, none, some, List, [], ◌∷◌, ◌++◌,
  length, filter, leb, nat_eq, if◌then◌else◌,
}
use n4x_core.Prelude.Result.{Result, ok, raise, ◌>>=◌}
use n4x_core.Prelude.Slices.{slice, drop}
use n4x_core.SourcePatch.Lines.{splitlines, join, starts_with, rstrip_newlines, lines_eq}
use n4x_core.SourcePatch.Header.{read_header}

-- The messages of `SourceConflictError`.
pub data PatchError : Type 0 where
  patch_empty missing_new_header missing_old_header invalid_header multiple_sections : PatchError
  orphan_marker invalid_line context_mismatch no_hunks : PatchError

pub data EntryKind : Type 0 where
  context added removed : EntryKind

pub record Entry : Type 0 where
  pub kind : EntryKind
  pub raw_text : String
  pub no_newline : Bool

pub record Hunk : Type 0 where
  pub hinted_start : Option ℕ
  pub entries : List Entry

pub record Progress : Type 0 where
  pub source_index : ℕ
  pub output : List String

abbrev pub text_of : Entry → String
text_of e = if e.no_newline then rstrip_newlines e.raw_text else e.raw_text

abbrev pub is_old : EntryKind → Bool
is_old EntryKind.added = false
is_old _ = true

abbrev pub is_new : EntryKind → Bool
is_new EntryKind.removed = false
is_new _ = true

abbrev pub texts_where : (EntryKind → Bool) → List Entry → List String
texts_where test [] = []
texts_where test (e ∷ es) =
    let rest = texts_where test es in if test e.kind then text_of e ∷ rest else rest

abbrev pub old_lines : List Entry → List String
old_lines entries = texts_where is_old entries

abbrev pub new_lines : List Entry → List String
new_lines entries = texts_where is_new entries

-- range(first, first + count)
abbrev pub range_from : ℕ → ℕ → List ℕ
range_from first zero = []
range_from first (suc count) = first ∷ range_from (first + 1) count

abbrev pub only : List ℕ → Option ℕ
only (m ∷ []) = some m
only _ = none

abbrev pub matches_at : List String → List String → ℕ → Bool
matches_at source lines candidate =
    lines_eq (slice candidate (candidate + length lines) source) lines

abbrev pub hint_from : Option ℕ → ℕ → Option ℕ
hint_from none source_index = none
hint_from (some hint) source_index = if leb source_index hint then some hint else none

unfoldable pub find_unique_hunk_start : List String → ℕ → List String → Option ℕ → Option ℕ
find_unique_hunk_start source source_index [] hinted_start = hint_from hinted_start source_index
find_unique_hunk_start source source_index (l ∷ ls) hinted_start = only (
    filter (matches_at source (l ∷ ls))
      (range_from source_index (length source + 1 - length (l ∷ ls) - source_index)))

abbrev pub or_mismatch : Option ℕ → Result PatchError ℕ
or_mismatch none = raise context_mismatch
or_mismatch (some start) = ok start

unfoldable pub apply_hunk : List String → Hunk → Progress → Result PatchError Progress
apply_hunk source hunk p = do
  let lines = old_lines hunk.entries
  start ← or_mismatch (find_unique_hunk_start source p.source_index lines hunk.hinted_start)
  ok (record {
    source_index = start + length lines;
    output = p.output ++ slice p.source_index start source ++ new_lines hunk.entries;
  })

-- The last entry's text stands without its newline.
abbrev pub mark_last : List Entry → Result PatchError (List Entry)
mark_last [] = raise orphan_marker
mark_last (e ∷ []) = ok (record e { no_newline = true } ∷ [])
mark_last (e ∷ f ∷ es) = do rest ← mark_last (f ∷ es); ok (e ∷ rest)

-- ' ', '+' or '-'
abbrev pub kind_of : Char → Option EntryKind
kind_of c =
    if nat_eq (code c) 32
    then some EntryKind.context
    else (if nat_eq (code c) 43
        then some EntryKind.added
        else (if nat_eq (code c) 45 then some EntryKind.removed else none))

abbrev pub entry : Option EntryKind → String → Result PatchError Entry
entry none text = raise invalid_line
entry (some kind) text = ok (record { kind = kind; raw_text = text; no_newline = false })

abbrev pub read_entry : String → Result PatchError Entry
read_entry String.[] = raise invalid_line
read_entry (String.◌∷◌ c s) = entry (kind_of c) s

-- One line of a hunk's body.
abbrev pub add_line : String → List Entry → Result PatchError (List Entry)
add_line line entries =
    if starts_with "--- " line
    then raise multiple_sections
    else (if starts_with "+++ " line
        then raise multiple_sections
        else (if starts_with "\\ No newline at end of file" line
            then mark_last entries
            else (read_entry line >>= λ e. ok (entries ++ e ∷ []))))

abbrev pub open_hunk : String → Result PatchError Hunk
open_hunk header = elim (read_header header) [
  | none ↦ raise invalid_header
  | some hint ↦ ok (record { hinted_start = hint; entries = [] })
]

unfoldable pub apply_lines :
    List String → List String → Hunk → Progress → Result PatchError Progress
apply_lines source [] hunk p = apply_hunk source hunk p
apply_lines source (line ∷ lines) hunk p =
    if starts_with "@@" line
    then (apply_hunk source hunk p >>= λ q.
        open_hunk line >>= λ next. apply_lines source lines next q)
    else (add_line line hunk.entries >>= λ entries.
        apply_lines source lines (record hunk { entries = entries }) p)

abbrev pub first_hunk : List String → List String → Result PatchError Progress
first_hunk source [] = raise no_hunks
first_hunk source (header ∷ lines) = open_hunk header >>= λ hunk.
    apply_lines source lines hunk (record { source_index = 0; output = [] })

abbrev pub after_old_header : List String → List String → Result PatchError Progress
after_old_header source [] = raise missing_new_header
after_old_header source (line ∷ lines) =
    if starts_with "+++ " line then first_hunk source lines else raise missing_new_header

abbrev pub apply_patch : List String → List String → Result PatchError Progress
apply_patch source [] = raise patch_empty
apply_patch source (line ∷ lines) =
    if starts_with "--- " line
    then after_old_header source lines
    else (if starts_with "+++ " line
        then raise missing_old_header
        else first_hunk source (line ∷ lines))

unfoldable pub apply_unified_diff : String → String → Result PatchError String
apply_unified_diff content patch = do
  let source = splitlines content
  p ← apply_patch source (splitlines patch)
  ok (join (p.output ++ drop p.source_index source))
