-- ===== src/SourceStore/Search.antt =====
-- `search_source_tree`: the lines of a tree's files that match a pattern, up to a cap. The regular
-- expressions and `fnmatch` of the library are parameters; `str.splitlines` without the ends of lines is that
-- of SourcePatch with the ends stripped.
pub mod Capped
use n4x_core.Prelude.{
  ℕ, zero, suc, ◌+◌, ◌-◌, min, ◌≤◌, String, Bool, true, false, Option, none, some, List, [], ◌∷◌,
  ◌++◌, map, length, if◌then◌else◌, ltb, leb, ◌==◌,
}
use n4x_core.Prelude.Slices.{slice}
use n4x_core.Prelude.Result.{Result, ok, raise, ◌>>=◌, ◌>>◌}
use n4x_core.Kernel.Sources.{SourceFile}
use n4x_core.SourcePatch.Lines.{splitlines, is_break}
use n4x_core.SourceStore.State.{SourceGraph, SourceError, value_error, or_raise}
use n4x_core.SourceStore.Trees.{list_source_tree}

pub record Match : Type 0 where
  pub path : String
  pub line : ℕ
  pub snippet : String
  pub before : List String
  pub after : List String

-- A line without its line boundary, of which the line has no other.
abbrev pub without_end : String → String
without_end String.[] = String.[]
without_end (String.◌∷◌ c s) =
    let rest = without_end s in if is_break c then rest else String.◌∷◌ c rest

-- text[:n]
abbrev pub take_text : ℕ → String → String
take_text zero s = String.[]
take_text (suc n) String.[] = String.[]
take_text (suc n) (String.◌∷◌ c s) = String.◌∷◌ c (take_text n s)

abbrev pub search_limit : ℕ
search_limit = 50

-- Where a loop stands: it has stopped at the cap, or it goes on.
pub data Scan : Type 0 where
  stopped going : List Match → Scan

module _ (matches : String → Bool) (context : ℕ) where
  abbrev pub match_at : String → List String → ℕ → String → Match
  match_at path lines number line = record {
    path = path;
    line = number;
    snippet = take_text 240 line;
    before = map (take_text 240) (slice (number - 1 - context) (number - 1) lines);
    after = map (take_text 240) (slice number (min (length lines) (number + context)) lines);
  }

  module _ (limit : ℕ) where
    abbrev pub scan_lines : String → List String → ℕ → List String → List Match → Scan
    scan_lines path lines number [] found = going found
    scan_lines path lines number (line ∷ rest) found =
        let longer = found ++ match_at path lines number line ∷ [] in
        elim (matches line) [
          | false ↦ scan_lines path lines (suc number) rest found
          | true ↦
              let later = scan_lines path lines (suc number) rest longer in
              if leb limit (length longer) then stopped longer else later
        ]

    module _ (keeps : String → Bool) where
      abbrev pub scan_files : List SourceFile → List Match → List Match
      scan_files [] found = found
      scan_files (file ∷ files) found =
          let lines = map without_end (splitlines file.content) in
          elim (keeps file.path) [
            | false ↦ scan_files files found
            | true ↦ elim (scan_lines file.path lines 1 lines found) [
              | stopped longer ↦ longer
              | going longer ↦ scan_files files longer
            ]
          ]

-- `not glob or fnmatch(path, glob)`
abbrev pub kept_by : (String → String → Bool) → Option String → String → Bool
kept_by fnmatch none path = true
kept_by fnmatch (some glob) path = if glob == "" then true else fnmatch path glob

module _ (compile : String → Option (String → Bool)) (fnmatch : String → String → Bool) where
  unfoldable pub search_source_tree :
      String → String → Option String → ℕ → ℕ → SourceGraph → Result SourceError (List Match)
  search_source_tree source_tree_id pattern glob limit context g = do
    if ltb limit 1 then raise value_error else ok tt
    matches ← or_raise value_error (compile pattern)
    files ← list_source_tree source_tree_id g
    ok (scan_files matches context (min limit search_limit) (kept_by fnmatch glob) files [])
