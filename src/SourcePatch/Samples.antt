-- ===== src/SourcePatch/Samples.antt =====
-- Patches of three lines, and the theorem at one of them.
use n4x_core.Prelude.{◌∷◌, [], ℕ, ◌+◌, ◌≤◌, length, none, String, ◌≡◌, refl, List, ◌++◌}
use n4x_core.Prelude.Result.{ok, raise}
use n4x_core.Prelude.Slices.{take, drop}
use n4x_core.SourcePatch.Lines.{splitlines, join}
use n4x_core.SourcePatch.Header.{read_header}
use n4x_core.SourcePatch.Apply.{
  multiple_sections, context_mismatch, find_unique_hunk_start, apply_hunk, apply_lines,
  apply_unified_diff,
}
use n4x_core.SourcePatch.Unique.{find_unique_hunk_start_lem}
use n4x_core.SourcePatch.Rewrites.{
  Edit, entries_of, before, after, read_patch, apply_unified_diff-rewrites,
}

program : Unit {0}
unfolding splitlines join read_header find_unique_hunk_start apply_hunk apply_lines
    apply_unified_diff
program = tt

abbrev three : String
three = "a\nb\nc\n"

abbrev change : String
change = "--- a/x\n+++ b/x\n@@ -1,3 +1,3 @@\n a\n-b\n+B\n c\n"

changed : apply_unified_diff three change ≡ ok "a\nB\nc\n"
unfolding program
changed = refl

apply_unified_diff-rewrites_example :
    (edits : List Edit) × (rest : List String) × (read_patch (splitlines change)
      ≡ ok (entries_of edits))
    × (three ≡ join (before edits ++ rest))
    × ("a\nB\nc\n" ≡ join (after edits ++ rest))
apply_unified_diff-rewrites_example = apply_unified_diff-rewrites three change "a\nB\nc\n" changed

-- A context that stands at two places is refused.
ambiguous : apply_unified_diff "a\na\n" "@@ @@\n-a\n" ≡ raise context_mismatch
unfolding program
ambiguous = refl

-- An insertion after line 2, as "diff -U0" writes it, goes before that line.
inserted_before : apply_unified_diff three "@@ -2,0 +3 @@\n+x\n" ≡ ok "a\nx\nb\nc\n"
unfolding program
inserted_before = refl

-- The removal of a line that starts with "-- " is taken for a file header.
comment_refused : apply_unified_diff "-- a\n" "@@ -1 +0,0 @@\n--- a\n" ≡ raise multiple_sections
unfolding program
comment_refused = refl

find_unique_hunk_start_lem_example :
    (0 ≤ 1)
    × (take 1 (drop 1 (splitlines three)) ≡ "b\n" ∷ [])
    × ((place : ℕ)
        → 0 ≤ place
        → place + 1 ≤ length (splitlines three)
        → take 1 (drop place (splitlines three)) ≡ "b\n" ∷ []
        → place ≡ 1)
find_unique_hunk_start_lem_example =
    find_unique_hunk_start_lem (splitlines three) [] "b\n" 0 1 none (unfold program in refl)
