-- ===== src/SourcePatch/Header.antt =====
-- `_UNIFIED_HUNK`: the hunk header "@@ -1,2 +3,4 @@ text", whose ranges may be missing. A line of
-- `splitlines` has a line feed only at its end; digits are ASCII.
use Prim.Native.Char.{Char, code}
use n4x_core.Prelude.{
  ℕ, ◌+◌, ◌-◌, ◌*◌, String, Bool, ◌&&◌, ◌||◌, Option, none, some, leb, ◌==◌, if◌then◌else◌,
}
use n4x_core.SourcePatch.Lines.{after_prefix, starts_with}

abbrev pub is_digit : Char → Bool
is_digit c = leb 48 (code c) && leb (code c) 57

-- `int` of the longest run of digits, and what follows it.
abbrev pub read_digits : ℕ → String → ℕ × String
read_digits n String.[] = (n, String.[])
read_digits n (String.◌∷◌ c s) =
    let rest = read_digits (10 * n + (code c - 48)) s in
    if is_digit c then rest else (n, String.◌∷◌ c s)

abbrev pub read_number : String → Option (ℕ × String)
read_number String.[] = none
read_number (String.◌∷◌ c s) = if is_digit c then some (read_digits 0 (String.◌∷◌ c s)) else none

-- `(?:,(\d+))?`
abbrev pub skip_count : String → String
skip_count s = elim (after_prefix "," s) [ none ↦ s | some t ↦ skipped (read_number t) s ]
  where
    skipped : Option (ℕ × String) → String → String
    skipped none s = s
    skipped (some p) s = p.1

-- A chain of readers.
infixl 5 ◌then_read◌
abbrev pub ◌then_read◌ : {A B : Type 0} → Option A → (A → Option B) → Option B
none then_read f = none
some a then_read f = f a

-- The old start of the ranges, and what follows them.
abbrev pub read_ranges : String → Option (ℕ × String)
read_ranges s = after_prefix " -" s then_read λ a. read_number a then_read λ old.
    after_prefix " +" (skip_count old.1) then_read λ b. read_number b then_read λ new.
    after_prefix " @@" (skip_count new.1) then_read λ tail. some (old.0, tail)

-- `(?: .*)?(?:\r?\n)?$`
abbrev pub is_tail : String → Bool
is_tail s = s == "" || s == "\n" || s == "\r\n" || starts_with " " s

abbrev pub without_ranges : String → Option (Option ℕ)
without_ranges rest = if is_tail rest then some none else none

abbrev pub with_ranges : Option (ℕ × String) → String → Option (Option ℕ)
with_ranges none rest = without_ranges rest
with_ranges (some (old_start, tail)) rest =
    if is_tail tail then some (some (old_start - 1)) else without_ranges rest

-- The hinted start of a header; none if the line is no header. A start of 0 hints at 0 as well.
unfoldable pub read_header : String → Option (Option ℕ)
read_header line = after_prefix "@@" line then_read λ rest. with_ranges (read_ranges rest) rest
