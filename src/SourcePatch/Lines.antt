-- ===== src/SourcePatch/Lines.antt =====
-- What the patch uses of Python's `str` and lists: `splitlines(keepends=True)`, `"".join`,
-- `startswith`, `rstrip("\r\n")` and slices.
use Prim.Native.Char.{Char, code}
use n4x_core.Prelude.{
  String, Bool, true, false, not, ◌&&◌, ◌||◌, Option, none, some, List, [], ◌∷◌, any, leb, nat_eq,
  ◌==◌, if◌then◌else◌,
}

-- The line boundaries of `str.splitlines`.
abbrev pub is_break : Char → Bool
is_break c =
    leb 10 (code c) && leb (code c) 13
    || leb 28 (code c) && leb (code c) 30
    || any (nat_eq (code c)) (133 ∷ 8_232 ∷ 8_233 ∷ [])

abbrev pub starts_with_lf : String → Bool
starts_with_lf String.[] = false
starts_with_lf (String.◌∷◌ c s) = nat_eq (code c) 10

-- A carriage return before a line feed does not end the line.
abbrev pub ends_line : Char → String → Bool
ends_line c s = is_break c && not (nat_eq (code c) 13 && starts_with_lf s)

abbrev pub push : Char → List String → List String
push c [] = String.◌∷◌ c String.[] ∷ []
push c (l ∷ ls) = String.◌∷◌ c l ∷ ls

unfoldable pub splitlines : String → List String
splitlines String.[] = []
splitlines (String.◌∷◌ c s) =
    let rest = splitlines s in if ends_line c s then String.◌∷◌ c String.[] ∷ rest else push c rest

abbrev pub prepend : String → String → String
prepend String.[] t = t
prepend (String.◌∷◌ c s) t = String.◌∷◌ c (prepend s t)

unfoldable pub join : List String → String
join [] = String.[]
join (l ∷ ls) = prepend l (join ls)

-- What follows the prefix, if the text starts with it.
abbrev pub after_prefix : String → String → Option String
after_prefix String.[] s = some s
after_prefix (String.◌∷◌ p ps) String.[] = none
after_prefix (String.◌∷◌ p ps) (String.◌∷◌ c s) =
    let rest = after_prefix ps s in if nat_eq (code p) (code c) then rest else none

abbrev pub starts_with : String → String → Bool
starts_with prefix s = elim (after_prefix prefix s) [ none ↦ false | some rest ↦ true ]

abbrev pub is_empty : String → Bool
is_empty String.[] = true
is_empty (String.◌∷◌ c s) = false

-- `rstrip("\r\n")`
abbrev pub rstrip_newlines : String → String
rstrip_newlines String.[] = String.[]
rstrip_newlines (String.◌∷◌ c s) =
    let rest = rstrip_newlines s in
    if is_empty rest && (nat_eq (code c) 10 || nat_eq (code c) 13)
    then String.[]
    else String.◌∷◌ c rest

-- `==` on lists of lines
abbrev pub lines_eq : List String → List String → Bool
lines_eq [] [] = true
lines_eq [] (y ∷ ys) = false
lines_eq (x ∷ xs) [] = false
lines_eq (x ∷ xs) (y ∷ ys) = x == y && lines_eq xs ys
