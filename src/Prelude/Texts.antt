-- ===== src/Prelude/Texts.antt =====
-- `str.strip`, as far as the program asks whether it leaves anything, and membership in a list of
-- identifiers.
use Prim.Native.Char.{Char, code}
use Prim.Native.String.{String}
use mathlib.Core.Bool.{Bool, true, ◌&&◌, ◌||◌}
use mathlib.Core.List.{List, [], ◌∷◌}
use n4x_core.Prelude.Tests.{leb, nat_eq, ◌==◌}
use n4x_core.Prelude.Lists.{any}

-- The characters that `str.isspace` accepts.
abbrev pub is_space : Char → Bool
is_space c =
    leb 9 (code c) && leb (code c) 13
    || leb 28 (code c) && leb (code c) 32
    || leb 8_192 (code c) && leb (code c) 8_202
    || any (nat_eq (code c)) (133 ∷ 160 ∷ 5_760 ∷ 8_232 ∷ 8_233 ∷ 8_239 ∷ 8_287 ∷ 12_288 ∷ [])

-- not s.strip()
abbrev pub is_blank : String → Bool
is_blank String.[] = true
is_blank (String.◌∷◌ c s) = is_space c && is_blank s

-- item in items
abbrev pub contains : String → List String → Bool
contains item items = any (λ i. i == item) items
