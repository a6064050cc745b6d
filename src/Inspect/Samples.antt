-- ===== src/Inspect/Samples.antt =====
-- Three numbers in pages of two, and the theorem at this input.
use n4x_core.Prelude.{ℕ, ◌≡◌, refl, false, none, List, [], ◌∷◌, arith}
use n4x_core.Prelude.Result.{ok, raise}
use n4x_core.Kernel.Json.{Json, JsonDict}
use n4x_core.Inspect.{Page, pos, negsuc, negative_offset, page_inspect}
use n4x_core.Inspect.Pages.{Covers, page_inspect-Covers}

abbrev number : ℕ → JsonDict
number n = ("value", Json.number n) ∷ []

abbrev short : ℕ → JsonDict
short n = []

abbrev three : List ℕ
three = 7 ∷ 8 ∷ 9 ∷ []

page_inspect-Covers_example :
    (page : Page) × (page_inspect number short three (pos 0) (pos 2) false none none ≡ ok page)
    × Covers short three 0 2 page
page_inspect-Covers_example =
    page_inspect-Covers number short three 0 2 false none (omega arith) (omega arith)

refused : page_inspect number short three (negsuc 0) (pos 2) false none none ≡ raise negative_offset
unfolding page_inspect
refused = refl
