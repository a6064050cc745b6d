-- ===== src/SourcePatch/RoundTrip.antt =====
-- `splitlines` and `"".join`, one after the other.
use Prim.Native.Char.{Char}
use n4x_core.Prelude.{String, ◌≡◌, refl, ap, ◌∙◌, Bool, true, false, List, [], ◌∷◌, if◌then◌else◌}
use n4x_core.SourcePatch.Lines.{splitlines, join, push, ends_line}

join-push : (c : Char) (ls : List String) → join (push c ls) ≡ String.◌∷◌ c (join ls)
unfolding join
join-push c [] = refl
join-push c (l ∷ ls) = refl

join-choose :
    (b : Bool) (c : Char) (ls : List String)
    → join (if b then String.◌∷◌ c String.[] ∷ ls else push c ls) ≡ String.◌∷◌ c (join ls)
unfolding join
join-choose true c ls = refl
join-choose false c ls = join-push c ls

-- The lines of a text, with their ends, make up the text.
pub join-splitlines : (s : String) → join (splitlines s) ≡ s
unfolding join splitlines
join-splitlines String.[] = refl
join-splitlines (String.◌∷◌ c s) =
    join-choose (ends_line c s) c (splitlines s) ∙ ap (String.◌∷◌ c) (join-splitlines s)
