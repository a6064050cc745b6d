-- ===== src/SourcePatch/Places.antt =====
-- Where a hunk may start: slices of a list, and `_find_unique_hunk_start`.
use n4x_core.Prelude.{
  ℕ, zero, suc, ◌+◌, ◌-◌, ◌≤◌, String, ◌≡◌, refl, sym, ap, subst, ◌∙◌, Bool, true, false, Option,
  none, some, List, [], ◌∷◌, ◌++◌, length, filter, arith, eq_iff, if◌then◌else◌, All,
}
use n4x_core.Prelude.Slices.{take, drop, slice, take-drop, drop-drop}
use n4x_core.SourcePatch.Lines.{lines_eq}
use n4x_core.SourcePatch.Apply.{range_from, only, matches_at, hint_from, find_unique_hunk_start}

module _ {ℓ} {A : Type ℓ} where
  -- What is taken first, then what is taken next, and the rest.
  pub drop-slices :
      (first start count : ℕ) (xs middle : List A)
      → first ≤ start
      → take count (drop start xs) ≡ middle
      → drop first xs ≡ slice first start xs ++ (middle ++ drop (start + count) xs)
  drop-slices first start count xs middle low e =
      let whole : first + (start - first) ≡ start = omega arith in
      let after : drop (start - first) (drop first xs) ≡ drop start xs =
        drop-drop first (start - first) xs ∙ ap (λ k. drop k xs) whole in
      let split : drop start xs ≡ middle ++ drop (start + count) xs =
        sym (take-drop count (drop start xs))
        ∙ ap (λ l. l ++ drop count (drop start xs)) e
        ∙ ap (λ l. middle ++ l) (drop-drop start count xs) in
      sym (take-drop (start - first) (drop first xs))
      ∙ ap (λ l. slice first start xs ++ l) (after ∙ split)

lines_eq-eq-true : (xs ys : List String) → lines_eq xs ys ≡ true → xs ≡ ys
lines_eq-eq-true [] [] e = refl
lines_eq-eq-true [] (y ∷ ys) e = cc
lines_eq-eq-true (x ∷ xs) [] e = cc
lines_eq-eq-true (x ∷ xs) (y ∷ ys) e =
    let head : x ≡ y = ground (arith, eq_iff x y, e) in
    let tail : lines_eq xs ys ≡ true = ground (arith, e) in
    let same = lines_eq-eq-true xs ys tail in cc

-- Where a hunk may start: not before the progress, and at its old lines.
abbrev pub Fits : List String → ℕ → List String → ℕ → Type 0
Fits source first lines start = (first ≤ start) × (take (length lines) (drop start source) ≡ lines)

range_from-Fits :
    (source lines : List String) (first from count : ℕ)
    → first ≤ from
    → All (Fits source first lines) (filter (matches_at source lines) (range_from from count))
range_from-Fits source lines first from zero low = tt
range_from-Fits source lines first from (suc count) low =
    kept (range_from-Fits source lines first (from + 1) count (omega arith))
      (matches_at source lines from) refl
  where
    matched : matches_at source lines from ≡ true → Fits source first lines from
    matched e =
        let size : from + length lines - from ≡ length lines = omega arith in
        (
          low,
          subst (λ n. take n (drop from source) ≡ lines) size
              (lines_eq-eq-true (slice from (from + length lines) source) lines e),
        )

    kept :
        All
          (Fits source first lines)
          (filter (matches_at source lines) (range_from (from + 1) count))
        → (b : Bool) → matches_at source lines from ≡ b
        → All (Fits source first lines) (
            if b
            then from ∷ filter (matches_at source lines) (range_from (from + 1) count)
            else filter (matches_at source lines) (range_from (from + 1) count))
    kept rest true e = (matched e, rest)
    kept rest false e = rest

only-Fits : (P : ℕ → Type 0) (ms : List ℕ) (m : ℕ) → All P ms → only ms ≡ some m → P m
only-Fits P [] m all e = cc
only-Fits P (k ∷ []) m all e = subst P (ground arith) all.0
only-Fits P (k ∷ j ∷ ms) m all e = cc

hint_from-some :
    (hint : Option ℕ) (first start : ℕ) → hint_from hint first ≡ some start → first ≤ start
hint_from-some none first start e = cc
hint_from-some (some h) first start e = ground arith

pub find_unique_hunk_start-Fits :
    (source lines : List String) (first start : ℕ) (hint : Option ℕ)
    → find_unique_hunk_start source first lines hint ≡ some start
    → Fits source first lines start
unfolding find_unique_hunk_start
find_unique_hunk_start-Fits source [] first start hint e = (hint_from-some hint first start e, refl)
find_unique_hunk_start-Fits source (l ∷ ls) first start hint e =
    only-Fits (Fits source first (l ∷ ls)) _ start
      (range_from-Fits source (l ∷ ls) first first (length source + 1 - length (l ∷ ls) - first)
        (omega arith))
      e
