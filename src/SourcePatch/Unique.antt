-- ===== src/SourcePatch/Unique.antt =====
-- The place that `_find_unique_hunk_start` (source_store/service.py) gives, among the others.
use text.Mathlib.TextPositions.{eq_refl}
use n4x_core.Prelude.{
  ℕ, zero, suc, ◌+◌, ◌-◌, ◌≤◌, ◌<◌, String, ◌≡◌, ◌⊎◌, refl, ap, subst, ◌∙◌, inl, inr, Bool, true,
  false, Option, some, List, [], ◌∷◌, length, filter, arith, if◌then◌else◌,
}
use n4x_core.Prelude.Slices.{take, drop, slice}
use n4x_core.SourcePatch.Lines.{lines_eq}
use n4x_core.SourcePatch.Apply.{range_from, only, matches_at, find_unique_hunk_start}
use n4x_core.SourcePatch.Places.{find_unique_hunk_start-Fits}

lines_eq_refl : (xs : List String) → lines_eq xs xs ≡ true
lines_eq_refl [] = refl
lines_eq_refl (x ∷ xs) = rw (eq_refl x, lines_eq_refl xs) refl

here-or-later : (from c : ℕ) → from ≤ c → (c ≡ from) ⊎ (from + 1 ≤ c)
here-or-later from c low = ground arith

-- A number of the range that passes the test is found.
found-in_range :
    (test : ℕ → Bool) (from count c : ℕ)
    → from ≤ c
    → c < from + count
    → test c ≡ true
    → filter test (range_from from count) ≡ []
    → ⊥
found-in_range test from zero c low high passes e = omega arith
found-in_range test from (suc count) c low high passes e =
    later (here-or-later from c low) (test from) refl e
      (λ more. found-in_range test (from + 1) count c more (omega arith) passes)
  where
    later :
        (c ≡ from) ⊎ (from + 1 ≤ c)
        → (b : Bool) → test from ≡ b
        → (if b
            then from ∷ filter test (range_from (from + 1) count)
            else filter test (range_from (from + 1) count))
          ≡ []
        → (from + 1 ≤ c → filter test (range_from (from + 1) count) ≡ [] → ⊥)
        → ⊥
    later place true t empty ih = cc
    later (inl same) false t empty ih =
        let p : test from ≡ true = subst (λ k. test k ≡ true) same passes in cc
    later (inr more) false t empty ih = ih more empty

only-eq-some : (m k : ℕ) (ks : List ℕ) → only (k ∷ ks) ≡ some m → (k ≡ m) × (ks ≡ [])
only-eq-some m k [] e = ((ground arith), refl)
only-eq-some m k (j ∷ ks) e = cc

only-in_range :
    (test : ℕ → Bool) (from count c m : ℕ)
    → from ≤ c
    → c < from + count
    → test c ≡ true
    → only (filter test (range_from from count)) ≡ some m
    → c ≡ m
only-in_range test from zero c m low high passes e = absurd (omega arith)
only-in_range test from (suc count) c m low high passes e =
    place (here-or-later from c low) (test from) refl e
      (λ more. only-in_range test (from + 1) count c m more (omega arith) passes)
      (λ more. found-in_range test (from + 1) count c more (omega arith) passes)
  where
    place :
        (c ≡ from) ⊎ (from + 1 ≤ c)
        → (b : Bool) → test from ≡ b
        → only (
            if b
            then from ∷ filter test (range_from (from + 1) count)
            else filter test (range_from (from + 1) count))
          ≡ some m
        → (from + 1 ≤ c → only (filter test (range_from (from + 1) count)) ≡ some m → c ≡ m)
        → (from + 1 ≤ c → filter test (range_from (from + 1) count) ≡ [] → ⊥)
        → c ≡ m
    place (inl same) true t one ih empty = same ∙ (only-eq-some m from _ one).0
    place (inr more) true t one ih empty = absurd (empty more (only-eq-some m from _ one).1)
    place (inl same) false t one ih empty =
        let p : test from ≡ true = subst (λ k. test k ≡ true) same passes in cc
    place (inr more) false t one ih empty = ih more one

-- A hunk with old lines is put at or after the progress made, where the source has these lines, and
-- the source has them at no other place at or after it.
pub find_unique_hunk_start_lem :
    (source ls : List String) (l : String) (first start : ℕ) (hint : Option ℕ)
    → find_unique_hunk_start source first (l ∷ ls) hint ≡ some start
    → (first ≤ start)
      × (take (length (l ∷ ls)) (drop start source) ≡ l ∷ ls)
      × ((place : ℕ)
          → first ≤ place
          → place + length (l ∷ ls) ≤ length source
          → take (length (l ∷ ls)) (drop place source) ≡ l ∷ ls
          → place ≡ start)
unfolding find_unique_hunk_start
find_unique_hunk_start_lem source ls l first start hint e =
    let fits = find_unique_hunk_start-Fits source (l ∷ ls) first start hint e in
    (
      fits.0,
      fits.1,
      λ place low room same.
          only-in_range (matches_at source (l ∷ ls)) first
            (length source + 1 - length (l ∷ ls) - first) place start low (omega (arith, room, low))
            (matched place same) e,
    )
  where
    matched :
        (place : ℕ)
        → take (length (l ∷ ls)) (drop place source) ≡ l ∷ ls
        → matches_at source (l ∷ ls) place ≡ true
    matched place same =
        let size : place + length (l ∷ ls) - place ≡ length (l ∷ ls) = omega arith in
        let here : slice place (place + length (l ∷ ls)) source ≡ l ∷ ls =
          ap (λ n. take n (drop place source)) size ∙ same in
        rw (here, lines_eq_refl (l ∷ ls)) refl
