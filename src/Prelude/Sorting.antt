-- ===== src/Prelude/Sorting.antt =====
-- `sorted(items, key=...)` for texts as keys: a stable insertion sort.
use Prim.Native.String.{String, compare}
use Prim.Native.Nat.{Ordering}
use mathlib.Core.Path.{◌≡◌, refl, sym, subst, ◌∙◌}
use mathlib.Core.Logic.{◌≢◌, inl, inr}
use mathlib.Core.Bool.{Bool, true, false}
use mathlib.Core.List.{List, [], ◌∷◌}
use mathlib.Core.Option.{some}
use native.Mathlib.Omega.{arith}
use text.Mathlib.TextPositions.{compare_refl}
use text.Mathlib.TextEquality.{eq_iff}
use n4x_core.Prelude.Tests.{if◌then◌else◌, ◌==◌, Bool-cases}
use n4x_core.Prelude.Lists.{find, All}

-- a < b on texts
abbrev pub text_lt : String → String → Bool
text_lt a b = elim (compare a b) [ Ordering.lt ↦ true | _ ↦ false ]

pub lt_irrefl : (a : String) → text_lt a a ≢ true
lt_irrefl a h = ground (arith, compare_refl a)

module _ {ℓ} {A : Type ℓ} (key : A → String) where
  abbrev pub insert_by : A → List A → List A
  insert_by x [] = x ∷ []
  insert_by x (y ∷ ys) =
      let rest = insert_by x ys in if text_lt (key y) (key x) then y ∷ rest else x ∷ y ∷ ys

  abbrev pub sorted_by : List A → List A
  sorted_by [] = []
  sorted_by (x ∷ xs) = insert_by x (sorted_by xs)

  passed :
      (k : String) (x y : A) → key x ≡ k → text_lt (key y) (key x) ≡ true → (key y == k) ≡ false
  passed k x y e h = elim (Bool-cases (key y == k)) [
    | inl q ↦ absurd (
        lt_irrefl (key x)
          (subst (λ s. text_lt s (key x) ≡ true) ((eq_iff (key y) k).0 q ∙ sym e) h))
    | inr q ↦ q
  ]

  find-insert_by :
      (k : String) (x : A) (ys : List A)
      → find (λ y. key y == k) (insert_by x ys)
        ≡ (if key x == k then some x else find (λ y. key y == k) ys)
  find-insert_by k x [] = refl
  find-insert_by k x (y ∷ ys) = elim (Bool-cases (text_lt (key y) (key x))) [
    | inl lt ↦ elim (Bool-cases (key x == k)) [
      | inl e ↦ rw (lt, e, passed k x y ((eq_iff (key x) k).0 e) lt, find-insert_by k x ys, e) refl
      | inr e ↦ rw (lt, e, find-insert_by k x ys, e) refl
    ]
    | inr ge ↦ rw ge refl
  ]

  -- The sort is stable: the first item with a key stays the first.
  pub find-sorted_by :
      (k : String) (xs : List A) → find (λ y. key y == k) (sorted_by xs) ≡ find (λ y. key y == k) xs
  find-sorted_by k [] = refl
  find-sorted_by k (x ∷ xs) = find-insert_by k x (sorted_by xs) ∙ rw (find-sorted_by k xs) refl

  All-insert_by {κ} :
      (P : A → Type κ) (x : A) (ys : List A) → P x → All P ys → All P (insert_by x ys)
  All-insert_by P x [] h k = (h, k)
  All-insert_by P x (y ∷ ys) h k = elim (Bool-cases (text_lt (key y) (key x))) [
    | inl e ↦ rw e (k.0, All-insert_by P x ys h k.1)
    | inr e ↦ rw e (h, k)
  ]

  pub All-sorted_by {κ} : (P : A → Type κ) (xs : List A) → All P xs → All P (sorted_by xs)
  All-sorted_by P [] h = h
  All-sorted_by P (x ∷ xs) h = All-insert_by P x (sorted_by xs) h.0 (All-sorted_by P xs h.1)
