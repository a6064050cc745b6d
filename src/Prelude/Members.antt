-- ===== src/Prelude/Members.antt =====
-- Membership as evidence, and how filters act on it and on each other.
use mathlib.Core.Path.{◌≡◌, refl, sym, ap, subst, ◌∙◌}
use mathlib.Core.Logic.{inl, inr}
use mathlib.Core.Bool.{Bool, true, false}
use mathlib.Core.List.{List, [], ◌∷◌, Memᴰ}
use native.Mathlib.Omega.{arith}
use n4x_core.Prelude.Tests.{Bool-cases}
use n4x_core.Prelude.Lists.{filter, find, any, All}

module _ {ℓ} {A : Type ℓ} where
  pub All-of {κ} : {P : A → Type κ} (xs : List A) → ((x : A) → Memᴰ x xs → P x) → All P xs
  All-of [] h = tt
  All-of (x ∷ xs) h = (h x (Memᴰ.head refl), All-of xs (λ y m. h y (Memᴰ.tail m)))

  pub Memᴰ-any : (p : A → Bool) {x : A} {xs : List A} → Memᴰ x xs → p x ≡ true → any p xs ≡ true
  Memᴰ-any p (Memᴰ.head e) h = ground (arith, e)
  Memᴰ-any p (Memᴰ.tail m) h = ground (arith, Memᴰ-any p m h)

  pub filter-eq-true :
      (p : A → Bool) (x : A) (xs : List A) → p x ≡ true → filter p (x ∷ xs) ≡ x ∷ filter p xs
  filter-eq-true p x xs h = rw h refl

  filter-eq-false :
      (p : A → Bool) (x : A) (xs : List A) → p x ≡ false → filter p (x ∷ xs) ≡ filter p xs
  filter-eq-false p x xs h = rw h refl

  kept :
      (p : A → Bool) {x y : A} (xs : List A)
      → p y ≡ true
      → Memᴰ x (y ∷ filter p xs)
      → (Memᴰ x (filter p xs) → Memᴰ x xs × (p x ≡ true))
      → Memᴰ x (y ∷ xs) × (p x ≡ true)
  kept p xs e (Memᴰ.head q) ih = (Memᴰ.head q, ap p q ∙ e)
  kept p xs e (Memᴰ.tail m) ih = (Memᴰ.tail (ih m).0, (ih m).1)

  pub Memᴰ-filter :
      (p : A → Bool) {x : A} (xs : List A) → Memᴰ x (filter p xs) → Memᴰ x xs × (p x ≡ true)
  Memᴰ-filter p [] m = elim m [ ]
  Memᴰ-filter p {x} (y ∷ xs) m = elim (Bool-cases (p y)) [
    | inl e ↦ kept p xs e (subst (Memᴰ x) (filter-eq-true p y xs e) m) (Memᴰ-filter p xs)
    | inr e ↦
        let (n, t) = Memᴰ-filter p xs (subst (Memᴰ x) (filter-eq-false p y xs e) m) in
        (Memᴰ.tail n, t)
  ]

  pub filter-Memᴰ :
      (p : A → Bool) {x : A} (xs : List A) → Memᴰ x xs → p x ≡ true → Memᴰ x (filter p xs)
  filter-Memᴰ p [] m t = elim m [ ]
  filter-Memᴰ p {x} (y ∷ xs) (Memᴰ.head e) t =
      subst (Memᴰ x) (sym (filter-eq-true p y xs (sym (ap p e) ∙ t))) (Memᴰ.head e)
  filter-Memᴰ p {x} (y ∷ xs) (Memᴰ.tail m) t = elim (Bool-cases (p y)) [
    | inl e ↦ subst (Memᴰ x) (sym (filter-eq-true p y xs e)) (Memᴰ.tail (filter-Memᴰ p xs m t))
    | inr e ↦ subst (Memᴰ x) (sym (filter-eq-false p y xs e)) (filter-Memᴰ p xs m t)
  ]

  pub filter-filter :
      (p q : A → Bool) (xs : List A) → filter p (filter q xs) ≡ filter q (filter p xs)
  filter-filter p q [] = refl
  filter-filter p q (x ∷ xs) = ground (arith, filter-filter p q xs)

  pub filter-idle : (p : A → Bool) (xs : List A) → All (λ x. p x ≡ true) xs → filter p xs ≡ xs
  filter-idle p [] h = refl
  filter-idle p (x ∷ xs) h = ground (arith, h.0, filter-idle p xs h.1)

  -- A filter that passes all that another passes does not show below it.
  pub filter-under :
      (p q : A → Bool) (xs : List A)
      → ((x : A) → Memᴰ x (filter p xs) → q x ≡ true)
      → filter p (filter q xs) ≡ filter p xs
  filter-under p q xs h = filter-filter p q xs ∙ filter-idle q (filter p xs) (All-of _ h)

  -- Searching below a filter that passes what is searched for.
  pub find-filter :
      (p q : A → Bool) (xs : List A)
      → ((x : A) → p x ≡ true → q x ≡ true)
      → find p (filter q xs) ≡ find p xs
  find-filter p q [] h = refl
  find-filter p q (x ∷ xs) h = elim (Bool-cases (p x)) [
    | inl e ↦ rw (e, h x e, e) refl
    | inr e ↦ elim (Bool-cases (q x)) [
      | inl f ↦ rw (f, e, find-filter p q xs h) refl
      | inr f ↦ rw (f, e, find-filter p q xs h) refl
    ]
  ]

  pub All-at {κ} : (P : A → Type κ) {x : A} (xs : List A) → All P xs → Memᴰ x xs → P x
  All-at P [] h m = elim m [ ]
  All-at P (y ∷ xs) h (Memᴰ.head e) = subst P (sym e) h.0
  All-at P (y ∷ xs) h (Memᴰ.tail m) = All-at P xs h.1 m
