-- ===== src/Prelude/Result.antt =====
-- Code that may raise: a value, or the exception.
use mathlib.Core.Path.{◌≡◌, refl}
use mathlib.Core.List.{List, ◌∷◌}
use mathlib.Core.Logic.{◌⊎◌, inl, inr}

pub data Result {ℓ κ} (E : Type κ) (A : Type ℓ) : Type (ℓ ⊔ κ) where
  ok : A → Result E A
  raise : E → Result E A

module _ {ℓ κ μ} {E : Type μ} {A : Type ℓ} {B : Type κ} where
  infixl 5 ◌>>=◌
  abbrev pub ◌>>=◌ : Result E A → (A → Result E B) → Result E B
  ok value >>= rest = rest value
  raise error >>= rest = raise error

module _ {κ μ} {E : Type μ} {B : Type κ} where
  infixl 5 ◌>>◌
  abbrev pub ◌>>◌ : Result E (Unit {0}) → Result E B → Result E B
  first >> rest = first >>= λ _. rest

-- A predicate on the value of a code that may raise.
abbrev pub Returns {ℓ κ μ} : {E : Type μ} {A : Type ℓ} → (A → Type κ) → Result E A → Type κ
Returns P (ok a) = P a
Returns P (raise e) = Unit

-- What holds of each continuation that runs holds of the block.
pub >>=-Returns {ℓ κ μ ν} :
    {E : Type μ} {A : Type ℓ} {B : Type κ} (P : B → Type ν) (m : Result E A) (f : A → Result E B)
    → ((a : A) → m ≡ ok a → Returns P (f a))
    → Returns P (m >>= f)
>>=-Returns P (ok a) f h = h a refl
>>=-Returns P (raise e) f h = tt

-- To split on a computed result and keep the equation.
pub Result-cases {ℓ κ} :
    {E : Type κ} {A : Type ℓ} (r : Result E A) → ((a : A) × (r ≡ ok a)) ⊎ ((e : E) × (r ≡ raise e))
Result-cases (ok a) = inl (a, refl)
Result-cases (raise e) = inr (e, refl)

pub Returns-map {ℓ κ μ ν} :
    {E : Type μ} {A : Type ℓ} {P : A → Type κ} {Q : A → Type ν}
    → ((a : A) → P a → Q a)
    → (r : Result E A) → Returns P r
    → Returns Q r
Returns-map f (ok a) h = f a h
Returns-map f (raise e) h = tt

-- Inversion of blocks that return.
pub ok_injective {ℓ κ} :
    {E : Type κ} {A : Type ℓ} {a b : A} → ◌≡◌ {A = Result E A} (ok a) (ok b) → a ≡ b
ok_injective p = cc

pub raise-not-ok {ℓ κ} :
    {E : Type κ} {A : Type ℓ} {e : E} {a : A} → ◌≡◌ {A = Result E A} (raise e) (ok a) → ⊥
raise-not-ok p = cc

-- The value that a block which returns passed on.
pub passed_on {ℓ κ μ} :
    {E : Type μ} {V : Type ℓ} {W : Type κ} {result : W} (first : Result E V) (rest : V → Result E W)
    → (first >>= rest) ≡ ok result
    → (value : V) × (first ≡ ok value) × (rest value ≡ ok result)
passed_on (ok value) rest returned = (value, refl, returned)
passed_on (raise error) rest returned = absurd (raise-not-ok returned)

pub map-eq-ok {ℓ κ μ} :
    {E : Type μ} {A : Type ℓ} {B : Type κ} (m : Result E A) (f : A → B) {b : B}
    → (m >>= λ a. ok (f a)) ≡ ok b
    → (a : A) × (m ≡ ok a) × (f a ≡ b)
map-eq-ok (ok a) f h = (a, refl, ok_injective h)
map-eq-ok (raise e) f h = absurd (raise-not-ok h)

pub cons-eq-ok {ℓ μ} :
    {E : Type μ} {A : Type ℓ} (m : Result E A) (n : Result E (List A)) {ys : List A}
    → (m >>= λ x. n >>= λ xs. ok (x ∷ xs)) ≡ ok ys
    → (x : A) × (xs : List A) × (m ≡ ok x) × (n ≡ ok xs) × (x ∷ xs ≡ ys)
cons-eq-ok (ok x) (ok xs) h = (x, xs, refl, refl, ok_injective h)
cons-eq-ok (ok x) (raise e) h = absurd (raise-not-ok h)
cons-eq-ok (raise e) n h = absurd (raise-not-ok h)
