-- ===== src/Prelude/Outcomes.antt =====
-- A property of the state, through code that may raise: `Ends P` says that what returns has it, and
-- `Stays P` that it holds either way.
use mathlib.Core.Path.{◌≡◌, refl}
use n4x_core.Prelude.Result.{Result, ok, raise}
use n4x_core.Prelude.Exec.{Exec, settle, transaction, continue}

module _ {S E : Type 0} (P : S → Type 0) where
  abbrev pub Ends : {A : Type 0} → Result E A × S → Type 0
  Ends (ok a, t) = P t
  Ends (raise e, t) = Unit

  abbrev pub Stays : {A : Type 0} → Result E A × S → Type 0
  Stays x = P x.1

  pub continue-Ends :
      {A B : Type 0} (x : Result E A × S) (f : A → Exec S E B)
      → Ends x
      → ((a : A) (t : S) → P t → Ends (f a t))
      → Ends (continue x f)
  continue-Ends (ok a, t) f s k = k a t s
  continue-Ends (raise e, t) f s k = tt

  pub lift-Ends :
      {A B : Type 0} (r : Result E A) (s : S) (f : A → Exec S E B)
      → ((a : A) → r ≡ ok a → Ends (f a s))
      → Ends (continue (r, s) f)
  lift-Ends (ok a) s f k = k a refl
  lift-Ends (raise e) s f k = tt

  pub continue-Stays :
      {A B : Type 0} (x : Result E A × S) (f : A → Exec S E B)
      → Stays x
      → ((a : A) (t : S) → P t → Stays (f a t))
      → Stays (continue x f)
  continue-Stays (ok a, t) f s k = k a t s
  continue-Stays (raise e, t) f s k = s

  pub lift-Stays :
      {A B : Type 0} (r : Result E A) (s : S) (f : A → Exec S E B)
      → P s
      → ((a : A) → r ≡ ok a → Stays (f a s))
      → Stays (continue (r, s) f)
  lift-Stays (ok a) s f p k = k a refl
  lift-Stays (raise e) s f p k = p

  pub transaction-Stays :
      {A : Type 0} (body : Exec S E A) (s : S) → P s → Ends (body s) → Stays (transaction body s)
  transaction-Stays {A} body s p k = settled (body s) k
    where
      settled : (x : Result E A × S) → Ends x → P (settle s x).1
      settled (ok a, t) q = q
      settled (raise e, t) q = p

  pub Ends-Stays : {A : Type 0} (x : Result E A × S) → Stays x → Ends x
  Ends-Stays (ok a, t) p = p
  Ends-Stays (raise e, t) p = tt

-- What is returned and the state it is returned with have a property: `Returns Q`.
module _ {S E : Type 0} where
  abbrev pub Returns : {A : Type 0} → (A → S → Type 0) → Result E A × S → Type 0
  Returns Q (ok a, t) = Q a t
  Returns Q (raise e, t) = Unit

  pub continue-Returns :
      {A B : Type 0} (Q : A → S → Type 0) (R : B → S → Type 0) (x : Result E A × S)
      (f : A → Exec S E B)
      → Returns Q x
      → ((a : A) (t : S) → Q a t → Returns R (f a t))
      → Returns R (continue x f)
  continue-Returns Q R (ok a, t) f q k = k a t q
  continue-Returns Q R (raise e, t) f q k = tt

  pub lift-Returns :
      {A B : Type 0} (R : B → S → Type 0) (r : Result E A) (s : S) (f : A → Exec S E B)
      → ((a : A) → r ≡ ok a → Returns R (f a s))
      → Returns R (continue (r, s) f)
  lift-Returns R (ok a) s f k = k a refl
  lift-Returns R (raise e) s f k = tt

  pub transaction-Returns :
      {A : Type 0} (Q : A → S → Type 0) (body : Exec S E A) (s : S)
      → Returns Q (body s)
      → Returns Q (transaction body s)
  transaction-Returns {A} Q body s k = settled (body s) k
    where
      settled : (x : Result E A × S) → Returns Q x → Returns Q (settle s x)
      settled (ok a, t) q = q
      settled (raise e, t) q = tt

  pub Returns-Ends :
      {A : Type 0} (Q : A → S → Type 0) (P : S → Type 0) (x : Result E A × S)
      → ((a : A) (t : S) → Q a t → P t)
      → Returns Q x
      → Ends P x
  Returns-Ends Q P (ok a, t) k q = k a t q
  Returns-Ends Q P (raise e, t) k q = tt

  pub Ends-Returns :
      {A : Type 0} (P : S → Type 0) (x : Result E A × S) → Ends P x → Returns (λ a. P) x
  Ends-Returns P (ok a, t) p = p
  Ends-Returns P (raise e, t) p = tt

  pub Returns-anyway :
      {A : Type 0} (Q : A → S → Type 0) (x : Result E A × S) → ((a : A) → Q a x.1) → Returns Q x
  Returns-anyway Q (ok a, t) q = q a
  Returns-anyway Q (raise e, t) q = tt

  pub Returns-map :
      {A : Type 0} (Q R : A → S → Type 0) (x : Result E A × S)
      → ((a : A) (t : S) → Q a t → R a t)
      → Returns Q x
      → Returns R x
  Returns-map Q R (ok a, t) k q = k a t q
  Returns-map Q R (raise e, t) k q = tt
