-- ===== src/Prelude/Exec.antt =====
-- Code that changes a state and may raise: what was written before a raise stays, except in a
-- transaction, which restores the state that it began in.
use n4x_core.Prelude.Result.{Result, ok, raise, raise-not-ok}
use mathlib.Core.Path.{◌≡◌, refl, ap, ◌∙◌}

abbrev pub Exec : Type 0 → Type 0 → Type 0 → Type 0
Exec S E A = S → Result E A × S

module _ {S E A : Type 0} where
  abbrev pub pure : A → Exec S E A
  pure a s = (ok a, s)

  abbrev pub throw : E → Exec S E A
  throw e s = (raise e, s)

  abbrev pub lift : Result E A → Exec S E A
  lift r s = (r, s)

  abbrev pub settle : S → Result E A × S → Result E A × S
  settle s (ok a, t) = (ok a, t)
  settle s (raise e, t) = (raise e, s)

  -- `with self.uow:` around a body, as the outermost unit of work.
  abbrev pub transaction : Exec S E A → Exec S E A
  transaction body s = settle s (body s)

module _ {S E A B : Type 0} where
  abbrev pub continue : Result E A × S → (A → Exec S E B) → Result E B × S
  continue (ok a, t) f = f a t
  continue (raise e, t) f = (raise e, t)

  infixl 5 ◌>>=◌
  abbrev pub ◌>>=◌ : Exec S E A → (A → Exec S E B) → Exec S E B
  ◌>>=◌ m f s = continue (m s) f

  -- Inversion of a successful step of a block.
  pub continue-eq-ok :
      (x : Result E A × S) (f : A → Exec S E B) {b : B} {u : S}
      → continue x f ≡ (ok b, u)
      → (a : A) × (t : S) × (x ≡ (ok a, t)) × (f a t ≡ (ok b, u))
  continue-eq-ok (ok a, t) f h = (a, t, refl, h)
  continue-eq-ok (raise e, t) f h = absurd (not-ok (ap (λ (p : Result E B × S). p.0) h))
    where
      not-ok : {b : B} → ◌≡◌ {A = Result E B} (raise e) (ok b) → ⊥
      not-ok p = cc

module _ {S E A B : Type 0} where
  -- The same for a step that reads.
  pub lift-eq-ok :
      (r : Result E A) (s : S) (f : A → Exec S E B) {b : B} {u : S}
      → continue (r, s) f ≡ (ok b, u)
      → (a : A) × (r ≡ ok a) × (f a s ≡ (ok b, u))
  lift-eq-ok (ok a) s f h = (a, refl, h)
  lift-eq-ok (raise e) s f h = absurd (raise-not-ok (ap (λ (p : Result E B × S). p.0) h))

  -- And the other way: a block goes on after a step that returns.
  pub continue-returns :
      (x : Result E A × S) (f : A → Exec S E B) {a : A} {t : S} {y : Result E B × S}
      → x ≡ (ok a, t)
      → f a t ≡ y
      → continue x f ≡ y
  continue-returns x f e h = ap (λ z. continue z f) e ∙ h

  pub lift-returns :
      (r : Result E A) (s : S) (f : A → Exec S E B) {a : A} {y : Result E B × S}
      → r ≡ ok a
      → f a s ≡ y
      → continue (r, s) f ≡ y
  lift-returns r s f e h = ap (λ z. continue (z, s) f) e ∙ h

module _ {S E A : Type 0} where
  -- A transaction that returns went through its whole body.
  pub transaction-eq-ok :
      (body : Exec S E A) (s : S) {a : A} {t : S}
      → transaction body s ≡ (ok a, t)
      → body s ≡ (ok a, t)
  transaction-eq-ok body s h = settled (body s) h
    where
      settled : (x : Result E A × S) {a : A} {t : S} → settle s x ≡ (ok a, t) → x ≡ (ok a, t)
      settled (ok a, t) p = p
      settled (raise e, t) p = absurd (cc (ap (λ (q : Result E A × S). q.0) p))

infixl 5 ◌>>◌
abbrev pub ◌>>◌ : {S E B : Type 0} → Exec S E Unit → Exec S E B → Exec S E B
m >> k = m >>= λ _. k

abbrev pub get_state : {S E : Type 0} → Exec S E S
get_state s = (ok s, s)

abbrev pub modify : {S E : Type 0} → (S → S) → Exec S E Unit
modify f s = (ok tt, f s)
