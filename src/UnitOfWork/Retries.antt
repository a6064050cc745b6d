-- ===== src/UnitOfWork/Retries.antt =====
-- The attempts of `transactional` (graph/uow.py).
use n4x_core.Prelude.{
  ℕ, zero, suc, ◌+◌, ◌≤◌, ◌<◌, ◌≡◌, ◌⊎◌, refl, sym, subst, ap, inl, inr, none, arith,
}
use n4x_core.Prelude.Result.{Result, ok, raise}
use n4x_core.Prelude.Exec.{Exec, ◌>>◌}
use n4x_core.UnitOfWork.{
  GraphUnitOfWork, UowError, transient_conflict, closed, enter, with_uow, retry_after, attempt_each,
  transactional,
}
use n4x_core.UnitOfWork.Atomicity.{IsBalanced, AllOrNothing, with_uow-atomic}

closed-eq :
    {G : Type 0} (u : GraphUnitOfWork G) (g : G) → u.state ≡ none → u.store ≡ g → u ≡ closed g
closed-eq u g e e1 = cc

earlier :
    (P : ℕ → Type 0) (first i : ℕ)
    → P first
    → ((j : ℕ) → first + 1 ≤ j → j < i → P j)
    → (j : ℕ) → first ≤ j
    → j < i
    → P j
earlier P first i p rest j low high = elim (cases first j low) [
  | inl e ↦ subst P e p
  | inr more ↦ rest j more high
]
  where
    cases : (a b : ℕ) → a ≤ b → (a ≡ b) ⊎ (a + 1 ≤ b)
    cases a b h = ground arith

module _ {G E A : Type 0} where
  -- The outcome is that of one attempt, made on the graph as it was at first; each earlier attempt
  -- met a conflict.
  abbrev pub IsAttempt :
      ℕ
      → ℕ
      → (ℕ → Exec (GraphUnitOfWork G) (UowError E) A)
      → G
      → Result (UowError E) A × GraphUnitOfWork G
      → Type 0
  IsAttempt first last body g x =
      (i : ℕ) × (first ≤ i)
      × (i ≤ last)
      × (x ≡ with_uow (body i) (closed g))
      × ((j : ℕ) → first ≤ j → j < i → (with_uow (body j) (closed g)).0 ≡ raise transient_conflict)
      × (x.0 ≡ raise transient_conflict → i ≡ last)

  -- A conflict leaves the graph as it was.
  conflict-closed :
      (body : Exec (GraphUnitOfWork G) (UowError E) A) (g : G) (u : GraphUnitOfWork G)
      → IsBalanced body
      → with_uow body (closed g) ≡ (raise transient_conflict, u)
      → u ≡ closed g
  conflict-closed body g u balanced e =
      let all =
        subst (AllOrNothing g (body (enter (closed g)))) e (with_uow-atomic body g balanced) in
      closed-eq u g all.0 (all.2 transient_conflict refl)

  attempt_each-IsAttempt :
      (more first : ℕ) (body : ℕ → Exec (GraphUnitOfWork G) (UowError E) A) (g : G)
      → ((i : ℕ) → IsBalanced (body i))
      → IsAttempt first (first + more) body g (attempt_each more first body (closed g))
  unfolding attempt_each
  attempt_each-IsAttempt zero first body g balanced = (
    first,
    (omega arith),
    (omega arith),
    refl,
    (λ j low high. absurd (omega arith)),
    (λ _. omega arith),
  )
  attempt_each-IsAttempt (suc more) first body g balanced =
      step (attempt_each-IsAttempt more (first + 1) body g balanced)
        (with_uow (body first) (closed g)) refl
    where
      final :
          (x : Result (UowError E) A × GraphUnitOfWork G)
          → with_uow (body first) (closed g) ≡ x
          → (x.0 ≡ raise transient_conflict → ⊥)
          → IsAttempt first (first + suc more) body g x
      final x e other = (
        first,
        (omega arith),
        (omega arith),
        sym e,
        (λ j low high. absurd (omega arith)),
        (λ c. absurd (other c)),
      )

      again :
          IsAttempt
            (first + 1)
            (first + 1 + more)
            body
            g
            (attempt_each more (first + 1) body (closed g))
          → (with_uow (body first) (closed g)).0 ≡ raise transient_conflict
          → IsAttempt first
              (first + suc more)
              body
              g
              (attempt_each more (first + 1) body (closed g))
      again (i, low, high, e, before, last) conflict = (
        i,
        (omega arith),
        (omega arith),
        e,
        earlier (λ j. (with_uow (body j) (closed g)).0 ≡ raise transient_conflict) first i conflict
            before,
        (λ c. omega (arith, last c)),
      )

      step :
          IsAttempt
            (first + 1)
            (first + 1 + more)
            body
            g
            (attempt_each more (first + 1) body (closed g))
          → (x : Result (UowError E) A × GraphUnitOfWork G) → with_uow (body first) (closed g) ≡ x
          → IsAttempt first
              (first + suc more)
              body
              g
              (retry_after (attempt_each more (first + 1) body) x)
      step ih (ok a, u) e = final (ok a, u) e (λ p. cc)
      step ih (raise transient_conflict, u) e =
          let same = conflict-closed (body first) g u (balanced first) e in
          rw same (again ih (ap (λ p. p.0) e))
      step ih (raise UowError.not_active, u) e = final _ e (λ p. cc)
      step ih (raise UowError.nested_failure, u) e = final _ e (λ p. cc)
      step ih (raise UowError.requires_inactive, u) e = final _ e (λ p. cc)
      step ih (raise (UowError.body_error f), u) e = final _ e (λ p. cc)

  -- Outside a unit of work, a transactional method whose lock and body are balanced answers as one of
  -- at most eight attempts does that begins with the original graph; every earlier attempt met a
  -- conflict, and the answer is a conflict only after the eighth.
  pub transactional-retries :
      (lock : ℕ → Exec (GraphUnitOfWork G) (UowError E) (Unit {0}))
      (method : ℕ → Exec (GraphUnitOfWork G) (UowError E) A) (g : G)
      → ((i : ℕ) → IsBalanced (lock i >> method i))
      → IsAttempt 0 7 (λ i. lock i >> method i) g (transactional lock method (closed g))
  unfolding transactional
  transactional-retries lock method g balanced =
      attempt_each-IsAttempt 7 0 (λ i. lock i >> method i) g balanced
