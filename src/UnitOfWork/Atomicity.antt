-- ===== src/UnitOfWork/Atomicity.antt =====
-- How the outermost and the inner units of work of graph/uow.py end.
use n4x_core.Prelude.{
  ◌+◌, ◌-◌, ◌<◌, ◌≡◌, refl, sym, ap, inl, inr, Bool, true, false, ◌||◌, Option, none, some, arith,
  ltb, Bool-cases, if◌then◌else◌,
}
use n4x_core.Prelude.Result.{Result, ok, raise}
use n4x_core.Prelude.Exec.{Exec}
use n4x_core.UnitOfWork.{
  GraphUnitOfWork, UnitOfWorkState, UowError, nested_failure, closed, enter, exit, exit_with,
  end_outermost, leave, with_uow,
}

module _ {G : Type 0} where
  abbrev pub opened : G → UnitOfWorkState G → GraphUnitOfWork G
  opened g s = record { store = g; state = some s }

  -- What stays of an open unit of work: where it began, how deep it is, and that it is doomed.
  abbrev pub Continues : UnitOfWorkState G → GraphUnitOfWork G → Type 0
  Continues s u =
      (t : UnitOfWorkState G) × (u.state ≡ some t)
      × (t.begun ≡ s.begun)
      × (t.depth ≡ s.depth)
      × (s.rollback_only ≡ true → t.rollback_only ≡ true)

  doomed_state : Option (UnitOfWorkState G) → Bool
  doomed_state none = true
  doomed_state (some t) = t.rollback_only

module _ {G E : Type 0} where
  exit-nested :
      (failed : Bool) (g : G) (t : UnitOfWorkState G)
      → 1 < t.depth
      → exit_with {E = E} failed (some t) g ≡ (
        ok tt,
        opened g (record t { depth = t.depth - 1; rollback_only = failed || t.rollback_only }),
      )
  exit-nested failed g t deep = let e : ltb 0 (t.depth - 1) ≡ true = ground arith in rw e refl

  exit-outermost :
      (failed : Bool) (g : G) (t : UnitOfWorkState G)
      → t.depth ≡ 1
      → exit_with {E = E} failed (some t) g
        ≡ end_outermost failed (failed || t.rollback_only) g t.begun
  exit-outermost failed g t one = let e : ltb 0 (t.depth - 1) ≡ false = ground arith in rw e refl

module _ {G E A : Type 0} where
  -- A body that closes each unit of work that it opens, and no other.
  abbrev pub IsBalanced : Exec (GraphUnitOfWork G) (UowError E) A → Type 0
  IsBalanced body =
      (g : G) (s : UnitOfWorkState G) → 0 < s.depth → Continues s (body (opened g s)).1

  -- What an inner unit of work answers: its body's outcome, and that a failure dooms the outer one.
  abbrev pub HandsOn :
      UnitOfWorkState G → Result (UowError E) A → Result (UowError E) A × GraphUnitOfWork G → Type 0
  HandsOn s r x =
      Continues s x.1
      × (x.0 ≡ r)
      × ((e : UowError E) (t : UnitOfWorkState G)
          → r ≡ raise e
          → x.1.state ≡ some t
          → t.rollback_only ≡ true)

  leave-HandsOn :
      (r : Result (UowError E) A) (v : GraphUnitOfWork G) (s t : UnitOfWorkState G)
      → 0 < s.depth
      → v.state ≡ some t
      → t.begun ≡ s.begun
      → t.depth ≡ s.depth + 1
      → (s.rollback_only ≡ true → t.rollback_only ≡ true)
      → HandsOn s r (leave (r, v))
  unfolding exit doomed_state
  leave-HandsOn (ok a) v s t deep e begun d doomed =
      rw (e, exit-nested false v.store t (omega arith))
        (
          (record t { depth = t.depth - 1 }, refl, begun, (omega arith), doomed),
          refl,
          (λ f u p. cc),
        )
  leave-HandsOn (raise f) v s t deep e begun d doomed =
      rw (e, exit-nested true v.store t (omega arith))
        (
          (
            record t { depth = t.depth - 1; rollback_only = true },
            refl,
            begun,
            (omega arith),
            (λ _. refl),
          ),
          refl,
          (λ g u p q. sym (ap doomed_state q)),
        )

  -- An inner unit of work around a balanced body is balanced: it answers what the body answers,
  -- leaves the outer one as deep as it was, with the graph that it began with, and when the body
  -- raises, the outer one can no longer be kept, even if the exception is caught.
  pub with_uow-nests :
      (body : Exec (GraphUnitOfWork G) (UowError E) A) (g : G) (s : UnitOfWorkState G)
      → IsBalanced body
      → 0 < s.depth
      → let inner = opened g (record s { depth = s.depth + 1 }) in
        let x = with_uow body (opened g s) in
        Continues s x.1
        × (x.0 ≡ (body inner).0)
        × ((e : UowError E) (t : UnitOfWorkState G)
            → (body inner).0 ≡ raise e
            → x.1.state ≡ some t
            → t.rollback_only ≡ true)
  unfolding with_uow enter
  with_uow-nests body g s balanced deep =
      let (t, e, begun, d, doomed) = balanced g (record s { depth = s.depth + 1 }) (omega arith) in
      leave-HandsOn (body (opened g (record s { depth = s.depth + 1 }))).0
        (body (opened g (record s { depth = s.depth + 1 }))).1 s t deep e begun d doomed

  -- All or nothing: how the outermost unit of work ends on its body's outcome.
  abbrev pub AllOrNothing :
      G
      → Result (UowError E) A × GraphUnitOfWork G
      → Result (UowError E) A × GraphUnitOfWork G
      → Type 0
  AllOrNothing g y x =
      (x.1.state ≡ none)
      × ((a : A) → x.0 ≡ ok a → (y.0 ≡ ok a) × (x.1.store ≡ y.1.store))
      × ((e : UowError E) → x.0 ≡ raise e → x.1.store ≡ g)
      × ((a : A) (t : UnitOfWorkState G)
          → y.0 ≡ ok a
          → y.1.state ≡ some t
          → x.0 ≡ (if t.rollback_only then raise nested_failure else ok a))

  leave-AllOrNothing :
      (r : Result (UowError E) A) (v : GraphUnitOfWork G) (g : G) (t : UnitOfWorkState G)
      → v.state ≡ some t
      → t.begun ≡ g
      → t.depth ≡ 1
      → AllOrNothing g (r, v) (leave (r, v))
  unfolding exit doomed_state
  leave-AllOrNothing (ok a) v g t e begun d = elim (Bool-cases t.rollback_only) [
    | inl doomed ↦
        rw (e, exit-outermost false v.store t d, doomed)
          (refl, (λ b p. cc), (λ f p. begun), (λ b u p q. rw (sym (ap doomed_state q)) refl))
    | inr kept ↦
        rw (e, exit-outermost false v.store t d, kept)
          (refl, (λ b p. (p, refl)), (λ f p. cc), (λ b u p q. rw (sym (ap doomed_state q)) p))
  ]
  leave-AllOrNothing (raise f) v g t e begun d =
      rw (e, exit-outermost true v.store t d) (refl, (λ b p. cc), (λ h p. begun), (λ b u p q. cc))

  -- The outermost unit of work around a balanced body ends inactive, and keeps all or nothing: if it
  -- returns, the body returned the same and the graph is the body's; if it raises, the graph is the
  -- one that it began with. When the body returns, it returns unless an inner failure has doomed it.
  pub with_uow-atomic :
      (body : Exec (GraphUnitOfWork G) (UowError E) A) (g : G)
      → IsBalanced body
      → AllOrNothing g (body (enter (closed g))) (with_uow body (closed g))
  unfolding with_uow enter
  with_uow-atomic body g balanced =
      let s : UnitOfWorkState G = record { begun = g; depth = 1; rollback_only = false } in
      let (t, e, begun, d, _) = balanced g s (omega arith) in
      leave-AllOrNothing (body (opened g s)).0 (body (opened g s)).1 g t e begun d
