-- ===== src/UnitOfWork/Samples.antt =====
-- Bodies that write a number as their graph, and the theorems at these inputs.
use n4x_core.Prelude.{ℕ, zero, suc, ◌+◌, ◌≡◌, refl, true, false, some, arith}
use n4x_core.Prelude.Result.{Result, ok, raise}
use n4x_core.Prelude.Exec.{Exec, ◌>>◌}
use n4x_core.UnitOfWork.{
  GraphUnitOfWork, UnitOfWorkState, UowError, transient_conflict, body_error, nested_failure,
  closed, enter, exit, with_uow, attempt_each, transactional,
}
use n4x_core.UnitOfWork.Atomicity.{
  IsBalanced, AllOrNothing, Continues, opened, with_uow-nests, with_uow-atomic,
}
use n4x_core.UnitOfWork.Retries.{IsAttempt, transactional-retries}

program : Unit {0}
unfolding enter exit with_uow attempt_each transactional
program = tt

abbrev Body : Type 0
Body = Exec (GraphUnitOfWork ℕ) (UowError ℕ) ℕ

-- A body that works on the graph alone.
abbrev on_store : Exec ℕ (UowError ℕ) ℕ → Exec (GraphUnitOfWork ℕ) (UowError ℕ) ℕ
on_store body u = let x = body u.store in (x.0, record { store = x.1; state = u.state })

abbrev writes : Exec ℕ (UowError ℕ) ℕ
writes g = (ok g, g + 1)

abbrev fails : Exec ℕ (UowError ℕ) ℕ
fails g = (raise (body_error 3), g + 1)

-- The exception of an inner unit of work is caught.
abbrev caught :
    Result (UowError ℕ) ℕ × GraphUnitOfWork ℕ → Result (UowError ℕ) ℕ × GraphUnitOfWork ℕ
caught (ok a, u) = (ok a, u)
caught (raise e, u) = (ok 0, u)

abbrev catches : Body
catches u = caught (with_uow (on_store fails) u)

abbrev store_of : UnitOfWorkState ℕ
store_of = record { begun = 4; depth = 1; rollback_only = false }

on_store-IsBalanced : (m : Exec ℕ (UowError ℕ) ℕ) → IsBalanced (on_store m)
on_store-IsBalanced m g s deep = (s, refl, refl, refl, (λ e. e))

with_uow-nests_example :
    let x = with_uow (on_store fails) (opened 5 store_of) in
    Continues store_of x.1
    × (x.0 ≡ raise (body_error 3))
    × ((e : UowError ℕ) (t : UnitOfWorkState ℕ)
        → ◌≡◌ {A = Result (UowError ℕ) ℕ} (raise (body_error 3)) (raise e)
        → x.1.state ≡ some t
        → t.rollback_only ≡ true)
with_uow-nests_example =
    with_uow-nests (on_store fails) 5 store_of (on_store-IsBalanced fails) (omega arith)

with_uow-atomic_example :
    AllOrNothing 4 (on_store writes (enter (closed 4))) (with_uow (on_store writes) (closed 4))
with_uow-atomic_example = with_uow-atomic (on_store writes) 4 (on_store-IsBalanced writes)

-- A caught inner failure still undoes the outer unit of work.
doomed : with_uow catches (closed 4) ≡ (raise nested_failure, closed 4)
unfolding program
doomed = refl

abbrev lock : ℕ → Exec (GraphUnitOfWork ℕ) (UowError ℕ) (Unit {0})
lock i u = (ok tt, u)

-- The first attempt writes and meets a conflict.
abbrev attempt : ℕ → Exec ℕ (UowError ℕ) ℕ
attempt zero g = (raise transient_conflict, g + 9)
attempt (suc i) g = (ok i, g + 1)

retried : transactional lock (λ i. on_store (attempt i)) (closed 4) ≡ (ok 0, closed 5)
unfolding program
retried = refl

transactional-retries_example :
    IsAttempt 0 7
      (λ i. lock i >> on_store (attempt i))
      4
      (transactional lock (λ i. on_store (attempt i)) (closed 4))
transactional-retries_example =
    transactional-retries lock (λ i. on_store (attempt i)) 4 (λ i. on_store-IsBalanced (attempt i))
