-- ===== src/UnitOfWork.antt =====
-- `GraphUnitOfWork` and `transactional` of backend/n4x/graph/uow.py, over the transactions of
-- testing/graph_store.py: a transaction that ends with an exception puts the graph back.
-- `store` is the graph as it stands, `begun` the graph that the open transaction began with.
pub mod Atomicity
pub mod Retries
mod Samples
use n4x_core.Prelude.{
  ℕ, zero, suc, ◌+◌, ◌-◌, Bool, true, false, ◌||◌, Option, none, some, ltb, if◌then◌else◌,
}
use n4x_core.Prelude.Result.{Result, ok, raise}
use n4x_core.Prelude.Exec.{Exec, ◌>>=◌, ◌>>◌}

pub record UnitOfWorkState (G : Type 0) : Type 0 where
  pub begun : G
  pub depth : ℕ
  pub rollback_only : Bool

pub record GraphUnitOfWork (G : Type 0) : Type 0 where
  pub store : G
  pub state : Option (UnitOfWorkState G)

-- The two uses of `GraphUnitOfWorkError` here, `TransientGraphConflictError`, and any other
-- exception of a body.
pub data UowError (E : Type 0) : Type 0 where
  not_active nested_failure requires_inactive transient_conflict : UowError E
  body_error : E → UowError E

module _ {G : Type 0} where
  abbrev pub is_active : GraphUnitOfWork G → Bool
  is_active u = elim u.state [ none ↦ false | some s ↦ true ]

  abbrev pub depth : GraphUnitOfWork G → ℕ
  depth u = elim u.state [ none ↦ 0 | some s ↦ s.depth ]

  abbrev pub enter_with : Option (UnitOfWorkState G) → G → GraphUnitOfWork G
  enter_with none g = record {
    store = g;
    state = some (record { begun = g; depth = 1; rollback_only = false });
  }
  enter_with (some s) g = record { store = g; state = some (record s { depth = s.depth + 1 }) }

  -- `__enter__`, also `begin`
  unfoldable pub enter : GraphUnitOfWork G → GraphUnitOfWork G
  enter u = enter_with u.state u.store

  abbrev pub closed : G → GraphUnitOfWork G
  closed g = record { store = g; state = none }

module _ {G E : Type 0} where
  abbrev pub require_active : Exec (GraphUnitOfWork G) (UowError E) (Unit {0})
  require_active u = ((if is_active u then ok tt else raise not_active), u)

  abbrev pub require_inactive : Exec (GraphUnitOfWork G) (UowError E) (Unit {0})
  require_inactive u = ((if is_active u then raise requires_inactive else ok tt), u)

  -- The end of the outermost unit of work, after an exception or not.
  abbrev pub end_outermost :
      Bool → Bool → G → G → Result (UowError E) (Unit {0}) × GraphUnitOfWork G
  end_outermost true rollback_only g begun = (ok tt, closed begun)
  end_outermost false true g begun = (raise nested_failure, closed begun)
  end_outermost false false g begun = (ok tt, closed g)

  abbrev pub exit_with :
      Bool → Option (UnitOfWorkState G) → G → Result (UowError E) (Unit {0}) × GraphUnitOfWork G
  exit_with failed none g = (raise not_active, closed g)
  exit_with failed (some s) g =
      let rollback_only : Bool = failed || s.rollback_only in
      if ltb 0 (s.depth - 1)
      then (
        ok tt,
        record {
          store = g;
          state = some (record s { depth = s.depth - 1; rollback_only = rollback_only });
        },
      )
      else end_outermost failed rollback_only g s.begun

  -- `__exit__`, whose argument says whether there is an exception.
  unfoldable pub exit : Bool → Exec (GraphUnitOfWork G) (UowError E) (Unit {0})
  exit failed u = exit_with failed u.state u.store

  unfoldable pub commit : Exec (GraphUnitOfWork G) (UowError E) (Unit {0})
  commit u = exit false u

  abbrev pub rollback_with :
      Option (UnitOfWorkState G) → G → Result (UowError E) (Unit {0}) × GraphUnitOfWork G
  rollback_with none g = (raise not_active, closed g)
  rollback_with (some s) g =
      if ltb 1 s.depth
      then (
        ok tt,
        record { store = g; state = some (record s { depth = s.depth - 1; rollback_only = true }) },
      )
      else (ok tt, closed s.begun)

  unfoldable pub rollback : Exec (GraphUnitOfWork G) (UowError E) (Unit {0})
  rollback u = rollback_with u.state u.store

module _ {G E A : Type 0} where
  -- After an exception of `__exit__` that one is raised; else the body's outcome stands.
  abbrev pub then_raise :
      UowError E
      → Result (UowError E) (Unit {0}) × GraphUnitOfWork G
      → Result (UowError E) A × GraphUnitOfWork G
  then_raise e (ok _, u) = (raise e, u)
  then_raise e (raise f, u) = (raise f, u)

  abbrev pub then_return :
      A
      → Result (UowError E) (Unit {0}) × GraphUnitOfWork G
      → Result (UowError E) A × GraphUnitOfWork G
  then_return a (ok _, u) = (ok a, u)
  then_return a (raise f, u) = (raise f, u)

  abbrev pub leave :
      Result (UowError E) A × GraphUnitOfWork G → Result (UowError E) A × GraphUnitOfWork G
  leave (ok a, u) = then_return a (exit false u)
  leave (raise e, u) = then_raise e (exit true u)

  -- `with self.uow:` around a body
  unfoldable pub with_uow :
      Exec (GraphUnitOfWork G) (UowError E) A → Exec (GraphUnitOfWork G) (UowError E) A
  with_uow body u = leave (body (enter u))

  -- `except TransientGraphConflictError`
  abbrev pub retry_after :
      Exec (GraphUnitOfWork G) (UowError E) A
      → Result (UowError E) A × GraphUnitOfWork G
      → Result (UowError E) A × GraphUnitOfWork G
  retry_after next (raise transient_conflict, u) = next u
  retry_after next (raise e, u) = (raise e, u)
  retry_after next (ok a, u) = (ok a, u)

  -- The loop of `transactional` with `more` attempts after this one; `i` is the attempt's number, on
  -- which the body depends by what others do to the graph meanwhile.
  unfoldable pub attempt_each :
      ℕ
      → ℕ
      → (ℕ → Exec (GraphUnitOfWork G) (UowError E) A)
      → Exec (GraphUnitOfWork G) (UowError E) A
  attempt_each zero i body u = with_uow (body i) u
  attempt_each (suc more) i body u =
      retry_after (attempt_each more (i + 1) body) (with_uow (body i) u)

  -- `acquire_write_lock` may raise as well; only the outermost call takes the lock.
  unfoldable pub transactional :
      (ℕ → Exec (GraphUnitOfWork G) (UowError E) (Unit {0}))
      → (ℕ → Exec (GraphUnitOfWork G) (UowError E) A)
      → Exec (GraphUnitOfWork G) (UowError E) A
  transactional acquire_write_lock method u =
      if is_active u
      then with_uow (method 0) u
      else attempt_each 7 0 (λ i. acquire_write_lock i >> method i) u
