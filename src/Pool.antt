-- ===== src/Pool.antt =====
-- `ActionPool` of backend/n4x/runtime/action_pool.py: the child interpreters that are kept after
-- an invocation. Each method body runs under the pool's lock and is one function here; `checkout`
-- drops the lock while it spawns, so it is `checkout_begin` and then `checkout_spawned` or
-- `checkout_failed`. `object` is the identity of a child (Python's `is`), and `killed` lists the
-- children whose `kill` was called. A body that raises keeps what it did before. `alive` answers
-- `process.poll() is None` at the call; times are readings of `time.monotonic()`, in ticks.
pub mod Removal
pub mod Eviction
pub mod Shrinking
pub mod Updates
pub mod Leases
pub mod Checkout
mod Samples
use n4x_core.Prelude.{
  ℕ, ◌+◌, ◌-◌, String, Bool, true, false, not, ◌&&◌, Option, none, some, List, [], ◌∷◌, ◌++◌, ltb,
  leb, nat_eq, ◌==◌, if◌then◌else◌, length, find, filter, any,
}
use n4x_core.Prelude.Result.{Result, ok, raise}

-- The tuple `(revision_id, data_space_id, python_executable)`.
pub record Key : Type 0 where
  pub revision_id : String
  pub data_space_id : String
  pub python_executable : String

pub record PooledChild : Type 0 where
  pub object : ℕ
  pub key : Key
  pub pid : ℕ
  pub busy : Bool
  pub released_at : ℕ

pub record ActionPool : Type 0 where
  pub max_size : ℕ
  pub idle_seconds : ℕ
  pub children : List PooledChild
  pub reserved : ℕ
  pub closed : Bool
  pub killed : List ℕ

-- The messages of `ValidationFailure`.
pub data Failure : Type 0 where
  shut_down full : Failure

-- What the locked part of `checkout` decides: to reuse a child, or to spawn one.
pub data Decision : Type 0 where
  reuse : PooledChild → Decision
  spawn : Decision

abbrev pub key_eq : Key → Key → Bool
key_eq a b =
    a.revision_id == b.revision_id
    && a.data_space_id == b.data_space_id
    && a.python_executable == b.python_executable

pub new : ℕ → ℕ → ActionPool
new max_size idle_seconds = record {
  max_size = max_size;
  idle_seconds = idle_seconds;
  children = [];
  reserved = 0;
  closed = false;
  killed = [];
}

-- `list.remove`: the first item that is the child.
pub remove_child : ℕ → List PooledChild → List PooledChild
remove_child o [] = []
remove_child o (c ∷ cs) = if nat_eq c.object o then cs else c ∷ remove_child o cs

pub kill_locked : PooledChild → ActionPool → ActionPool
kill_locked child pool = record pool {
  children = remove_child child.object pool.children;
  killed = pool.killed ++ child.object ∷ [];
}

pub kill_all : List PooledChild → ActionPool → ActionPool
kill_all [] pool = pool
kill_all (c ∷ cs) pool = kill_all cs (kill_locked c pool)

-- `for child in list(self._children): if test: self._kill_locked(child)`
pub kill_where : (PooledChild → Bool) → List PooledChild → ActionPool → ActionPool
kill_where test [] pool = pool
kill_where test (c ∷ cs) pool = kill_where test cs (if test c then kill_locked c pool else pool)

pub occupancy : ActionPool → ℕ
occupancy pool = length pool.children + pool.reserved

abbrev pub is_expired : ℕ → ℕ → PooledChild → Bool
is_expired idle_seconds now c = not c.busy && leb (c.released_at + idle_seconds) now

pub reap_locked : ℕ → ActionPool → ActionPool
reap_locked now pool =
    if leb pool.idle_seconds 0
    then pool
    else kill_where (is_expired pool.idle_seconds now) pool.children pool

abbrev pub is_stale : Key → PooledChild → Bool
is_stale key c =
    c.key.revision_id == key.revision_id
    && c.key.data_space_id == key.data_space_id
    && not (c.key.python_executable == key.python_executable)
    && not c.busy

pub evict_stale_interpreters_locked : Key → ActionPool → ActionPool
evict_stale_interpreters_locked key pool = kill_where (is_stale key) pool.children pool

-- `min(idle, key=…)`: the first of the least.
pub min_released : PooledChild → List PooledChild → PooledChild
min_released best [] = best
min_released best (c ∷ cs) =
    min_released (if ltb c.released_at best.released_at then c else best) cs

abbrev pub least_released : List PooledChild → Option PooledChild
least_released [] = none
least_released (c ∷ cs) = some (min_released c cs)

pub lru_idle_locked : ActionPool → Option PooledChild
lru_idle_locked pool = least_released (filter (λ c. not c.busy) pool.children)

-- An assignment to attributes of a child that the list may hold.
pub update_child : ℕ → (PooledChild → PooledChild) → List PooledChild → List PooledChild
update_child o f [] = []
update_child o f (c ∷ cs) = if nat_eq c.object o then f c ∷ cs else c ∷ update_child o f cs

abbrev pub set_busy : PooledChild → PooledChild
set_busy c = record c { busy = true }

abbrev pub is_reusable : (ℕ → Bool) → Key → PooledChild → Bool
is_reusable alive key c = key_eq c.key key && not c.busy && alive c.pid

abbrev pub reserve : ActionPool → ActionPool
reserve pool = record pool { reserved = pool.reserved + 1 }

pub make_room : Option PooledChild → ActionPool → Result Failure Decision × ActionPool
make_room none pool = (raise full, pool)
make_room (some victim) pool = (ok spawn, reserve (kill_locked victim pool))

pub take_idle : Option PooledChild → ActionPool → Result Failure Decision × ActionPool
take_idle (some c) pool = (
  ok (reuse (set_busy c)),
  record pool { children = update_child c.object set_busy pool.children },
)
take_idle none pool =
    if ltb 0 pool.max_size && leb pool.max_size (occupancy pool)
    then make_room (lru_idle_locked pool) pool
    else (ok spawn, reserve pool)

-- What `checkout` looks at, after it has reaped and evicted.
pub trim : Key → ℕ → ActionPool → ActionPool
trim key now pool = evict_stale_interpreters_locked key (reap_locked now pool)

pub checkout_begin : (ℕ → Bool) → Key → ℕ → ActionPool → Result Failure Decision × ActionPool
checkout_begin alive key now pool =
    if pool.closed
    then (raise shut_down, pool)
    else take_idle (find (is_reusable alive key) (trim key now pool).children) (trim key now pool)

pub checkout_failed : ActionPool → ActionPool
checkout_failed pool = record pool { reserved = pool.reserved - 1 }

pub checkout_spawned : PooledChild → Key → ActionPool → ActionPool
checkout_spawned child key pool = record pool {
  reserved = pool.reserved - 1;
  children = pool.children ++ record child { key = key; busy = true } ∷ [];
}

abbrev pub set_idle : ℕ → PooledChild → PooledChild
set_idle now c = record c { busy = false; released_at = now }

pub release : (ℕ → Bool) → PooledChild → Bool → ℕ → ActionPool → ActionPool
release alive child retain now pool =
    if retain && ltb 0 pool.max_size && not pool.closed && alive child.pid
    then record pool { children = update_child child.object (set_idle now) pool.children }
    else kill_locked child pool

pub evict_revision : String → ActionPool → ActionPool
evict_revision revision_id pool =
    kill_all (filter (λ c. c.key.revision_id == revision_id) pool.children) pool

pub evict_data_space : String → ActionPool → ActionPool
evict_data_space data_space_id pool =
    kill_all (filter (λ c. c.key.data_space_id == data_space_id) pool.children) pool

pub contains_pid : ℕ → ActionPool → Bool
contains_pid pid pool = any (λ c. nat_eq c.pid pid) pool.children

pub shutdown : ActionPool → ActionPool
shutdown pool = kill_all pool.children (record pool { closed = true })
