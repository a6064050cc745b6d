-- ===== src/Pool/Leases.antt =====
-- The pool under any interleaving of its callers. A caller between the two locked parts of
-- `checkout` is spawning; a caller that got a child holds it until it calls `release`.
pub mod Steps
pub mod Safety
use n4x_core.Prelude.{
  ℕ, zero, suc, ◌+◌, ◌-◌, ◌≤◌, ◌<◌, ◌≡◌, ◌≢◌, refl, sym, ap, ◌∙◌, String, Bool, true, false, not,
  ◌&&◌, Option, none, some, List, [], ◌∷◌, ◌++◌, arith, leb, ltb, nat_eq, ◌==◌, if◌then◌else◌,
  filter, find, any, All, length, length-append, All-append, All-map, All-filter, Bool-cases,
  Option-cases, inl, inr,
}
use n4x_core.Prelude.Result.{Result, ok, raise}
use n4x_core.Pool.{
  Key, PooledChild, ActionPool, Failure, Decision, reuse, spawn, kill_locked, reap_locked,
  evict_revision, evict_data_space, trim, checkout_begin, checkout_spawned, checkout_failed,
  release, shutdown, take_idle, make_room, occupancy, lru_idle_locked, least_released, min_released,
  update_child, remove_child, set_busy, set_idle, is_reusable, reserve, kill_all, new,
}
use n4x_core.Pool.Removal.{Unique, length-remove_child, length-remove_child-le}
use n4x_core.Pool.Updates.{
  length-update_child, All-update_child, update_child-Unique, any-lru_idle_locked,
}
use n4x_core.Pool.Shrinking.{
  IsShrunk, trim-IsShrunk, kill_locked-IsShrunk, kill_all-IsShrunk, reap_locked-IsShrunk,
  evict_revision-IsShrunk, evict_data_space-IsShrunk,
}

abbrev pub NotIn : ℕ → List ℕ → Type 0
NotIn o = All (λ l. l ≢ o)

pub record Shared : Type 0 where
  pub pool : ActionPool
  pub leases : List ℕ
  pub spawning : ℕ

-- An idle child is held by nobody.
abbrev pub IsFree : List ℕ → PooledChild → Type 0
IsFree leases c = c.busy ≡ false → NotIn c.object leases

pub record IsSafe (s : Shared) : Type 0 where
  pub unique : Unique s.pool.children
  pub bounded : 0 < s.pool.max_size → length s.pool.children + s.pool.reserved ≤ s.pool.max_size
  pub counted : s.pool.reserved ≡ s.spawning
  pub free : All (IsFree s.leases) s.pool.children

-- The holder gives the child back.
abbrev pub drop_lease : ℕ → List ℕ → List ℕ
drop_lease o ls = filter (λ l. not (nat_eq l o)) ls

pub data Step : Shared → Shared → Type 0 where
  begin_reuse :
      {s : Shared} (alive : ℕ → Bool) (key : Key) (now : ℕ) (c : PooledChild) (p : ActionPool)
      → checkout_begin alive key now s.pool ≡ (ok (reuse c), p)
      → Step s (record { pool = p; leases = c.object ∷ s.leases; spawning = s.spawning })
  begin_spawn :
      {s : Shared} (alive : ℕ → Bool) (key : Key) (now : ℕ) (p : ActionPool)
      → checkout_begin alive key now s.pool ≡ (ok spawn, p)
      → Step s (record { pool = p; leases = s.leases; spawning = s.spawning + 1 })
  begin_raise :
      {s : Shared} (alive : ℕ → Bool) (key : Key) (now : ℕ) (e : Failure) (p : ActionPool)
      → checkout_begin alive key now s.pool ≡ (raise e, p)
      → Step s (record { pool = p; leases = s.leases; spawning = s.spawning })
  spawned :
      {s : Shared} (key : Key) (c : PooledChild)
      → 0 < s.spawning
      → All (λ d. d.object ≢ c.object) s.pool.children
      → Step s (record {
        pool = checkout_spawned c key s.pool;
        leases = c.object ∷ s.leases;
        spawning = s.spawning - 1;
      })
  spawn_failed :
      {s : Shared}
      → 0 < s.spawning
      → Step s
          (record { pool = checkout_failed s.pool; leases = s.leases; spawning = s.spawning - 1 })
  released :
      {s : Shared} (alive : ℕ → Bool) (c : PooledChild) (retain : Bool) (now : ℕ)
      → any (nat_eq c.object) s.leases ≡ true
      → Step s (record {
        pool = release alive c retain now s.pool;
        leases = drop_lease c.object s.leases;
        spawning = s.spawning;
      })
  reaped : {s : Shared} (now : ℕ) → Step s (record s { pool = reap_locked now s.pool })
  revision_evicted :
      {s : Shared} (r : String) → Step s (record s { pool = evict_revision r s.pool })
  data_space_evicted :
      {s : Shared} (d : String) → Step s (record s { pool = evict_data_space d s.pool })
  stopped : {s : Shared} → Step s (record s { pool = shutdown s.pool })

pub data Reach (s : Shared) : Shared → Type 0 where
  here : Reach s s
  next : {t u : Shared} → Reach s t → Step t u → Reach s u

abbrev pub at : ActionPool → List ℕ → ℕ → Shared
at pool leases spawning = record { pool = pool; leases = leases; spawning = spawning }
