-- ===== src/Pool/Samples.antt =====
-- Small pools, what the program does on them, and the theorems at these inputs.
use mathlib.Core.Logic.{◌↔◌}
use n4x_core.Prelude.{
  ℕ, ◌+◌, ◌≤◌, ◌<◌, ◌≡◌, refl, Bool, true, false, not, ◌&&◌, List, [], ◌∷◌, ◌++◌, map, arith, leb,
  ◌==◌, filter, All,
}
use n4x_core.Prelude.Result.{raise}
use n4x_core.Pool.{
  Key, PooledChild, ActionPool, shut_down, full, checkout_begin, checkout_spawned, release,
  reap_locked, trim, occupancy, evict_revision, evict_data_space, shutdown, lru_idle_locked, new,
  kill_where, kill_all, kill_locked, remove_child, update_child, take_idle, make_room,
  evict_stale_interpreters_locked, min_released,
}
use n4x_core.Pool.Removal.{Unique}
use n4x_core.Pool.Eviction.{children-evict, children-reap_locked, shutdown_lem}
use n4x_core.Pool.Leases.{NotIn, Shared, IsSafe, Reach, here, next, begin_spawn, spawned, released}
use n4x_core.Pool.Leases.Safety.{start, Reach-start-IsSafe}
use n4x_core.Pool.Checkout.{reuse-Lent, lru_idle_locked-IsLeast, checkout_begin-full, AllBusy}

program : Unit {0}
unfolding checkout_begin checkout_spawned release reap_locked trim occupancy evict_revision
    evict_data_space shutdown lru_idle_locked new kill_where kill_all kill_locked remove_child
    update_child take_idle make_room evict_stale_interpreters_locked min_released
program = tt

abbrev running : ℕ → Bool
running pid = true

abbrev notes : Key
notes = record { revision_id = "r1"; data_space_id = "production"; python_executable = "py" }

abbrev mail : Key
mail = record { revision_id = "r2"; data_space_id = "production"; python_executable = "py" }

abbrev child : ℕ → Key → Bool → ℕ → PooledChild
child o key busy t = record { object = o; key = key; pid = o; busy = busy; released_at = t }

abbrev pool_of : List PooledChild → ActionPool
pool_of cs = record {
  max_size = 2;
  idle_seconds = 100;
  children = cs;
  reserved = 0;
  closed = false;
  killed = [];
}

abbrev two_children : ActionPool
two_children = pool_of (child 1 notes false 30 ∷ child 2 mail false 20 ∷ [])

abbrev two_busy : ActionPool
two_busy = pool_of (child 1 notes true 0 ∷ child 2 mail true 0 ∷ [])

abbrev after_spawn : Shared
after_spawn = record { pool = pool_of (child 7 notes true 0 ∷ []); leases = 7 ∷ []; spawning = 0 }

abbrev after_release : Shared
after_release = record { pool = pool_of (child 7 notes false 5 ∷ []); leases = []; spawning = 0 }

Reach-spawn : Reach (start 2 100) after_spawn
unfolding program
Reach-spawn =
    next (next here (begin_spawn running notes 0 (record (pool_of []) { reserved = 1 }) refl))
      (spawned notes (child 7 notes true 0) (omega arith) tt)

Reach-release : Reach (start 2 100) after_release
unfolding program
Reach-release = next Reach-spawn (released running (child 7 notes true 0) true 5 refl)

Reach-start-IsSafe_example : IsSafe after_release
Reach-start-IsSafe_example = Reach-start-IsSafe 2 100 after_release Reach-release

reuse-Lent_example : NotIn 7 [] × (◌≡◌ {A = Key} notes notes) × (running 7 ≡ true)
reuse-Lent_example =
    reuse-Lent 2 100 after_release running notes 9 (child 7 notes true 5)
      (pool_of (child 7 notes true 5 ∷ [])) Reach-release (unfold program in refl)

lru_idle_locked-IsLeast_example :
    (◌≡◌ {A = Bool} false false)
    × All (λ (c : PooledChild). c.busy ≡ false → 20 ≤ c.released_at) two_children.children
lru_idle_locked-IsLeast_example =
    lru_idle_locked-IsLeast two_children (child 2 mail false 20) (unfold program in refl)

checkout_begin-full_example :
    ((checkout_begin running notes 1 two_busy).0 ≡ raise full)
    ↔ ((0 < 2) × (2 ≤ occupancy (trim notes 1 two_busy)) × AllBusy (trim notes 1 two_busy))
checkout_begin-full_example = checkout_begin-full running notes 1 two_busy refl

two_children-Unique : Unique two_children.children
two_children-Unique = (((λ e. omega arith), tt), (tt, tt))

children-evict_example :
    ((evict_revision "r1" two_children).children
      ≡ filter (λ c. not (c.key.revision_id == "r1")) two_children.children)
    × ((evict_data_space "dev" two_children).children
        ≡ filter (λ c. not (c.key.data_space_id == "dev")) two_children.children)
children-evict_example = children-evict "r1" "dev" two_children two_children-Unique

children-reap_locked_example :
    (reap_locked 125 two_children).children
    ≡ filter (λ c. not (not c.busy && leb (c.released_at + 100) 125)) two_children.children
children-reap_locked_example =
    children-reap_locked 125 two_children (λ e. omega arith) two_children-Unique

shutdown_lem_example :
    ((shutdown two_children).killed ≡ [] ++ map (λ c. c.object) two_children.children)
    × ((shutdown two_children).children ≡ [])
    × ((alive : ℕ → Bool) (key : Key) (now : ℕ)
        → checkout_begin alive key now (shutdown two_children)
          ≡ (raise shut_down, shutdown two_children))
shutdown_lem_example = shutdown_lem two_children two_children-Unique

reaped : (reap_locked 125 two_children).children ≡ child 1 notes false 30 ∷ []
unfolding program
reaped = refl

refused : (checkout_begin running notes 1 two_busy).0 ≡ raise full
unfolding program
refused = refl
