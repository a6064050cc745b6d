-- ===== src/Pool/Leases/Safety.antt =====
-- The states that the callers of `ActionPool` can bring about.
use n4x_core.Prelude.{
  ℕ, ◌+◌, ◌-◌, ◌<◌, ◌≡◌, refl, ap, subst, Bool, true, false, ◌&&◌, Option, none, some, List, [],
  ◌∷◌, arith, leb, ltb, if◌then◌else◌, find, length, Bool-cases, inl, inr,
}
use n4x_core.Prelude.Result.{Result, ok, raise}
use n4x_core.Pool.{
  Key, PooledChild, ActionPool, Failure, shut_down, Decision, reuse, spawn, kill_locked, trim,
  checkout_begin, checkout_failed, shutdown, take_idle, make_room, occupancy, lru_idle_locked,
  is_reusable, new,
}
use n4x_core.Pool.Removal.{length-remove_child}
use n4x_core.Pool.Updates.{any-lru_idle_locked}
use n4x_core.Pool.Shrinking.{
  trim-IsShrunk, kill_locked-IsShrunk, kill_all-IsShrunk, reap_locked-IsShrunk,
  evict_revision-IsShrunk, evict_data_space-IsShrunk,
}
use n4x_core.Pool.Leases.{
  Shared, IsSafe, Step, Reach, here, next, begin_reuse, begin_spawn, begin_raise, spawned,
  spawn_failed, released, reaped, revision_evicted, data_space_evicted, stopped, at,
}
use n4x_core.Pool.Leases.Steps.{
  IsShrunk-IsSafe, reuse-IsSafe, reserve-IsSafe, spawned-IsSafe, released-IsSafe,
}

-- What is safe after the locked part of `checkout`, by its outcome.
abbrev After : List ℕ → ℕ → Result Failure Decision → ActionPool → Type 0
After leases n (ok (reuse c)) q = IsSafe (at q (c.object ∷ leases) n)
After leases n (ok spawn) q = IsSafe (at q leases (n + 1))
After leases n (raise e) q = IsSafe (at q leases n)

module _ (leases : List ℕ) (n : ℕ) (p : ActionPool) (h : IsSafe (at p leases n)) where
  make_room-After :
      (o : Option PooledChild)
      → lru_idle_locked p ≡ o
      → After leases n (make_room o p).0 (make_room o p).1
  unfolding make_room
  make_room-After none e = h
  make_room-After (some v) e =
      reserve-IsSafe leases n (kill_locked v p)
        (IsShrunk-IsSafe p (kill_locked v p) leases n (kill_locked-IsShrunk v p) h) room
    where
      room :
          0 < (kill_locked v p).max_size
          → length (kill_locked v p).children + (kill_locked v p).reserved
            < (kill_locked v p).max_size
      room =
          unfold kill_locked in
          λ b. omega (
            arith,
            h.bounded b,
            length-remove_child v.object p.children (any-lru_idle_locked p v e),
          )

  choose-After :
      (b : Bool) (x y : Result Failure Decision × ActionPool)
      → After leases n x.0 x.1
      → After leases n y.0 y.1
      → After leases n (if b then x else y).0 (if b then x else y).1
  choose-After true x y hx hy = hx
  choose-After false x y hx hy = hy

  take_idle-After : (o : Option PooledChild) → After leases n (take_idle o p).0 (take_idle o p).1
  unfolding take_idle occupancy
  take_idle-After (some c) = reuse-IsSafe leases n p h c
  take_idle-After none = elim (Bool-cases (ltb 0 p.max_size && leb p.max_size (occupancy p))) [
    | inl e ↦ rw e (make_room-After (lru_idle_locked p) refl)
    | inr e ↦ rw e (reserve-IsSafe leases n p h (λ b. ground arith))
  ]

module _ (leases : List ℕ) (n : ℕ) (p : ActionPool) (h : IsSafe (at p leases n)) where
  checkout_begin-After :
      (alive : ℕ → Bool) (key : Key) (now : ℕ)
      → After leases n (checkout_begin alive key now p).0 (checkout_begin alive key now p).1
  unfolding checkout_begin
  checkout_begin-After alive key now =
      let q = trim key now p in
      let trimmed : IsSafe (at q leases n) =
        IsShrunk-IsSafe p q leases n (trim-IsShrunk key now p) h in
      let o = find (is_reusable alive key) q.children in
      choose-After leases n q trimmed p.closed (raise shut_down, p) (take_idle o q) h
        (take_idle-After leases n q trimmed o)

shutdown-IsShrunk-IsSafe :
    (p : ActionPool) (leases : List ℕ) (n : ℕ)
    → IsSafe (at p leases n)
    → IsSafe (at (shutdown p) leases n)
unfolding shutdown
shutdown-IsShrunk-IsSafe p leases n h =
    IsShrunk-IsSafe (record p { closed = true }) _ leases n (kill_all-IsShrunk p.children _)
      (record { unique = h.unique; bounded = h.bounded; counted = h.counted; free = h.free })

module _ {leases : List ℕ} {n : ℕ} (p q : ActionPool) (r : Result Failure Decision) where
  begun :
      (alive : ℕ → Bool) (key : Key) (now : ℕ)
      → checkout_begin alive key now p ≡ (r, q)
      → IsSafe (at p leases n)
      → After leases n r q
  begun alive key now e h =
      subst (λ (x : Result Failure Decision × ActionPool). After leases n x.0 x.1) e
        (checkout_begin-After leases n p h alive key now)

pub Step-IsSafe : {s t : Shared} → Step s t → IsSafe s → IsSafe t
Step-IsSafe (begin_reuse {s} alive key now c p e) h =
    begun s.pool p (ok (reuse c)) alive key now e h
Step-IsSafe (begin_spawn {s} alive key now p e) h = begun s.pool p (ok spawn) alive key now e h
Step-IsSafe (begin_raise {s} alive key now x p e) h = begun s.pool p (raise x) alive key now e h
Step-IsSafe (spawned {s} key c some_spawn fresh) h =
    spawned-IsSafe s.leases s.spawning s.pool h key c some_spawn fresh
Step-IsSafe (spawn_failed {s} some_spawn) h =
    unfold checkout_failed in
    record {
      unique = h.unique;
      bounded = λ b. omega (arith, h.bounded b);
      counted = ap (λ (k : ℕ). k - 1) h.counted;
      free = h.free;
    }
Step-IsSafe (released {s} alive c retain now held) h =
    released-IsSafe s.leases s.spawning s.pool h alive c retain now
Step-IsSafe (reaped {s} now) h =
    IsShrunk-IsSafe s.pool _ s.leases s.spawning (reap_locked-IsShrunk now s.pool) h
Step-IsSafe (revision_evicted {s} r) h =
    IsShrunk-IsSafe s.pool _ s.leases s.spawning (evict_revision-IsShrunk r s.pool) h
Step-IsSafe (data_space_evicted {s} d) h =
    IsShrunk-IsSafe s.pool _ s.leases s.spawning (evict_data_space-IsShrunk d s.pool) h
Step-IsSafe (stopped {s}) h = shutdown-IsShrunk-IsSafe s.pool s.leases s.spawning h

pub Reach-IsSafe : {s t : Shared} → IsSafe s → Reach s t → IsSafe t
Reach-IsSafe h here = h
Reach-IsSafe h (next r st) = Step-IsSafe st (Reach-IsSafe h r)

abbrev pub start : ℕ → ℕ → Shared
start max_size idle_seconds = at (new max_size idle_seconds) [] 0

pub start-IsSafe : (max_size idle_seconds : ℕ) → IsSafe (start max_size idle_seconds)
unfolding new
start-IsSafe m i = record { unique = tt; bounded = λ b. omega arith; counted = refl; free = tt }

-- However callers interleave checkouts, failing spawns, releases, evictions, reaping and shutdown
-- from a new pool: with a positive size the listed children and the reserved places together
-- never pass it, the reservations are the spawns under way, no child is listed twice, and no idle
-- child is held by a caller.
pub Reach-start-IsSafe :
    (max_size idle_seconds : ℕ) (s : Shared) → Reach (start max_size idle_seconds) s → IsSafe s
Reach-start-IsSafe m i s r = Reach-IsSafe (start-IsSafe m i) r
