-- ===== src/Host/Lock.antt =====
-- `HostLock` (host/locking.py) after an acquire that fails.
use n4x_core.Prelude.{◌≡◌, refl, Bool, true, false}
use n4x_core.Prelude.Result.{ok, raise}
use n4x_core.Host.{HostLock, host_lock_busy, acquire_lock, release_lock}

-- A first acquire that finds another host's lock raises, and leaves a lock that looks held: until a
-- release, each later acquire returns at once, whoever has the lock, and this host still has not got it.
pub acquire_lock-again :
    (lock : HostLock) (other : Bool)
    → lock.handle ≡ false
    → lock.locked ≡ false
    → (after : HostLock) × (acquire_lock true lock ≡ (raise host_lock_busy, after))
      × (acquire_lock other after ≡ (ok tt, after))
      × (after.locked ≡ false)
      × (acquire_lock false (release_lock after)
          ≡ (ok tt, record { handle = true; guard = true; locked = true }))
unfolding acquire_lock release_lock
acquire_lock-again lock other free unlocked =
    (record lock { handle = true; guard = true }, (rw free refl), refl, unlocked, refl)
