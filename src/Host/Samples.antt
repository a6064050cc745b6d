-- ===== src/Host/Samples.antt =====
-- A host with two revisions, and the theorems at these inputs.
use n4x_core.Prelude.{String, ◌≡◌, refl, true, false, Option, none, some, [], ◌∷◌}
use n4x_core.Prelude.Result.{ok, raise}
use n4x_core.Host.{
  Host, HostLock, healthy, unhealthy, broken, accepted, refused, graph_error, worker_boot_error,
  host_lock_busy, acquire_lock, release_lock, acquire, materialize_and_start, import_archive,
  boot_active, enable_revision,
}
use n4x_core.Host.Lock.{acquire_lock-again}
use n4x_core.Host.Enabled.{Ends, enable_revision-Ends, enable_revision-falls_back}
use n4x_core.Host.Steps.{Reach, here, next, booted, enabled, ServesBut, Reach-ServesBut}

program : Unit {0}
unfolding acquire_lock release_lock acquire materialize_and_start import_archive boot_active
    enable_revision
program = tt

abbrev free : HostLock
free = record { handle = false; guard = false; locked = false }

abbrev taken : HostLock
taken = record { handle = true; guard = true; locked = true }

abbrev host : HostLock → Option String → Host
host lock current = record {
  lock = lock;
  current = current;
  revisions = "r2" ∷ "r1" ∷ [];
  enabled = some "r1";
}

acquire_lock-again_example :
    (after : HostLock) × (acquire_lock true free ≡ (raise host_lock_busy, after))
    × (acquire_lock true after ≡ (ok tt, after))
    × (after.locked ≡ false)
    × (acquire_lock false (release_lock after) ≡ (ok tt, taken))
acquire_lock-again_example = acquire_lock-again free true refl refl

enable_revision-Ends_example :
    Ends "r2" refused
      (host taken (some "r1"))
      (enable_revision false "r2" healthy broken refused (host taken (some "r1")))
enable_revision-Ends_example =
    enable_revision-Ends false "r2" healthy broken refused (host taken (some "r1"))

-- The graph refuses a revision whose worker is healthy: the old one is enabled, and the new one runs.
left_running :
    enable_revision false "r2" healthy healthy refused (host taken (some "r1"))
    ≡ (raise graph_error, host taken (some "r2"))
unfolding program
left_running = refl

enable_revision-falls_back_example :
    enable_revision false "r2" unhealthy healthy accepted (host taken (some "r1"))
    ≡ (raise worker_boot_error, host taken (some "r1"))
enable_revision-falls_back_example =
    enable_revision-falls_back false "r2" "r1" accepted (host taken (some "r1")) refl refl refl

abbrev booted_host : Host
booted_host = (boot_active false (some "r3") healthy (host free none)).1

abbrev switched_run :
    Reach (host free none) (enable_revision false "r2" healthy healthy refused booted_host).1
switched_run =
    next (next here (booted false (some "r3") healthy)) (enabled false "r2" healthy healthy refused)

Reach-ServesBut_example :
    ServesBut ("r2" ∷ []) (enable_revision false "r2" healthy healthy refused booted_host).1
Reach-ServesBut_example = Reach-ServesBut (host free none) _ switched_run refl
