-- ===== src/Host.antt =====
-- The host of backend/n4x/host: `HostLock` of locking.py, the worker of `WorkerSupervisor`
-- (worker.py) and the enabled revision of `SystemGraph` (system_graph.py), as `Host` of supervisor.py
-- drives them. Materializing a revision and starting its worker is one call whose outcome, `Boot`,
-- is an argument, and so is `Enabling`, how `SystemGraph.enable_revision` ends; a revision is its
-- identifier.
pub mod Lock
pub mod Enabled
pub mod Steps
mod Samples
use n4x_core.Prelude.{
  String, Bool, true, false, Option, none, some, List, [], ◌∷◌, ◌++◌, contains, if◌then◌else◌,
}
use n4x_core.Prelude.Result.{Result, ok, raise}
use n4x_core.Prelude.Exec.{Exec, pure, throw, get_state, modify, ◌>>=◌, ◌>>◌}

pub data HostError : Type 0 where
  host_lock_busy already_running worker_boot_error broken_start key_error graph_error import_error :
      HostError

-- How materializing and starting a worker ends: healthy, not healthy in time, or another exception
-- before there is a worker.
pub data Boot : Type 0 where
  healthy unhealthy broken : Boot

-- How `SystemGraph.enable_revision` ends: it may raise, when the revision is gone or another call has
-- replaced the enabled one, and writes nothing then.
pub data Enabling : Type 0 where
  accepted refused : Enabling

-- `handle` says whether the lock's file is open, `guard` whether a guard is kept, and `locked`
-- whether the operating system gave the lock to this host.
pub record HostLock : Type 0 where
  pub handle : Bool
  pub guard : Bool
  pub locked : Bool

pub record Host : Type 0 where
  pub lock : HostLock
  pub current : Option String
  pub revisions : List String
  pub enabled : Option String

abbrev pub held : HostLock → Bool
held lock = lock.handle

-- `HostLock.acquire`; `other` says whether another host has the lock.
unfoldable pub acquire_lock : Bool → Exec HostLock HostError (Unit {0})
acquire_lock other lock =
    if held lock
    then (ok tt, lock)
    else (if other
        then (raise host_lock_busy, record lock { handle = true; guard = true })
        else (ok tt, record { handle = true; guard = true; locked = true }))

unfoldable pub release_lock : HostLock → HostLock
release_lock lock = record { handle = false; guard = false; locked = false }

-- A call of the lock, of a host.
abbrev pub with_lock :
    Result HostError (Unit {0}) × HostLock → Host → Result HostError (Unit {0}) × Host
with_lock x h = (x.0, record h { lock = x.1 })

unfoldable pub acquire : Bool → Exec Host HostError (Unit {0})
acquire other h = with_lock (acquire_lock other h.lock) h

-- `WorkerSupervisor.stop`
abbrev pub stop : Host → Host
stop h = record h { current = none }

-- `WorkerSupervisor.start`, after the check that no worker runs.
abbrev pub start_with : Boot → String → Host → Result HostError (Unit {0}) × Host
start_with healthy revision h = (ok tt, record h { current = some revision })
start_with unhealthy revision h = (raise worker_boot_error, stop h)
start_with broken revision h = (raise broken_start, h)

abbrev pub start_if_none : Option String → Boot → String → Host → Result HostError (Unit {0}) × Host
start_if_none none boot revision h = start_with boot revision h
start_if_none (some r) boot revision h = (raise already_running, h)

-- `_materialize_and_start`
unfoldable pub materialize_and_start : Boot → String → Exec Host HostError (Unit {0})
materialize_and_start boot revision h = start_if_none h.current boot revision h

unfoldable pub release : Host → Host
release h = let s : Host = stop h in record s { lock = release_lock s.lock }

-- `SystemGraph.enable_revision`
abbrev pub enable : Enabling → String → Exec Host HostError String
enable accepted revision h = (ok revision, record h { enabled = some revision })
enable refused revision h = (raise graph_error, h)

-- `SystemGraph.import_official_archive`, in one unit of work; `some revision` is the identifier of a
-- fresh import, and there is none when the import raises.
unfoldable pub import_archive : Option String → Bool → Exec Host HostError String
import_archive none enables h = (raise import_error, h)
import_archive (some revision) enables h =
    let imported : Host = record h { revisions = revision ∷ h.revisions } in
    if enables
    then (ok revision, record imported { enabled = some revision })
    else (ok revision, imported)

abbrev pub boot_with : Option String → Option String → Boot → Exec Host HostError String
boot_with (some revision) official boot = do materialize_and_start boot revision; pure revision
boot_with none official boot = do
  revision ← import_archive official true
  materialize_and_start boot revision
  pure revision

-- `boot_active`
unfoldable pub boot_active : Bool → Option String → Boot → Exec Host HostError String
boot_active other official boot = do acquire other; h ← get_state; boot_with h.enabled official boot

-- After the worker of the new revision has failed to boot, the previous one is started.
abbrev pub swallow_boot_error : Result HostError (Unit {0}) × Host → Result HostError String × Host
swallow_boot_error (raise worker_boot_error, h) = (raise worker_boot_error, h)
swallow_boot_error (raise e, h) = (raise e, h)
swallow_boot_error (ok _, h) = (raise worker_boot_error, h)

abbrev pub fall_back : Option String → Boot → Host → Result HostError String × Host
fall_back none boot h = (raise worker_boot_error, h)
fall_back (some previous) boot h = swallow_boot_error (materialize_and_start boot previous h)

abbrev pub finish_enable :
    String
    → Option String
    → Boot
    → Enabling
    → Result HostError (Unit {0}) × Host
    → Result HostError String × Host
finish_enable revision previous boot enabling (ok _, h) = enable enabling revision h
finish_enable revision previous boot enabling (raise worker_boot_error, h) =
    fall_back previous boot h
finish_enable revision previous boot enabling (raise e, h) = (raise e, h)

abbrev pub switch_to : String → Boot → Boot → Enabling → Exec Host HostError String
switch_to revision boot fallback enabling h =
    if contains revision h.revisions
    then finish_enable revision h.enabled fallback enabling
        (materialize_and_start boot revision (stop h))
    else (raise key_error, h)

-- `enable_revision`; the second outcome is that of starting the previous revision again.
unfoldable pub enable_revision : Bool → String → Boot → Boot → Enabling → Exec Host HostError String
enable_revision other revision boot fallback enabling = do
  h ← get_state
  if held h.lock then pure tt else acquire other
  switch_to revision boot fallback enabling
