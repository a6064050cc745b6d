-- ===== src/Host/Enabled.antt =====
-- The running worker and the enabled revision of `Host` (host/supervisor.py).
use n4x_core.Prelude.{
  String, ◌≡◌, refl, sym, ◌⊎◌, inl, inr, Bool, true, false, Option, none, some, contains,
  if◌then◌else◌,
}
use n4x_core.Prelude.Result.{Result, ok, raise}
use n4x_core.Prelude.Exec.{continue, pure}
use n4x_core.Host.{
  HostError, worker_boot_error, key_error, Boot, healthy, unhealthy, broken, Enabling, accepted,
  refused, HostLock, Host, held, acquire, acquire_lock, with_lock, stop, materialize_and_start,
  fall_back, finish_enable, switch_to, enable_revision,
}

-- No worker runs, or the enabled revision's does.
abbrev pub IsServing : Host → Type 0
IsServing h = (h.current ≡ none) ⊎ (h.current ≡ h.enabled)

-- How enabling a revision ends. It returns the revision, which is now enabled and whose worker runs.
-- Or it raises with the same revision enabled as before, and then the worker is as before, or it is
-- stopped, or that of the enabled revision runs, or, if the graph refuses the healthy revision, that
-- of the new one.
abbrev pub Ends : String → Enabling → Host → Result HostError String × Host → Type 0
Ends revision enabling before (ok done, h) =
    (enabling ≡ accepted)
    × (done ≡ revision)
    × (h.current ≡ some revision)
    × (h.enabled ≡ some revision)
Ends revision enabling before (raise e, h) =
    (h.enabled ≡ before.enabled)
    × ((h.current ≡ before.current)
        ⊎ IsServing h
        ⊎ ((enabling ≡ refused) × (h.current ≡ some revision)))

module _ (revision : String) (enabling : Enabling) (before : Host) where
  fall_back-Ends :
      (previous : Option String) (boot : Boot) (h : Host)
      → h.current ≡ none
      → h.enabled ≡ before.enabled
      → h.enabled ≡ previous
      → Ends revision enabling before (fall_back previous boot h)
  unfolding materialize_and_start
  fall_back-Ends none boot h idle e p = (e, inr (inl (inl idle)))
  fall_back-Ends (some p) healthy h idle e q = rw idle (e, inr (inl (inr (sym q))))
  fall_back-Ends (some p) unhealthy h idle e q = rw idle (e, inr (inl (inl refl)))
  fall_back-Ends (some p) broken h idle e q = rw idle (e, inr (inl (inl refl)))

  switch_to-Ends :
      (boot fallback : Boot) (h : Host)
      → h.current ≡ before.current
      → h.enabled ≡ before.enabled
      → Ends revision enabling before (switch_to revision boot fallback enabling h)
  unfolding materialize_and_start
  switch_to-Ends boot fallback h same e = choose (contains revision h.revisions) _ (started boot)
    where
      enabled_by :
          (x : Enabling)
          → enabling ≡ x
          → Ends revision enabling before (
              finish_enable revision h.enabled fallback x
                (materialize_and_start healthy revision (stop h)))
      enabled_by accepted i = (i, refl, refl, refl)
      enabled_by refused i = (e, inr (inr (i, refl)))

      started :
          (b : Boot)
          → Ends revision enabling before (
              finish_enable revision h.enabled fallback enabling
                (materialize_and_start b revision (stop h)))
      started healthy = enabled_by enabling refl
      started unhealthy = fall_back-Ends h.enabled fallback (stop (stop h)) refl e refl
      started broken = (e, inr (inl (inl refl)))

      choose :
          (b : Bool) (x : Result HostError String × Host)
          → Ends revision enabling before x
          → Ends revision enabling before (if b then x else (raise key_error, h))
      choose true x k = k
      choose false x k = (e, inl same)

-- However enabling a revision ends, on any host. If it returns, the revision is enabled and its worker
-- runs. If it raises, the enabled revision is the one before, and the worker is the one before, or none
-- runs, or that of the enabled revision, unless `SystemGraph.enable_revision` has raised: then the
-- worker of the new revision may be left running.
pub enable_revision-Ends :
    (other : Bool) (revision : String) (boot fallback : Boot) (enabling : Enabling) (h : Host)
    → Ends revision enabling h (enable_revision other revision boot fallback enabling h)
unfolding enable_revision acquire
enable_revision-Ends other revision boot fallback enabling h = choose (held h.lock)
  where
    switched :
        (l : HostLock)
        → Ends revision enabling h
            (switch_to revision boot fallback enabling (record h { lock = l }))
    switched l = switch_to-Ends revision enabling h boot fallback (record h { lock = l }) refl refl

    after_lock :
        (x : Result HostError (Unit {0}) × HostLock)
        → Ends revision enabling h
            (continue (with_lock x h) (λ _. switch_to revision boot fallback enabling))
    after_lock (ok u, l) = switched l
    after_lock (raise e, l) = (refl, inl refl)

    choose :
        (b : Bool)
        → Ends revision enabling h (
            continue
              ((if b then pure tt else acquire other) h)
              (λ _. switch_to revision boot fallback enabling))
    choose true = switched h.lock
    choose false = after_lock (acquire_lock other h.lock)

-- On a host that holds its lock and has the revision: when the worker of the revision does not become
-- healthy and that of the enabled one does, the error is raised and the enabled one's worker runs.
pub enable_revision-falls_back :
    (other : Bool) (revision previous : String) (enabling : Enabling) (h : Host)
    → held h.lock ≡ true
    → contains revision h.revisions ≡ true
    → h.enabled ≡ some previous
    → enable_revision other revision unhealthy healthy enabling h
      ≡ (raise worker_boot_error, record h { current = some previous })
unfolding enable_revision materialize_and_start
enable_revision-falls_back other revision previous enabling h locked known e =
    rw (locked, known, e) refl
