-- ===== src/Host/Steps.antt =====
-- The calls of `Host` that change it, in any order.
use n4x_core.Prelude.{
  String, ◌≡◌, refl, sym, ◌∙◌, ◌⊎◌, inl, inr, Bool, true, false, Option, List, [], ◌∷◌, none, some,
  contains, arith, eq_iff,
}
use n4x_core.Prelude.Result.{Result, ok, raise}
use n4x_core.Prelude.Exec.{continue, pure}
use n4x_core.Host.{
  HostError, Boot, healthy, unhealthy, broken, Enabling, accepted, refused, HostLock, Host, acquire,
  acquire_lock, with_lock, materialize_and_start, release, import_archive, boot_with, boot_active,
  enable_revision,
}
use n4x_core.Host.Enabled.{IsServing, Ends, enable_revision-Ends}

-- The calls that change a host.
pub data Step : Host → Host → Type 0 where
  booted :
      {h : Host} (other : Bool) (official : Option String) (boot : Boot)
      → Step h (boot_active other official boot h).1
  enabled :
      {h : Host} (other : Bool) (revision : String) (boot fallback : Boot) (enabling : Enabling)
      → Step h (enable_revision other revision boot fallback enabling h).1
  imported : {h : Host} (official : Option String) → Step h (import_archive official false h).1
  released : {h : Host} → Step h (release h)

pub data Reach (h : Host) : Host → Type 0 where
  here : Reach h h
  next : {s t : Host} → Reach h s → Step s t → Reach h t

-- The revisions whose enabling the graph has refused.
abbrev pub refused_by : {s t : Host} → Step s t → List String → List String
refused_by (enabled other revision boot fallback refused) rs = revision ∷ rs
refused_by (enabled other revision boot fallback accepted) rs = rs
refused_by (booted other official boot) rs = rs
refused_by (imported official) rs = rs
refused_by released rs = rs

abbrev pub refused_in : {h t : Host} → Reach h t → List String
refused_in here = []
refused_in (next r step) = refused_by step (refused_in r)

-- The host serves, or runs a revision that the graph has refused.
abbrev pub ServesBut : List String → Host → Type 0
ServesBut rs h = IsServing h ⊎ ((r : String) × (h.current ≡ some r) × (contains r rs ≡ true))

-- A host with the same worker and the same enabled revision.
moved-ServesBut :
    (rs : List String) (h t : Host)
    → t.current ≡ h.current
    → t.enabled ≡ h.enabled
    → ServesBut rs h
    → ServesBut rs t
moved-ServesBut rs h t c e (inl (inl idle)) = inl (inl (c ∙ idle))
moved-ServesBut rs h t c e (inl (inr same)) = inl (inr (c ∙ same ∙ sym e))
moved-ServesBut rs h t c e (inr (r, runs, k)) = inr (r, c ∙ runs, k)

returned-ServesBut :
    (rs : List String) (x : Result HostError (Unit {0}) × Host) (revision : String)
    → ServesBut rs x.1
    → ServesBut rs (continue x (λ _. pure {E = HostError} revision)).1
returned-ServesBut rs (ok u, h) revision k = k
returned-ServesBut rs (raise e, h) revision k = k

-- A start while a worker runs changes nothing.
start-ServesBut :
    (rs : List String) (boot : Boot) (revision : String) (h : Host)
    → ServesBut rs h
    → h.enabled ≡ some revision
    → ServesBut rs (materialize_and_start boot revision h).1
unfolding materialize_and_start
start-ServesBut rs boot revision h (inr (r, runs, k)) e = rw runs (inr (r, refl, k))
start-ServesBut rs boot revision h (inl (inr same)) e = rw (same ∙ e) (inl (inr (sym e)))
start-ServesBut rs healthy revision h (inl (inl idle)) e = rw idle (inl (inr (sym e)))
start-ServesBut rs unhealthy revision h (inl (inl idle)) e = rw idle (inl (inl refl))
start-ServesBut rs broken revision h (inl (inl idle)) e = rw idle (inl (inl refl))

boot_with-ServesBut :
    (rs : List String) (o official : Option String) (boot : Boot) (h : Host)
    → h.enabled ≡ o
    → ServesBut rs h
    → ServesBut rs (boot_with o official boot h).1
unfolding import_archive
boot_with-ServesBut rs (some revision) official boot h e k =
    returned-ServesBut rs (materialize_and_start boot revision h) revision
      (start-ServesBut rs boot revision h k e)
boot_with-ServesBut rs none none boot h e k = k
boot_with-ServesBut rs none (some official) boot h e k =
    returned-ServesBut rs (materialize_and_start boot official imported) official
      (start-ServesBut rs boot official imported (still k) refl)
  where
    imported : Host
    imported = record h { revisions = official ∷ h.revisions; enabled = some official }

    still : ServesBut rs h → ServesBut rs imported
    still (inl (inl idle)) = inl (inl idle)
    still (inl (inr same)) = inl (inl (same ∙ e))
    still (inr runs) = inr runs

boot_active-ServesBut :
    (rs : List String) (other : Bool) (official : Option String) (boot : Boot) (h : Host)
    → ServesBut rs h
    → ServesBut rs (boot_active other official boot h).1
unfolding boot_active acquire
boot_active-ServesBut rs other official boot h k = locked (acquire_lock other h.lock)
  where
    locked :
        (x : Result HostError (Unit {0}) × HostLock)
        → ServesBut rs (continue (with_lock x h) (λ _ s. boot_with s.enabled official boot s)).1
    locked (ok u, l) = boot_with-ServesBut rs h.enabled official boot (record h { lock = l }) refl k
    locked (raise e, l) = k

more-ServesBut : (r : String) (rs : List String) (h : Host) → ServesBut rs h → ServesBut (r ∷ rs) h
more-ServesBut r rs h (inl serving) = inl serving
more-ServesBut r rs h (inr (q, runs, k)) = inr (q, runs, ground arith)

Ends-ServesBut :
    (rs : List String) (revision : String) (enabling : Enabling) (h : Host)
    (x : Result HostError String × Host)
    → Ends revision enabling h x
    → ServesBut rs h
    → ((enabling ≡ refused) → contains revision rs ≡ true)
    → ServesBut rs x.1
Ends-ServesBut rs revision enabling h (ok done, t) (_, _, runs, e) k r = inl (inr (runs ∙ sym e))
Ends-ServesBut rs revision enabling h (raise f, t) (e, inl same) k r =
    moved-ServesBut rs h t same e k
Ends-ServesBut rs revision enabling h (raise f, t) (e, inr (inl serving)) k r = inl serving
Ends-ServesBut rs revision enabling h (raise f, t) (e, inr (inr (i, runs))) k r =
    inr (revision, runs, r i)

Step-ServesBut :
    (rs : List String) {s t : Host} (step : Step s t)
    → ServesBut rs s
    → ServesBut (refused_by step rs) t
unfolding import_archive release
Step-ServesBut rs {s} (booted other official boot) k =
    boot_active-ServesBut rs other official boot s k
Step-ServesBut rs {s} (enabled other revision boot fallback accepted) k =
    Ends-ServesBut rs revision accepted s _
      (enable_revision-Ends other revision boot fallback accepted s) k (λ e. cc)
Step-ServesBut rs {s} (enabled other revision boot fallback refused) k =
    Ends-ServesBut (revision ∷ rs) revision refused s _
      (enable_revision-Ends other revision boot fallback refused s) (more-ServesBut revision rs s k)
      (λ e. ground (arith, eq_iff revision revision))
Step-ServesBut rs (imported none) k = k
Step-ServesBut rs (imported (some official)) k = k
Step-ServesBut rs released k = inl (inl refl)

-- However a host that began without a worker is booted, switched, given imports and released, however
-- the starts of its workers and the changes of the graph end, and if only these calls change which
-- revision is enabled: no worker runs, or that of the
-- enabled revision, or that of a revision whose enabling the graph has refused on the way.
pub Reach-ServesBut :
    (h t : Host) (run : Reach h t) → h.current ≡ none → ServesBut (refused_in run) t
Reach-ServesBut h t here idle = inl (inl idle)
Reach-ServesBut h t (next {s} run step) idle =
    Step-ServesBut (refused_in run) step (Reach-ServesBut h s run idle)
