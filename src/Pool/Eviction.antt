-- ===== src/Pool/Eviction.antt =====
-- What the evictions of `ActionPool` leave behind.
use mathlib.Core.List.{append-nil, append_assoc}
use n4x_core.Prelude.Result.{raise}
use n4x_core.Prelude.{
  map, ◌++◌, ℕ, ◌+◌, ◌≡◌, ◌≢◌, refl, ap, sym, ◌∙◌, String, Bool, true, false, not, ◌&&◌, List, [],
  ◌∷◌, ◌==◌, arith, leb, filter,
}
use n4x_core.Pool.{
  Key, PooledChild, ActionPool, kill_where, kill_all, reap_locked, evict_revision, evict_data_space,
  shutdown, shut_down, checkout_begin, is_expired, kill_locked,
}
use n4x_core.Pool.Removal.{
  Unique, remove_all, remove_all-filter, children-kill_all, kill_where-eq-kill_all,
}

pub children-kill_where :
    (test : PooledChild → Bool) (pool : ActionPool)
    → Unique pool.children
    → (kill_where test pool.children pool).children ≡ filter (λ c. not (test c)) pool.children
children-kill_where test pool u =
    ap (λ (p : ActionPool). p.children) (kill_where-eq-kill_all test pool.children pool)
    ∙ children-kill_all (filter test pool.children) pool
    ∙ remove_all-filter test pool.children u

-- After `evict_revision` the pool holds exactly the children of the other revisions, busy or
-- idle, in their order, if no child is listed twice.
children-evict_revision :
    (revision_id : String) (pool : ActionPool)
    → Unique pool.children
    → (evict_revision revision_id pool).children
      ≡ filter (λ c. not (c.key.revision_id == revision_id)) pool.children
unfolding evict_revision
children-evict_revision revision_id pool u =
    children-kill_all (filter (λ c. c.key.revision_id == revision_id) pool.children) pool
    ∙ remove_all-filter _ pool.children u

-- After `evict_data_space` the pool holds exactly the children of the other data spaces, in their
-- order, if no child is listed twice.
children-evict_data_space :
    (data_space_id : String) (pool : ActionPool)
    → Unique pool.children
    → (evict_data_space data_space_id pool).children
      ≡ filter (λ c. not (c.key.data_space_id == data_space_id)) pool.children
unfolding evict_data_space
children-evict_data_space data_space_id pool u =
    children-kill_all (filter (λ c. c.key.data_space_id == data_space_id) pool.children) pool
    ∙ remove_all-filter _ pool.children u

-- If no child is listed twice: after `evict_revision` the pool holds exactly the children of the other
-- revisions, and after `evict_data_space` exactly the children of the other data spaces, in their order.
pub children-evict :
    (revision_id data_space_id : String) (pool : ActionPool)
    → Unique pool.children
    → ((evict_revision revision_id pool).children
        ≡ filter (λ c. not (c.key.revision_id == revision_id)) pool.children)
      × ((evict_data_space data_space_id pool).children
          ≡ filter (λ c. not (c.key.data_space_id == data_space_id)) pool.children)
children-evict revision_id data_space_id pool u =
    (children-evict_revision revision_id pool u, children-evict_data_space data_space_id pool u)

-- With a positive idle limit the reaper removes exactly the idle children whose last release is
-- at least the limit ago, and keeps the others in their order, if no child is listed twice.
pub children-reap_locked :
    (now : ℕ) (pool : ActionPool)
    → 0 ≢ pool.idle_seconds
    → Unique pool.children
    → (reap_locked now pool).children
      ≡ filter (λ c. not (not c.busy && leb (c.released_at + pool.idle_seconds) now)) pool.children
unfolding reap_locked
children-reap_locked now pool positive u =
    let limit : leb pool.idle_seconds 0 ≡ false = ground arith in
    rw limit (children-kill_where (is_expired pool.idle_seconds now) pool u)

filter-none : (cs : List PooledChild) → filter (λ c. false) cs ≡ []
filter-none [] = refl
filter-none (c ∷ cs) = filter-none cs

filter-every : (cs : List PooledChild) → filter (λ c. true) cs ≡ cs
filter-every [] = refl
filter-every (c ∷ cs) = ap (◌∷◌ c) (filter-every cs)

killed-kill_all :
    (vs : List PooledChild) (pool : ActionPool)
    → (kill_all vs pool).killed ≡ pool.killed ++ map (λ c. c.object) vs
unfolding kill_all kill_locked
killed-kill_all [] pool = sym (append-nil pool.killed)
killed-kill_all (v ∷ vs) pool =
    killed-kill_all vs (kill_locked v pool)
    ∙ append_assoc pool.killed (v.object ∷ []) (map (λ c. c.object) vs)

closed-kill_all :
    (vs : List PooledChild) (pool : ActionPool) → (kill_all vs pool).closed ≡ pool.closed
unfolding kill_all kill_locked
closed-kill_all [] pool = refl
closed-kill_all (v ∷ vs) pool = closed-kill_all vs (kill_locked v pool)

-- `shutdown` kills every listed child once, in the order of the list, leaves none, and from then
-- on every checkout raises and changes nothing, if no child is listed twice.
pub shutdown_lem :
    (pool : ActionPool)
    → Unique pool.children
    → ((shutdown pool).killed ≡ pool.killed ++ map (λ c. c.object) pool.children)
      × ((shutdown pool).children ≡ [])
      × ((alive : ℕ → Bool) (key : Key) (now : ℕ)
          → checkout_begin alive key now (shutdown pool) ≡ (raise shut_down, shutdown pool))
unfolding shutdown checkout_begin
shutdown_lem pool u =
    let stopped : ActionPool = record pool { closed = true } in
    (
      killed-kill_all pool.children stopped,
      children-kill_all pool.children stopped
          ∙ ap (λ vs. remove_all vs pool.children) (sym (filter-every pool.children))
          ∙ remove_all-filter (λ c. true) pool.children u
          ∙ filter-none pool.children,
      λ alive key now. rw (closed-kill_all pool.children stopped),
    )
