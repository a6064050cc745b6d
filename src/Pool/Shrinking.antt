-- ===== src/Pool/Shrinking.antt =====
-- The operations of `ActionPool` that only kill children.
use n4x_core.Prelude.{
  ℕ, ◌≤◌, ◌≡◌, refl, ◌∙◌, String, Bool, List, [], ◌∷◌, arith, leb, filter, All, length, Bool-cases,
  inl, inr,
}
use n4x_core.Pool.{
  Key, PooledChild, ActionPool, kill_locked, kill_all, kill_where, reap_locked, evict_revision,
  evict_data_space, evict_stale_interpreters_locked, is_expired, is_stale, trim,
}
use n4x_core.Pool.Removal.{
  Unique, children-kill_all, kill_where-eq-kill_all, All-remove_all, remove_all-Unique,
  length-remove_all-le,
}

pub record IsShrunk (p q : ActionPool) : Type 1 where
  pub unique : Unique p.children → Unique q.children
  pub length_le : length q.children ≤ length p.children
  pub keep : (P : PooledChild → Type 0) → All P p.children → All P q.children
  pub max_size : q.max_size ≡ p.max_size
  pub reserved : q.reserved ≡ p.reserved
  pub closed : q.closed ≡ p.closed

IsShrunk-refl : (p : ActionPool) → IsShrunk p p
IsShrunk-refl p = record {
  unique = λ u. u;
  length_le = omega arith;
  keep = λ P h. h;
  max_size = refl;
  reserved = refl;
  closed = refl;
}

IsShrunk-trans : (p q r : ActionPool) → IsShrunk p q → IsShrunk q r → IsShrunk p r
IsShrunk-trans p q r a b = record {
  unique = λ u. b.unique (a.unique u);
  length_le = omega (arith, a.length_le, b.length_le);
  keep = λ P h. b.keep P (a.keep P h);
  max_size = b.max_size ∙ a.max_size;
  reserved = b.reserved ∙ a.reserved;
  closed = b.closed ∙ a.closed;
}

kill_all-fields :
    (vs : List PooledChild) (p : ActionPool)
    → ((kill_all vs p).max_size ≡ p.max_size)
      × ((kill_all vs p).reserved ≡ p.reserved)
      × ((kill_all vs p).closed ≡ p.closed)
unfolding kill_all kill_locked
kill_all-fields [] p = (refl, refl, refl)
kill_all-fields (v ∷ vs) p = kill_all-fields vs (kill_locked v p)

pub kill_all-IsShrunk : (vs : List PooledChild) (p : ActionPool) → IsShrunk p (kill_all vs p)
kill_all-IsShrunk vs p = record {
  unique = λ u. rw (children-kill_all vs p) (remove_all-Unique vs p.children u);
  length_le = rw (children-kill_all vs p) (length-remove_all-le vs p.children);
  keep = λ P h. rw (children-kill_all vs p) (All-remove_all P vs p.children h);
  max_size = (kill_all-fields vs p).0;
  reserved = (kill_all-fields vs p).1;
  closed = (kill_all-fields vs p).2;
}

pub kill_locked-IsShrunk : (c : PooledChild) (p : ActionPool) → IsShrunk p (kill_locked c p)
kill_locked-IsShrunk c p = unfold kill_all in kill_all-IsShrunk (c ∷ []) p

kill_where-IsShrunk :
    (test : PooledChild → Bool) (cs : List PooledChild) (p : ActionPool)
    → IsShrunk p (kill_where test cs p)
kill_where-IsShrunk test cs p =
    rw (kill_where-eq-kill_all test cs p) (kill_all-IsShrunk (filter test cs) p)

pub reap_locked-IsShrunk : (now : ℕ) (p : ActionPool) → IsShrunk p (reap_locked now p)
unfolding reap_locked
reap_locked-IsShrunk now p = elim (Bool-cases (leb p.idle_seconds 0)) [
  | inl e ↦ rw e (IsShrunk-refl p)
  | inr e ↦ rw e (kill_where-IsShrunk (is_expired p.idle_seconds now) p.children p)
]

pub trim-IsShrunk : (key : Key) (now : ℕ) (p : ActionPool) → IsShrunk p (trim key now p)
unfolding trim evict_stale_interpreters_locked
trim-IsShrunk key now p =
    let q = reap_locked now p in
    IsShrunk-trans p q _ (reap_locked-IsShrunk now p)
      (kill_where-IsShrunk (is_stale key) q.children q)

pub evict_revision-IsShrunk : (r : String) (p : ActionPool) → IsShrunk p (evict_revision r p)
unfolding evict_revision
evict_revision-IsShrunk r p = kill_all-IsShrunk _ p

pub evict_data_space-IsShrunk : (d : String) (p : ActionPool) → IsShrunk p (evict_data_space d p)
unfolding evict_data_space
evict_data_space-IsShrunk d p = kill_all-IsShrunk _ p
