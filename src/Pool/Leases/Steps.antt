-- ===== src/Pool/Leases/Steps.antt =====
-- The operations of `ActionPool` as steps of one caller among others.
use n4x_core.Prelude.{
  ℕ, ◌+◌, ◌-◌, ◌<◌, ◌≢◌, refl, sym, ap, ◌∙◌, Bool, not, ◌&&◌, List, [], ◌∷◌, ◌++◌, arith, ltb,
  nat_eq, All, length, length-append, All-append, All-map, All-filter, Bool-cases, inl, inr,
}
use n4x_core.Pool.{
  Key, PooledChild, ActionPool, kill_locked, checkout_spawned, release, update_child, set_busy,
  set_idle, reserve,
}
use n4x_core.Pool.Removal.{Unique}
use n4x_core.Pool.Updates.{length-update_child, All-update_child, update_child-Unique}
use n4x_core.Pool.Shrinking.{IsShrunk, kill_locked-IsShrunk}
use n4x_core.Pool.Leases.{NotIn, IsFree, IsSafe, drop_lease, at}

pub IsShrunk-IsSafe :
    (p q : ActionPool) (leases : List ℕ) (n : ℕ)
    → IsShrunk p q
    → IsSafe (at p leases n)
    → IsSafe (at q leases n)
IsShrunk-IsSafe p q leases n k h = record {
  unique = k.unique h.unique;
  bounded =
      λ b. omega (arith, k.length_le, k.max_size, k.reserved, h.bounded (rw (← k.max_size) b));
  counted = k.reserved ∙ h.counted;
  free = k.keep (IsFree leases) h.free;
}

Unique-append :
    (c : PooledChild) (cs : List PooledChild)
    → Unique cs
    → All (λ d. d.object ≢ c.object) cs
    → Unique (cs ++ c ∷ [])
Unique-append c [] u fresh = (tt, tt)
Unique-append c (d ∷ ds) u fresh =
    (All-append _ ds (c ∷ []) u.0 ((λ e. fresh.0 (sym e)), tt), Unique-append c ds u.1 fresh.1)

All-and :
    {P Q R : PooledChild → Type 0} (f : (c : PooledChild) → P c → Q c → R c) (cs : List PooledChild)
    → All P cs
    → All Q cs
    → All R cs
All-and f [] p q = tt
All-and f (c ∷ cs) p q = (f c p.0 q.0, All-and f cs p.1 q.1)

drop_lease-NotIn : (o : ℕ) (ls : List ℕ) → NotIn o (drop_lease o ls)
drop_lease-NotIn o [] = tt
drop_lease-NotIn o (l ∷ ls) = elim (Bool-cases (nat_eq l o)) [
  | inl e ↦ rw e (drop_lease-NotIn o ls)
  | inr e ↦ rw e ((λ same. ground arith), drop_lease-NotIn o ls)
]

module _ (leases : List ℕ) (n : ℕ) (p : ActionPool) (h : IsSafe (at p leases n)) where
  -- Lending a child that was found idle.
  pub reuse-IsSafe :
      (c : PooledChild)
      → IsSafe (
          at
            (record p { children = update_child c.object set_busy p.children })
            (c.object ∷ leases)
            n)
  reuse-IsSafe c = record {
    unique = update_child-Unique c.object set_busy (λ d. refl) p.children h.unique;
    bounded = λ b. omega (arith, length-update_child c.object set_busy p.children, h.bounded b);
    counted = h.counted;
    free =
        All-update_child c.object set_busy (IsFree leases) (IsFree (c.object ∷ leases))
          (λ d ne old idle. ((λ e. ne (sym e)), old idle)) (λ d e old idle. cc) p.children h.unique
          h.free;
  }

  pub reserve-IsSafe :
      (0 < p.max_size → length p.children + p.reserved < p.max_size)
      → IsSafe (at (reserve p) leases (n + 1))
  reserve-IsSafe room = record {
    unique = h.unique;
    bounded = λ b. omega (arith, room b);
    counted = ap (λ (k : ℕ). k + 1) h.counted;
    free = h.free;
  }

  pub spawned-IsSafe :
      (key : Key) (c : PooledChild)
      → 0 < n
      → All (λ d. d.object ≢ c.object) p.children
      → IsSafe (at (checkout_spawned c key p) (c.object ∷ leases) (n - 1))
  unfolding checkout_spawned
  spawned-IsSafe key c some_spawn fresh = record {
    unique = Unique-append _ p.children h.unique fresh;
    bounded = λ b. omega (arith, length-append p.children (_ ∷ []), h.bounded b, h.counted);
    counted = ap (λ (k : ℕ). k - 1) h.counted;
    free =
        All-append (IsFree (c.object ∷ leases)) p.children _
          (All-and (λ d ne old idle. ((λ e. ne (sym e)), old idle)) p.children fresh h.free)
          ((λ idle. cc), tt);
  }

  drop_lease-IsSafe : (o : ℕ) → IsSafe (at p (drop_lease o leases) n)
  drop_lease-IsSafe o = record {
    unique = h.unique;
    bounded = h.bounded;
    counted = h.counted;
    free =
        All-map
          (λ c old idle. All-filter (λ l. l ≢ c.object) (λ l. not (nat_eq l o)) leases (old idle))
          p.children h.free;
  }

  set_idle-IsSafe :
      (o now : ℕ)
      → IsSafe (
          at
            (record p { children = update_child o (set_idle now) p.children })
            (drop_lease o leases)
            n)
  set_idle-IsSafe o now = record {
    unique = update_child-Unique o (set_idle now) (λ d. refl) p.children h.unique;
    bounded = λ b. omega (arith, length-update_child o (set_idle now) p.children, h.bounded b);
    counted = h.counted;
    free =
        All-update_child o (set_idle now) (IsFree leases) (IsFree (drop_lease o leases))
          (λ d ne old idle.
            All-filter (λ l. l ≢ d.object) (λ l. not (nat_eq l o)) leases (old idle))
          (λ d e old idle. rw e (drop_lease-NotIn o leases)) p.children h.unique h.free;
  }

  pub released-IsSafe :
      (alive : ℕ → Bool) (c : PooledChild) (retain : Bool) (now : ℕ)
      → IsSafe (at (release alive c retain now p) (drop_lease c.object leases) n)
  unfolding release
  released-IsSafe alive c retain now =
      elim (Bool-cases (retain && ltb 0 p.max_size && not p.closed && alive c.pid)) [
        | inl e ↦ rw e (set_idle-IsSafe c.object now)
        | inr e ↦ rw e (
            IsShrunk-IsSafe p (kill_locked c p) (drop_lease c.object leases) n
              (kill_locked-IsShrunk c p) (drop_lease-IsSafe c.object))
      ]
