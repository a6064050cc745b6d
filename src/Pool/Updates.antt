-- ===== src/Pool/Updates.antt =====
-- Assignments to the attributes of one child, and the choice of the least recently released.
use n4x_core.Prelude.{
  ℕ, ◌≡◌, ◌≢◌, refl, Bool, true, false, not, some, List, [], ◌∷◌, arith, ltb, nat_eq, if◌then◌else◌,
  filter, any, any-filter, All, length, Bool-cases, inl, inr,
}
use n4x_core.Pool.{
  PooledChild, ActionPool, update_child, min_released, least_released, lru_idle_locked,
}
use n4x_core.Pool.Removal.{Unique}

module _ (o : ℕ) (f : PooledChild → PooledChild) where
  pub length-update_child : (cs : List PooledChild) → length (update_child o f cs) ≡ length cs
  unfolding update_child
  length-update_child [] = refl
  length-update_child (c ∷ cs) = ground (arith, length-update_child cs)

  -- In a list without repetitions the one child of that object changes, and no other.
  pub All-update_child {ℓ κ} :
      (P : PooledChild → Type ℓ) (Q : PooledChild → Type κ)
      → ((c : PooledChild) → c.object ≢ o → P c → Q c)
      → ((c : PooledChild) → c.object ≡ o → P c → Q (f c))
      → (cs : List PooledChild) → Unique cs
      → All P cs
      → All Q (update_child o f cs)
  unfolding update_child
  All-update_child P Q other this [] u h = tt
  All-update_child P Q other this (c ∷ cs) u h = elim (Bool-cases (nat_eq c.object o)) [
    | inl e ↦ let same : c.object ≡ o = ground arith in rw e (this c same h.0, rest same cs u.0 h.1)
    | inr e ↦ rw e (other c (λ same. ground arith) h.0, All-update_child P Q other this cs u.1 h.1)
  ]
    where
      rest :
          {k : ℕ}
          → k ≡ o
          → (ds : List PooledChild) → All (λ d. d.object ≢ k) ds
          → All P ds
          → All Q ds
      rest same [] n p = tt
      rest same (d ∷ ds) n p = (other d (λ e. n.0 (ground arith)) p.0, rest same ds n.1 p.1)

  All-object :
      (k : ℕ) (keeps : (c : PooledChild) → (f c).object ≡ c.object) (cs : List PooledChild)
      → All (λ d. d.object ≢ k) cs
      → All (λ d. d.object ≢ k) (update_child o f cs)
  unfolding update_child
  All-object k keeps [] h = tt
  All-object k keeps (c ∷ cs) h = elim (Bool-cases (nat_eq c.object o)) [
    | inl e ↦ rw e ((λ x. h.0 (ground (arith, keeps c))), h.1)
    | inr e ↦ rw e (h.0, All-object k keeps cs h.1)
  ]

  pub update_child-Unique :
      (keeps : (c : PooledChild) → (f c).object ≡ c.object) (cs : List PooledChild)
      → Unique cs
      → Unique (update_child o f cs)
  unfolding update_child
  update_child-Unique keeps [] u = tt
  update_child-Unique keeps (c ∷ cs) u = elim (Bool-cases (nat_eq c.object o)) [
    | inl e ↦ rw (e, keeps c) u
    | inr e ↦ rw e (All-object c.object keeps cs u.0, update_child-Unique keeps cs u.1)
  ]

any-min_released :
    (best : PooledChild) (cs : List PooledChild)
    → any (λ c. nat_eq c.object (min_released best cs).object) (best ∷ cs) ≡ true
unfolding min_released
any-min_released best [] = ground arith
any-min_released best (c ∷ cs) =
    step (ltb c.released_at best.released_at) (any-min_released c cs) (any-min_released best cs)
  where
    chosen : PooledChild → PooledChild → Bool
    chosen start x = nat_eq x.object (min_released start cs).object

    step :
        (b : Bool)
        → any (chosen c) (c ∷ cs) ≡ true
        → any (chosen best) (best ∷ cs) ≡ true
        → any (chosen (if b then c else best)) (best ∷ c ∷ cs) ≡ true
    step true hc hb = ground arith
    step false hc hb = ground arith

any-least_released :
    (cs : List PooledChild) (v : PooledChild)
    → least_released cs ≡ some v
    → any (λ c. nat_eq c.object v.object) cs ≡ true
any-least_released [] v h = cc
any-least_released (c ∷ cs) v h = ground (arith, any-min_released c cs)

-- The victim is one of the pool's children.
pub any-lru_idle_locked :
    (pool : ActionPool) (v : PooledChild)
    → lru_idle_locked pool ≡ some v
    → any (λ c. nat_eq c.object v.object) pool.children ≡ true
unfolding lru_idle_locked
any-lru_idle_locked pool v h =
    any-filter _ (λ c. not c.busy) pool.children
      (any-least_released (filter (λ c. not c.busy) pool.children) v h)
