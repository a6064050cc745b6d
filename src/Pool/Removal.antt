-- ===== src/Pool/Removal.antt =====
-- How the removals of the pool act on its list of children, where each object is listed once.
use n4x_core.Prelude.{
  ℕ, ◌+◌, ◌≤◌, ◌≡◌, refl, ◌≢◌, Bool, true, false, not, List, [], ◌∷◌, arith, nat_eq, length, filter,
  any, All, All-filter, Bool-cases, inl, inr,
}
use n4x_core.Pool.{PooledChild, ActionPool, remove_child, kill_locked, kill_all, kill_where}

abbrev pub Unique : List PooledChild → Type 0
Unique [] = Unit
Unique (c ∷ cs) = All (λ d. d.object ≢ c.object) cs × Unique cs

pub remove_all : List PooledChild → List PooledChild → List PooledChild
remove_all [] cs = cs
remove_all (v ∷ vs) cs = remove_all vs (remove_child v.object cs)

module _ {ℓ} (P : PooledChild → Type ℓ) where
  pub All-remove_child : (o : ℕ) (cs : List PooledChild) → All P cs → All P (remove_child o cs)
  unfolding remove_child
  All-remove_child o [] h = tt
  All-remove_child o (c ∷ cs) h = elim (Bool-cases (nat_eq c.object o)) [
    | inl e ↦ rw e h.1
    | inr e ↦ rw e (h.0, All-remove_child o cs h.1)
  ]

  pub All-remove_all : (vs cs : List PooledChild) → All P cs → All P (remove_all vs cs)
  unfolding remove_all
  All-remove_all [] cs h = h
  All-remove_all (v ∷ vs) cs h =
      All-remove_all vs (remove_child v.object cs) (All-remove_child v.object cs h)

pub remove_child-Unique : (o : ℕ) (cs : List PooledChild) → Unique cs → Unique (remove_child o cs)
unfolding remove_child
remove_child-Unique o [] u = tt
remove_child-Unique o (c ∷ cs) u = elim (Bool-cases (nat_eq c.object o)) [
  | inl e ↦ rw e u.1
  | inr e ↦ rw e (All-remove_child _ o cs u.0, remove_child-Unique o cs u.1)
]

pub remove_all-Unique : (vs cs : List PooledChild) → Unique cs → Unique (remove_all vs cs)
unfolding remove_all
remove_all-Unique [] cs u = u
remove_all-Unique (v ∷ vs) cs u =
    remove_all-Unique vs (remove_child v.object cs) (remove_child-Unique v.object cs u)

pub length-remove_child-le :
    (o : ℕ) (cs : List PooledChild) → length (remove_child o cs) ≤ length cs
unfolding remove_child
length-remove_child-le o [] = omega arith
length-remove_child-le o (c ∷ cs) = ground (arith, length-remove_child-le o cs)

pub length-remove_child :
    (o : ℕ) (cs : List PooledChild)
    → any (λ c. nat_eq c.object o) cs ≡ true
    → length (remove_child o cs) + 1 ≡ length cs
unfolding remove_child
length-remove_child o [] h = cc
length-remove_child o (c ∷ cs) h = ground (arith, length-remove_child o cs)

pub length-remove_all-le : (vs cs : List PooledChild) → length (remove_all vs cs) ≤ length cs
unfolding remove_all
length-remove_all-le [] cs = omega arith
length-remove_all-le (v ∷ vs) cs =
    omega (
      arith,
      length-remove_all-le vs (remove_child v.object cs),
      length-remove_child-le v.object cs,
    )

-- A child of another object stays at the head.
remove_all-cons :
    (vs : List PooledChild) (c : PooledChild) (cs : List PooledChild)
    → All (λ v. v.object ≢ c.object) vs
    → remove_all vs (c ∷ cs) ≡ c ∷ remove_all vs cs
unfolding remove_all remove_child
remove_all-cons [] c cs h = refl
remove_all-cons (v ∷ vs) c cs h =
    let skip : nat_eq c.object v.object ≡ false = ground (arith, h.0) in
    rw skip (remove_all-cons vs c (remove_child v.object cs) h.1)

module _ (test : PooledChild → Bool) where
  -- To remove the children that pass a test is to keep the others.
  pub remove_all-filter :
      (cs : List PooledChild)
      → Unique cs
      → remove_all (filter test cs) cs ≡ filter (λ c. not (test c)) cs
  unfolding remove_all remove_child
  remove_all-filter [] u = refl
  remove_all-filter (c ∷ cs) u = ground (
    arith,
    remove_all-filter cs u.1,
    remove_all-cons (filter test cs) c cs (All-filter (λ d. d.object ≢ c.object) test cs u.0),
  )

pub children-kill_all :
    (vs : List PooledChild) (pool : ActionPool)
    → (kill_all vs pool).children ≡ remove_all vs pool.children
unfolding kill_all kill_locked remove_all
children-kill_all [] pool = refl
children-kill_all (v ∷ vs) pool = children-kill_all vs (kill_locked v pool)

pub kill_where-eq-kill_all :
    (test : PooledChild → Bool) (cs : List PooledChild) (pool : ActionPool)
    → kill_where test cs pool ≡ kill_all (filter test cs) pool
unfolding kill_where kill_all
kill_where-eq-kill_all test [] pool = refl
kill_where-eq-kill_all test (c ∷ cs) pool = elim (Bool-cases (test c)) [
  | inl e ↦ rw e (kill_where-eq-kill_all test cs (kill_locked c pool))
  | inr e ↦ rw e (kill_where-eq-kill_all test cs pool)
]
