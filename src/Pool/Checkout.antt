-- ===== src/Pool/Checkout.antt =====
-- What `checkout` hands out, whom it evicts, and when it refuses.
use mathlib.Core.Logic.{◌↔◌}
use n4x_core.Prelude.{
  ℕ, ◌≤◌, ◌<◌, ◌≡◌, refl, subst, Bool, true, false, not, ◌&&◌, Option, none, some, List, [], ◌∷◌,
  arith, eq_iff, leb, ltb, if◌then◌else◌, find, filter, All, Bool-cases, inl, inr,
}
use n4x_core.Prelude.Result.{Result, ok, raise}
use n4x_core.Pool.{
  Key, PooledChild, ActionPool, Failure, shut_down, full, Decision, reuse, spawn, trim,
  checkout_begin, take_idle, make_room, occupancy, min_released, least_released, lru_idle_locked,
  is_reusable, key_eq,
}
use n4x_core.Pool.Shrinking.{trim-IsShrunk}
use n4x_core.Pool.Leases.{NotIn, Shared, IsFree, Reach}
use n4x_core.Pool.Leases.Safety.{start, Reach-start-IsSafe}

key_eq→≡ : (a b : Key) → key_eq a b ≡ true → a ≡ b
key_eq→≡ a b h = ground (
  arith,
  eq_iff a.revision_id b.revision_id,
  eq_iff a.data_space_id b.data_space_id,
  eq_iff a.python_executable b.python_executable,
)

module _ (leases : List ℕ) (alive : ℕ → Bool) (key : Key) where
  abbrev Lent : PooledChild → Type 0
  Lent c = NotIn c.object leases × (c.key ≡ key) × (alive c.pid ≡ true)

  abbrev Lends : Result Failure Decision → Type 0
  Lends (ok (reuse c)) = Lent c
  Lends (ok spawn) = Unit
  Lends (raise e) = Unit

  reusable-Lent : (c : PooledChild) → IsFree leases c → is_reusable alive key c ≡ true → Lent c
  reusable-Lent c free h = (free (ground arith), key_eq→≡ c.key key (ground arith), ground arith)

  find-Lends :
      (cs : List PooledChild) (p : ActionPool)
      → All (IsFree leases) cs
      → Lends (take_idle (find (is_reusable alive key) cs) p).0
  unfolding take_idle make_room
  find-Lends [] p h = elim (Bool-cases (ltb 0 p.max_size && leb p.max_size (occupancy p))) [
    | inl e ↦ rw e (room (lru_idle_locked p))
    | inr e ↦ rw e tt
  ]
    where
      room : (o : Option PooledChild) → Lends (make_room o p).0
      room none = tt
      room (some v) = tt
  find-Lends (c ∷ cs) p h = elim (Bool-cases (is_reusable alive key c)) [
    | inl e ↦ rw e (reusable-Lent c h.0 e)
    | inr e ↦ rw e (find-Lends cs p h.1)
  ]

  checkout_begin-Lends :
      (now : ℕ) (p : ActionPool)
      → All (IsFree leases) p.children
      → Lends (checkout_begin alive key now p).0
  unfolding checkout_begin
  checkout_begin-Lends now p free = choose p.closed _ (
      find-Lends (trim key now p).children (trim key now p)
        ((trim-IsShrunk key now p).keep (IsFree leases) free))
    where
      choose :
          (b : Bool) (x : Result Failure Decision × ActionPool)
          → Lends x.0
          → Lends (if b then (raise shut_down, p) else x).0
      choose true x hx = tt
      choose false x hx = hx

-- A child that `checkout` takes from the pool, in any state that callers can bring about, is held
-- by no caller, answers to exactly the key asked for, and its process runs.
pub reuse-Lent :
    (max_size idle_seconds : ℕ) (s : Shared) (alive : ℕ → Bool) (key : Key) (now : ℕ)
    (c : PooledChild) (q : ActionPool)
    → Reach (start max_size idle_seconds) s
    → checkout_begin alive key now s.pool ≡ (ok (reuse c), q)
    → NotIn c.object s.leases × (c.key ≡ key) × (alive c.pid ≡ true)
reuse-Lent m i s alive key now c q r e =
    subst (λ (x : Result Failure Decision × ActionPool). Lends s.leases alive key x.0) e
      (checkout_begin-Lends s.leases alive key now s.pool (Reach-start-IsSafe m i s r).free)

abbrev IsLeast : PooledChild → PooledChild → Type 0
IsLeast v c = c.busy ≡ false → v.released_at ≤ c.released_at

min_released-le :
    (best : PooledChild) (cs : List PooledChild)
    → ((min_released best cs).released_at ≤ best.released_at)
      × All (λ c. (min_released best cs).released_at ≤ c.released_at) cs
unfolding min_released
min_released-le best [] = (omega arith, tt)
min_released-le best (c ∷ cs) =
    step (ltb c.released_at best.released_at) refl (min_released-le c cs) (min_released-le best cs)
  where
    step :
        (b : Bool)
        → ltb c.released_at best.released_at ≡ b
        → ((min_released c cs).released_at ≤ c.released_at)
          × All (λ d. ((min_released c cs).released_at ≤ d.released_at)) cs
        → ((min_released best cs).released_at ≤ best.released_at)
          × All (λ d. ((min_released best cs).released_at ≤ d.released_at)) cs
        → ((min_released (if b then c else best) cs).released_at ≤ best.released_at)
          × All
              (λ d. ((min_released (if b then c else best) cs).released_at ≤ d.released_at))
              (c ∷ cs)
    step true e hc hb = (ground arith, (hc.0, hc.1))
    step false e hc hb = (hb.0, (ground arith, hb.1))

-- The idle children are a part of the children.
idle-IsLeast :
    (v : PooledChild) (cs : List PooledChild)
    → All (λ c. v.released_at ≤ c.released_at) (filter (λ c. not c.busy) cs)
    → All (IsLeast v) cs
idle-IsLeast v [] h = tt
idle-IsLeast v (c ∷ cs) h = split c.busy refl (idle-IsLeast v cs) h
  where
    split :
        (b : Bool)
        → c.busy ≡ b
        → (All (λ d. v.released_at ≤ d.released_at) (filter (λ d. not d.busy) cs)
            → All (IsLeast v) cs)
        → All
            (λ d. v.released_at ≤ d.released_at)
            (if not b then c ∷ filter (λ d. not d.busy) cs else filter (λ d. not d.busy) cs)
        → IsLeast v c × All (IsLeast v) cs
    split true e rest h = ((λ i. cc), rest h)
    split false e rest h = ((λ i. h.0), rest h.1)

min_released-keeps {ℓ} :
    (P : PooledChild → Type ℓ) (best : PooledChild) (cs : List PooledChild)
    → P best
    → All P cs
    → P (min_released best cs)
unfolding min_released
min_released-keeps P best [] hb h = hb
min_released-keeps P best (c ∷ cs) hb h = elim (Bool-cases (ltb c.released_at best.released_at)) [
  | inl e ↦ rw e (min_released-keeps P c cs h.0 h.1)
  | inr e ↦ rw e (min_released-keeps P best cs hb h.1)
]

filter-idle : (cs : List PooledChild) → All (λ c. c.busy ≡ false) (filter (λ c. not c.busy) cs)
filter-idle [] = tt
filter-idle (c ∷ cs) = split c.busy refl (filter-idle cs)
  where
    split :
        (b : Bool)
        → c.busy ≡ b
        → All (λ d. d.busy ≡ false) (filter (λ d. not d.busy) cs)
        → All
            (λ d. d.busy ≡ false)
            (if not b then c ∷ filter (λ d. not d.busy) cs else filter (λ d. not d.busy) cs)
    split true e rest = rest
    split false e rest = (e, rest)

least-eq-some :
    (cs : List PooledChild) (v : PooledChild)
    → All (λ c. c.busy ≡ false) cs
    → least_released cs ≡ some v
    → (v.busy ≡ false) × All (λ c. v.released_at ≤ c.released_at) cs
least-eq-some [] v idle h = cc
least-eq-some (c ∷ cs) v idle h =
    let same : min_released c cs ≡ v = cc in
    subst
      (λ (w : PooledChild). (w.busy ≡ false) × All (λ d. w.released_at ≤ d.released_at) (c ∷ cs))
      same (min_released-keeps (λ d. d.busy ≡ false) c cs idle.0 idle.1, min_released-le c cs)

-- The child that a full pool gives up is idle, and no idle child of the pool was released before
-- it.
pub lru_idle_locked-IsLeast :
    (pool : ActionPool) (v : PooledChild)
    → lru_idle_locked pool ≡ some v
    → (v.busy ≡ false) × All (λ c. c.busy ≡ false → v.released_at ≤ c.released_at) pool.children
unfolding lru_idle_locked
lru_idle_locked-IsLeast pool v h =
    let found = least-eq-some _ v (filter-idle pool.children) h in
    (found.0, idle-IsLeast v pool.children found.1)

abbrev pub AllBusy : ActionPool → Type 0
AllBusy p = All (λ c. c.busy ≡ true) p.children

find-busy :
    (alive : ℕ → Bool) (key : Key) (cs : List PooledChild)
    → All (λ c. c.busy ≡ true) cs
    → find (is_reusable alive key) cs ≡ none
find-busy alive key [] h = refl
find-busy alive key (c ∷ cs) h = ground (arith, find-busy alive key cs h.1, h.0)

least-busy :
    (cs : List PooledChild)
    → (least_released (filter (λ c. not c.busy) cs) ≡ none) ↔ All (λ c. c.busy ≡ true) cs
least-busy [] = ((λ h. tt), λ h. refl)
least-busy (c ∷ cs) = split c.busy refl (least-busy cs)
  where
    rest : List PooledChild
    rest = filter (λ d. not d.busy) cs

    split :
        (b : Bool)
        → c.busy ≡ b
        → (least_released (filter (λ d. not d.busy) cs) ≡ none) ↔ All (λ d. d.busy ≡ true) cs
        → (least_released
              (if not b then c ∷ filter (λ d. not d.busy) cs else filter (λ d. not d.busy) cs)
            ≡ none)
          ↔ ((c.busy ≡ true) × All (λ d. d.busy ≡ true) cs)
    split true e ih = ((λ h. (e, ih.0 h)), λ h. ih.1 h.1)
    split false e ih = ((λ h. cc), λ h. absurd (ground (arith, h.0)))

take_idle-full :
    (o : Option PooledChild) (q : ActionPool)
    → (take_idle o q).0 ≡ raise full
    → (0 < q.max_size) × (q.max_size ≤ occupancy q) × AllBusy q
unfolding take_idle make_room
take_idle-full (some c) q h = cc
take_idle-full none q h = elim (Bool-cases (ltb 0 q.max_size && leb q.max_size (occupancy q))) [
  | inl e ↦ (ground arith, ground arith, (least-busy q.children).0 (none_left e))
  | inr e ↦ absurd (ground arith)
]
  where
    none_left :
        (ltb 0 q.max_size && leb q.max_size (occupancy q)) ≡ true
        → least_released (filter (λ c. not c.busy) q.children) ≡ none
    none_left e = unfold lru_idle_locked in ground arith

full-take_idle :
    (alive : ℕ → Bool) (key : Key) (q : ActionPool)
    → (0 < q.max_size) × (q.max_size ≤ occupancy q) × AllBusy q
    → (take_idle (find (is_reusable alive key) q.children) q).0 ≡ raise full
unfolding take_idle make_room lru_idle_locked
full-take_idle alive key q h =
    rw (find-busy alive key q.children h.2) (ground (arith, (least-busy q.children).1 h.2))

-- An open pool refuses a checkout as full exactly when its size is positive, and after reaping and
-- eviction its children and reservations reach the size and every child is busy.
pub checkout_begin-full :
    (alive : ℕ → Bool) (key : Key) (now : ℕ) (p : ActionPool)
    → p.closed ≡ false
    → ((checkout_begin alive key now p).0 ≡ raise full)
      ↔ ((0 < p.max_size) × (p.max_size ≤ occupancy (trim key now p)) × AllBusy (trim key now p))
unfolding checkout_begin
checkout_begin-full alive key now p open_pool =
    let q = trim key now p in
    let size : q.max_size ≡ p.max_size = (trim-IsShrunk key now p).max_size in
    simp (open_pool, ← size)
      (take_idle-full (find (is_reusable alive key) q.children) q, full-take_idle alive key q)
