-- ===== src/Graph/Records.antt =====
-- `RecordCollection` of graph/repositories.py over one node label of `InMemoryGraphStore`
-- (testing/graph_store.py): rows in the order of their first save, keyed by the identity.
use n4x_core.Prelude.{
  String, ◌≡◌, refl, Option, none, some, List, [], ◌∷◌, map, arith, eq_iff, ◌==◌, if◌then◌else◌,
  All, Bool-cases, inl, inr, any, filter, true, false, Bool, ◌⊎◌, some_injective, sym, ap, ◌∙◌,
}

pub record RecordCollection {ℓ} (V : Type ℓ) : Type ℓ where
  pub rows : List (String × V)

module _ {ℓ} {V : Type ℓ} where
  pub empty : RecordCollection V
  empty = record { rows = [] }

  abbrev pub get_row : String → List (String × V) → Option V
  get_row k [] = none
  get_row k ((j, v) ∷ rows) = if j == k then some v else get_row k rows

  abbrev pub upsert_row : String → V → List (String × V) → List (String × V)
  upsert_row k v [] = (k, v) ∷ []
  upsert_row k v ((j, w) ∷ rows) = if j == k then (j, v) ∷ rows else (j, w) ∷ upsert_row k v rows

  unfoldable pub get : RecordCollection V → String → Option V
  get c key = get_row key c.rows

  unfoldable pub save : RecordCollection V → String → V → RecordCollection V
  save c key value = record { rows = upsert_row key value c.rows }

  unfoldable pub values : RecordCollection V → List V
  values c = map (λ r. r.1) c.rows

  pub get-upsert_row :
      (k j : String) (v : V) (rows : List (String × V))
      → get_row j (upsert_row k v rows) ≡ (if k == j then some v else get_row j rows)
  get-upsert_row k j v [] = refl
  get-upsert_row k j v ((i, w) ∷ rows) =
      ground (arith, eq_iff k j, eq_iff i k, eq_iff i j, get-upsert_row k j v rows)

  pub get-save :
      (c : RecordCollection V) (k j : String) (v : V)
      → get (save c k v) j ≡ (if k == j then some v else get c j)
  unfolding get save
  get-save c k j v = get-upsert_row k j v c.rows

  -- Each row stands under the identity of its record.
  abbrev pub IsKeyed : (V → String) → RecordCollection V → Type 0
  IsKeyed id_of c = All (λ (r : String × V). id_of r.1 ≡ r.0) c.rows

  rows_keyed :
      (id_of : V → String) (v : V) (rows : List (String × V))
      → All (λ (r : String × V). id_of r.1 ≡ r.0) rows
      → All (λ (r : String × V). id_of r.1 ≡ r.0) (upsert_row (id_of v) v rows)
  rows_keyed id_of v [] k = (refl, tt)
  rows_keyed id_of v ((j, w) ∷ rows) k = elim (Bool-cases (j == id_of v)) [
    | inl e ↦ rw e ((ground (arith, eq_iff j (id_of v))), k.1)
    | inr e ↦ rw e (k.0, rows_keyed id_of v rows k.1)
  ]

  pub IsKeyed-save :
      (id_of : V → String) (c : RecordCollection V) (v : V)
      → IsKeyed id_of c
      → IsKeyed id_of (save c (id_of v) v)
  unfolding save
  IsKeyed-save id_of c v h = rows_keyed id_of v c.rows h

  -- What `get` finds is among the values.
  get_row-any :
      (id_of : V → String) (test : V → Bool) (k : String) (rows : List (String × V)) (v : V)
      → All (λ (r : String × V). id_of r.1 ≡ r.0) rows
      → get_row k rows ≡ some v
      → test v ≡ true
      → any (λ w. id_of w == k) (filter test (map (λ r. r.1) rows)) ≡ true
  get_row-any id_of test k [] v h e t = cc
  get_row-any id_of test k ((j, w) ∷ rows) v h e t =
      ground (arith, eq_iff j k, eq_iff (id_of w) k, h.0, get_row-any id_of test k rows v h.1)

  pub get-any :
      (id_of : V → String) (test : V → Bool) (c : RecordCollection V) (k : String) (v : V)
      → IsKeyed id_of c
      → get c k ≡ some v
      → test v ≡ true
      → any (λ w. id_of w == k) (filter test (values c)) ≡ true
  unfolding get values
  get-any id_of test c k v h e t = get_row-any id_of test k c.rows v h e t

module _ {ℓ} {V : Type ℓ} where
  -- What stands under an identity after a save: the saved value, or what stood there before.
  pub get-save-cases :
      (c : RecordCollection V) (k j : String) (v : V) {w : V}
      → get (save c k v) j ≡ some w
      → ((k ≡ j) × (v ≡ w)) ⊎ ((¬ (k ≡ j)) × (get c j ≡ some w))
  get-save-cases c k j v {w} h = elim (Bool-cases (k == j)) [
    | inl e ↦ inl (ground (arith, eq_iff k j), some_injective (saved true e))
    | inr e ↦ inr ((λ p. ground (arith, eq_iff k j)), saved false e)
  ]
    where
      saved : (b : Bool) → (k == j) ≡ b → (if b then some v else get c j) ≡ some w
      saved b e = sym (ap (λ x. if x then some v else get c j) e) ∙ sym (get-save c k j v) ∙ h

  pub get-save-same : (c : RecordCollection V) (k : String) (v : V) → get (save c k v) k ≡ some v
  get-save-same c k v = ground (arith, eq_iff k k, get-save c k k v)

  pub get-save-other :
      (c : RecordCollection V) (k j : String) (v : V) {w : V}
      → ¬ (k ≡ j)
      → get c j ≡ some w
      → get (save c k v) j ≡ some w
  get-save-other c k j v ne h = ground (arith, eq_iff k j, get-save c k j v)
