-- ===== src/Graph/Bindings.antt =====
-- What a revision is bound to: `RevisionBindings._targets` of graph/bindings.py.
use n4x_core.Prelude.{String, ◌≡◌, ap, some_injective, Option, none, some, List, [], ◌∷◌}
use n4x_core.Prelude.Result.{Result, ok, raise, ◌>>=◌, ok_injective, raise-not-ok}
use n4x_core.Graph.Records
use n4x_core.Graph.Records.{RecordCollection}
use n4x_core.Graph.Edges.{EdgeRecord, node_ref, list_edges}

-- `collection[key]`; `missing` is its `KeyError`.
unfoldable pub get_item {ℓ κ} :
    {E : Type κ} {V : Type ℓ} → E → RecordCollection V → String → Result E V
get_item missing c key = elim (Records.get c key) [ none ↦ raise missing | some v ↦ ok v ]

unfoldable pub targets {ℓ κ} :
    {E : Type κ} {V : Type ℓ} → E → RecordCollection V → List EdgeRecord → Result E (List V)
targets missing c [] = ok []
targets missing c (e ∷ es) = do
  item ← get_item missing c e.to_ref.id
  items ← targets missing c es
  ok (item ∷ items)

-- The targets of one type of edge of an application's revision.
abbrev pub bound {ℓ κ} :
    {E : Type κ} {V : Type ℓ}
    → E
    → RecordCollection V
    → String
    → String
    → List EdgeRecord
    → Result E (List V)
bound missing c application_revision_id edge_type edges =
    targets missing c
      (list_edges (node_ref "ApplicationRevision" application_revision_id) edge_type edges)

pub get_item-eq-ok {ℓ κ} :
    {E : Type κ} {V : Type ℓ} (missing : E) (c : RecordCollection V) (key : String) {v : V}
    → get_item missing c key ≡ ok v
    → Records.get c key ≡ some v
unfolding get_item
get_item-eq-ok {E} {V} missing c key {v} h = by_row (Records.get c key) h
  where
    by_row : (o : Option V) → (elim o [ none ↦ raise missing | some w ↦ ok w ]) ≡ ok v → o ≡ some v
    by_row none p = absurd (raise-not-ok p)
    by_row (some w) p = ap (λ x. some x) (ok_injective p)

pub get_item-some {ℓ κ} :
    {E : Type κ} {V : Type ℓ} (missing : E) (c : RecordCollection V) (key : String) {v : V}
    → Records.get c key ≡ some v
    → get_item missing c key ≡ ok v
unfolding get_item
get_item-some {E} {V} missing c key {v} h = by_row (Records.get c key) h
  where
    by_row : (o : Option V) → o ≡ some v → (elim o [ none ↦ raise missing | some w ↦ ok w ]) ≡ ok v
    by_row none p = absurd (cc p)
    by_row (some w) p = ap (λ x. ok x) (some_injective p)
