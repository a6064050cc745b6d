-- ===== src/Graph/InternGc.antt =====
-- graph/intern_gc.py: `delete_interned_orphans`, over a store whose nodes tell which action revision
-- they name (a callback route, an invocation or a job). Collections are named by their labels.
pub mod Ends
pub mod Live
pub mod Keeps
pub mod Held
use n4x_core.Prelude.{
  ℕ, zero, suc, String, Bool, not, ◌&&◌, ◌||◌, Option, none, some, List, [], ◌∷◌, ◌++◌, filter, any,
  map, contains, ◌==◌, if◌then◌else◌,
}
use n4x_core.Graph.Edges.{NodeRef}
use n4x_core.Graph.Store.{
  GraphStore, NodeRecord, EdgeRecord, list_nodes, inbound, delete_node, node_count,
}

abbrev pub interned_labels : List String
interned_labels =
    "SourceTree" ∷ "SourceContent" ∷ "ActionRevision" ∷ "ObjectTypeRevision"
    ∷ "RelationTypeRevision" ∷ "TriggerRevision" ∷ "TestCase" ∷ "RuntimeDependency"
    ∷ "ExperienceSurface" ∷ []

abbrev pub keeper_labels : List String
keeper_labels = "ApplicationRevision" ∷ "ExperienceRevision" ∷ "SystemRevision" ∷ "SourceTree" ∷ []

-- deleted.setdefault(label, []).append(record_id)
abbrev pub add_deleted : NodeRef → List (String × List String) → List (String × List String)
add_deleted ref [] = (ref.label, ref.id ∷ []) ∷ []
add_deleted ref ((label, ids) ∷ rows) =
    let rest = add_deleted ref rows in
    if label == ref.label then (label, ids ++ ref.id ∷ []) ∷ rows else (label, ids) ∷ rest

abbrev pub record_deleted : List NodeRef → List (String × List String) → List (String × List String)
record_deleted [] deleted = deleted
record_deleted (ref ∷ refs) deleted = record_deleted refs (add_deleted ref deleted)

module _ {M : Type 0} where
  abbrev pub delete_batch : List NodeRef → GraphStore M → GraphStore M
  delete_batch [] g = g
  delete_batch (ref ∷ refs) g = delete_batch refs (delete_node ref g)

module _ {M : Type 0} (named_action : M → Option String) where
  abbrev pub named_actions : List (NodeRecord M) → List String
  named_actions [] = []
  named_actions (n ∷ ns) = elim (named_action n.model) [
    | none ↦ named_actions ns
    | some id ↦ id ∷ named_actions ns
  ]

  unfoldable pub pinned_action_revision_ids : GraphStore M → List String
  pinned_action_revision_ids g =
      filter (λ id. not (id == ""))
        (named_actions (list_nodes "CallbackRoute" g)
          ++ named_actions (list_nodes "Invocation" g)
          ++ named_actions (list_nodes "JobRecord" g))

  -- A node that `_orphans` skips: a keeper has an edge to it, or it is a pinned action revision.
  unfoldable pub is_pinned : GraphStore M → List String → NodeRef → Bool
  is_pinned g pinned ref =
      any (λ e. contains e.from_ref.label keeper_labels) (inbound ref g)
      || ref.label == "ActionRevision" && contains ref.id pinned

  abbrev pub orphans_of : GraphStore M → List String → List String → List NodeRef
  orphans_of g pinned [] = []
  orphans_of g pinned (label ∷ labels) =
      filter (λ ref. not (is_pinned g pinned ref)) (map (λ n. n.ref) (list_nodes label g))
      ++ orphans_of g pinned labels

  unfoldable pub orphans : GraphStore M → List NodeRef
  orphans g = orphans_of g (pinned_action_revision_ids g) interned_labels

  -- The loop, on fuel: one round for each batch of orphans.
  unfoldable pub collect :
      ℕ → List (String × List String) → GraphStore M → List (String × List String) × GraphStore M
  collect zero deleted g = (deleted, g)
  collect (suc fuel) deleted g = elim (orphans g) [
    | [] ↦ (deleted, g)
    | ref ∷ refs ↦ collect fuel (record_deleted (ref ∷ refs) deleted) (delete_batch (ref ∷ refs) g)
  ]

  -- A round deletes a node at least, so a round for each node is enough.
  unfoldable pub delete_interned_orphans : GraphStore M → List (String × List String) × GraphStore M
  delete_interned_orphans g = collect (node_count g) [] g
