-- ===== src/SourceStore/Samples.antt =====
-- A revision with one file, a store with garbage, and the theorems at these.
use mathlib.Core.List.{Memᴰ}
use n4x_core.Prelude.{
  Bool, true, false, contains, ap, subst, String, ◌≡◌, refl, ◌<>◌, none, some, List, [], ◌∷◌, ◌==◌,
  arith, eq_iff, min, filter,
}
use n4x_core.Prelude.Result.{ok}
use n4x_core.Prelude.Slices.{take}
use n4x_core.Kernel.Sources.{SourceTree, SourceFile, draft, interned}
use n4x_core.Graph.Edges.{NodeRef, node_ref}
use n4x_core.Graph.Store.{
  NodeRecord, EdgeRecord, is_from, no_props, get_node, upsert_node, list_nodes, delete_node,
  node_count, create_edge, delete_edge, list_edges, inbound, replace_single_edge,
}
use n4x_core.Graph.InternGc.{
  interned_labels, pinned_action_revision_ids, is_pinned, orphans, collect, delete_interned_orphans,
}
use n4x_core.Graph.InternGc.Ends.{delete_interned_orphans-ends}
use n4x_core.Graph.InternGc.Live.{edges_from}
use n4x_core.Graph.InternGc.Held.{IsInterned, IsHolder, own, linked, delete_interned_orphans-Held}
use n4x_core.SourceStore.State.{
  SourceGraph, Model, source_tree, source_content, in_flight, other, named_action, Hashing,
  ListedFile, tree_ref, get_tree, get_content, resolve, tree, set_tree,
}
use n4x_core.SourceStore.Trees.{
  hydrate, list_source_tree, read_source_file, listing_hash, empty_tree_hash,
}
use n4x_core.SourceStore.Files.{
  unlink_path, file_edge, keep_content, put_file, write_blob, refresh_tree_hash, delete_working,
}
use n4x_core.SourceStore.Changes.{SourceUpdate, validate_change, validate_batch, prepare}
use n4x_core.SourceStore.Updates.{
  apply_change, finish, update_files, update_tree, batch_update_working_tree,
}
use n4x_core.SourceStore.Revisions.{
  make_writable, ensure_writable, copy_tree, create_working_tree, intern, intern_tree,
  interned_or_new, move_to, update_revision, batch_update_revision,
}
use n4x_core.SourceStore.Edits.{write_update, rename_update, write_source, write_source_file}
use n4x_core.SourceStore.Contents.{IsHashed}
use n4x_core.SourceStore.Listing.{HasOneEach}
use n4x_core.SourceStore.Refines.{describe_all}
use n4x_core.SourceStore.Batches.{view}
use n4x_core.SourceStore.Bound.{IsFiled, IsBound}
use n4x_core.SourceStore.Working.{batch_update_working_tree-describes}
use n4x_core.SourceStore.Sound.{IsSound}
use n4x_core.SourceStore.Outcomes.Steps.{here, next, created, wrote, Reach-IsSound}
use n4x_core.SourceStore.Search.{kept_by, search_limit, search_source_tree}
use n4x_core.SourceStore.Search.Capped.{all_matches, search_source_tree-take}
use n4x_core.SourcePatch.Lines.{splitlines}

program : Unit {0}
unfolding get_node upsert_node list_nodes delete_node node_count create_edge delete_edge list_edges
    inbound replace_single_edge pinned_action_revision_ids is_pinned orphans collect
    delete_interned_orphans get_tree get_content resolve tree set_tree hydrate list_source_tree
    read_source_file listing_hash empty_tree_hash unlink_path keep_content put_file write_blob
    refresh_tree_hash delete_working validate_change validate_batch prepare apply_change finish
    update_files update_tree batch_update_working_tree make_writable ensure_writable copy_tree
    create_working_tree intern intern_tree interned_or_new move_to update_revision
    batch_update_revision write_source write_source_file search_source_tree splitlines
program = tt

abbrev json_of : List ListedFile → String
json_of [] = ""
json_of (file ∷ files) = file.path <> ":" <> file.hash <> ";" <> json_of files

-- A hash that is its text.
abbrev plain : Hashing
plain = record { sha256_text = λ s. s; sha256_json = json_of }

abbrev edge : NodeRef → String → NodeRef → EdgeRecord
edge from_ref edge_type to_ref = record {
  from_ref = from_ref;
  edge_type = edge_type;
  to_ref = to_ref;
  props = no_props;
}

abbrev node : String → String → Model → NodeRecord Model
node label id model = record { ref = node_ref label id; model = model }

abbrev file_a : SourceFile
file_a = record {
  source_tree_id = "w";
  path = "a";
  role = "action";
  language = "python";
  content = "x";
  content_hash = "x";
  size = 1;
}

abbrev draft_tree : SourceTree
draft_tree = record { id = "w"; status = draft; tree_hash = ""; owner_kind = none; owner_id = none }

-- A draft with the file "a", which a revision binds.
abbrev one_file : SourceGraph
one_file = record {
  nodes =
      node "ApplicationRevision" "r" other
      ∷ node "SourceTree" "w" (source_tree draft_tree)
      ∷ node "SourceContent" "x" (source_content (record { id = "x"; content = "x" }))
      ∷ [];
  edges =
      edge (node_ref "ApplicationRevision" "r") "HAS_SOURCE_TREE" (tree_ref "w")
      ∷ file_edge "w" file_a
      ∷ [];
}

one_file-IsHashed : IsHashed plain one_file
unfolding program
one_file-IsHashed id c h = ground (arith, eq_iff "x" id)

one_file-HasOneEach : HasOneEach "w" one_file
unfolding program
one_file-HasOneEach p = ground arith

one_file-IsFiled : IsFiled "w" one_file
one_file-IsFiled e (Memᴰ.head i) f =
    absurd (no (subst (λ x. is_from (tree_ref "w") "HAS_FILE" x ≡ true) i f))
  where
    no : ◌≡◌ {A = Bool} false true → ⊥
    no q = cc
one_file-IsFiled e (Memᴰ.tail (Memᴰ.head i)) f = ap (λ (x : EdgeRecord). x.to_ref.label) i
one_file-IsFiled e (Memᴰ.tail (Memᴰ.tail m)) f = elim m [ ]

-- An interned label is in the collector's table.
IsInterned-contains : (l : String) → IsInterned l → contains l interned_labels ≡ true
IsInterned-contains _ IsInterned.source_tree = refl
IsInterned-contains _ IsInterned.source_content = refl
IsInterned-contains _ IsInterned.action_revision = refl
IsInterned-contains _ IsInterned.object_type_revision = refl
IsInterned-contains _ IsInterned.relation_type_revision = refl
IsInterned-contains _ IsInterned.trigger_revision = refl
IsInterned-contains _ IsInterned.test_case = refl
IsInterned-contains _ IsInterned.runtime_dependency = refl
IsInterned-contains _ IsInterned.experience_surface = refl

revision-own : ¬ (IsInterned "ApplicationRevision")
revision-own n = no (IsInterned-contains "ApplicationRevision" n)
  where
    no : ◌≡◌ {A = Bool} false true → ⊥
    no q = cc

one_file-IsBound : IsBound "w" one_file
one_file-IsBound = (
  edge (node_ref "ApplicationRevision" "r") "HAS_SOURCE_TREE" (tree_ref "w"),
  Memᴰ.head refl,
  revision-own,
  IsHolder.application_revision,
  refl,
)

-- "a" is renamed to "b" and written over.
abbrev changes : List SourceUpdate
changes = rename_update "a" "b" (some "x") ∷ write_update "b" "y" "helper" "text" none ∷ []

abbrev after_changes : SourceGraph
after_changes = (batch_update_working_tree plain "w" changes none one_file).1

batch_update_working_tree-describes_example :
    view "w" after_changes "b" ≡ describe_all plain "w" changes (view "w" one_file) "b"
batch_update_working_tree-describes_example =
    batch_update_working_tree-describes plain "w" (λ u v e. e) changes none one_file after_changes
      (record file_a { path = "b" }
        ∷ record file_a { path = "b"; content = "y"; content_hash = "y" }
        ∷ [])
      one_file-IsHashed one_file-HasOneEach one_file-IsFiled one_file-IsBound
      (unfold program in refl) "b"

-- The role of the file that was moved is kept by the write.
role_kept :
    view "w" after_changes "b"
    ≡ some (record file_a { path = "b"; content = "y"; content_hash = "y" })
unfolding program
role_kept = refl

search_source_tree-take_example :
    search_source_tree
      (λ pattern. some (λ line. line == pattern))
      (λ path glob. path == glob)
      "w"
      "x"
      (some "a")
      1
      2
      one_file
    ≡ ok (
        take (min 1 search_limit) (
          all_matches
            (λ line. line == "x")
            2
            (filter
              (λ file. kept_by (λ path glob. path == glob) (some "a") file.path)
              (file_a ∷ []))))
search_source_tree-take_example =
    search_source_tree-take (λ pattern. some (λ line. line == pattern)) (λ path glob. path == glob)
      "w" "x" (some "a") 1 2 one_file (λ line. line == "x") (file_a ∷ []) refl
      (unfold program in refl) (omega arith)

-- A revision whose draft is still to be made.
abbrev revision_only : SourceGraph
revision_only = record {
  nodes = node "ApplicationRevision" "r" other ∷ [];
  edges = edge (node_ref "ApplicationRevision" "r") "HAS_SOURCE_TREE" (tree_ref "r.source") ∷ [];
}

revision_only-IsSound : IsSound plain revision_only
unfolding program
revision_only-IsSound = record { hashed = λ id c h. cc; single = λ id p. omega arith }

abbrev with_draft : SourceGraph
with_draft = (create_working_tree plain "r" "ApplicationRevision" revision_only).1

abbrev with_file : SourceGraph
with_file = (write_source_file plain "r" "a" "x" "action" "python" none with_draft).1

-- The write goes through.
file_written : view "r.source" with_file "a" ≡ some (record file_a { source_tree_id = "r.source" })
unfolding program
file_written = refl

Reach-IsSound_example : IsSound plain with_file
Reach-IsSound_example =
    Reach-IsSound plain (λ u v e. e) revision_only with_file revision_only-IsSound
      (next (next here (created "r" "ApplicationRevision"))
        (wrote "r" "a" "x" "action" "python" none))

-- A tree that a revision has, a content that none has, and an action that a job runs.
abbrev littered : SourceGraph
littered = record {
  nodes =
      node "ApplicationRevision" "r" other
      ∷ node "SourceTree" "t" (source_tree (record draft_tree { id = "t"; status = interned }))
      ∷ node "SourceContent" "x" (source_content (record { id = "x"; content = "x" }))
      ∷ node "SourceTree" "old" (source_tree (record draft_tree { id = "old"; status = interned }))
      ∷ node "SourceContent" "y" (source_content (record { id = "y"; content = "y" }))
      ∷ node "ActionRevision" "a" other
      ∷ node "ActionRevision" "b" other
      ∷ node "JobRecord" "j" (in_flight "a")
      ∷ [];
  edges =
      edge (node_ref "ApplicationRevision" "r") "HAS_SOURCE_TREE" (tree_ref "t")
      ∷ file_edge "t" file_a
      ∷ file_edge "old" (record file_a { content_hash = "y" })
      ∷ [];
}

-- The tree goes in the first round and its content in the second.
collected :
    (delete_interned_orphans named_action littered).0
    ≡ ("SourceTree", "old" ∷ []) ∷ ("ActionRevision", "b" ∷ []) ∷ ("SourceContent", "y" ∷ []) ∷ []
unfolding program
collected = refl

delete_interned_orphans-ends_example :
    orphans named_action (delete_interned_orphans named_action littered).1 ≡ []
delete_interned_orphans-ends_example = delete_interned_orphans-ends named_action littered

-- The content of a tree that a revision binds.
delete_interned_orphans-Held_example :
    (get_node (node_ref "SourceContent" "x") (delete_interned_orphans named_action littered).1
      ≡ get_node (node_ref "SourceContent" "x") littered)
    × (IsHolder "SourceContent"
        → edges_from
            (node_ref "SourceContent" "x")
            (delete_interned_orphans named_action littered).1
          ≡ edges_from (node_ref "SourceContent" "x") littered)
delete_interned_orphans-Held_example =
    delete_interned_orphans-Held named_action littered (node_ref "SourceContent" "x") (
      linked (file_edge "t" file_a)
        (linked (edge (node_ref "ApplicationRevision" "r") "HAS_SOURCE_TREE" (tree_ref "t"))
          (own revision-own) IsHolder.application_revision (Memᴰ.head refl))
        IsHolder.tree (Memᴰ.tail (Memᴰ.head refl)))
