-- ===== src/SourceStore/Sound.antt =====
-- The invariant of the graph's sources: each content stands under the hash of its text, and no tree
-- has a path twice. Each write keeps it.
use n4x_core.Prelude.{
  String, ◌≡◌, refl, sym, ap, ◌∙◌, Bool, true, false, not, ◌&&◌, ◌||◌, inl, inr, Option, none, some,
  List, [], ◌∷◌, find, filter, if◌then◌else◌, ◌==◌, is_none, arith, Bool-cases,
}
use n4x_core.Kernel.Sources.{SourceTree, SourceContent, SourceFile}
use n4x_core.Graph.Edges.{NodeRef, ref_eq}
use n4x_core.Graph.Store.{
  NodeRecord, EdgeRecord, is_from, get_node, upsert_node, create_edge, delete_edge, delete_node,
  list_edges, replace_single_edge, model_of, text_option_eq,
}
use n4x_core.Graph.InternGc.{delete_interned_orphans}
use n4x_core.Graph.InternGc.Ends.{delete_interned_orphans_rule}
use n4x_core.Graph.InternGc.Live.{ref_eq-true}
use n4x_core.Prelude.Members.{find-filter}
use n4x_core.SourceStore.Batches.{content_stays}
use n4x_core.SourceStore.State.{
  SourceGraph, Hashing, Model, tree_ref, content_ref, as_content, source_tree, get_content,
  named_action,
}
use n4x_core.SourceStore.Files.{unlink_path, put_file}
use n4x_core.SourceStore.Contents.{IsHashed, IsHashed-put_file}
use n4x_core.SourceStore.Listing.{HasOneEach}
use n4x_core.SourceStore.Singles.{fewer-edges, HasOneEach-put_file, list_edges-create_edge}

pub record IsSound (hashing : Hashing) (g : SourceGraph) : Type 0 where
  pub hashed : IsHashed hashing g
  pub single : (source_tree_id : String) → HasOneEach source_tree_id g

-- A graph whose edges are some of another's, in order, and whose contents are among the other's.
IsSound-fewer :
    (hashing : Hashing) (d : EdgeRecord → Bool) (g h : SourceGraph)
    → h.edges ≡ filter d g.edges
    → ((i : String) (c : SourceContent) → get_content i h ≡ some c → get_content i g ≡ some c)
    → IsSound hashing g
    → IsSound hashing h
IsSound-fewer hashing d g h e sub s = record {
  hashed = λ i c k. s.hashed i c (sub i c k);
  single = λ id. fewer-edges d g h id e (s.single id);
}

module _ (hashing : Hashing) where
  pub IsSound-put_file :
      (source_tree_id : String) (file : SourceFile) (g : SourceGraph)
      → hashing.sha256_text file.content ≡ file.content_hash
      → IsSound hashing g
      → IsSound hashing (put_file source_tree_id file g)
  IsSound-put_file source_tree_id file g e s = record {
    hashed = IsHashed-put_file hashing source_tree_id file g e s.hashed;
    single = λ id. HasOneEach-put_file source_tree_id file g id (s.single id);
  }

  pub IsSound-delete_edge :
      (ref : NodeRef) (edge_type : String) (path : Option String) (g : SourceGraph)
      → IsSound hashing g
      → IsSound hashing (delete_edge ref edge_type path g)
  unfolding delete_edge get_content get_node
  IsSound-delete_edge ref edge_type path g s =
      IsSound-fewer hashing
        (λ e. not (is_from ref edge_type e && (is_none path || text_option_eq e.props.path path))) g
        (delete_edge ref edge_type path g) refl (λ i c k. k) s

  pub IsSound-unlink_path :
      (source_tree_id path : String) (g : SourceGraph)
      → IsSound hashing g
      → IsSound hashing (unlink_path source_tree_id path g)
  unfolding unlink_path
  IsSound-unlink_path source_tree_id path g s =
      IsSound-delete_edge (tree_ref source_tree_id) "HAS_FILE" (some path) g s

  find-filter-not :
      (ref : NodeRef) (ns : List (NodeRecord Model))
      → find (λ n. ref_eq n.ref ref) (filter (λ n. not (ref_eq n.ref ref)) ns) ≡ none
  find-filter-not ref [] = refl
  find-filter-not ref (n ∷ ns) = ground (arith, find-filter-not ref ns)

  get_node-delete_node :
      (d r : NodeRef) (g : SourceGraph)
      → get_node r (delete_node d g) ≡ (if ref_eq r d then none else get_node r g)
  unfolding get_node delete_node
  get_node-delete_node d r g = elim (Bool-cases (ref_eq r d)) [
    | inl e ↦ rw (e, ref_eq-true r d e) (ap model_of (find-filter-not d g.nodes))
    | inr e ↦ rw e (
        ap model_of (
          find-filter (λ n. ref_eq n.ref r) (λ n. not (ref_eq n.ref d)) g.nodes
            (λ n m. rw (ref_eq-true n.ref r m, e) refl)))
  ]

  get_content-delete_node :
      (d : NodeRef) (g : SourceGraph) (i : String) (c : SourceContent)
      → get_content i (delete_node d g) ≡ some c
      → get_content i g ≡ some c
  unfolding get_content
  get_content-delete_node d g i c k =
      there (ref_eq (content_ref i) d)
        (sym (ap as_content (get_node-delete_node d (content_ref i) g)) ∙ k)
    where
      there :
          (b : Bool)
          → as_content (if b then none else get_node (content_ref i) g) ≡ some c
          → as_content (get_node (content_ref i) g) ≡ some c
      there true h = cc
      there false h = h

  pub IsSound-delete_node :
      (d : NodeRef) (g : SourceGraph) → IsSound hashing g → IsSound hashing (delete_node d g)
  unfolding delete_node
  IsSound-delete_node d g s =
      IsSound-fewer hashing (λ e. not (ref_eq e.from_ref d) && not (ref_eq e.to_ref d)) g
        (delete_node d g) refl (get_content-delete_node d g) s

  pub IsSound-delete_interned_orphans :
      (g : SourceGraph)
      → IsSound hashing g
      → IsSound hashing (delete_interned_orphans named_action g).1
  IsSound-delete_interned_orphans g s =
      delete_interned_orphans_rule named_action (IsSound hashing) IsSound-delete_node g s

  pub IsSound-upsert_node :
      (id : String) (t : SourceTree) (g : SourceGraph)
      → IsSound hashing g
      → IsSound hashing (upsert_node (tree_ref id) (source_tree t) g)
  unfolding upsert_node get_content list_edges
  IsSound-upsert_node id t g s = record {
    hashed = λ i c k. s.hashed i c (sym (content_stays i id t g) ∙ k);
    single = λ i. s.single i;
  }

  pub IsSound-replace_single_edge :
      (ref to_ref : NodeRef) (edge_type : String) (g : SourceGraph)
      → (edge_type == "HAS_FILE") ≡ false
      → IsSound hashing g
      → IsSound hashing (replace_single_edge ref edge_type to_ref g)
  unfolding replace_single_edge create_edge delete_edge get_content get_node
  IsSound-replace_single_edge ref to_ref edge_type g t s = record {
    hashed = (IsSound-delete_edge ref edge_type none g s).hashed;
    single = λ id p.
        rw (list_edges-create_edge _ (delete_edge ref edge_type none g) id t)
          ((IsSound-delete_edge ref edge_type none g s).single id p);
  }
