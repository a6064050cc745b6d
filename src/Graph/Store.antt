-- ===== src/Graph/Store.antt =====
-- `InMemoryGraphStore` of testing/graph_store.py for nodes whose identity is an `id`: nodes by their
-- reference, each label in the order of its first upserts, and edges with properties in the order of
-- their creation. `M` is what the store keeps of a node. The relations of application objects, whose
-- identity has three fields, are not in it.
use n4x_core.Prelude.{
  ℕ, String, Bool, true, false, not, ◌&&◌, Option, none, some, List, [], ◌∷◌, filter, find, length,
  ◌==◌, ◌||◌, if◌then◌else◌, is_none,
}
use n4x_core.Graph.Edges.{NodeRef, ref_eq}

-- The properties of an edge, as far as a source tree's file has them: a dict with optional keys.
pub record Props : Type 0 where
  pub path : Option String
  pub role : Option String
  pub language : Option String
  pub size : Option ℕ

pub record EdgeRecord : Type 0 where
  pub from_ref : NodeRef
  pub edge_type : String
  pub to_ref : NodeRef
  pub props : Props

pub record NodeRecord (M : Type 0) : Type 0 where
  pub ref : NodeRef
  pub model : M

pub record GraphStore (M : Type 0) : Type 0 where
  pub nodes : List (NodeRecord M)
  pub edges : List EdgeRecord

abbrev pub no_props : Props
no_props = record { path = none; role = none; language = none; size = none }

abbrev pub text_option_eq : Option String → Option String → Bool
text_option_eq none none = true
text_option_eq (some a) (some b) = a == b
text_option_eq none (some b) = false
text_option_eq (some a) none = false

-- values.update(other), key by key
abbrev pub updated {ℓ} : {A : Type ℓ} → Option A → Option A → Option A
updated old none = old
updated old (some new) = some new

abbrev pub update : Props → Props → Props
update old new = record {
  path = updated old.path new.path;
  role = updated old.role new.role;
  language = updated old.language new.language;
  size = updated old.size new.size;
}

-- An edge of a node and a type.
abbrev pub is_from : NodeRef → String → EdgeRecord → Bool
is_from ref edge_type e = ref_eq e.from_ref ref && e.edge_type == edge_type

-- `existing.to_ref = to_ref; existing.props.update(values)` for the first edge that the test finds,
-- or the new edge at the end.
abbrev pub merge_edge : (EdgeRecord → Bool) → EdgeRecord → List EdgeRecord → List EdgeRecord
merge_edge same edge [] = edge ∷ []
merge_edge same edge (e ∷ es) =
    let rest = merge_edge same edge es in
    if same e
    then record e { to_ref = edge.to_ref; props = update e.props edge.props } ∷ es
    else e ∷ rest

abbrev pub put_node : {M : Type 0} → NodeRecord M → List (NodeRecord M) → List (NodeRecord M)
put_node n [] = n ∷ []
put_node n (m ∷ ms) = let rest = put_node n ms in if ref_eq m.ref n.ref then n ∷ ms else m ∷ rest

abbrev pub model_of : {M : Type 0} → Option (NodeRecord M) → Option M
model_of none = none
model_of (some n) = some n.model

-- A file's edge is found by its path, any other by its target.
abbrev pub is_same : EdgeRecord → EdgeRecord → Bool
is_same edge e =
    is_from edge.from_ref edge.edge_type e
    && (if edge.edge_type == "HAS_FILE"
        then text_option_eq e.props.path edge.props.path
        else ref_eq e.to_ref edge.to_ref)

module _ {M : Type 0} where
  unfoldable pub get_node : NodeRef → GraphStore M → Option M
  get_node ref g = model_of (find (λ n. ref_eq n.ref ref) g.nodes)

  unfoldable pub upsert_node : NodeRef → M → GraphStore M → GraphStore M
  upsert_node ref model g = record g {
    nodes = put_node (record { ref = ref; model = model }) g.nodes;
  }

  unfoldable pub list_nodes : String → GraphStore M → List (NodeRecord M)
  list_nodes label g = filter (λ n. n.ref.label == label) g.nodes

  unfoldable pub delete_node : NodeRef → GraphStore M → GraphStore M
  delete_node ref g = record {
    nodes = filter (λ n. not (ref_eq n.ref ref)) g.nodes;
    edges = filter (λ e. not (ref_eq e.from_ref ref) && not (ref_eq e.to_ref ref)) g.edges;
  }

  unfoldable pub node_count : GraphStore M → ℕ
  node_count g = length g.nodes

  unfoldable pub create_edge : EdgeRecord → GraphStore M → GraphStore M
  create_edge edge g = record g { edges = merge_edge (is_same edge) edge g.edges }

  -- `delete_edge` without a target; `path` is the only property that the code deletes by.
  unfoldable pub delete_edge : NodeRef → String → Option String → GraphStore M → GraphStore M
  delete_edge ref edge_type path g = record g {
    edges =
        filter
          (λ e. not (is_from ref edge_type e && (is_none path || text_option_eq e.props.path path)))
          g.edges;
  }

  unfoldable pub list_edges : NodeRef → String → GraphStore M → List EdgeRecord
  list_edges ref edge_type g = filter (is_from ref edge_type) g.edges

  -- `list_edges(to_ref=ref)`
  unfoldable pub inbound : NodeRef → GraphStore M → List EdgeRecord
  inbound ref g = filter (λ e. ref_eq e.to_ref ref) g.edges

  -- `replace_single_edge` without an expected target.
  unfoldable pub replace_single_edge : NodeRef → String → NodeRef → GraphStore M → GraphStore M
  replace_single_edge ref edge_type to_ref g =
      create_edge
        (record { from_ref = ref; edge_type = edge_type; to_ref = to_ref; props = no_props })
        (delete_edge ref edge_type none g)
