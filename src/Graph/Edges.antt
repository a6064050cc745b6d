-- ===== src/Graph/Edges.antt =====
-- Nodes' references and the edges between them: `create_edge` and `list_edges` of the store, for
-- edges with no properties.
use n4x_core.Prelude.{String, Bool, ◌&&◌, List, [], ◌∷◌, ◌++◌, ◌==◌, if◌then◌else◌, any, filter}

pub record NodeRef : Type 0 where
  pub label : String
  pub id : String

pub record EdgeRecord : Type 0 where
  pub from_ref : NodeRef
  pub edge_type : String
  pub to_ref : NodeRef

abbrev pub node_ref : String → String → NodeRef
node_ref label id = record { label = label; id = id }

abbrev pub ref_eq : NodeRef → NodeRef → Bool
ref_eq a b = a.label == b.label && a.id == b.id

abbrev pub edge_eq : EdgeRecord → EdgeRecord → Bool
edge_eq a b = ref_eq a.from_ref b.from_ref && a.edge_type == b.edge_type && ref_eq a.to_ref b.to_ref

-- One edge at most for each pair of nodes and type.
unfoldable pub create_edge : NodeRef → String → NodeRef → List EdgeRecord → List EdgeRecord
create_edge from_ref edge_type to_ref edges =
    let edge : EdgeRecord = record {
      from_ref = from_ref;
      edge_type = edge_type;
      to_ref = to_ref;
    } in
    if any (λ e. edge_eq e edge) edges then edges else edges ++ edge ∷ []

unfoldable pub list_edges : NodeRef → String → List EdgeRecord → List EdgeRecord
list_edges from_ref edge_type edges =
    filter (λ e. ref_eq e.from_ref from_ref && e.edge_type == edge_type) edges
