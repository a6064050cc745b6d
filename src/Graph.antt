-- ===== src/Graph.antt =====
-- backend/n4x/graph: the record collections and the edges that the services read and write.
pub mod Records
pub mod Edges
pub mod Bindings
pub mod Store
pub mod InternGc
