-- ===== src/SourceStore.antt =====
-- source_store/service.py: the trees and files of `SourceStore` over the graph, with the parts of
-- graph/bindings.py and graph/intern_gc.py that it calls.
pub mod State
pub mod Trees
pub mod Files
pub mod Changes
pub mod Updates
pub mod Revisions
pub mod Edits
pub mod View
pub mod Writes
pub mod Contents
pub mod Agrees
pub mod Refines
pub mod Listing
pub mod Bound
pub mod Batches
pub mod Working
pub mod Singles
pub mod Sound
pub mod Outcomes
pub mod Search
mod Samples
