-- ===== src/SourcePatch.antt =====
-- `_apply_unified_diff` of backend/n4x/source_store/service.py: Lines splits and joins texts, Header
-- reads hunk headers, Apply is the loop; Rewrites says what a patch does to the lines.
pub mod Lines
pub mod Header
pub mod Apply
pub mod RoundTrip
pub mod Places
pub mod Unique
pub mod Rewrites
mod Samples
