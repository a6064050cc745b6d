-- ===== src/Access.antt =====
-- `ExperienceAccessService` of backend/n4x/system/experience_access.py: what an Experience may do
-- with an Application.
pub mod State
pub mod Guards
pub mod Operations
pub mod Authorized
pub mod Declared
pub mod Calls
mod Samples
