-- ===== src/Kernel.antt =====
-- backend/n4x/kernel: the data that the services share.
pub mod Json
pub mod Jobs
pub mod Experiences
pub mod Sources
pub mod Definitions
