-- ===== src/Checkpoints.antt =====
-- system/checkpoints.py: `CheckpointService`, which captures and restores the state of an Application.
pub mod State
pub mod Service
pub mod Statuses
pub mod RoundTrip
pub mod Restores
mod Samples
