-- ===== src/Scheduler.antt =====
-- `TriggerRuntime` of backend/n4x/runtime/scheduler.py: jobs, their attempts, leases and retries.
pub mod State
pub mod Jobs
pub mod Retry
pub mod Recovery
pub mod Lifecycle
pub mod Idempotence
pub mod Due
pub mod Heartbeat
pub mod Guards
pub mod Execute
pub mod Active
pub mod Admission
pub mod Triggers
mod Samples
