-- ===== src/Activation.antt =====
-- system/activation.py: `ActivationService`, which makes a revision of an Application the active one.
pub mod State
pub mod Switch
pub mod Service
pub mod Consistent
pub mod Superseded
pub mod Roster
pub mod Restored
pub mod Units
pub mod Services
pub mod Calls
pub mod Steps
pub mod Returned
pub mod Activated
mod Samples
