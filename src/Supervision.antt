-- ===== src/Supervision.antt =====
-- internal/supervision: the registry of processes, their lifecycle and their output.
pub mod State
pub mod Output
pub mod Registry
pub mod Document
pub mod Encoding
pub mod Loading
pub mod Persister
pub mod Saving
pub mod Manager
pub mod Lifecycle
pub mod Operations
pub mod Run
pub mod Boot
