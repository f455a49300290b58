-- ===== src/Supervision/Lifecycle.antt =====
-- internal/supervision/lifecycle.go: starting, stopping and observing processes.
pub mod Command
pub mod Start
pub mod Stop
pub mod Exit
pub mod Ownership
pub mod Adopt
pub mod Begun
pub mod Starting
pub mod Exiting
pub mod Stopping
pub mod Accounting
pub mod Halting
