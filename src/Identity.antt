-- ===== src/Identity.antt =====
-- internal/identity: the identities that agents act under, what they may do, and how it is done.
pub mod Model
pub mod Validation
pub mod Policy
pub mod Finding
pub mod Filter
pub mod Utf8
pub mod Store
pub mod Sessions
pub mod Service
pub mod Commands
pub mod Catalog
pub mod Authorize
pub mod Rest
pub mod Stream
pub mod Agent
pub mod Executor
