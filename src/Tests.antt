-- ===== src/Tests.antt =====
-- The theorems at concrete inputs.
pub mod Data
pub mod States
pub mod Outputs
pub mod Registries
pub mod Stores
pub mod Agents
pub mod Commands
pub mod Lifecycles
pub mod Controls
pub mod Identities
pub mod Operators
