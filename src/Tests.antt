-- ===== src/Tests.antt =====
-- Runs of the program's parts on concrete data, with the theorems applied to them.
pub mod World
pub mod Routing
pub mod Tags
pub mod Tools
pub mod Effects
pub mod Turns
pub mod Caching
pub mod Vault
pub mod Sessions
pub mod Records
pub mod Adapters
pub mod Starts
pub mod Logs
pub mod Opening
pub mod Created
