-- ===== src/Agent.antt =====
-- crates/studio-server/src/agent_loop.rs: the tool policy, the model's directives and the paths that
-- the file tools accept.
pub mod Policy
pub mod Directive
pub mod Paths
pub mod Output
pub mod System
pub mod Tools
pub mod Tree
pub mod Execute
pub mod Turn
