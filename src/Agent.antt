-- ===== src/Agent.antt =====
-- internal/agent: the client of the agent's process.
pub mod Types
pub mod State
pub mod Permissions
pub mod Connection
pub mod Waiting
pub mod Asking
pub mod KeepsWaiting
pub mod Runs
pub mod Delivered
pub mod Closed
mod Examples
